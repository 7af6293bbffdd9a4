-- ===== src/Renewal/Safety.antt =====
-- What a whole run of `renew` promises about the live files.
use grafhome_ca.Policy.Model.{X509Cert}
use grafhome_ca.Renewal.Times.{ℤ}
use grafhome_ca.Renewal.Renewed.{assess-Vouched, issue-done}
use grafhome_ca.Renewal.Run.{
  Renewal, Session, busy, current, finish, probe, published, renew, renew_from, renew_locked,
  run_after_renew, take_lock, tolerated, ttl_of,
}
use grafhome_ca.External.{External}
use grafhome_ca.Renewal.Published.{Attempt-cases}
use grafhome_ca.Renewal.Issue.{
  Attempt, RenewalFailure, World, after_renew_kind, done, failed, issue, or_failure, publish,
  refused, then_try, vetted,
}
use grafhome_ca.Renewal.Assessment.{Assessment, Files, Tools, assess, renewal_needed, usable, valid}
use grafhome_ca.Base.{
  ℕ, Bool, Bool-cases, Result, ap, arith, err, false, inl, inr, ok, refl, some, true, ◌<◌, ◌∙◌, ◌≡◌,
  ◌≢◌, ◌⊎◌, sym,
}

-- Whether a failure says that the live certificate works, and whether it is tolerated.
abbrev says_usable : Attempt ℕ → Bool
says_usable (done end) = false
says_usable (failed f) = f.usable

abbrev is_tolerated : Attempt Renewal → Bool
is_tolerated (done r) = false
is_tolerated (failed f) = tolerated f

settled_not_usable :
    (r : Result (Unit {0})) (end : ℕ)
    → says_usable (then_try (refused false r) (λ _. done end)) ≡ false
settled_not_usable (ok tt) end = refl
settled_not_usable (err e) end = refl

hook_not_tolerated :
    (u : Bool) (r : Result (Unit {0})) (end : ℕ)
    → is_tolerated (then_try (or_failure after_renew_kind u r) (λ _. done (published end))) ≡ false
unfolding tolerated
hook_not_tolerated u (ok tt) end = refl
hook_not_tolerated u (err e) end = ground arith

hook-done :
    (u : Bool) (r : Result (Unit {0})) (m n : ℕ)
    → then_try (or_failure after_renew_kind u r) (λ _. done (published m)) ≡ done (published n)
    → m ≡ n
hook-done u (ok tt) m n h = ground arith
hook-done u (err e) m n h = cc

tolerated-usable : (f : RenewalFailure) → tolerated f ≡ true → f.usable ≡ true
unfolding tolerated
tolerated-usable f h = ground arith

module _ (x : External) (tools : Tools) (cert : X509Cert) where
  -- A failed `issue` that says the live certificate still works has changed no file.
  issue-failed :
      (world : World) (u : Bool) (files : Files)
      → says_usable (issue x tools cert world u files).0 ≡ true
      → (issue x tools cert world u files).1 ≡ files
  unfolding issue
  issue-failed world u files h = elim (Attempt-cases (vetted x tools cert world u files)) [
    | inl (g, e) ↦ rw (e, issue) refl
    | inr ((end, candidate), e) ↦
        cc (rw (e, issue) at h, settled_not_usable (publish world candidate files).0 end)
  ]

  module _ (s : Session) where
    -- The run changes no file and publishes nothing.
    abbrev Quiet : Attempt Renewal × Files → Type 0
    Quiet r = (r.1 ≡ s.files) × ((end : ℕ) → r.0 ≢ done (published end))

    failed-Quiet : (f : RenewalFailure) → Quiet (failed f, s.files)
    failed-Quiet f = (refl, λ end h. cc h)

    current-Quiet : Quiet (done current, s.files)
    current-Quiet = (refl, λ end h. cc h)

    busy-Quiet : Quiet (done busy, s.files)
    busy-Quiet = (refl, λ end h. cc h)

    abbrev Outcome : Attempt Renewal × Files → Type 0
    Outcome r =
        Quiet r
        ⊎ ((u : Bool) × (r ≡ finish x tools cert s u (issue x tools cert s.world u s.files)))

    renew_locked-Outcome : (ttl : ℤ) (u : Bool) → Outcome (renew_locked x tools cert s ttl u)
    unfolding renew_locked
    renew_locked-Outcome ttl u = elim (Attempt-cases (refused u (assess x tools s.files s.now))) [
      | inl (f, e) ↦ inl (rw (e, renew_locked) (failed-Quiet f))
      | inr (a, e) ↦ elim (Bool-cases (renewal_needed a ttl s.due_now)) [
        | inr n ↦ inl (rw (e, n, renew_locked) current-Quiet)
        | inl n ↦ elim (Attempt-cases (probe cert s (usable a))) [
          | inl (f, p) ↦ inl (rw (e, n, p, renew_locked) (failed-Quiet f))
          | inr (_, p) ↦ inr (usable a, rw (e, n, p, renew_locked) refl)
        ]
      ]
    ]

    renew_from-Outcome : (ttl : ℤ) (a : Assessment) → Outcome (renew_from x tools cert s ttl a)
    unfolding renew_from
    renew_from-Outcome ttl a = elim (Bool-cases (renewal_needed a ttl s.first_due_now)) [
      | inr n ↦ inl (rw (n, renew_from) current-Quiet)
      | inl n ↦ elim (Attempt-cases (take_lock s (usable a))) [
        | inl (f, e) ↦ inl (rw (n, e, renew_from) (failed-Quiet f))
        | inr (locked, e) ↦ elim (Bool-cases locked) [
          | inl k ↦ rw (n, e, k, renew_from) (renew_locked-Outcome ttl (usable a))
          | inr k ↦ inl (rw (n, e, k, renew_from) busy-Quiet)
        ]
      ]
    ]

    -- A run changes no file and publishes nothing, or it issues a certificate and runs the hook.
    renew-Outcome : Outcome (renew x tools cert s)
    unfolding renew
    renew-Outcome = elim (Attempt-cases (refused false (ttl_of cert))) [
      | inl (f, e) ↦ inl (rw (e, renew) (failed-Quiet f))
      | inr (ttl, e) ↦
          elim (Attempt-cases (refused false (assess x tools s.first_files s.first_now))) [
            | inl (f, k) ↦ inl (rw (e, k, renew) (failed-Quiet f))
            | inr (a, k) ↦ rw (e, k, renew) (renew_from-Outcome ttl a)
          ]
    ]

    finish-tolerated :
        (u : Bool) (r : Attempt ℕ × Files)
        → is_tolerated (finish x tools cert s u r).0 ≡ true
        → (says_usable r.0 ≡ true) × ((finish x tools cert s u r).1 ≡ r.1)
    unfolding finish
    finish-tolerated u (failed f, files) h = (tolerated-usable f h, refl)
    finish-tolerated u (done end, files) h =
        cc (h, hook_not_tolerated u (run_after_renew cert s) end)

    -- A run that fails in a way that `--if-reachable` tolerates has changed no live file.
    pub tolerated-untouched :
        (f : RenewalFailure) (after : Files)
        → renew x tools cert s ≡ (failed f, after)
        → tolerated f ≡ true
        → after ≡ s.files
    tolerated-untouched f after h k = elim renew-Outcome [
      | inl (same, _) ↦ sym (ap (λ p. p.1) h) ∙ same
      | inr (u, e) ↦
          let ran = sym e ∙ h in
          let (said, kept) =
            finish-tolerated u (issue x tools cert s.world u s.files)
              (ap (λ p. is_tolerated p.0) ran ∙ k) in
          sym (ap (λ p. p.1) ran) ∙ kept ∙ issue-failed s.world u s.files said
    ]

    finish-published :
        (u : Bool) (r : Attempt ℕ × Files) (end : ℕ) (after : Files)
        → finish x tools cert s u r ≡ (done (published end), after)
        → r ≡ (done end, after)
    unfolding finish
    finish-published u (failed f, files) end after h = cc (ap (λ p. p.0) h)
    finish-published u (done m, files) end after h =
        let same = hook-done u (run_after_renew cert s) m end (ap (λ p. p.0) h) in
        let kept : files ≡ after = ap (λ p. p.1) h in rw (same, kept) refl

    -- After a run that publishes a certificate, the live files are assessed as valid at each
    -- instant before the end that the run reports, with that end and no staged key.
    pub renew-Valid :
        (end now : ℕ) (after : Files)
        → renew x tools cert s ≡ (done (published end), after)
        → now < end
        → assess x tools after now
          ≡ ok (record { condition = valid; not_after = some end; pending_key = false })
    renew-Valid end now after h l = elim renew-Outcome [
      | inl (_, quiet) ↦ absurd (quiet end (ap (λ p. p.0) h))
      | inr (u, e) ↦
          let issued =
            finish-published u (issue x tools cert s.world u s.files) end after (sym e ∙ h) in
          let (key, candidate, v, c, k, p) =
            issue-done x tools cert s.world u s.files after end issued in
          assess-Vouched x tools after now end key candidate v c k p l
    ]
