-- ===== src/Renewal/Published.antt =====
-- What a run of a renewal leaves in the live files.
use grafhome_ca.Renewal.Assessment.{Files}
use grafhome_ca.Renewal.Issue.{
  Attempt, FailureKind, RenewalFailure, World, done, enrolled_key, failed, move_cert, move_key,
  or_failure, publish, then_try, on_ok,
}
use grafhome_ca.Base.{
  Bool, Result, Text, arith, err, inl, inr, none, ok, refl, some, ◌≡◌, ◌⊎◌, Option-cases,
  Result-cases, sym, ◌>>◌, ◌∙◌, ap,
}

pub Attempt-cases :
    {A : Type 0} (m : Attempt A)
    → ((f : RenewalFailure) × (m ≡ failed f)) ⊎ ((a : A) × (m ≡ done a))
Attempt-cases (failed f) = inl (f, refl)
Attempt-cases (done a) = inr (a, refl)

-- What a chain of attempts that is done says of its first, and of the rest.
pub then_try-eq-done {ℓ} :
    {A B : Type 0} {C : Type ℓ} (m : Attempt A) (f : A → Attempt B) {b : B}
    → then_try m f ≡ done b
    → ((a : A) → m ≡ done a → f a ≡ done b → C)
    → C
then_try-eq-done (done a) f h k = k a refl h
then_try-eq-done (failed e) f h k = absurd (cc h)

pub or_failure-eq-done :
    {A : Type 0} (kind : FailureKind) (u : Bool) (m : Result A) {a : A}
    → or_failure kind u m ≡ done a
    → m ≡ ok a
or_failure-eq-done kind u (ok a) h = ground arith
or_failure-eq-done kind u (err e) h = cc

on_ok-eq-ok :
    (r : Result (Unit {0}) × Files) (f : Files → Result (Unit {0}) × Files) (after : Files)
    → on_ok r f ≡ (ok tt, after)
    → (mid : Files) × (r ≡ (ok tt, mid)) × (f mid ≡ (ok tt, after))
on_ok-eq-ok (ok tt, mid) f after h = (mid, refl, h)
on_ok-eq-ok (err e, mid) f after h = cc (ap (λ p. p.0) h)

move_key-ok :
    (world : World) (files after : Files)
    → move_key world files ≡ (ok tt, after)
    → (after.key ≡ enrolled_key files) × (after.pending_key ≡ none)
unfolding move_key enrolled_key
move_key-ok world files after h = elim (Option-cases files.pending_key) [
  | inl e ↦
      let same : files ≡ after = ap (λ p. p.1) (rw (e, move_key) at h) in
      rw (← same, e) (refl, refl)
  | inr (key, e) ↦ elim (Result-cases world.rename_key) [
    | inl k ↦
        let same : record files { key = some key; pending_key = none } ≡ after =
          ap (λ p. p.1) (rw (e, k, move_key) at h) in
        rw (← same, e) (refl, refl)
    | inr (error, k) ↦ cc (ap (λ p. p.0) (rw (e, k, move_key) at h))
  ]
]

move_cert-ok :
    (world : World) (candidate : Text) (files after : Files)
    → move_cert world candidate files ≡ (ok tt, after)
    → record files { cert = some candidate } ≡ after
unfolding move_cert
move_cert-ok world candidate files after h = elim (Result-cases world.rename_cert) [
  | inl k ↦ ap (λ p. p.1) (rw (k, move_cert) at h)
  | inr (error, k) ↦ cc (ap (λ p. p.0) (rw (k, move_cert) at h))
]

-- A publishing that succeeds moves the candidate and the enrolled key into place.
pub publish-ok :
    (world : World) (candidate : Text) (files after : Files)
    → publish world candidate files ≡ (ok tt, after)
    → (after.cert ≡ some candidate) × (after.key ≡ enrolled_key files) × (after.pending_key ≡ none)
unfolding publish
publish-ok world candidate files after h =
    let (f1, e1, h1) =
      on_ok-eq-ok (world.set_permissions >> world.sync_candidate, files) _ after h in
    let (f2, e2, h2) = on_ok-eq-ok (move_key world f1) _ after h1 in
    let (k, p) = move_key-ok world f1 f2 e2 in
    let start : files ≡ f1 = ap (λ p. p.1) e1 in
    rw (← (move_cert-ok world candidate f2 after h2)) (refl, k ∙ ap enrolled_key (sym start), p)
