-- ===== src/Authority/Retries.antt =====
-- When the wait for a healthy CA ends well.
use grafhome_ca.Base.{
  ==_iff, Bool-cases, Error, Option, Result-cases, Text, arith, err, inr, leb, leb→le, ok, suc,
  zero, ◌+◌, ◌-◌, ◌<◌, ◌==◌, ◌≡◌, ◌≤◌, ℕ, inl, if◌then◌else◌, refl, some, sym, true, ◌∙◌, ap, subst,
  none, ◌↔◌,
}
use grafhome_ca.Authority.Health.{retry_from, run_status_with_retries}
use grafhome_ca.Authority.Machine.{Answer}

module _ (run : ℕ → Answer) where
  -- `count` attempts in a row succeed, from the attempt `first` on.
  abbrev pub Streak : ℕ → ℕ → Type 0
  Streak first count = (later : ℕ) → later < count → run (first + later) ≡ ok tt

  Streak-empty : (first : ℕ) → Streak first 0
  Streak-empty first later h = absurd (omega arith)

  Streak-snoc :
      (first count : ℕ)
      → Streak first count
      → run (first + count) ≡ ok tt
      → Streak first (suc count)
  Streak-snoc first count s h later k = elim (Bool-cases (later == count)) [
    | inl e ↦ let same : later ≡ count = (==_iff later count).0 e in rw same h
    | inr e ↦ s later (ground arith)
  ]

  -- A streak of `required` attempts that starts at `least` or later, before `end`.
  abbrev pub Healthy : ℕ → ℕ → ℕ → Type 0
  Healthy required least end =
      (first : ℕ) × (least ≤ first) × (first + required ≤ end) × Streak first required

module _ (show : Error → Text) (label : Text) (required : ℕ) (run : ℕ → Answer) where
  Healthy-end : (least end : ℕ) → Healthy run required least end → least + required ≤ end
  Healthy-end least end (first, a, b, s) = omega arith

  Healthy-shift :
      (least end later : ℕ)
      → end ≡ later
      → Healthy run required least end
      → Healthy run required least later
  Healthy-shift least end later e (first, a, b, s) = (first, a, omega arith, s)

  Streak-next :
      (least successes attempt : ℕ)
      → Streak run least successes
      → attempt ≡ least + successes
      → run attempt ≡ ok tt
      → Streak run least (successes + 1)
  Streak-next least successes attempt s a k =
      let k' : run (least + successes) ≡ ok tt = rw a at k in
      subst (Streak run least) (omega arith) (Streak-snoc run least successes s k')

  -- A failed attempt is in no streak.
  Healthy-past :
      (least successes attempt end : ℕ) (e : Error)
      → attempt ≡ least + successes
      → successes < required
      → run attempt ≡ err e
      → Healthy run required least end
      → Healthy run required (attempt + 1) end
  Healthy-past least successes attempt end e a lt h (first, p, q, s) =
      elim (Bool-cases (leb first attempt)) [
        | inl k ↦
            let below : first ≤ attempt = leb→le first attempt k in
            let hit = s (attempt - first) (omega arith) in
            let same : first + (attempt - first) ≡ attempt = omega arith in
            let good : run attempt ≡ ok tt = ap run (sym same) ∙ hit in cc
        | inr k ↦ (first, ground arith, q, s)
      ]

  abbrev loop : ℕ → ℕ → ℕ → ℕ → Option Text → Answer
  loop = retry_from show label required run

  retry_from-ok :
      (attempts attempt left successes : ℕ) (last : Option Text)
      → run attempt ≡ ok tt
      → loop attempts attempt (suc left) successes last ≡ (
          if successes + 1 == required
          then ok tt
          else loop attempts (attempt + 1) left (successes + 1) last)
  unfolding retry_from
  retry_from-ok attempts attempt left successes last h = rw (h, retry_from) refl

  retry_from-err :
      (attempts attempt left successes : ℕ) (last : Option Text) (e : Error)
      → run attempt ≡ err e
      → loop attempts attempt (suc left) successes last
        ≡ loop attempts (attempt + 1) left 0 (some (show e))
  unfolding retry_from
  retry_from-err attempts attempt left successes last e h = rw (h, retry_from) refl

  Streak-full :
      (least successes : ℕ)
      → Streak run least successes
      → run (least + successes) ≡ ok tt
      → (successes + 1 == required) ≡ true
      → Streak run least required
  Streak-full least successes s k d =
      subst (Streak run least) (let e = (==_iff (successes + 1) required).0 d in omega arith)
        (Streak-snoc run least successes s k)

  -- `attempt` comes after a streak of `successes` attempts from `least` on.
  retry_from_sound :
      (attempts attempt least left successes : ℕ) (last : Option Text)
      → attempt ≡ least + successes
      → successes < required
      → Streak run least successes
      → loop attempts attempt left successes last ≡ ok tt
      → Healthy run required least (attempt + left)
  unfolding retry_from
  retry_from_sound attempts attempt least zero successes last a lt s h = cc
  retry_from_sound attempts attempt least (suc left) successes last a lt s h =
      elim (Result-cases (run attempt)) [
        | inl k ↦ elim (Bool-cases (successes + 1 == required)) [
          | inl d ↦ (least, omega arith, ground arith, Streak-full least successes s (rw a at k) d)
          | inr d ↦
              let rest = sym (retry_from-ok attempts attempt left successes last k) ∙ h in
              let (first, p, q, t) =
                retry_from_sound attempts (attempt + 1) least left (successes + 1) last
                  (omega arith) (ground arith) (Streak-next least successes attempt s a k)
                  (rw d at rest) in
              (first, p, omega arith, t)
        ]
        | inr (e, k) ↦
            let rest = sym (retry_from-err attempts attempt left successes last e k) ∙ h in
            let (first, p, q, t) =
              retry_from_sound attempts (attempt + 1) (attempt + 1) left 0 (some (show e))
                (omega arith) (omega arith) (Streak-empty run (attempt + 1)) rest in
            (first, omega arith, omega arith, t)
      ]

  retry_from_complete :
      (attempts attempt least left successes : ℕ) (last : Option Text)
      → attempt ≡ least + successes
      → successes < required
      → Healthy run required least (attempt + left)
      → loop attempts attempt left successes last ≡ ok tt
  unfolding retry_from
  retry_from_complete attempts attempt least zero successes last a lt h =
      absurd (omega (arith, Healthy-end least (attempt + 0) h))
  retry_from_complete attempts attempt least (suc left) successes last a lt h =
      elim (Result-cases (run attempt)) [
        | inl k ↦
            let step = retry_from-ok attempts attempt left successes last k in
            elim (Bool-cases (successes + 1 == required)) [
              | inl d ↦ step ∙ rw d refl
              | inr d ↦
                  let rest =
                    retry_from_complete attempts (attempt + 1) least left (successes + 1) last
                      (omega arith) (ground arith)
                      (Healthy-shift least (attempt + suc left) (attempt + 1 + left) (omega arith)
                        h) in
                  step ∙ rw d rest
            ]
        | inr (e, k) ↦
            retry_from-err attempts attempt left successes last e k
            ∙ retry_from_complete attempts (attempt + 1) (attempt + 1) left 0 (some (show e))
                (omega arith) (omega arith)
                (Healthy-shift (attempt + 1) (attempt + suc left) (attempt + 1 + left) (omega arith)
                  (Healthy-past least successes attempt (attempt + suc left) e a lt k h))
      ]

  -- With an attempt and a success to ask for, the wait ends well exactly if `required` attempts in
  -- a row succeed among the attempts from the first to the last.
  pub run_status_with_retries_iff :
      (attempts : ℕ)
      → 0 < attempts
      → 0 < required
      → (run_status_with_retries show label required run attempts ≡ ok tt)
        ↔ Healthy run required 1 (1 + attempts)
  unfolding run_status_with_retries
  run_status_with_retries_iff attempts some_attempt some_success =
      let none_yet = Streak-empty run 1 in
      (
        λ h.
            retry_from_sound attempts 1 1 attempts 0 none (omega arith) some_success none_yet
              (ground arith),
        λ h.
            let all =
              retry_from_complete attempts 1 1 attempts 0 none (omega arith) some_success h in
            ground arith,
      )
