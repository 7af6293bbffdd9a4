-- ===== src/Renewal/Due.antt =====
-- When a renewal and an alert are due.
use grafhome_ca.Renewal.Times.{alert_due, pos, renewal_due}
use grafhome_ca.Renewal.Assessment.{Assessment, alert, renewal_needed, none_or, usable}
use grafhome_ca.Base.{
  ℕ, arith, true, ◌*◌, ◌+◌, ◌<◌, ◌↔◌, ◌≡◌, ◌≤◌, Bool-cases, inl, inr, leb, refl, Bool, Option, none,
  not, some, ◌||◌,
}

-- With a lifetime that is not negative, a renewal is due exactly from the instant on at which two
-- thirds of the lifetime remain.
renewal_due_iff :
    (not_after ttl now : ℕ)
    → (renewal_due not_after (pos ttl) now ≡ true) ↔ (not_after * 3 ≤ ttl * 2 + now * 3)
unfolding renewal_due
renewal_due_iff not_after ttl now = elim (Bool-cases (leb now not_after)) [
  | inl e ↦ rw (e, renewal_due) (λ h. ground arith, λ h. ground arith)
  | inr e ↦ rw (e, renewal_due) (λ h. ground arith, λ h. refl)
]

-- With a lifetime that is not negative, an alert is due exactly when less than a third of the
-- lifetime remains.
pub alert_due_iff :
    (not_after ttl now : ℕ)
    → (alert_due not_after (pos ttl) now ≡ true) ↔ (not_after * 3 < ttl + now * 3)
unfolding alert_due
alert_due_iff not_after ttl now = elim (Bool-cases (leb now not_after)) [
  | inl e ↦ rw (e, alert_due) (λ h. ground arith, λ h. ground arith)
  | inr e ↦ rw (e, alert_due) (λ h. ground arith, λ h. refl)
]

-- With a lifetime that is not negative, a renewal that is due stays due.
pub renewal_due_later :
    (not_after ttl now later : ℕ)
    → now ≤ later
    → renewal_due not_after (pos ttl) now ≡ true
    → renewal_due not_after (pos ttl) later ≡ true
renewal_due_later not_after ttl now later l h =
    (renewal_due_iff not_after ttl later).1
      (let d = (renewal_due_iff not_after ttl now).0 h in omega (arith, l, d))

either_way :
    (v p d a : Bool) → (a ≡ true → d ≡ true) → (not v || a) ≡ true → (not v || p || d) ≡ true
either_way v p d a f h = ground arith

alert_implies :
    (end : Option ℕ) (ttl now : ℕ)
    → none_or end (λ t. alert_due t (pos ttl) now) ≡ true
    → none_or end (λ t. renewal_due t (pos ttl) now) ≡ true
alert_implies none ttl now h = refl
alert_implies (some t) ttl now h =
    (renewal_due_iff t ttl now).1 (let l = (alert_due_iff t ttl now).0 h in omega (arith, l))

-- With a lifetime that is not negative, an assessment that alerts a person also makes a renewal
-- run do its work.
pub alert-renewal_needed :
    (a : Assessment) (ttl now : ℕ)
    → alert a (pos ttl) now ≡ true
    → renewal_needed a (pos ttl) now ≡ true
unfolding alert renewal_needed
alert-renewal_needed a ttl now h =
    either_way (usable a) a.pending_key (none_or a.not_after λ t. renewal_due t (pos ttl) now)
      (none_or a.not_after λ t. alert_due t (pos ttl) now) (alert_implies a.not_after ttl now) h
