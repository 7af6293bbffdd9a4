-- ===== src/Runtime/Denying.antt =====
-- What `is_deny_template` says of a text: it opens with a call of `fail`, closes, and opens once.
use grafhome_ca.Base.{
  ◌≡◌, ◌∷◌, ◌++◌, ◌∙◌, arith, Bool, Bool-cases, false, true, inl, inr, Text, text, [], starts_with,
  ends_with, trim, &&-eq-true, ==_iff, ap, sym, ◌≤◌, ◌==◌, ◌&&◌, not, strip_prefix, strip_suffix,
  Option-cases, strip_prefix-eq-some, strip_suffix-eq-some,
}
use grafhome_ca.Runtime.Reconcile.{count_opened, is_deny_template}

-- Each pair of braces counts.
counted : (o : Bool) (a b : Text) → 1 ≤ count_opened o (a ++ (b'{' ∷ b'{' ∷ b))
unfolding count_opened
counted true [] b = omega arith
counted false [] b = omega arith
counted o (c ∷ a) b =
    let later = counted (not o && c == b'{') a b in
    elim (Bool-cases (o && c == b'{')) [ inl e ↦ rw e (omega (arith, later)) | inr e ↦ rw e later ]

-- A text whose only act is a call of `fail`: behind the two braces of the call no others open.
pub record Denies (template : Text) : Type 0 where
  pub call : Text
  pub opens : trim template ≡ text "{{ fail " ++ call
  pub front : Text
  pub closes : trim template ≡ front ++ text "}}"
  pub once : (a b : Text) → call ≡ a ++ (b'{' ∷ b'{' ∷ b) → ⊥

starts : (p s : Text) → starts_with p s ≡ true → (t : Text) × (s ≡ p ++ t)
unfolding starts_with
starts p s h = elim (Option-cases (strip_prefix p s)) [
  | inl e ↦ cc (rw e at h)
  | inr (t, e) ↦ (t, strip_prefix-eq-some p s t e)
]

ends : (p s : Text) → ends_with p s ≡ true → (t : Text) × (s ≡ t ++ p)
unfolding ends_with
ends p s h = elim (Option-cases (strip_suffix p s)) [
  | inl e ↦ cc (rw e at h)
  | inr (t, e) ↦ (t, strip_suffix-eq-some p s t e)
]

-- Behind the first pair of a text that has one pair there is no other.
opened_once :
    (call a b : Text)
    → count_opened false (text "{{ fail " ++ call) ≡ 1
    → call ≡ a ++ (b'{' ∷ b'{' ∷ b)
    → ⊥
unfolding count_opened text
opened_once call a b h e =
    let later = counted false a b in
    let same = ap (count_opened false) e in omega (arith, h, later, same)

pub is_deny_template-Denies : (t : Text) → is_deny_template t ≡ true → Denies t
unfolding is_deny_template
is_deny_template-Denies t h =
    let (both, one) =
      &&-eq-true (starts_with (text "{{ fail ") (trim t) && ends_with (text "}}") (trim t))
        (count_opened false (trim t) == 1) h in
    let (first, last) =
      &&-eq-true (starts_with (text "{{ fail ") (trim t)) (ends_with (text "}}") (trim t)) both in
    let (call, opens) = starts (text "{{ fail ") (trim t) first in
    let (front, closes) = ends (text "}}") (trim t) last in
    let number = (==_iff (count_opened false (trim t)) 1).0 one in
    record {
      call = call;
      opens = opens;
      front = front;
      closes = closes;
      once = λ a b. opened_once call a b (ap (count_opened false) (sym opens) ∙ number);
    }
