-- ===== src/Base/Lists.antt =====
-- Lists measured by native numbers, Boolean searches over them, and predicates on all members.
use Prim.Native.Nat.{ℕ, suc, ◌+◌}
use mathlib.Core.Path.{◌≡◌}
use mathlib.Core.Logic.{◌⊎◌, inl, inr}
use mathlib.Core.Bool.{Bool, true, false, ◌&&◌, ◌||◌}
use mathlib.Core.Option.{Option, none, some}
use mathlib.Core.List.{List, [], ◌∷◌, ◌++◌}
use native.Mathlib.Omega.{arith}
use grafhome_ca.Base.Tests.{Bool-cases, if◌then◌else◌}

module _ {ℓ} {A : Type ℓ} where
  abbrev pub length : List A → ℕ
  length [] = 0
  length (x ∷ xs) = suc (length xs)

  abbrev pub all : (A → Bool) → List A → Bool
  all p [] = true
  all p (x ∷ xs) = p x && all p xs

  abbrev pub any : (A → Bool) → List A → Bool
  any p [] = false
  any p (x ∷ xs) = p x || any p xs

  abbrev pub find : (A → Bool) → List A → Option A
  find p [] = none
  find p (x ∷ xs) = if p x then some x else find p xs

  abbrev pub filter : (A → Bool) → List A → List A
  filter p [] = []
  filter p (x ∷ xs) = let rest = filter p xs in if p x then x ∷ rest else rest

  abbrev pub is_empty : List A → Bool
  is_empty [] = true
  is_empty (x ∷ xs) = false

  pub length-append : (xs ys : List A) → length (xs ++ ys) ≡ length xs + length ys
  length-append [] ys = omega arith
  length-append (x ∷ xs) ys = omega (arith, length-append xs ys)

module _ {ℓ κ} {A : Type ℓ} (P : A → Type κ) where
  abbrev pub All : List A → Type κ
  All [] = Unit
  All (x ∷ xs) = P x × All xs

  pub All-append : (xs ys : List A) → All xs → All ys → All (xs ++ ys)
  All-append [] ys h k = k
  All-append (x ∷ xs) ys (p, h) k = (p, All-append xs ys h k)

  pub All-append_left : (xs ys : List A) → All (xs ++ ys) → All xs
  All-append_left [] ys h = tt
  All-append_left (x ∷ xs) ys (p, h) = (p, All-append_left xs ys h)

  pub All-append_right : (xs ys : List A) → All (xs ++ ys) → All ys
  All-append_right [] ys h = h
  All-append_right (x ∷ xs) ys (p, h) = All-append_right xs ys h

module _ {ℓ κ} {A : Type ℓ} {P Q : A → Type κ} (f : (a : A) → P a → Q a) where
  pub All-map : (xs : List A) → All P xs → All Q xs
  All-map [] h = tt
  All-map (x ∷ xs) (p, h) = (f x p, All-map xs h)

module _ {ℓ} {A : Type ℓ} where
  -- Some member has the property.
  abbrev pub Any : (A → Type 0) → List A → Type 0
  Any P [] = ⊥
  Any P (x ∷ xs) = P x ⊎ Any P xs

  -- Each member is related to every later one.
  abbrev pub Pairwise : (A → A → Type 0) → List A → Type 0
  Pairwise R [] = Unit
  Pairwise R (x ∷ xs) = All (R x) xs × Pairwise R xs

  pub Pairwise-snoc :
      (R : A → A → Type 0) (xs : List A) (c : A)
      → Pairwise R xs
      → All (λ x. R x c) xs
      → Pairwise R (xs ++ c ∷ [])
  Pairwise-snoc R [] c h k = (tt, tt)
  Pairwise-snoc R (x ∷ xs) c (p, h) (q, k) =
      (All-append (R x) xs (c ∷ []) p (q, tt), Pairwise-snoc R xs c h k)

  pub any-eq-false : (p : A → Bool) (xs : List A) → any p xs ≡ false → All (λ x. p x ≡ false) xs
  any-eq-false p [] h = tt
  any-eq-false p (x ∷ xs) h = (ground arith, any-eq-false p xs (ground arith))

module _ {ℓ κ} {A : Type ℓ} {P Q R : A → Type κ} (f : (a : A) → P a → Q a → R a) where
  pub All-both : (xs : List A) → All P xs → All Q xs → All R xs
  All-both [] h k = tt
  All-both (x ∷ xs) (p, h) (q, k) = (f x p q, All-both xs h k)

module _ {ℓ} {A : Type ℓ} {I : Type 0} (P : I → A → Type 0) where
  pub All-forall : (xs : List A) → ((i : I) → All (P i) xs) → All (λ x. (i : I) → P i x) xs
  All-forall [] h = tt
  All-forall (x ∷ xs) h = (λ i. (h i).0, All-forall xs (λ i. (h i).1))

module _ {ℓ} {A : Type ℓ} (R : A → A → Type 0) where
  pub Pairwise-append :
      (xs ys : List A)
      → Pairwise R xs
      → Pairwise R ys
      → All (λ x. All (R x) ys) xs
      → Pairwise R (xs ++ ys)
  Pairwise-append [] ys h k c = k
  Pairwise-append (x ∷ xs) ys (p, h) k (q, c) =
      (All-append (R x) xs ys p q, Pairwise-append xs ys h k c)

module _ {ℓ} {A : Type ℓ} {P Q : A → Type 0} (f : (a : A) → P a → Q a) where
  pub Any-map : (xs : List A) → Any P xs → Any Q xs
  Any-map [] h = elim h [ ]
  Any-map (x ∷ xs) (inl p) = inl (f x p)
  Any-map (x ∷ xs) (inr h) = inr (Any-map xs h)

module _ {ℓ κ} {A : Type ℓ} {B : Type κ} (R : A → B → Type 0) where
  pub All-swap :
      (xs : List A) (ys : List B) → All (λ y. All (λ x. R x y) xs) ys → All (λ x. All (R x) ys) xs
  All-swap [] ys h = tt
  All-swap (x ∷ xs) ys h = (All-map (λ y k. k.0) ys h, All-swap xs ys (All-map (λ y k. k.1) ys h))

module _ {ℓ} {A : Type ℓ} (P : A → Type 0) (p : A → Bool) where
  pub All-filter : (xs : List A) → All P (filter p xs) → All (λ x. p x ≡ true → P x) xs
  All-filter [] h = tt
  All-filter (x ∷ xs) h = elim (Bool-cases (p x)) [
    | inl e ↦ let k : P x × All P (filter p xs) = rw e at h in (λ _. k.0, All-filter xs k.1)
    | inr e ↦ let k : All P (filter p xs) = rw e at h in (λ e'. cc, All-filter xs k)
  ]

  pub Any-filter : (xs : List A) → Any P (filter p xs) → Any (λ x. P x × (p x ≡ true)) xs
  Any-filter [] h = h
  Any-filter (x ∷ xs) h = elim (Bool-cases (p x)) [
    | inl e ↦
        let k : P x ⊎ Any P (filter p xs) = rw e at h in
        elim k [ inl here ↦ inl (here, e) | inr later ↦ inr (Any-filter xs later) ]
    | inr e ↦ let k : Any P (filter p xs) = rw e at h in inr (Any-filter xs k)
  ]
