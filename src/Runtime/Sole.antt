-- ===== src/Runtime/Sole.antt =====
-- The one item that a search for indices finds, and what replacing it does.
use grafhome_ca.Runtime.Install.{indices_from, item_at, put_at}
use grafhome_ca.Base.{
  All, Bool, Bool-cases, List, [], ap, arith, false, filter, inl, inr, length, refl, some, suc,
  true, ◌++◌, ◌+◌, ◌∷◌, ◌≡◌, ℕ, not, ◌∙◌,
}

module _ {ℓ} {A : Type ℓ} (test : A → Bool) where
  -- The item at the index is the only one that passes.
  pub record Sole (items : List A) (index : ℕ) : Type ℓ where
    pub front : List A
    pub sole : A
    pub back : List A
    pub parts : items ≡ front ++ sole ∷ back
    pub place : index ≡ length front
    pub passes : test sole ≡ true
    pub none_before : All (λ a. test a ≡ false) front
    pub none_behind : All (λ a. test a ≡ false) back

  pub indices_from-none :
      (start : ℕ) (items : List A)
      → indices_from test start items ≡ []
      → All (λ a. test a ≡ false) items
  unfolding indices_from
  indices_from-none start [] h = tt
  indices_from-none start (a ∷ items) h = elim (Bool-cases (test a)) [
    | inl e ↦ cc (rw (e, indices_from) at h)
    | inr e ↦ (e, indices_from-none (start + 1) items (rw (e, indices_from) at h))
  ]

  -- The same with the index counted from the start.
  record SoleFrom (start : ℕ) (items : List A) (index : ℕ) : Type ℓ where
    pub offset : ℕ
    pub counted : index ≡ start + offset
    pub found : Sole items offset

  sole_from :
      (start : ℕ) (items : List A) (index : ℕ)
      → indices_from test start items ≡ index ∷ []
      → SoleFrom start items index
  unfolding indices_from
  sole_from start [] index h = cc
  sole_from start (a ∷ items) index h = elim (Bool-cases (test a)) [
    | inl e ↦
        let k : start ∷ indices_from test (start + 1) items ≡ index ∷ [] =
          rw (e, indices_from) at h in
        record {
          offset = 0;
          counted = ground arith;
          found = record {
            front = [];
            sole = a;
            back = items;
            parts = refl;
            place = refl;
            passes = e;
            none_before = tt;
            none_behind = indices_from-none (start + 1) items (ground arith);
          };
        }
    | inr e ↦
        let later = sole_from (start + 1) items index (rw (e, indices_from) at h) in
        record {
          offset = suc later.offset;
          counted = omega (arith, later.counted);
          found = record {
            front = a ∷ later.found.front;
            sole = later.found.sole;
            back = later.found.back;
            parts = ap (λ l. a ∷ l) later.found.parts;
            place = ap suc later.found.place;
            passes = later.found.passes;
            none_before = (e, later.found.none_before);
            none_behind = later.found.none_behind;
          };
        }
  ]

  pub indices_from-Sole :
      (items : List A) (index : ℕ) → indices_from test 0 items ≡ index ∷ [] → Sole items index
  indices_from-Sole items index h =
      let s = sole_from 0 items index h in
      let e : index ≡ s.offset = omega (arith, s.counted) in rw e s.found

  filter-none : (items : List A) → All (λ a. test a ≡ false) items → filter test items ≡ []
  filter-none [] h = refl
  filter-none (a ∷ items) (e, h) = rw e (filter-none items h)

item_at-length {ℓ} :
    {A : Type ℓ} (front : List A) (a : A) (back : List A)
    → item_at (front ++ a ∷ back) (length front) ≡ some a
unfolding item_at
item_at-length [] a back = refl
item_at-length (b ∷ front) a back = item_at-length front a back

put_at-length {ℓ} :
    {A : Type ℓ} (front : List A) (a : A) (back : List A) (c : A)
    → put_at (front ++ a ∷ back) (length front) c ≡ front ++ c ∷ back
unfolding put_at
put_at-length [] a back c = refl
put_at-length (b ∷ front) a back c = ap (λ l. b ∷ l) (put_at-length front a back c)

filter-append {ℓ} :
    {A : Type ℓ} (p : A → Bool) (xs ys : List A) → filter p (xs ++ ys) ≡ filter p xs ++ filter p ys
filter-append p [] ys = refl
filter-append p (x ∷ xs) ys = elim (Bool-cases (p x)) [
  | inl e ↦ rw e (ap (λ l. x ∷ l) (filter-append p xs ys))
  | inr e ↦ rw e (filter-append p xs ys)
]

module _ {ℓ} {A : Type ℓ} (test : A → Bool) (front back : List A) (a : A) (e : test a ≡ true) where
  pub filter-sole :
      All (λ b. test b ≡ false) front
      → All (λ b. test b ≡ false) back
      → filter test (front ++ a ∷ back) ≡ a ∷ []
  filter-sole f g =
      filter-append test front (a ∷ back)
      ∙ rw (filter-none test front f, e) (ap (λ l. a ∷ l) (filter-none test back g))

  pub filter-rest :
      filter (λ b. not (test b)) (front ++ a ∷ back)
      ≡ filter (λ b. not (test b)) front ++ filter (λ b. not (test b)) back
  filter-rest = filter-append (λ b. not (test b)) front (a ∷ back) ∙ rw e refl

item_at-parts {ℓ} :
    {A : Type ℓ} (items front : List A) (a : A) (back : List A) (index : ℕ)
    → items ≡ front ++ a ∷ back
    → index ≡ length front
    → item_at items index ≡ some a
item_at-parts items front a back index e k = rw (e, k) (item_at-length front a back)

put_at-parts {ℓ} :
    {A : Type ℓ} (items front : List A) (a : A) (back : List A) (index : ℕ) (c : A)
    → items ≡ front ++ a ∷ back
    → index ≡ length front
    → put_at items index c ≡ front ++ c ∷ back
put_at-parts items front a back index c e k = rw (e, k) (put_at-length front a back c)

module _ {ℓ} {A : Type ℓ} {test : A → Bool} {items : List A} {index : ℕ}
    (s : Sole test items index) where
  pub item_at-Sole : item_at items index ≡ some s.sole
  item_at-Sole = item_at-parts items s.front s.sole s.back index s.parts s.place

  pub put_at-Sole : (c : A) → put_at items index c ≡ s.front ++ c ∷ s.back
  put_at-Sole c = put_at-parts items s.front s.sole s.back index c s.parts s.place
