-- ===== src/Base/Outcome.antt =====
-- `Error` and `Result` of src/error.rs, and the `?` operator as `do` blocks.
use mathlib.Core.Path.{◌≡◌, refl, ap}
use mathlib.Core.Logic.{◌⊎◌, inl, inr, ◌↔◌}
use mathlib.Core.Bool.{Bool, true, false}
use mathlib.Core.Option.{Option, none, some}
use native.Mathlib.Omega.{arith}
use grafhome_ca.Base.Strings.{Text}

-- The sources that the crates report are kept as their printed text.
pub data Error : Type 0 where
  io : Text → Text → Error
  parse : Text → Text → Text → Error
  validation : Text → Text → Error
  json : Text → Text → Error
  toml : Text → Text → Error

pub data Result {ℓ} (Value : Type ℓ) : Type ℓ where
  err : Error → Result Value
  ok : Value → Result Value

infixl 5 ◌>>=◌ ◌>>◌
abbrev pub ◌>>=◌ {ℓ κ} :
    {Before : Type ℓ} {After : Type κ} → Result Before → (Before → Result After) → Result After
err why >>= continue = err why
ok value >>= continue = continue value

pub >>=-eq-ok {ℓ κ} :
    {Before : Type ℓ} {After : Type κ} (step : Result Before) (continue : Before → Result After)
    {result : After}
    → (step >>= continue) ≡ ok result
    → (value : Before) × (step ≡ ok value) × (continue value ≡ ok result)
>>=-eq-ok (err why) continue e = cc
>>=-eq-ok (ok value) continue e = (value, refl, e)

-- A step that is run for its error alone.
abbrev pub ◌>>◌ {ℓ} : {After : Type ℓ} → Result (Unit {0}) → Result After → Result After
step >> rest = step >>= λ _. rest

-- `if !test { return Err(e); }`
abbrev pub ensure : Bool → Error → Result (Unit {0})
ensure true e = ok tt
ensure false e = err e

-- `if test { return Err(e); }`
abbrev pub refuse : Bool → Error → Result (Unit {0})
refuse true e = err e
refuse false e = ok tt

-- `Option::ok_or_else`
abbrev pub ok_or {ℓ} : {A : Type ℓ} → Option A → Error → Result A
ok_or none e = err e
ok_or (some a) e = ok a

abbrev pub is_ok {ℓ} : {A : Type ℓ} → Result A → Bool
is_ok (ok a) = true
is_ok (err e) = false

pub >>-eq-ok {ℓ} :
    {B : Type ℓ} (m : Result (Unit {0})) (k : Result B) {b : B}
    → (m >> k) ≡ ok b
    → (m ≡ ok tt) × (k ≡ ok b)
>>-eq-ok (ok tt) k h = (refl, h)
>>-eq-ok (err e) k h = cc

pub ensure-eq-ok : (b : Bool) (e : Error) → (ensure b e ≡ ok tt) ↔ (b ≡ true)
ensure-eq-ok b e = ground arith

pub Result-cases : (m : Result (Unit {0})) → (m ≡ ok tt) ⊎ ((e : Error) × (m ≡ err e))
Result-cases (ok tt) = inl refl
Result-cases (err e) = inr (e, refl)

pub >>-ok {ℓ} :
    {B : Type ℓ} (m : Result (Unit {0})) (k : Result B) {b : B}
    → m ≡ ok tt
    → k ≡ ok b
    → (m >> k) ≡ ok b
>>-ok m k p q = rw p q

-- Passing two tests one after the other.
pub >>_iff : (m k : Result (Unit {0})) → ((m >> k) ≡ ok tt) ↔ ((m ≡ ok tt) × (k ≡ ok tt))
>>_iff m k = (>>-eq-ok m k, λ (p, q). >>-ok m k p q)

pub ok-injective {ℓ} : {A : Type ℓ} (a b : A) → ◌≡◌ {A = Result A} (ok a) (ok b) → a ≡ b
ok-injective a b e = ap (λ r. elim r [ err why ↦ a | ok c ↦ c ]) e

pub ok_or-eq-ok {ℓ} :
    {A : Type ℓ} (o : Option A) (e : Error) {a : A} → ok_or o e ≡ ok a → o ≡ some a
ok_or-eq-ok none e h = cc
ok_or-eq-ok (some b) e {a} h = ap some (ok-injective b a h)
