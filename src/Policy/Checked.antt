-- ===== src/Policy/Checked.antt =====
-- Results of code that can also panic: `none` is the panic.
use grafhome_ca.Base.{Option, All, List, Result, [], err, none, ok, refl, ◌∷◌, ◌≡◌, some, arith}

abbrev pub Checked {ℓ} : Type ℓ → Type ℓ
Checked A = Option (Result A)

-- A result of code that does not panic.
abbrev pub lift {ℓ} : {A : Type ℓ} → Result A → Checked A
lift r = some r

abbrev pub accepted : Checked (Unit {0})
accepted = some (ok tt)

-- `expect` on a value that must be there
abbrev pub expect {ℓ} : {A : Type ℓ} → Option A → Checked A
expect none = none
expect (some a) = some (ok a)

infixl 5 ◌>>=◌ ◌>>◌
abbrev pub ◌>>=◌ {ℓ κ} : {A : Type ℓ} {B : Type κ} → Checked A → (A → Checked B) → Checked B
none >>= f = none
some (err e) >>= f = some (err e)
some (ok a) >>= f = f a

abbrev pub ◌>>◌ {ℓ} : {B : Type ℓ} → Checked (Unit {0}) → Checked B → Checked B
none >> k = none
some (err e) >> k = some (err e)
some (ok a) >> k = k

-- A loop over a list that only checks.
abbrev pub each {ℓ} : {A : Type ℓ} → (A → Checked (Unit {0})) → List A → Checked (Unit {0})
each f [] = accepted
each f (a ∷ rest) = f a >> each f rest

pub >>-accepted {ℓ} :
    {B : Type ℓ} (m : Checked (Unit {0})) (k : Checked B) {b : B}
    → (m >> k) ≡ some (ok b)
    → (m ≡ accepted) × (k ≡ some (ok b))
>>-accepted none k h = cc
>>-accepted (some (err e)) k h = cc
>>-accepted (some (ok tt)) k h = (refl, h)

pub >>=-accepted {ℓ κ} :
    {A : Type ℓ} {B : Type κ} (m : Checked A) (f : A → Checked B) {b : B}
    → (m >>= f) ≡ some (ok b)
    → (a : A) × (m ≡ some (ok a)) × (f a ≡ some (ok b))
>>=-accepted none f h = cc
>>=-accepted (some (err e)) f h = cc
>>=-accepted (some (ok a)) f h = (a, refl, h)

pub lift-accepted {ℓ} : {A : Type ℓ} (r : Result A) {a : A} → lift r ≡ some (ok a) → r ≡ ok a
lift-accepted (ok a) h = ground arith
lift-accepted (err e) h = cc

pub each-accepted {ℓ} :
    {A : Type ℓ} (f : A → Checked (Unit {0})) (xs : List A)
    → each f xs ≡ accepted
    → All (λ a. f a ≡ accepted) xs
each-accepted f [] h = tt
each-accepted f (a ∷ xs) h =
    let (p, k) = >>-accepted (f a) (each f xs) h in (p, each-accepted f xs k)
