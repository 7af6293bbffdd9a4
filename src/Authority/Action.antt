-- ===== src/Authority/Action.antt =====
-- Code that changes files and can fail or panic on the way: what it leaves behind comes back
-- beside its result. `none` is the panic.
use grafhome_ca.Base.{Result, err, none, ok, some}
use grafhome_ca.Policy.Checked.{Checked, lift}

module _ (State : Type 0) where
  abbrev pub Action : Type 0 → Type 0
  Action A = State → Checked A × State

module _ {State A : Type 0} where
  abbrev pub pure : A → Action State A
  pure a s = (some (ok a), s)

  abbrev pub checked : Checked A → Action State A
  checked c s = (c, s)

  -- A step that changes nothing.
  abbrev pub pass : Result A → Action State A
  pass r s = (lift r, s)

  -- The state as it is now.
  abbrev pub asks : (State → Checked A) → Action State A
  asks question s = (question s, s)

module _ {State : Type 0} where
  abbrev pub modify : (State → State) → Action State (Unit {0})
  modify change s = (some (ok tt), change s)

module _ {State A B : Type 0} where
  abbrev pub resume : Checked A × State → (A → Action State B) → Checked B × State
  resume (none, s) next = (none, s)
  resume (some (err e), s) next = (some (err e), s)
  resume (some (ok a), s) next = next a s

  infixl 5 ◌>>=◌
  abbrev pub ◌>>=◌ : Action State A → (A → Action State B) → Action State B
  (m >>= next) s = resume (m s) next

module _ {State B : Type 0} where
  infixl 5 ◌>>◌
  abbrev pub ◌>>◌ : Action State (Unit {0}) → Action State B → Action State B
  (m >> next) s = resume (m s) (λ _. next)
