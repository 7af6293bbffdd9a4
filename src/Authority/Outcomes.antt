-- ===== src/Authority/Outcomes.antt =====
-- How a statement on what an action leaves behind is proved: one step after the other.
use grafhome_ca.Base.{Error, Result, err, none, ok, refl, some, ◌≡◌, sym, subst}
use grafhome_ca.Authority.Action.{Action, pass, resume, checked, ◌>>=◌, ◌>>◌, modify}
use grafhome_ca.Policy.Checked.{Checked}

module _ {S A B : Type 0} (P : Checked B × S → Type 0) where
  -- Each way in which a step can end.
  pub resumed :
      (r : Checked A × S) (next : A → Action S B)
      → (r.0 ≡ none → P (none, r.1))
      → ((e : Error) → r.0 ≡ some (err e) → P (some (err e), r.1))
      → ((a : A) → r.0 ≡ some (ok a) → P (next a r.1))
      → P (resume r next)
  resumed (none, s) next p q h = p refl
  resumed (some (err e), s) next p q h = q e refl
  resumed (some (ok a), s) next p q h = h a refl

  -- A step that changes nothing.
  pub passed :
      (r : Result A) (next : A → Action S B) (s : S)
      → ((e : Error) → r ≡ err e → P (some (err e), s))
      → ((a : A) → r ≡ ok a → P (next a s))
      → P ((pass r >>= next) s)
  passed (err e) next s q h = q e refl
  passed (ok a) next s q h = h a refl

  pub checked_first :
      (r : Checked A) (next : A → Action S B) (s : S)
      → (r ≡ none → P (none, s))
      → ((e : Error) → r ≡ some (err e) → P (some (err e), s))
      → ((a : A) → r ≡ some (ok a) → P (next a s))
      → P ((checked r >>= next) s)
  checked_first none next s p q h = p refl
  checked_first (some (err e)) next s p q h = q e refl
  checked_first (some (ok a)) next s p q h = h a refl

module _ {S B : Type 0} (P : Checked B × S → Type 0) where
  pub done_first :
      (r : Result (Unit {0})) (next : Action S B) (s : S)
      → ((e : Error) → r ≡ err e → P (some (err e), s))
      → (r ≡ ok tt → P (next s))
      → P ((pass r >> next) s)
  done_first (err e) next s q h = q e refl
  done_first (ok _) next s q h = h refl

  pub resumed_unit :
      (r : Checked (Unit {0}) × S) (next : Action S B)
      → (r.0 ≡ none → P (none, r.1))
      → ((e : Error) → r.0 ≡ some (err e) → P (some (err e), r.1))
      → (r.0 ≡ some (ok tt) → P (next r.1))
      → P (resume r (λ _. next))
  resumed_unit (none, s) next p q h = p refl
  resumed_unit (some (err e), s) next p q h = q e refl
  resumed_unit (some (ok _), s) next p q h = h refl

  -- A step that changes the state when it is answered.
  pub stored_first :
      (r : Result (Unit {0})) (change : S → S) (next : Action S B) (s : S)
      → ((e : Error) → r ≡ err e → P (some (err e), s))
      → (r ≡ ok tt → P (next (change s)))
      → P (((pass r >> modify change) >> next) s)
  stored_first (err e) change next s q h = q e refl
  stored_first (ok _) change next s q h = h refl

  -- A file that is written by a rename and then synchronised.
  pub written_first :
      (renamed synced : Result (Unit {0})) (change : S → S) (next : Action S B) (s : S)
      → ((e : Error) → renamed ≡ err e → P (some (err e), s))
      → ((e : Error) → renamed ≡ ok tt → synced ≡ err e → P (some (err e), change s))
      → (renamed ≡ ok tt → synced ≡ ok tt → P (next (change s)))
      → P (((pass renamed >> (modify change >> pass synced)) >> next) s)
  written_first (err e) synced change next s p q h = p e refl
  written_first (ok _) (err e) change next s p q h = q e refl refl
  written_first (ok _) (ok _) change next s p q h = h refl refl

module _ {S A B : Type 0} (P : Checked B × S → Type 0) where
  -- Several steps that change nothing.
  pub quiet_first :
      (r : Checked A × S) (next : A → Action S B) (s : S)
      → r.1 ≡ s
      → (r.0 ≡ none → P (none, s))
      → ((e : Error) → r.0 ≡ some (err e) → P (some (err e), s))
      → ((a : A) → r.0 ≡ some (ok a) → P (next a s))
      → P (resume r next)
  quiet_first (none, t) next s same p q h = subst (λ t. P (none, t)) (sym same) (p refl)
  quiet_first (some (err e), t) next s same p q h =
      subst (λ t. P (some (err e), t)) (sym same) (q e refl)
  quiet_first (some (ok a), t) next s same p q h = subst (λ t. P (next a t)) (sym same) (h a refl)
