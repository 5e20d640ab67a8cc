-- ===== src/Prelude/Actions.antt =====
-- A method that changes a state and may throw, as a function from the state: what it gives, with the
-- state it leaves. What was changed before an exception stays changed.
pub mod Keeps
pub mod Gives
use via_solana_gateway_v.Prelude.Results.{Error, Result, ok, err}

abbrev pub Action : Type 0 → Type 0 → Type 0
Action S A = S → Result A × S

module _ {S A : Type 0} where
  abbrev pub pure : A → Action S A
  pure a s = (ok a, s)

  abbrev pub throw : Error → Action S A
  throw e s = (err e, s)

  abbrev pub lift : Result A → Action S A
  lift r s = (r, s)

  abbrev pub gets : (S → A) → Action S A
  gets f s = (ok (f s), s)

  abbrev pub rescued : Result A → (Error → Action S A) → Action S A
  rescued (ok a) h s = (ok a, s)
  rescued (err e) h s = h e s

  -- `try { m } catch (error) { h }`
  unfoldable pub rescue : Action S A → (Error → Action S A) → Action S A
  rescue m h = λ s. let (r, s') = m s in rescued r h s'

module _ {S : Type 0} where
  abbrev pub update : (S → S) → Action S (Unit {0})
  update f s = (ok tt, f s)

module _ {S A B : Type 0} where
  abbrev pub continue : Result A → (A → Action S B) → Action S B
  continue (ok a) f s = f a s
  continue (err e) f s = (err e, s)

  infixl 5 ◌>>=◌ ◌>>◌
  unfoldable pub ◌>>=◌ : Action S A → (A → Action S B) → Action S B
  m >>= f = λ s. let (r, s') = m s in continue r f s'

  abbrev pub ◌>>◌ : Action S A → Action S B → Action S B
  m >> n = m >>= λ _. n
