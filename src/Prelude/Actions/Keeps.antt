-- ===== src/Prelude/Actions/Keeps.antt =====
-- Invariants of actions, one rule for each way to build an action.
use mathlib.Core.Path.{◌≡◌, refl}
use mathlib.Core.Bool.{Bool, true, false}
use via_solana_gateway_v.Prelude.Tests.{if◌then◌else◌}
use via_solana_gateway_v.Prelude.Results.{Error, Result, ok, err}
use via_solana_gateway_v.Prelude.Actions.{Action, lift, ◌>>=◌, rescued, rescue}

-- The action keeps `P`, whether it returns or throws.
abbrev pub Keeps : {S A : Type 0} → (S → Type 0) → Action S A → Type 0
Keeps P m = (s : _) → P s → P (m s).1

module _ {S : Type 0} (P : S → Type 0) where
  -- An early return, and the rest of the method where the test fails.
  pub Keeps-early_return :
      {A : Type 0} (stop : Bool) (early rest : Action S A)
      → Keeps P early
      → (stop ≡ false → Keeps P rest)
      → Keeps P (if stop then early else rest)
  Keeps-early_return true early rest first next = first
  Keeps-early_return false early rest first next = next refl

  -- What comes behind a result runs only if the result is a value.
  pub Keeps-after_result :
      {A B : Type 0} (then_do : A → Action S B) (r : Result A)
      → ((a : A) → r ≡ ok a → Keeps P (then_do a))
      → Keeps P (lift r >>= then_do)
  unfolding ◌>>=◌
  Keeps-after_result then_do (ok a) each s h = each a refl s h
  Keeps-after_result then_do (err e) each s h = h

  pub Keeps-then :
      {A B : Type 0} (first : Action S A) (then_do : A → Action S B)
      → ((a : A) → Keeps P (then_do a))
      → Keeps P first
      → Keeps P (first >>= then_do)
  unfolding ◌>>=◌
  Keeps-then first then_do each k s h =
      let (value, after) = first s in Keeps-after_result then_do value (λ a _. each a) after (k s h)

  pub Keeps-rescue :
      {A : Type 0} (m : Action S A) (h : Error → Action S A)
      → Keeps P m
      → ((e : Error) → Keeps P (h e))
      → Keeps P (rescue m h)
  unfolding rescue
  Keeps-rescue m h km kh s p = either (m s).0 (m s).1 (km s p)
    where
      either : (r : Result _) (s' : S) → P s' → P (rescued r h s').1
      either (ok a) s' p' = p'
      either (err e) s' p' = kh e s' p'

  pub Keeps-branch :
      {A : Type 0} (b : Bool) (m n : Action S A)
      → Keeps P m
      → Keeps P n
      → Keeps P (if b then m else n)
  Keeps-branch true m n km kn = km
  Keeps-branch false m n km kn = kn
