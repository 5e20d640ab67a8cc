-- ===== src/Prelude/Actions/Gives.antt =====
-- What an action gives: from which states it returns, what it returns there and in which state, one
-- rule for each way to build an action.
use mathlib.Core.Bool.{Bool, true, false, true≢false}
use mathlib.Core.Path.{◌≡◌, refl, sym, subst}
use via_solana_gateway_v.Prelude.Tests.{if◌then◌else◌}
use via_solana_gateway_v.Prelude.Results.{Error, Result, ok, err, OnOk}
use via_solana_gateway_v.Prelude.Actions.{Action, continue, ◌>>=◌, rescued, rescue}
use via_solana_gateway_v.Prelude.Actions.Keeps.{Keeps}

-- From a state with `P`, what the action returns and the state that it leaves are related by `Q`, if
-- it does not throw.
abbrev pub Gives : {S A : Type 0} → (S → Type 0) → Action S A → (A → S → Type 0) → Type 0
Gives P m Q = (s : _) → P s → OnOk (λ a. Q a (m s).1) (m s).0

-- From a state with `P` the action returns, and the same holds.
abbrev pub Returns : {S A : Type 0} → (S → Type 0) → Action S A → (A → S → Type 0) → Type 0
Returns P m Q = (s : _) → P s → (a : _) × ((m s).0 ≡ ok a) × Q a (m s).1

module _ {S A : Type 0} (P : S → Type 0) where
  -- What the action leaves, whether it returns or throws.
  pub Gives_always :
      (R : S → Type 0) (m : Action S A) → ((s : S) → P s → R (m s).1) → Gives P m (λ a. R)
  Gives_always R m k s p = go (m s).0 (k s p)
    where
      go : (r : Result A) → R (m s).1 → OnOk (λ a. R (m s).1) r
      go (ok a) q = q
      go (err e) q = tt

  pub Gives-Keeps : (m : Action S A) → Keeps P m → Gives P m (λ a. P)
  Gives-Keeps m k = Gives_always P m k

  pub Gives-rescue :
      (Q : A → S → Type 0) (m : Action S A) (h : Error → Action S A)
      → Gives P m Q
      → ((e : Error) → Gives (λ s. Unit {0}) (h e) Q)
      → Gives P (rescue m h) Q
  unfolding rescue
  Gives-rescue Q m h gm gh s p = go (m s).0 (m s).1 (gm s p)
    where
      go :
          (r : Result A) (s' : S)
          → OnOk (λ a. Q a s') r
          → OnOk (λ a. Q a (rescued r h s').1) (rescued r h s').0
      go (ok a) s' q = q
      go (err e) s' q = gh e s' tt

  pub Returns-rescue :
      (Q : A → S → Type 0) (m : Action S A) (h : Error → Action S A)
      → Returns P m Q
      → Returns P (rescue m h) Q
  unfolding rescue
  Returns-rescue Q m h rm s p =
      let (a, e, q) = rm s p in
      subst (λ r. (a' : A) × ((rescued r h (m s).1).0 ≡ ok a') × Q a' (rescued r h (m s).1).1)
        (sym e) (a, refl, q)

module _ {S A B : Type 0} (P : S → Type 0) where
  pub Gives-then :
      (R : A → S → Type 0) (Q : B → S → Type 0) (m : Action S A) (f : A → Action S B)
      → Gives P m R
      → ((a : A) → Gives (R a) (f a) Q)
      → Gives P (m >>= f) Q
  unfolding ◌>>=◌
  Gives-then R Q m f gm gf s p = go (m s).0 (m s).1 (gm s p)
    where
      go :
          (r : Result A) (s' : S)
          → OnOk (λ a. R a s') r
          → OnOk (λ b. Q b (continue r f s').1) (continue r f s').0
      go (ok a) s' q = gf a s' q
      go (err e) s' q = tt

  pub Returns-then :
      (R : A → S → Type 0) (Q : B → S → Type 0) (m : Action S A) (f : A → Action S B)
      → Returns P m R
      → ((a : A) → Returns (R a) (f a) Q)
      → Returns P (m >>= f) Q
  unfolding ◌>>=◌
  Returns-then R Q m f rm rf s p =
      let (a, e, q) = rm s p in
      subst (λ r. (b : B) × ((continue r f (m s).1).0 ≡ ok b) × Q b (continue r f (m s).1).1)
        (sym e) (rf a (m s).1 q)

module _ {S A : Type 0} (P : S → Type 0) where
  -- A test that holds.
  pub Returns_true :
      (Q : A → S → Type 0) (m n : Action S A)
      → Returns P m Q
      → (b : Bool) → Returns (λ s. (b ≡ true) × P s) (if b then m else n) Q
  Returns_true Q m n r true = λ s h. r s h.1
  Returns_true Q m n r false = λ s h. absurd (true≢false (sym h.0))

  -- A handler that returns makes every action return.
  pub Returns_rescued :
      (m : Action S A) (handler : Error → Action S A)
      → Keeps P m
      → ((e : Error) → Returns P (handler e) (λ a. P))
      → Returns P (rescue m handler) (λ a. P)
  unfolding rescue
  Returns_rescued m handler k r s p = go (m s).0 (m s).1 (k s p)
    where
      go :
          (result : Result A) (s' : S)
          → P s'
          → (a : A) × ((rescued result handler s').0 ≡ ok a) × P (rescued result handler s').1
      go (ok a) s' q = (a, refl, q)
      go (err e) s' q = r e s' q
