-- ===== src/Prelude/Results.antt =====
-- What a call gives that may throw, and the exceptions that the code throws or lets through.
use mathlib.Core.Path.{◌≡◌, refl}
use mathlib.Core.Logic.{◌⊎◌, inl, inr}
use via_solana_gateway_v.Prelude.Texts.{Text}

pub data Error : Type 0 where
  -- RangeError: a read outside a Buffer
  range_error : Error
  -- TypeError: `BigInt(undefined)`, or JSON.stringify on a BigInt
  type_error : Error
  -- SyntaxError: `BigInt("0x")`
  syntax_error : Error
  -- `new Error(message)`
  thrown : Text → Error

pub data Result {ℓ} (A : Type ℓ) : Type ℓ where
  ok : A → Result A
  err : Error → Result A

infixl 5 ◌>>=◌
abbrev pub ◌>>=◌ {ℓ κ} : {A : Type ℓ} {B : Type κ} → Result A → (A → Result B) → Result B
ok a >>= f = f a
err e >>= f = err e

pub Result-cases {ℓ} :
    {A : Type ℓ} (r : Result A) → ((a : A) × (r ≡ ok a)) ⊎ ((e : Error) × (r ≡ err e))
Result-cases (ok a) = inl (a, refl)
Result-cases (err e) = inr (e, refl)

-- What holds of a result if there is one.
abbrev pub OnOk {ℓ κ} : {A : Type ℓ} → (A → Type κ) → Result A → Type κ
OnOk P (ok a) = P a
OnOk P (err e) = Unit

pub OnOk-bind {ℓ κ} :
    {A B : Type ℓ} (P : B → Type κ) (r : Result A) (f : A → Result B)
    → ((a : A) → OnOk P (f a))
    → OnOk P (r >>= f)
OnOk-bind P (ok a) f h = h a
OnOk-bind P (err e) f h = tt
