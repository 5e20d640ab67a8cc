-- ===== src/Prelude/Digits.antt =====
-- Positional notation: a number printed in a base, as `toString()` and the base58 encoder do, and
-- read back.
use Prim.Native.Nat.{ℕ, zero, suc, ◌+◌, ◌-◌, ◌*◌, ◌/◌, ◌%◌, ◌<◌}
use mathlib.Core.Path.{◌≡◌, refl, sym, ap, ◌∙◌}
use mathlib.Core.Logic.{dite, dif_pos, dif_neg}
use mathlib.Core.List.{[], ◌∷◌}
use mathlib.Core.WellFounded.{Acc, WellFounded}
use native.Mathlib.Omega.{arith}
use native.Mathlib.Decide.{dec_lt}
use native.Mathlib.Bridge.{le_prop}
use native.Mathlib.Nat.{mod-lt, div-add-mod'}
use via_solana_gateway_v.Prelude.Tests.{◌==◌, if◌then◌else◌}
use via_solana_gateway_v.Prelude.Lists.{All}
use via_solana_gateway_v.Prelude.Texts.{Text, codes}

Acc-below : (k n : ℕ) → n < k → Acc ◌<◌ n
Acc-below zero n h = elim h [ ]
Acc-below (suc k) n h = Acc.intro n (λ m hm. Acc-below k m (omega arith))

unfoldable pub lt_wf : WellFounded ◌<◌
unfolding Acc-below
lt_wf = record { apply = λ n. Acc-below (suc n) n (omega arith) }

-- The number that a text stands for, after the digits that gave `acc`.
unfoldable pub value_from : (base : ℕ) (digit : ℕ → ℕ) → ℕ → Text → ℕ
value_from base digit acc [] = acc
value_from base digit acc (c ∷ s) = value_from base digit (acc * base + digit c) s

module _ (base : ℕ) (shrinks : (n : ℕ) → 0 < n → n / base < n) (symbol : ℕ → ℕ) where
  -- while (n > 0) { out = symbol(n % base) + out; n = n / base }
  print_loop : (n : ℕ) → Acc ◌<◌ n → Text → Text
  print_loop n (Acc.intro _ smaller) out =
      dite (dec_lt 0 n)
        (λ h. print_loop (n / base) (smaller (n / base) (shrinks n h)) (symbol (n % base) ∷ out))
        (λ _. out)

  unfoldable pub print_base : ℕ → Text
  unfolding print_loop lt_wf dec_lt
  print_base n = print_loop n (lt_wf.apply n) []

  print_loop_zero : (n : ℕ) (w : Acc ◌<◌ n) (out : Text) → ¬ (0 < n) → print_loop n w out ≡ out
  unfolding print_loop
  print_loop_zero n (Acc.intro _ smaller) out h = rw (dif_neg _ h)

  -- A printed number starts with the symbol of a digit that is not zero.
  print_loop_head :
      (pos : 0 < base) (n : ℕ) (w : Acc ◌<◌ n) (out : Text)
      → 0 < n
      → (d : ℕ) × (rest : Text) × (print_loop n w out ≡ symbol d ∷ rest) × (0 < d) × (d < base)
  unfolding print_loop
  print_loop_head pos n (Acc.intro _ smaller) out h =
      rw (dif_pos _ le_prop h) (elim (dec_lt 0 (n / base)) [
        | yes more ↦ print_loop_head pos (n / base) (smaller (n / base) (shrinks n h)) _ more
        | no last ↦ (
          n % base,
          out,
          print_loop_zero (n / base) (smaller (n / base) (shrinks n h)) _ last,
          last_digit last,
          mod-lt n pos,
        )
      ])
    where
      last_digit : ¬ (0 < n / base) → 0 < n % base
      last_digit last =
          let e : n / base ≡ 0 = omega arith in
          omega (arith, div-add-mod' n base, ap (λ (q : ℕ). q * base) e)

  print_loop_value :
      (digit : ℕ → ℕ) (reads : (d : ℕ) → d < base → digit (symbol d) ≡ d) (pos : 0 < base) (n : ℕ)
      (w : Acc ◌<◌ n) (out : Text)
      → value_from base digit 0 (print_loop n w out) ≡ value_from base digit n out
  unfolding print_loop value_from
  print_loop_value digit reads pos n (Acc.intro _ smaller) out = elim (dec_lt 0 n) [
    | yes h ↦
        let ih =
          print_loop_value digit reads pos (n / base) (smaller (n / base) (shrinks n h))
            (symbol (n % base) ∷ out) in
        rw (dif_pos _ le_prop h) (ih ∙ ap (λ a. value_from base digit a out) (put_back h))
    | no h ↦ rw (dif_neg _ h) (ap (λ a. value_from base digit a out) (omega arith))
  ]
    where
      put_back : 0 < n → n / base * base + digit (symbol (n % base)) ≡ n
      put_back h = rw (reads (n % base) (mod-lt n pos)) (div-add-mod' n base)

  print_loop-All :
      (P : ℕ → Type 0) (each : (d : ℕ) → d < base → P (symbol d)) (pos : 0 < base) (n : ℕ)
      (w : Acc ◌<◌ n) (out : Text)
      → All P out
      → All P (print_loop n w out)
  unfolding print_loop
  print_loop-All P each pos n (Acc.intro _ smaller) out h = elim (dec_lt 0 n) [
    | yes more ↦ rw (dif_pos _ le_prop more) (
        print_loop-All P each pos (n / base) (smaller (n / base) (shrinks n more))
          (symbol (n % base) ∷ out) (each (n % base) (mod-lt n pos), h))
    | no last ↦ rw (dif_neg _ last) h
  ]

  -- What holds of every symbol holds of all that is printed.
  pub print_base-All :
      (P : ℕ → Type 0)
      → ((d : ℕ) → d < base → P (symbol d))
      → 0 < base
      → (n : ℕ) → All P (print_base n)
  unfolding print_base
  print_base-All P each pos n = print_loop-All P each pos n (lt_wf.apply n) [] tt

  -- What is printed stands for the number that was printed.
  pub value_from-print_base :
      (digit : ℕ → ℕ)
      → ((d : ℕ) → d < base → digit (symbol d) ≡ d)
      → 0 < base
      → (n : ℕ) → value_from base digit 0 (print_base n) ≡ n
  unfolding print_base value_from
  value_from-print_base digit reads pos n = print_loop_value digit reads pos n (lt_wf.apply n) []

  pub print_base_head :
      0 < base
      → (n : ℕ) → 0 < n
      → (d : ℕ) × (rest : Text) × (print_base n ≡ symbol d ∷ rest) × (0 < d) × (d < base)
  unfolding print_base
  print_base_head pos n h = print_loop_head pos n (lt_wf.apply n) [] h

  pub print_base_zero : print_base 0 ≡ []
  unfolding print_base
  print_base_zero = print_loop_zero 0 (lt_wf.apply 0) [] (λ h. absurd (omega arith))

div_ten_shrinks : (n : ℕ) → 0 < n → n / 10 < n
div_ten_shrinks n h = omega arith

abbrev pub decimal_symbol : ℕ → ℕ
decimal_symbol d = b'0' + d

-- `toString()` of a number or a bigint that is not negative.
unfoldable pub to_string : ℕ → Text
unfolding print_base div_ten_shrinks
to_string n = if n == 0 then codes "0" else print_base 10 div_ten_shrinks decimal_symbol n

pub value_of_decimal : Text → ℕ
value_of_decimal = value_from 10 (λ c. c - b'0') 0

to_string-suc : (n : ℕ) → to_string (suc n) ≡ print_base 10 div_ten_shrinks decimal_symbol (suc n)
to_string-suc n = unfold to_string in ground arith

pub value_of_decimal-to_string : (n : ℕ) → value_of_decimal (to_string n) ≡ n
unfolding value_of_decimal
value_of_decimal-to_string zero = unfold value_from to_string in refl
value_of_decimal-to_string (suc n) =
    let shown =
      value_from-print_base 10 div_ten_shrinks decimal_symbol (λ c. c - b'0') (λ d h. omega arith)
        (omega arith) (suc n) in
    rw to_string-suc shown

-- Two numbers are printed alike only if they are one.
pub to_string_injective : (a b : ℕ) → to_string a ≡ to_string b → a ≡ b
to_string_injective a b e =
    sym (value_of_decimal-to_string a) ∙ ap value_of_decimal e ∙ value_of_decimal-to_string b
