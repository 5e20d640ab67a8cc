-- ===== src/Buffer/BigEndian.antt =====
-- Big-endian numbers: bytes that do not start with zero are the base-256 digits of their value.
use native.Mathlib.Decide.{dec_lt}
use native.Mathlib.Nat.{pow-suc, one-le-pow, mul-le-mul_right, pow-le-pow_right}
use via_solana_gateway_v.Prelude.{
  ℕ, ◌+◌, ◌*◌, ◌/◌, ◌^◌, ◌≤◌, ◌<◌, ◌≡◌, refl, sym, ap, ap₂, subst, ◌∙◌, [], ◌∷◌, arith, length,
}
use via_solana_gateway_v.Prelude.Digits.{
  value_from, print_base, value_from-print_base, print_base-All, print_base_head,
}
use via_solana_gateway_v.Buffer.{Bytes, IsBytes}
use via_solana_gateway_v.Buffer.Hex.{be_value_from}

be_value_lower : (acc : ℕ) (bs : Bytes) → acc * 256 ^ length bs ≤ be_value_from acc bs
unfolding value_from
be_value_lower acc [] = omega arith
be_value_lower acc (b ∷ bs) = rw pow-suc (omega (arith, be_value_lower (acc * 256 + b) bs))

be_value_upper :
    (acc : ℕ) (bs : Bytes) → IsBytes bs → be_value_from acc bs + 1 ≤ (acc + 1) * 256 ^ length bs
unfolding value_from
be_value_upper acc [] h = omega arith
be_value_upper acc (b ∷ bs) h =
    let room : b * 256 ^ length bs ≤ 255 * 256 ^ length bs =
      mul-le-mul_right _ (omega (arith, h.0)) in
    rw pow-suc (omega (arith, room, be_value_upper (acc * 256 + b) bs h.1))

-- Lists of one length with one value are one list.
be_value_injective_same :
    (a c : ℕ) (xs ys : Bytes)
    → IsBytes xs
    → IsBytes ys
    → length xs ≡ length ys
    → be_value_from a xs ≡ be_value_from c ys
    → (a ≡ c) × (xs ≡ ys)
unfolding value_from
be_value_injective_same a c [] [] h k l e = (e, refl)
be_value_injective_same a c [] (y ∷ ys) h k l e = absurd (omega arith)
be_value_injective_same a c (x ∷ xs) [] h k l e = absurd (omega arith)
be_value_injective_same a c (x ∷ xs) (y ∷ ys) h k l e =
    let (heads, tails) =
      be_value_injective_same (a * 256 + x) (c * 256 + y) xs ys h.1 k.1 (omega arith) e in
    (omega (arith, h.0, k.0), ap₂ (λ b bs. b ∷ bs) (omega (arith, h.0, k.0)) tails)

-- A list with a longer tail and a head that is not zero has the greater value.
shorter_is_less :
    (x y : ℕ) (xs ys : Bytes)
    → IsBytes (x ∷ xs)
    → 0 < y
    → length xs < length ys
    → be_value_from 0 (x ∷ xs) < be_value_from 0 (y ∷ ys)
unfolding value_from
shorter_is_less x y xs ys h pos shorter = omega (
  arith,
  be_value_upper 0 (x ∷ xs) h,
  pow-le-pow_right {n = 256} (omega arith) shorter,
  be_value_lower (0 * 256 + y) ys,
  mul-le-mul_right (256 ^ length ys) pos,
)

-- Bytes that do not start with zero are determined by their value.
pub be_value_injective :
    (x y : ℕ) (xs ys : Bytes)
    → IsBytes (x ∷ xs)
    → IsBytes (y ∷ ys)
    → 0 < x
    → 0 < y
    → be_value_from 0 (x ∷ xs) ≡ be_value_from 0 (y ∷ ys)
    → x ∷ xs ≡ y ∷ ys
be_value_injective x y xs ys h k px py e = elim (dec_lt (length xs) (length ys)) [
  | yes less ↦ absurd (omega (arith, shorter_is_less x y xs ys h py less))
  | no same_or_more ↦ elim (dec_lt (length ys) (length xs)) [
    | yes more ↦ absurd (omega (arith, shorter_is_less y x ys xs k px more))
    | no same ↦
        let (heads, tails) =
          be_value_injective_same (0 * 256 + x) (0 * 256 + y) xs ys h.1 k.1 (omega arith)
            (unfold value_from in e) in
        ap₂ (λ b bs. b ∷ bs) (omega (arith, heads)) tails
  ]
]

-- Printing the value in base 256 gives the bytes back.
pub print_base-be_value :
    (shrinks : (n : ℕ) → 0 < n → n / 256 < n) (x : ℕ) (xs : Bytes)
    → IsBytes (x ∷ xs)
    → 0 < x
    → print_base 256 shrinks (λ d. d) (be_value_from 0 (x ∷ xs)) ≡ x ∷ xs
print_base-be_value shrinks x xs h pos =
    let (d, rest, shape, above, below) =
      print_base_head 256 shrinks (λ d. d) (omega arith) (be_value_from 0 (x ∷ xs)) positive in
    let value =
      value_from-print_base 256 shrinks (λ d. d) (λ b. b) (λ b _. refl) (omega arith)
        (be_value_from 0 (x ∷ xs)) in
    let bytes =
      print_base-All 256 shrinks (λ d. d) (λ b. b < 256) (λ b small. small) (omega arith)
        (be_value_from 0 (x ∷ xs)) in
    shape
    ∙ be_value_injective d x rest xs (subst IsBytes shape bytes) h above pos
        (ap (be_value_from 0) (sym shape) ∙ value)
  where
    positive : 0 < be_value_from 0 (x ∷ xs)
    positive =
        unfold value_from in
        omega (
          arith,
          be_value_lower (0 * 256 + x) xs,
          mul-le-mul_right (256 ^ length xs) pos,
          one-le-pow (length xs) 256 (omega arith),
        )
