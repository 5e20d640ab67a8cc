-- ===== src/Buffer/Hex.antt =====
-- Hexadecimal text: `BigInt("0x" + buffer.toString("hex"))` is the big-endian value of the bytes,
-- and the text determines the bytes.
use via_solana_gateway_v.Prelude.{
  ℕ, ◌+◌, ◌*◌, ◌/◌, ◌%◌, ◌<◌, ◌≡◌, refl, sym, ap, ◌∙◌, [], ◌∷◌, arith, ok,
}
use via_solana_gateway_v.Prelude.Digits.{value_from}
use via_solana_gateway_v.Buffer.{
  Bytes, IsBytes, hex_symbol, to_hex, hex_digit, hex_value, big_int_of_hex,
}

-- The number that big-endian bytes stand for, after the bytes that gave `acc`.
abbrev pub be_value_from : ℕ → Bytes → ℕ
be_value_from = value_from 256 (λ b. b)

hex_digit-hex_symbol : (d : ℕ) → d < 16 → hex_digit (hex_symbol d) ≡ d
unfolding hex_digit hex_symbol
hex_digit-hex_symbol d h = ground arith

hex_value-to_hex :
    (acc : ℕ) (bs : Bytes) → IsBytes bs → hex_value acc (to_hex bs) ≡ be_value_from acc bs
unfolding hex_value to_hex value_from
hex_value-to_hex acc [] h = refl
hex_value-to_hex acc (b ∷ bs) h =
    ap (λ a. hex_value a (to_hex bs)) two_digits ∙ hex_value-to_hex (acc * 256 + b) bs h.1
  where
    two_digits :
        (acc * 16 + hex_digit (hex_symbol (b / 16))) * 16 + hex_digit (hex_symbol (b % 16))
        ≡ acc * 256 + b
    two_digits = omega (
      arith,
      hex_digit-hex_symbol (b / 16) (omega (arith, h.0)),
      hex_digit-hex_symbol (b % 16) (omega arith),
    )

big_int_of_hex_cons :
    (b : ℕ) (bs : Bytes) → big_int_of_hex (to_hex (b ∷ bs)) ≡ ok (hex_value 0 (to_hex (b ∷ bs)))
unfolding big_int_of_hex to_hex
big_int_of_hex_cons b bs = refl

pub big_int_of_hex-to_hex :
    (b : ℕ) (bs : Bytes)
    → IsBytes (b ∷ bs)
    → big_int_of_hex (to_hex (b ∷ bs)) ≡ ok (be_value_from 0 (b ∷ bs))
big_int_of_hex-to_hex b bs h = big_int_of_hex_cons b bs ∙ ap ok (hex_value-to_hex 0 (b ∷ bs) h)

hex_symbol_injective : (d e : ℕ) → d < 16 → e < 16 → hex_symbol d ≡ hex_symbol e → d ≡ e
hex_symbol_injective d e h k p =
    sym (hex_digit-hex_symbol d h) ∙ ap hex_digit p ∙ hex_digit-hex_symbol e k

pub to_hex_injective : (xs ys : Bytes) → IsBytes xs → IsBytes ys → to_hex xs ≡ to_hex ys → xs ≡ ys
unfolding to_hex
to_hex_injective [] [] h k e = refl
to_hex_injective [] (y ∷ ys) h k e = cc
to_hex_injective (x ∷ xs) [] h k e = cc
to_hex_injective (x ∷ xs) (y ∷ ys) h k e = ground (
  arith,
  h.0,
  k.0,
  hex_symbol_injective (x / 16) (y / 16),
  hex_symbol_injective (x % 16) (y % 16),
  to_hex_injective xs ys h.1 k.1,
)
