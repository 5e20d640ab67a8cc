-- ===== src/Decoders/Utils/Base58.antt =====
-- `base58Encode` of decoders/utils.ts against a reference decoder.
use native.Mathlib.Decide.{dec_lt}
use via_solana_gateway_v.Prelude.{
  ℕ, zero, suc, ◌/◌, ◌<◌, ◌≡◌, ◌≢◌, refl, sym, ap, ◌∙◌, true, List, [], ◌∷◌, ◌++◌, length,
  replicate, ◌==◌, ==_iff, if◌then◌else◌, all_below, all_below_sound, arith, Text, Result, ok, err,
  syntax_error,
}
use via_solana_gateway_v.Prelude.Digits.{
  print_base, value_from, value_from-print_base, print_base_head, print_base_zero,
}
use via_solana_gateway_v.Buffer.{Bytes, IsBytes, to_hex, big_int_of_hex}
use via_solana_gateway_v.Buffer.Hex.{be_value_from, big_int_of_hex-to_hex}
use via_solana_gateway_v.Buffer.BigEndian.{print_base-be_value}
use via_solana_gateway_v.Decoders.Utils.{
  alphabet, alphabet_at, div_58_shrinks, leading_ones, base58_encode,
}

-- The place of a character in a text, or its length.
unfoldable pub index_of : ℕ → Text → ℕ
index_of c [] = 0
index_of c (d ∷ s) = let later = suc (index_of c s) in if c == d then 0 else later

-- The number of ones that a text starts with.
unfoldable pub count_ones : Text → ℕ
count_ones [] = 0
count_ones (c ∷ s) = let later = suc (count_ones s) in if c == b'1' then later else 0

abbrev pub div_256_shrinks : (n : ℕ) → 0 < n → n / 256 < n
div_256_shrinks n h = omega arith

-- The reference decoder: a zero byte for each leading one, then the value in base 256.
unfoldable pub base58_decode : Text → Bytes
base58_decode s =
    replicate (count_ones s) 0
    ++ print_base 256 div_256_shrinks (λ d. d) (value_from 58 (λ c. index_of c alphabet) 0 s)

alphabet_table : all_below 58 (λ d. index_of (alphabet_at d) alphabet == d) ≡ true
unfolding all_below index_of alphabet_at
alphabet_table = refl

index_of-alphabet_at : (d : ℕ) → d < 58 → index_of (alphabet_at d) alphabet ≡ d
index_of-alphabet_at d h = (==_iff _ d).0 (all_below_sound 58 _ d alphabet_table h)

alphabet_at-ne-one : (d : ℕ) → 0 < d → d < 58 → alphabet_at d ≢ b'1'
alphabet_at-ne-one d pos h e =
    let zeroth : index_of (alphabet_at d) alphabet ≡ 0 = ap (λ c. index_of c alphabet) e ∙ first in
    omega (arith, index_of-alphabet_at d h, zeroth)
  where
    first : index_of b'1' alphabet ≡ 0
    first = unfold index_of in refl

-- The zero bytes that a buffer starts with, and the rest of it.
leading_zeros : Bytes → ℕ
leading_zeros [] = 0
leading_zeros (zero ∷ bs) = suc (leading_zeros bs)
leading_zeros (suc b ∷ bs) = 0

without_zeros : Bytes → Bytes
without_zeros [] = []
without_zeros (zero ∷ bs) = without_zeros bs
without_zeros (suc b ∷ bs) = suc b ∷ bs

module _ {ℓ} {A : Type ℓ} where
  replicate-cons : (n : ℕ) (a : A) (xs : List A) → replicate n a ++ a ∷ xs ≡ a ∷ replicate n a ++ xs
  replicate-cons zero a xs = refl
  replicate-cons (suc n) a xs = ap (λ l. a ∷ l) (replicate-cons n a xs)

leading_ones-eq :
    (bs : Bytes) (out : Text) → leading_ones bs out ≡ replicate (leading_zeros bs) b'1' ++ out
unfolding leading_ones leading_zeros
leading_ones-eq [] out = refl
leading_ones-eq (zero ∷ bs) out =
    leading_ones-eq bs (b'1' ∷ out) ∙ replicate-cons (leading_zeros bs) b'1' out
leading_ones-eq (suc b ∷ bs) out = ground arith

zeros-append : (bs : Bytes) → replicate (leading_zeros bs) 0 ++ without_zeros bs ≡ bs
unfolding leading_zeros without_zeros
zeros-append [] = refl
zeros-append (zero ∷ bs) = ap (λ l. 0 ∷ l) (zeros-append bs)
zeros-append (suc b ∷ bs) = refl

be_value-without_zeros : (bs : Bytes) → be_value_from 0 (without_zeros bs) ≡ be_value_from 0 bs
unfolding without_zeros value_from
be_value-without_zeros [] = refl
be_value-without_zeros (zero ∷ bs) = be_value-without_zeros bs
be_value-without_zeros (suc b ∷ bs) = refl

value-ones :
    (n : ℕ) (s : Text)
    → value_from 58 (λ c. index_of c alphabet) 0 (replicate n b'1' ++ s)
      ≡ value_from 58 (λ c. index_of c alphabet) 0 s
unfolding value_from index_of
value-ones zero s = refl
value-ones (suc n) s = value-ones n s

-- A text that does not start with a one.
abbrev NotOne : Text → Type 0
NotOne [] = Unit
NotOne (c ∷ s) = c ≢ b'1'

count_ones-ones : (n : ℕ) (s : Text) → NotOne s → count_ones (replicate n b'1' ++ s) ≡ n
unfolding count_ones
count_ones-ones zero [] h = refl
count_ones-ones zero (c ∷ s) h = ground (arith, ==_iff c b'1')
count_ones-ones (suc n) s h = ap suc (count_ones-ones n s h)

print_58-NotOne : (n : ℕ) → NotOne (print_base 58 div_58_shrinks alphabet_at n)
print_58-NotOne n = elim (dec_lt 0 n) [
  | yes pos ↦
      let (d, rest, shape, above, below) =
        print_base_head 58 div_58_shrinks alphabet_at (omega arith) n pos in
      rw shape (alphabet_at-ne-one d above below)
  | no none_left ↦
      let e : n ≡ 0 = omega arith in rw (e, print_base_zero 58 div_58_shrinks alphabet_at) tt
]

-- The bytes after the leading zeros are the base-256 digits of the value.
print_256-without_zeros :
    (bs : Bytes)
    → IsBytes bs
    → print_base 256 div_256_shrinks (λ d. d) (be_value_from 0 (without_zeros bs))
      ≡ without_zeros bs
unfolding without_zeros
print_256-without_zeros [] h = unfold value_from in print_base_zero 256 div_256_shrinks (λ d. d)
print_256-without_zeros (zero ∷ bs) h = print_256-without_zeros bs h.1
print_256-without_zeros (suc b ∷ bs) h =
    print_base-be_value div_256_shrinks (suc b) bs h (omega arith)

-- What the encoder gives for a buffer that is not empty.
base58_encode-eq :
    (b : ℕ) (bs : Bytes)
    → IsBytes (b ∷ bs)
    → base58_encode (b ∷ bs)
      ≡ ok (
          replicate (leading_zeros (b ∷ bs)) b'1'
          ++ print_base 58 div_58_shrinks alphabet_at (be_value_from 0 (b ∷ bs)))
base58_encode-eq b bs h =
    unfold base58_encode in rw (big_int_of_hex-to_hex b bs h) (ap ok (leading_ones-eq (b ∷ bs) _))

-- The empty buffer is refused: `BigInt("0x")` throws a SyntaxError.
pub base58_encode_nil : base58_encode [] ≡ err syntax_error
unfolding base58_encode big_int_of_hex to_hex
base58_encode_nil = refl

-- Encoding any buffer of at least one byte succeeds, and the reference decoder, which reads a zero
-- byte for each leading "1" and the base-58 value in base 256, gives the buffer back.
pub base58_decode-base58_encode :
    (b : ℕ) (bs : Bytes)
    → IsBytes (b ∷ bs)
    → (s : Text) × (base58_encode (b ∷ bs) ≡ ok s) × (base58_decode s ≡ b ∷ bs)
base58_decode-base58_encode b bs h = (
  _,
  base58_encode-eq b bs h,
  unfold base58_decode in rw (count, value, digits) (zeros-append (b ∷ bs)),
)
  where
    printed : Text
    printed = print_base 58 div_58_shrinks alphabet_at (be_value_from 0 (b ∷ bs))

    ones : Text
    ones = replicate (leading_zeros (b ∷ bs)) b'1'

    count : count_ones (ones ++ printed) ≡ leading_zeros (b ∷ bs)
    count = count_ones-ones (leading_zeros (b ∷ bs)) printed (print_58-NotOne _)

    value : value_from 58 (λ c. index_of c alphabet) 0 (ones ++ printed) ≡ be_value_from 0 (b ∷ bs)
    value =
        value-ones (leading_zeros (b ∷ bs)) printed
        ∙ value_from-print_base 58 div_58_shrinks alphabet_at (λ c. index_of c alphabet)
            index_of-alphabet_at (omega arith) (be_value_from 0 (b ∷ bs))

    digits :
        print_base 256 div_256_shrinks (λ d. d) (be_value_from 0 (b ∷ bs)) ≡ without_zeros (b ∷ bs)
    digits =
        ap (print_base 256 div_256_shrinks (λ d. d)) (sym (be_value-without_zeros (b ∷ bs)))
        ∙ print_256-without_zeros (b ∷ bs) h

abbrev text_of : Result Text → Text
text_of (ok s) = s
text_of (err e) = []

-- The text that the encoder gives, where it gives one.
unfoldable pub base58_text : Bytes → Text
base58_text bytes = text_of (base58_encode bytes)

pub base58_encode-eq-text :
    (bytes : Bytes)
    → IsBytes bytes
    → 0 < length bytes
    → base58_encode bytes ≡ ok (base58_text bytes)
unfolding base58_text
base58_encode-eq-text [] h pos = absurd (omega arith)
base58_encode-eq-text (b ∷ bs) h pos =
    let (s, encoded, _) = base58_decode-base58_encode b bs h in
    encoded ∙ ap (λ r. ok (text_of r)) (sym encoded)

-- The encoder's text of a buffer that is not empty is decoded to the buffer.
pub base58_decode-text :
    (bytes : Bytes) → IsBytes bytes → 0 < length bytes → base58_decode (base58_text bytes) ≡ bytes
unfolding base58_text
base58_decode-text [] h pos = absurd (omega arith)
base58_decode-text (b ∷ bs) h pos =
    let (s, encoded, decoded) = base58_decode-base58_encode b bs h in
    ap (λ r. base58_decode (text_of r)) encoded ∙ decoded
