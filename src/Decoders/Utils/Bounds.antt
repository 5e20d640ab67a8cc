-- ===== src/Decoders/Utils/Bounds.antt =====
-- What readU128LE of decoders/utils.ts gives, wherever it is called.
use via_solana_gateway_v.Prelude.{
  ℕ, zero, suc, ◌+◌, ◌-◌, ◌*◌, ◌/◌, ◌%◌, ◌^◌, ◌≤◌, ◌<◌, ◌≡◌, ap, ap₂, sym, ◌∙◌, [], ◌∷◌, ◌++◌,
  arith, ok, length, length-take, length-drop, take, drop, subst, refl,
}
use via_solana_gateway_v.Buffer.{Bytes, IsBytes, le_value, le_bytes, subarray}
use via_solana_gateway_v.Buffer.Laws.{At, le_value-lt}
use via_solana_gateway_v.Decoders.Utils.{read_u128_le}
use via_solana_gateway_v.Decoders.Utils.Reads.{read_u128_le-At}

le_bytes-le_value : (bs : Bytes) → IsBytes bs → le_bytes (length bs) (le_value bs) ≡ bs
unfolding le_bytes le_value
le_bytes-le_value [] h = refl
le_bytes-le_value (b ∷ bs) h =
    let digit : (b + 256 * le_value bs) % 256 ≡ b = omega (arith, h.0) in
    let others : (b + 256 * le_value bs) / 256 ≡ le_value bs = omega (arith, h.0) in
    ap₂ (λ d ds. d ∷ ds) digit (ap (le_bytes (length bs)) others ∙ le_bytes-le_value bs h.1)

take-IsBytes : (n : ℕ) (bs : Bytes) → IsBytes bs → IsBytes (take n bs)
take-IsBytes zero bs h = tt
take-IsBytes (suc n) [] h = tt
take-IsBytes (suc n) (b ∷ bs) h = (h.0, take-IsBytes n bs h.1)

drop-IsBytes : (n : ℕ) (bs : Bytes) → IsBytes bs → IsBytes (drop n bs)
drop-IsBytes zero bs h = h
drop-IsBytes (suc n) [] h = tt
drop-IsBytes (suc n) (b ∷ bs) h = drop-IsBytes n bs h.1

take_and_drop : (n : ℕ) (bs : Bytes) → bs ≡ take n bs ++ drop n bs
take_and_drop zero bs = refl
take_and_drop (suc n) [] = refl
take_and_drop (suc n) (b ∷ bs) = ap (λ l. b ∷ l) (take_and_drop n bs)

pub read_u128_le-le_bytes :
    (buffer : Bytes) (offset : ℕ)
    → IsBytes buffer
    → offset + 16 ≤ length buffer
    → (n : ℕ) × (read_u128_le buffer offset ≡ ok n)
      × (n < 2 ^ 128)
      × (le_bytes 16 n ≡ subarray buffer offset (offset + 16))
unfolding subarray
read_u128_le-le_bytes buffer offset h in_range =
    let bs = take 16 (drop offset buffer) in
    let len : length bs ≡ 16 =
      omega (arith, length-take 16 (drop offset buffer), length-drop offset buffer) in
    let bytes : IsBytes bs = take-IsBytes 16 (drop offset buffer) (drop-IsBytes offset buffer h) in
    let small : le_value bs < 2 ^ 128 =
      subst (λ w. le_value bs < 256 ^ w) len (le_value-lt bs bytes) in
    let wire : le_bytes 16 (le_value bs) ≡ bs =
      subst (λ w. le_bytes w (le_value bs) ≡ bs) len (le_bytes-le_value bs bytes) in
    let at : At buffer offset (le_bytes 16 (le_value bs) ++ drop 16 (drop offset buffer)) =
      subst (λ l. At buffer offset (l ++ drop 16 (drop offset buffer))) (sym wire)
        (take_and_drop 16 (drop offset buffer)) in
    let width : (offset + 16) - offset ≡ 16 = omega arith in
    (
      le_value bs,
      read_u128_le-At (le_value bs) buffer (drop 16 (drop offset buffer)) offset at small,
      small,
      wire ∙ ap (λ w. take w (drop offset buffer)) (sym width),
    )
