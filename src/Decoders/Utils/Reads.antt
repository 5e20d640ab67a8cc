-- ===== src/Decoders/Utils/Reads.antt =====
-- The readers of decoders/utils.ts on a buffer that holds what they look for, in the wire format
-- of the program: little-endian numbers, vectors behind a 4-byte length, keys of 32 bytes and
-- signatures of 64.
use native.Mathlib.Numerals.{towards_suc}
use via_solana_gateway_v.Prelude.{
  ℕ, zero, suc, ◌+◌, ◌*◌, ◌^◌, ◌<◌, ◌≡◌, refl, sym, ap, ap₂, ◌∙◌, List, [], ◌∷◌, ◌++◌, map,
  append_assoc, append-nil, length, get_elem?-lt, length-append, get_elem?, All, Option-cases, inl,
  inr, arith, Text, ok, err, type_error,
}
use via_solana_gateway_v.Buffer.{Bytes, IsBytes, le_value, le_bytes, concat}
use via_solana_gateway_v.Buffer.Laws.{
  At, At-next, length-le_bytes, le_value-le_bytes, read_uint_le-At, subarray-At, get_elem?-At,
}
use via_solana_gateway_v.Decoders.Utils.{
  u128_loop, read_u128_le, read_vec_u8, pubkey_loop, read_vec_pubkey,
}
use via_solana_gateway_v.Decoders.Utils.Base58.{base58_text, base58_encode-eq-text}

pub pow_step : (i : ℕ) → 2 ^ ((i + 1) * 8) ≡ 256 * 2 ^ (i * 8)
pow_step i = let e : (i + 1) * 8 ≡ i * 8 + 8 = omega arith in rw e (simp towards_suc (omega arith))

u128_loop-At :
    (bs rest buffer : Bytes) (i value offset : ℕ)
    → At buffer (offset + i) (bs ++ rest)
    → u128_loop (length bs) i value buffer offset ≡ ok (value + le_value bs * 2 ^ (i * 8))
unfolding u128_loop le_value
u128_loop-At [] rest buffer i value offset h = ap ok (omega arith)
u128_loop-At (b ∷ bs) rest buffer i value offset h =
    rw (get_elem?-At buffer (bs ++ rest) (offset + i) b h) (
      u128_loop-At bs rest buffer (i + 1) (value + b * 2 ^ (i * 8)) offset
        (At-next buffer (b ∷ []) (bs ++ rest) (offset + i) (offset + (i + 1)) h (omega arith))
      ∙ ap ok (omega (arith, pow_step i, ap (λ (p : ℕ). le_value bs * p) (pow_step i))))

-- A number below 2 ^ 128 whose 16 little-endian bytes stand in the buffer at an offset, before any
-- others, is read there.
pub read_u128_le-At :
    (n : ℕ) (buffer rest : Bytes) (offset : ℕ)
    → At buffer offset (le_bytes 16 n ++ rest)
    → n < 2 ^ 128
    → read_u128_le buffer offset ≡ ok n
unfolding read_u128_le
read_u128_le-At n buffer rest offset h small =
    ap (λ k. u128_loop k 0 0 buffer offset) (sym (length-le_bytes 16 n))
    ∙ u128_loop-At (le_bytes 16 n) rest buffer 0 0 offset at
    ∙ ap ok (omega (arith, le_value-le_bytes 16 n small))
  where
    at : At buffer (offset + 0) (le_bytes 16 n ++ rest)
    at = let e : offset + 0 ≡ offset = omega arith in rw e h

u128_loop_short :
    (rounds i value offset : ℕ) (buffer : Bytes)
    → 0 < rounds
    → length buffer < offset + i + rounds
    → u128_loop rounds i value buffer offset ≡ err type_error
unfolding u128_loop
u128_loop_short zero i value offset buffer pos short = absurd (omega arith)
u128_loop_short (suc rounds) i value offset buffer pos short =
    elim (Option-cases (get_elem? buffer (offset + i))) [
      | inl missing ↦ rw missing
      | inr (byte, found) ↦ rw found (
          u128_loop_short rounds (i + 1) (value + byte * 2 ^ (i * 8)) offset buffer
            (omega (arith, get_elem?-lt buffer (offset + i) found)) (omega arith))
    ]

-- A u128 that reaches past the end is `BigInt(undefined)`, a TypeError.
pub read_u128_le_short :
    (buffer : Bytes) (offset : ℕ)
    → length buffer < offset + 16
    → read_u128_le buffer offset ≡ err type_error
unfolding read_u128_le
read_u128_le_short buffer offset short =
    u128_loop_short 16 0 0 offset buffer (omega arith) (omega arith)

-- A vector of bytes on the wire.
unfoldable pub vec_u8 : Bytes → Bytes
vec_u8 bytes = le_bytes 4 (length bytes) ++ bytes

pub length-vec_u8 : (bytes : Bytes) → length (vec_u8 bytes) ≡ 4 + length bytes
unfolding vec_u8
length-vec_u8 bytes =
    omega (arith, length-append (le_bytes 4 (length bytes)) bytes, length-le_bytes 4 (length bytes))

pub read_vec_u8-At :
    (bytes buffer rest : Bytes) (offset : ℕ)
    → At buffer offset (vec_u8 bytes ++ rest)
    → length bytes < 2 ^ 32
    → read_vec_u8 buffer offset
      ≡ ok
          (record { length = length bytes; bytes = bytes; next_offset = offset + 4 + length bytes })
unfolding read_vec_u8 vec_u8
read_vec_u8-At bytes buffer rest offset h small =
    rw (read_uint_le-At 4 (length bytes) buffer (bytes ++ rest) offset at (omega arith) small)
      (rw (subarray-At buffer bytes rest (offset + 4) (offset + 4 + length bytes) after refl))
  where
    at : At buffer offset (le_bytes 4 (length bytes) ++ (bytes ++ rest))
    at = h ∙ append_assoc (le_bytes 4 (length bytes)) bytes rest

    after : At buffer (offset + 4) (bytes ++ rest)
    after =
        At-next buffer (le_bytes 4 (length bytes)) (bytes ++ rest) offset (offset + 4) at
          (omega (arith, length-le_bytes 4 (length bytes)))

-- A public key is 32 bytes.
abbrev pub IsKey : Bytes → Type 0
IsKey key = (length key ≡ 32) × IsBytes key

-- A vector of keys on the wire.
unfoldable pub vec_pubkey : List Bytes → Bytes
vec_pubkey keys = le_bytes 4 (length keys) ++ concat keys

pub length-concat : (keys : List Bytes) → All IsKey keys → length (concat keys) ≡ 32 * length keys
unfolding concat
length-concat [] h = refl
length-concat (key ∷ keys) (k, h) =
    omega (arith, length-append key (concat keys), k.0, length-concat keys h)

pubkey_loop-At :
    (keys : List Bytes) (pubkeys : List Text) (buffer rest : Bytes) (offset end : ℕ)
    → All IsKey keys
    → At buffer offset (concat keys ++ rest)
    → end ≡ offset + 32 * length keys
    → pubkey_loop (length keys) pubkeys buffer offset ≡ ok (pubkeys ++ map base58_text keys, end)
unfolding pubkey_loop concat
pubkey_loop-At [] pubkeys buffer rest offset end h at e =
    ap ok (ap₂ (λ (ks : List Text) (n : ℕ). (ks, n)) (sym (append-nil pubkeys)) (omega arith))
pubkey_loop-At (key ∷ keys) pubkeys buffer rest offset end (k, h) at e =
    let here : At buffer offset (key ++ (concat keys ++ rest)) =
      at ∙ append_assoc key (concat keys) rest in
    let next : At buffer (offset + 32) (concat keys ++ rest) =
      At-next buffer key (concat keys ++ rest) offset (offset + 32) here (omega (arith, k.0)) in
    rw (subarray-At buffer key (concat keys ++ rest) offset (offset + 32) here (omega (arith, k.0)))
      (rw (base58_encode-eq-text key k.1 (omega (arith, k.0))) (
        pubkey_loop-At keys (pubkeys ++ base58_text key ∷ []) buffer rest (offset + 32) end h next
          (omega arith)
        ∙ ap (λ (ks : List Text). ok (ks, end))
            (append_assoc pubkeys (base58_text key ∷ []) (map base58_text keys))))

pub read_vec_pubkey-At :
    (keys : List Bytes) (buffer rest : Bytes) (offset : ℕ)
    → All IsKey keys
    → At buffer offset (vec_pubkey keys ++ rest)
    → length keys < 2 ^ 32
    → read_vec_pubkey buffer offset
      ≡ ok (record {
        length = length keys;
        pubkeys = map base58_text keys;
        next_offset = offset + 4 + 32 * length keys;
      })
unfolding read_vec_pubkey vec_pubkey
read_vec_pubkey-At keys buffer rest offset h at small =
    rw
      (read_uint_le-At 4 (length keys) buffer (concat keys ++ rest) offset here (omega arith) small)
      (rw (
        pubkey_loop-At keys [] buffer rest (offset + 4) (offset + 4 + 32 * length keys) h after
          refl))
  where
    here : At buffer offset (le_bytes 4 (length keys) ++ (concat keys ++ rest))
    here = at ∙ append_assoc (le_bytes 4 (length keys)) (concat keys) rest

    after : At buffer (offset + 4) (concat keys ++ rest)
    after =
        At-next buffer (le_bytes 4 (length keys)) (concat keys ++ rest) offset (offset + 4) here
          (omega (arith, length-le_bytes 4 (length keys)))

pub length-vec_pubkey :
    (keys : List Bytes) → All IsKey keys → length (vec_pubkey keys) ≡ 4 + 32 * length keys
unfolding vec_pubkey
length-vec_pubkey keys h = omega (
  arith,
  length-append (le_bytes 4 (length keys)) (concat keys),
  length-le_bytes 4 (length keys),
  length-concat keys h,
)
