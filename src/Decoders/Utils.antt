-- ===== src/Decoders/Utils.antt =====
-- decoders/utils.ts. A function that may throw gives a `Result`; an offset that a TypeScript
-- function returns as `nextOffset` is a field of the record that it returns.
pub mod Base58
pub mod Reads
pub mod Signatures
pub mod Names
pub mod Bounds
pub mod Errors
use via_solana_gateway_v.Prelude.{
  ℕ, zero, suc, ◌+◌, ◌*◌, ◌/◌, ◌^◌, ◌<◌, List, [], ◌∷◌, ◌++◌, Option, none, some, get_elem?, ◌==◌,
  ◌≡◌, refl, if◌then◌else◌, arith, Text, codes, text_eq, Result, ok, err, ◌>>=◌,
}
use via_solana_gateway_v.Prelude.Digits.{print_base, to_string}
use via_solana_gateway_v.Buffer.{Bytes, subarray, read_uint_le, big_int, to_hex, big_int_of_hex}

abbrev pub alphabet : Text
alphabet = codes "123456789ABCDEFGHJKLMNPQRSTUVWXYZabcdefghijkmnopqrstuvwxyz"

-- `alphabet[d]`, where `d` is a remainder by 58; past the end it is JavaScript's undefined, and 0 here.
unfoldable pub alphabet_at : ℕ → ℕ
alphabet_at d = elim (get_elem? alphabet d) [ none ↦ 0 | some c ↦ c ]

abbrev pub div_58_shrinks : (n : ℕ) → 0 < n → n / 58 < n
div_58_shrinks n h = omega arith

-- for (let i = 0; i < buffer.length && buffer[i] === 0; i++) result = "1" + result
unfoldable pub leading_ones : Bytes → Text → Text
leading_ones [] result = result
leading_ones (b ∷ bs) result =
    let more = leading_ones bs (b'1' ∷ result) in if b == 0 then more else result

unfoldable pub base58_encode : Bytes → Result Text
base58_encode buffer = do
  num ← big_int_of_hex (to_hex buffer)
  ok (leading_ones buffer (print_base 58 div_58_shrinks alphabet_at num))

-- The rounds of readU128LE that are left, from index `i`, with the sum so far.
unfoldable pub u128_loop : ℕ → ℕ → ℕ → Bytes → ℕ → Result ℕ
u128_loop zero i value buffer offset = ok value
u128_loop (suc rounds) i value buffer offset = do
  byte ← big_int (get_elem? buffer (offset + i))
  u128_loop rounds (i + 1) (value + byte * 2 ^ (i * 8)) buffer offset

unfoldable pub read_u128_le : Bytes → ℕ → Result ℕ
read_u128_le buffer offset = u128_loop 16 0 0 buffer offset

pub record VecU8 : Type 0 where
  pub length : ℕ
  pub bytes : Bytes
  pub next_offset : ℕ

unfoldable pub read_vec_u8 : Bytes → ℕ → Result VecU8
read_vec_u8 buffer offset = do
  length ← read_uint_le 4 buffer offset
  let bytes = subarray buffer (offset + 4) (offset + 4 + length)
  ok (record { length = length; bytes = bytes; next_offset = offset + 4 + length })

pub record VecPubkey : Type 0 where
  pub length : ℕ
  pub pubkeys : List Text
  pub next_offset : ℕ

-- The rounds of the loop that are left, with the keys so far and the offset.
unfoldable pub pubkey_loop : ℕ → List Text → Bytes → ℕ → Result (List Text × ℕ)
pubkey_loop zero pubkeys buffer offset = ok (pubkeys, offset)
pubkey_loop (suc rounds) pubkeys buffer offset = do
  pubkey ← base58_encode (subarray buffer offset (offset + 32))
  pubkey_loop rounds (pubkeys ++ pubkey ∷ []) buffer (offset + 32)

unfoldable pub read_vec_pubkey : Bytes → ℕ → Result VecPubkey
read_vec_pubkey buffer offset = do
  length ← read_uint_le 4 buffer offset
  (pubkeys, next) ← pubkey_loop length [] buffer (offset + 4)
  ok (record { length = length; pubkeys = pubkeys; next_offset = next })

pub record MessageSignature : Type 0 where
  pub signature : Text
  pub signer : Text

unfoldable pub read_message_signature : Bytes → ℕ → Result (MessageSignature × ℕ)
read_message_signature buffer offset = do
  let signature = subarray buffer offset (offset + 64)
  signer ← base58_encode (subarray buffer (offset + 64) (offset + 96))
  ok (record { signature = to_hex signature; signer = signer }, offset + 96)

pub record VecMessageSignature : Type 0 where
  pub length : ℕ
  pub signatures : List MessageSignature
  pub next_offset : ℕ

unfoldable pub signature_loop :
    ℕ → List MessageSignature → Bytes → ℕ → Result (List MessageSignature × ℕ)
signature_loop zero signatures buffer offset = ok (signatures, offset)
signature_loop (suc rounds) signatures buffer offset = do
  (sig, next) ← read_message_signature buffer offset
  signature_loop rounds (signatures ++ sig ∷ []) buffer next

unfoldable pub read_vec_message_signature : Bytes → ℕ → Result VecMessageSignature
read_vec_message_signature buffer offset = do
  length ← read_uint_le 4 buffer offset
  (signatures, next) ← signature_loop length [] buffer (offset + 4)
  ok (record { length = length; signatures = signatures; next_offset = next })

-- `value` is a byte that was read by an index, so it may be undefined.
unfoldable pub decode_signer_registry_type : Option ℕ → Text
decode_signer_registry_type none = codes "Unknown(undefined)"
decode_signer_registry_type (some value) =
    if value == 0
    then codes "VIA"
    else if value == 1
    then codes "Chain"
    else if value == 2
    then codes "Project"
    else codes "Unknown(" ++ to_string value ++ codes ")"

unfoldable pub get_chain_name : ℕ → Text
get_chain_name chain_id =
    let shown = to_string chain_id in
    if text_eq shown (codes "1")
    then codes "Solana Testnet"
    else if text_eq shown (codes "2")
    then codes "Ethereum"
    else if text_eq shown (codes "3")
    then codes "Polygon"
    else codes "Chain " ++ shown
