-- ===== src/Buffer.antt =====
-- Node's Buffer as the decoders and the deployment scripts use it: a list of bytes, with what an
-- access outside the buffer does.
pub mod Laws
pub mod Hex
pub mod BigEndian
use via_solana_gateway_v.Prelude.{
  ℕ, zero, suc, ◌+◌, ◌-◌, ◌*◌, ◌/◌, ◌%◌, ◌<◌, Bool, List, [], ◌∷◌, ◌++◌, Option, none, some, length,
  get_elem?, take, drop, leb, ltb, if◌then◌else◌, All, Text, Error, range_error, type_error,
  syntax_error, Result, ok, err,
}

abbrev pub Bytes : Type 0
Bytes = List ℕ

abbrev pub IsBytes : Bytes → Type 0
IsBytes = All (λ b. b < 256)

-- `buffer.subarray(start, end)` and `buffer.slice(start, end)`, with both ends clamped.
unfoldable pub subarray : Bytes → ℕ → ℕ → Bytes
subarray buffer start end = take (end - start) (drop start buffer)

-- `Buffer.concat(buffers)`
unfoldable pub concat : List Bytes → Bytes
concat [] = []
concat (b ∷ bs) = b ++ concat bs

-- The number that little-endian bytes stand for.
unfoldable pub le_value : Bytes → ℕ
le_value [] = 0
le_value (b ∷ bs) = b + 256 * le_value bs

-- The little-endian bytes of a number, and the rest of it is lost.
unfoldable pub le_bytes : ℕ → ℕ → Bytes
le_bytes zero n = []
le_bytes (suc w) n = (n % 256) ∷ le_bytes w (n / 256)

-- `readUInt16LE`, `readUInt32LE` and `readBigUInt64LE`: `width` bytes, or a RangeError.
unfoldable pub read_uint_le : ℕ → Bytes → ℕ → Result ℕ
read_uint_le width buffer offset =
    if leb (offset + width) (length buffer)
    then ok (le_value (take width (drop offset buffer)))
    else err range_error

-- `buffer[offset]` is `get_elem? buffer offset`; this is `BigInt(buffer[offset])`.
abbrev pub big_int : Option ℕ → Result ℕ
big_int none = err type_error
big_int (some n) = ok n

unfoldable pub hex_symbol : ℕ → ℕ
hex_symbol d = if ltb d 10 then b'0' + d else b'a' + d - 10

-- `buffer.toString("hex")`
unfoldable pub to_hex : Bytes → Text
unfolding hex_symbol
to_hex [] = []
to_hex (b ∷ bs) = hex_symbol (b / 16) ∷ hex_symbol (b % 16) ∷ to_hex bs

unfoldable pub hex_digit : ℕ → ℕ
hex_digit c = if ltb c b'a' then c - b'0' else c + 10 - b'a'

hex_value : ℕ → Text → ℕ
hex_value acc [] = acc
hex_value acc (c ∷ s) = hex_value (acc * 16 + hex_digit c) s

-- `BigInt("0x" + digits)`: with no digit it is a SyntaxError.
unfoldable pub big_int_of_hex : Text → Result ℕ
unfolding hex_value hex_digit
big_int_of_hex [] = err syntax_error
big_int_of_hex (c ∷ s) = ok (hex_value 0 (c ∷ s))
