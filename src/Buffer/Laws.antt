-- ===== src/Buffer/Laws.antt =====
-- Reading from a buffer: what a read gives where the bytes are there, and past the end.
use native.Mathlib.Nat.{pow-suc}
use via_solana_gateway_v.Prelude.{
  ℕ, zero, suc, ◌+◌, ◌-◌, ◌^◌, ◌/◌, ◌≤◌, ◌<◌, ◌≡◌, refl, sym, ap, ◌∙◌, [], ◌∷◌, ◌++◌, some, length,
  get_elem?, take, drop, le→leb, lt→leb, length-append, length-drop, take-append_length,
  drop-append_length, drop-drop, get_elem?-drop, arith, range_error, ok, err,
}
use via_solana_gateway_v.Buffer.{Bytes, IsBytes, subarray, le_value, le_bytes, read_uint_le}

pub length-le_bytes : (w n : ℕ) → length (le_bytes w n) ≡ w
unfolding le_bytes
length-le_bytes zero n = refl
length-le_bytes (suc w) n = ap suc (length-le_bytes w (n / 256))

pub le_value-le_bytes : (w n : ℕ) → n < 256 ^ w → le_value (le_bytes w n) ≡ n
unfolding le_value le_bytes
le_value-le_bytes zero n h = omega arith
le_value-le_bytes (suc w) n h =
    omega (arith, le_value-le_bytes w (n / 256) (omega (arith, pow-suc 256 w)))

pub le_value-lt : (bs : Bytes) → IsBytes bs → le_value bs < 256 ^ length bs
unfolding le_value
le_value-lt [] h = omega arith
le_value-lt (b ∷ bs) h = omega (arith, le_value-lt bs h.1, pow-suc 256 (length bs))

pub IsBytes-le_bytes : (w n : ℕ) → IsBytes (le_bytes w n)
unfolding le_bytes
IsBytes-le_bytes zero n = tt
IsBytes-le_bytes (suc w) n = (omega arith, IsBytes-le_bytes w (n / 256))

-- From `offset` on the buffer holds `bytes`, and nothing after them.
abbrev pub At : Bytes → ℕ → Bytes → Type 0
At buffer offset bytes = drop offset buffer ≡ bytes

-- The end is a variable with an equation, since sums with variables do not compute.
pub At-next :
    (buffer xs rest : Bytes) (offset end : ℕ)
    → At buffer offset (xs ++ rest)
    → end ≡ offset + length xs
    → At buffer end rest
At-next buffer xs rest offset end h e =
    drop-drop offset (length xs) end buffer e ∙ ap (drop (length xs)) h ∙ drop-append_length xs rest

-- The prefix that the buffer starts with, and what follows it.
pub At-start : (xs rest : Bytes) → At (xs ++ rest) (length xs) rest
At-start xs rest = drop-append_length xs rest

in_range :
    (buffer xs rest : Bytes) (offset : ℕ)
    → At buffer offset (xs ++ rest)
    → 0 < length xs
    → offset + length xs ≤ length buffer
in_range buffer xs rest offset h pos =
    omega (arith, ap length h, length-drop offset buffer, length-append xs rest)

pub read_uint_le-At :
    (w n : ℕ) (buffer rest : Bytes) (offset : ℕ)
    → At buffer offset (le_bytes w n ++ rest)
    → 0 < w
    → n < 256 ^ w
    → read_uint_le w buffer offset ≡ ok n
unfolding read_uint_le
read_uint_le-At w n buffer rest offset h pos small =
    rw (le→leb (offset + w) (length buffer) fits) (ap ok value)
  where
    width : length (le_bytes w n) ≡ w
    width = length-le_bytes w n

    fits : offset + w ≤ length buffer
    fits = omega (arith, in_range buffer (le_bytes w n) rest offset h (omega (arith, width)), width)

    value : le_value (take w (drop offset buffer)) ≡ n
    value =
        ap (λ l. le_value (take w l)) h
        ∙ ap (λ k. le_value (take k (le_bytes w n ++ rest))) (sym width)
        ∙ ap le_value (take-append_length (le_bytes w n) rest)
        ∙ le_value-le_bytes w n small

pub read_uint_le_short :
    (w : ℕ) (buffer : Bytes) (offset : ℕ)
    → length buffer < offset + w
    → read_uint_le w buffer offset ≡ err range_error
unfolding read_uint_le
read_uint_le_short w buffer offset h = rw (lt→leb (offset + w) (length buffer) h)

pub subarray-At :
    (buffer xs rest : Bytes) (offset end : ℕ)
    → At buffer offset (xs ++ rest)
    → end ≡ offset + length xs
    → subarray buffer offset end ≡ xs
unfolding subarray
subarray-At buffer xs rest offset end h e =
    let k : end - offset ≡ length xs = omega arith in
    rw k (ap (take (length xs)) h ∙ take-append_length xs rest)

pub get_elem?-At :
    (buffer rest : Bytes) (offset b : ℕ)
    → At buffer offset (b ∷ rest)
    → get_elem? buffer offset ≡ some b
get_elem?-At buffer rest offset b h =
    get_elem?-drop offset 0 offset buffer (omega arith) ∙ ap (λ l. get_elem? l 0) h
