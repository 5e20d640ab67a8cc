-- ===== src/Decoders/Utils/Errors.antt =====
-- Which exceptions the readers of decoders/utils.ts throw.
use via_solana_gateway_v.Prelude.{
  ℕ, zero, suc, ◌+◌, ◌<◌, ◌≤◌, ◌⊎◌, take, drop, le→leb, ◌≡◌, ◌≢◌, ◌↔◌, refl, Bool, true, false,
  List, [], ◌∷◌, ◌++◌, length, leb, leb→le, Bool-cases, inl, inr, if◌then◌else◌, arith, Text, Error,
  Result, ok, err, ◌>>=◌, type_error, range_error, syntax_error,
}
use via_solana_gateway_v.Buffer.{
  Bytes, IsBytes, subarray, le_value, read_uint_le, to_hex, big_int_of_hex,
}
use via_solana_gateway_v.Decoders.Utils.{
  base58_encode, read_u128_le, read_vec_u8, pubkey_loop, VecPubkey, read_vec_pubkey,
  MessageSignature, read_message_signature, signature_loop, read_vec_message_signature,
}
use via_solana_gateway_v.Decoders.Utils.Reads.{read_u128_le_short}
use via_solana_gateway_v.Decoders.Utils.Bounds.{read_u128_le-le_bytes}
use via_solana_gateway_v.Buffer.Laws.{read_uint_le_short}

-- The exception is not `x`, if there is one.
abbrev pub Avoids : {A : Type 0} → Error → Result A → Type 0
Avoids x (ok a) = Unit {0}
Avoids x (err e) = e ≢ x

Avoids-ne : {A : Type 0} (x : Error) (r : Result A) → Avoids x r → r ≡ err x → ⊥
Avoids-ne x (ok a) h e = cc
Avoids-ne x (err y) h e = h cc

pub Avoids-bind :
    {A B : Type 0} (x : Error) (r : Result A) (f : A → Result B)
    → Avoids x r
    → ((a : A) → Avoids x (f a))
    → Avoids x (r >>= f)
Avoids-bind x (ok a) f h k = k a
Avoids-bind x (err e) f h k = h

pub Avoids-if :
    {A : Type 0} (x : Error) (b : Bool) (r s : Result A)
    → Avoids x r
    → Avoids x s
    → Avoids x (if b then r else s)
Avoids-if x true r s h k = h
Avoids-if x false r s h k = k

pub syntax-ne-range : syntax_error ≢ range_error
syntax-ne-range e = cc

pub syntax-ne-type : syntax_error ≢ type_error
syntax-ne-type e = cc

pub range-ne-type : range_error ≢ type_error
range-ne-type e = cc

module _ (x : Error) (not_syntax : syntax_error ≢ x) where
  big_int_of_hex-Avoids : (s : Text) → Avoids x (big_int_of_hex s)
  unfolding big_int_of_hex
  big_int_of_hex-Avoids [] = not_syntax
  big_int_of_hex-Avoids (c ∷ s) = tt

  pub base58_encode-Avoids : (b : Bytes) → Avoids x (base58_encode b)
  unfolding base58_encode
  base58_encode-Avoids b = Avoids-bind x _ _ (big_int_of_hex-Avoids (to_hex b)) (λ n. tt)

  pubkey_loop-Avoids :
      (rounds : ℕ) (keys : List Text) (buffer : Bytes) (offset : ℕ)
      → Avoids x (pubkey_loop rounds keys buffer offset)
  unfolding pubkey_loop
  pubkey_loop-Avoids zero keys buffer offset = tt
  pubkey_loop-Avoids (suc rounds) keys buffer offset =
      Avoids-bind x _ _ (base58_encode-Avoids (subarray buffer offset (offset + 32)))
        (λ key. pubkey_loop-Avoids rounds (keys ++ key ∷ []) buffer (offset + 32))

  signature_loop-Avoids :
      (rounds : ℕ) (sigs : List MessageSignature) (buffer : Bytes) (offset : ℕ)
      → Avoids x (signature_loop rounds sigs buffer offset)
  unfolding signature_loop read_message_signature
  signature_loop-Avoids zero sigs buffer offset = tt
  signature_loop-Avoids (suc rounds) sigs buffer offset =
      Avoids-bind x _ _
        (Avoids-bind x _ _ (base58_encode-Avoids (subarray buffer (offset + 64) (offset + 96)))
          (λ key. tt))
        (λ (sig, next). signature_loop-Avoids rounds (sigs ++ sig ∷ []) buffer next)

  module _ (not_range : range_error ≢ x) where
    pub read_uint_le-Avoids :
        (w : ℕ) (buffer : Bytes) (offset : ℕ) → Avoids x (read_uint_le w buffer offset)
    unfolding read_uint_le
    read_uint_le-Avoids w buffer offset =
        Avoids-if x (leb (offset + w) (length buffer)) _ _ tt not_range

    pub read_vec_u8-Avoids : (buffer : Bytes) (offset : ℕ) → Avoids x (read_vec_u8 buffer offset)
    unfolding read_vec_u8
    read_vec_u8-Avoids buffer offset =
        Avoids-bind x _ _ (read_uint_le-Avoids 4 buffer offset) (λ n. tt)

    pub read_vec_message_signature-Avoids :
        (buffer : Bytes) (offset : ℕ) → Avoids x (read_vec_message_signature buffer offset)
    unfolding read_vec_message_signature
    read_vec_message_signature-Avoids buffer offset =
        Avoids-bind x _ _ (read_uint_le-Avoids 4 buffer offset) (λ n.
          Avoids-bind x _ _ (signature_loop-Avoids n [] buffer (offset + 4)) (λ (sigs, next). tt))

in_range-cases : (end size : ℕ) → (end ≤ size) ⊎ (size < end)
in_range-cases end size = elim (Bool-cases (leb end size)) [
  | inl e ↦ inl (leb→le end size e)
  | inr e ↦ inr (ground arith)
]

read_uint_le_long :
    (w : ℕ) (buffer : Bytes) (offset : ℕ)
    → offset + w ≤ length buffer
    → read_uint_le w buffer offset ≡ ok (le_value (take w (drop offset buffer)))
unfolding read_uint_le
read_uint_le_long w buffer offset h = rw (le→leb (offset + w) (length buffer) h) refl

-- A decoder that throws where its buffer is too short, and nothing of the kind where it is not.
throws_iff :
    {A : Type 0} (x : Error) (r : Result A) (end size : ℕ)
    → (end ≤ size → Avoids x r)
    → (size < end → r ≡ err x)
    → (r ≡ err x) ↔ (size < end)
throws_iff x r end size long short = (
  λ threw. elim (in_range-cases end size) [
    | inl fits ↦ absurd (Avoids-ne x r (long fits) threw)
    | inr h ↦ h
  ],
  short,
)

-- A decoder that goes on from a transaction id, and throws no TypeError from there on.
pub read_u128_le_iff :
    {A : Type 0} (buffer : Bytes) (offset : ℕ) (f : ℕ → Result A)
    → IsBytes buffer
    → ((n : ℕ) → Avoids type_error (f n))
    → ((read_u128_le buffer offset >>= f) ≡ err type_error) ↔ (length buffer < offset + 16)
read_u128_le_iff buffer offset f h avoids =
    throws_iff type_error (read_u128_le buffer offset >>= f) (offset + 16) (length buffer)
      (λ fits.
        let (n, read, small, wire) = read_u128_le-le_bytes buffer offset h fits in
        rw read (avoids n))
      (λ short. rw (read_u128_le_short buffer offset short) refl)

-- The same for a chain id, or another number of 8 bytes, and the RangeError.
pub read_uint_le_iff :
    {A : Type 0} (buffer : Bytes) (offset : ℕ) (f : ℕ → Result A)
    → ((n : ℕ) → Avoids range_error (f n))
    → ((read_uint_le 8 buffer offset >>= f) ≡ err range_error) ↔ (length buffer < offset + 8)
read_uint_le_iff buffer offset f avoids =
    throws_iff range_error (read_uint_le 8 buffer offset >>= f) (offset + 8) (length buffer)
      (λ fits. rw (read_uint_le_long 8 buffer offset fits) (avoids _))
      (λ short. rw (read_uint_le_short 8 buffer offset short) refl)

-- And for a chain id with a vector of keys behind it.
pub read_vec_pubkey_iff :
    {A : Type 0} (buffer : Bytes) (offset : ℕ) (f : ℕ → VecPubkey → Result A)
    → ((n : ℕ) (keys : VecPubkey) → Avoids range_error (f n keys))
    → ((read_uint_le 8 buffer offset >>= λ n. (read_vec_pubkey buffer (offset + 8) >>= f n))
        ≡ err range_error)
      ↔ (length buffer < offset + 12)
unfolding read_vec_pubkey
read_vec_pubkey_iff buffer offset f avoids =
    throws_iff range_error _ (offset + 12) (length buffer)
      (λ fits.
        rw
          (
            read_uint_le_long 8 buffer offset (omega arith),
            read_uint_le_long 4 buffer (offset + 8) (omega arith),
          )
          (Avoids-bind range_error _ _
            (Avoids-bind range_error _ _
              (pubkey_loop-Avoids range_error syntax-ne-range _ [] buffer (offset + 8 + 4))
              (λ (keys, next). tt))
            (λ keys. avoids _ keys)))
      (λ short. elim (in_range-cases (offset + 8) (length buffer)) [
        | inl fits ↦
            rw
              (
                read_uint_le_long 8 buffer offset fits,
                read_uint_le_short 4 buffer (offset + 8) (omega arith),
              )
              refl
        | inr h ↦ rw (read_uint_le_short 8 buffer offset h) refl
      ])
