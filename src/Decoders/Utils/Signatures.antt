-- ===== src/Decoders/Utils/Signatures.antt =====
-- The reader of signature vectors in decoders/utils.ts on a buffer that holds one.
use via_solana_gateway_v.Prelude.{
  ℕ, ◌+◌, ◌*◌, ◌^◌, ◌<◌, ◌≡◌, refl, sym, ap, ap₂, ◌∙◌, List, [], ◌∷◌, ◌++◌, map, append_assoc,
  append-nil, length, length-append, All, arith, ok,
}
use via_solana_gateway_v.Buffer.{Bytes, le_bytes, to_hex}
use via_solana_gateway_v.Buffer.Laws.{At, At-next, length-le_bytes, read_uint_le-At, subarray-At}
use via_solana_gateway_v.Decoders.Utils.{
  MessageSignature, read_message_signature, signature_loop, read_vec_message_signature,
}
use via_solana_gateway_v.Decoders.Utils.Reads.{IsKey}
use via_solana_gateway_v.Decoders.Utils.Base58.{base58_text, base58_encode-eq-text}

-- A signature of 64 bytes with its signer's key.
pub record Signed : Type 0 where
  pub signature : Bytes
  pub signer : Bytes

abbrev pub IsSigned : Signed → Type 0
IsSigned s = (length s.signature ≡ 64) × IsKey s.signer

-- What the decoder shows of it.
abbrev pub shown : Signed → MessageSignature
shown s = record { signature = to_hex s.signature; signer = base58_text s.signer }

unfoldable pub signed_bytes : List Signed → Bytes
signed_bytes [] = []
signed_bytes (s ∷ ss) = s.signature ++ (s.signer ++ signed_bytes ss)

-- A vector of signatures on the wire.
unfoldable pub vec_message_signature : List Signed → Bytes
vec_message_signature ss = le_bytes 4 (length ss) ++ signed_bytes ss

pub length-signed_bytes :
    (ss : List Signed) → All IsSigned ss → length (signed_bytes ss) ≡ 96 * length ss
unfolding signed_bytes
length-signed_bytes [] h = refl
length-signed_bytes (s ∷ ss) (k, h) = omega (
  arith,
  length-append s.signature (s.signer ++ signed_bytes ss),
  length-append s.signer (signed_bytes ss),
  k.0,
  k.1.0,
  length-signed_bytes ss h,
)

read_message_signature-At :
    (s : Signed) (buffer rest : Bytes) (offset : ℕ)
    → IsSigned s
    → At buffer offset (s.signature ++ (s.signer ++ rest))
    → read_message_signature buffer offset ≡ ok (shown s, offset + 96)
unfolding read_message_signature
read_message_signature-At s buffer rest offset k at =
    let after : At buffer (offset + 64) (s.signer ++ rest) =
      At-next buffer s.signature (s.signer ++ rest) offset (offset + 64) at (omega (arith, k.0)) in
    rw
      (subarray-At buffer s.signature (s.signer ++ rest) offset (offset + 64) at
        (omega (arith, k.0)))
      (rw
        (subarray-At buffer s.signer rest (offset + 64) (offset + 96) after (omega (arith, k.1.0)))
        (rw (base58_encode-eq-text s.signer k.1.1 (omega (arith, k.1.0)))))

signature_loop-At :
    (ss : List Signed) (sofar : List MessageSignature) (buffer rest : Bytes) (offset end : ℕ)
    → All IsSigned ss
    → At buffer offset (signed_bytes ss ++ rest)
    → end ≡ offset + 96 * length ss
    → signature_loop (length ss) sofar buffer offset ≡ ok (sofar ++ map shown ss, end)
unfolding signature_loop signed_bytes
signature_loop-At [] sofar buffer rest offset end h at e =
    ap ok
      (ap₂ (λ (l : List MessageSignature) (n : ℕ). (l, n)) (sym (append-nil sofar)) (omega arith))
signature_loop-At (s ∷ ss) sofar buffer rest offset end (k, h) at e =
    let here : At buffer offset (s.signature ++ (s.signer ++ (signed_bytes ss ++ rest))) =
      at
      ∙ append_assoc s.signature (s.signer ++ signed_bytes ss) rest
      ∙ ap (λ l. s.signature ++ l) (append_assoc s.signer (signed_bytes ss) rest) in
    let signer_at =
      At-next buffer s.signature (s.signer ++ (signed_bytes ss ++ rest)) offset (offset + 64) here
        (omega (arith, k.0)) in
    let next : At buffer (offset + 96) (signed_bytes ss ++ rest) =
      At-next buffer s.signer (signed_bytes ss ++ rest) (offset + 64) (offset + 96) signer_at
        (omega (arith, k.1.0)) in
    rw (read_message_signature-At s buffer (signed_bytes ss ++ rest) offset k here) (
      signature_loop-At ss (sofar ++ shown s ∷ []) buffer rest (offset + 96) end h next
        (omega arith)
      ∙ ap (λ (l : List MessageSignature). ok (l, end))
          (append_assoc sofar (shown s ∷ []) (map shown ss)))

pub read_vec_message_signature-At :
    (ss : List Signed) (buffer rest : Bytes) (offset : ℕ)
    → All IsSigned ss
    → At buffer offset (vec_message_signature ss ++ rest)
    → length ss < 2 ^ 32
    → read_vec_message_signature buffer offset
      ≡ ok (record {
        length = length ss;
        signatures = map shown ss;
        next_offset = offset + 4 + 96 * length ss;
      })
unfolding read_vec_message_signature vec_message_signature
read_vec_message_signature-At ss buffer rest offset h at small =
    rw
      (read_uint_le-At 4 (length ss) buffer (signed_bytes ss ++ rest) offset here (omega arith)
        small)
      (rw (
        signature_loop-At ss [] buffer rest (offset + 4) (offset + 4 + 96 * length ss) h after
          refl))
  where
    here : At buffer offset (le_bytes 4 (length ss) ++ (signed_bytes ss ++ rest))
    here = at ∙ append_assoc (le_bytes 4 (length ss)) (signed_bytes ss) rest

    after : At buffer (offset + 4) (signed_bytes ss ++ rest)
    after =
        At-next buffer (le_bytes 4 (length ss)) (signed_bytes ss ++ rest) offset (offset + 4) here
          (omega (arith, length-le_bytes 4 (length ss)))
