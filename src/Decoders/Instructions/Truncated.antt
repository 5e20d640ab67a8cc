-- ===== src/Decoders/Instructions/Truncated.antt =====
-- What the decoders of decoders/instructions.ts and decoders/events.ts make of data that ends early.
use via_solana_gateway_v.Prelude.{ℕ, ◌+◌, ◌<◌, ◌≡◌, ◌↔◌, ◌==◌, length, type_error, range_error, err}
use via_solana_gateway_v.Buffer.{Bytes, IsBytes, subarray, read_uint_le}
use via_solana_gateway_v.Decoders.Runtime.{Runtime}
use via_solana_gateway_v.Decoders.Utils.{VecU8, base58_encode, read_vec_u8}
use via_solana_gateway_v.Decoders.Utils.Errors.{
  Avoids, Avoids-bind, Avoids-if, syntax-ne-range, syntax-ne-type, range-ne-type,
  base58_encode-Avoids, read_uint_le-Avoids, read_vec_u8-Avoids, read_vec_message_signature-Avoids,
  read_u128_le_iff, read_uint_le_iff, read_vec_pubkey_iff,
}
use via_solana_gateway_v.Decoders.Events.{
  decode_send_requested, decode_tx_pda_created, decode_message_processed,
}
use via_solana_gateway_v.Decoders.Instructions.Fields.{
  show_address, decode_initialize_gateway, decode_send_message, decode_create_tx_pda,
  decode_process_message, decode_initialize_signer_registry, decode_update_signers,
  decode_add_signer, decode_remove_signer, decode_update_threshold, decode_set_registry_enabled,
}

show_address-Avoids : (v : VecU8) → Avoids type_error (show_address v)
unfolding show_address
show_address-Avoids v =
    Avoids-if type_error (v.length == 32) _ _
      (base58_encode-Avoids type_error syntax-ne-type v.bytes) tt

module _ (buffer : Bytes) where
  number-Avoids : (w offset : ℕ) → Avoids type_error (read_uint_le w buffer offset)
  number-Avoids w offset =
      read_uint_le-Avoids type_error syntax-ne-type range-ne-type w buffer offset

  vector-Avoids : (offset : ℕ) → Avoids type_error (read_vec_u8 buffer offset)
  vector-Avoids offset = read_vec_u8-Avoids type_error syntax-ne-type range-ne-type buffer offset

  key-Avoids : (from end : ℕ) → Avoids type_error (base58_encode (subarray buffer from end))
  key-Avoids from end = base58_encode-Avoids type_error syntax-ne-type (subarray buffer from end)

  decode_create_tx_pda_iff :
      (runtime : Runtime)
      → IsBytes buffer
      → (decode_create_tx_pda runtime buffer ≡ err type_error) ↔ (length buffer < 24)
  unfolding decode_create_tx_pda
  decode_create_tx_pda_iff runtime h = read_u128_le_iff buffer 8 _ h (λ tx_id.
      Avoids-bind type_error _ _ (number-Avoids 8 24) (λ source.
        Avoids-bind type_error _ _ (number-Avoids 8 32) (λ dest.
          Avoids-bind type_error _ _ (vector-Avoids 40) (λ sender.
            Avoids-bind type_error _ _ (vector-Avoids sender.next_offset) (λ recipient.
              Avoids-bind type_error _ _ (vector-Avoids recipient.next_offset) (λ on_chain.
                Avoids-bind type_error _ _ (vector-Avoids on_chain.next_offset) (λ off_chain.
                  Avoids-bind type_error _ _
                    (read_vec_message_signature-Avoids type_error syntax-ne-type range-ne-type
                      buffer off_chain.next_offset)
                    (λ sigs. Avoids-bind type_error _ _ (show_address-Avoids sender) (λ s.
                      Avoids-bind type_error _ _ (show_address-Avoids recipient) (λ r. tt))))))))))

  -- On any buffer of bytes, every decoder of instructions and of events that reads a transaction id
  -- throws a TypeError exactly if the data ends before the end of the id.
  pub decode_type_error_iff :
      (runtime : Runtime)
      → IsBytes buffer
      → ((decode_send_message runtime buffer ≡ err type_error) ↔ (length buffer < 24))
        × ((decode_create_tx_pda runtime buffer ≡ err type_error) ↔ (length buffer < 24))
        × ((decode_process_message runtime buffer ≡ err type_error) ↔ (length buffer < 24))
        × ((decode_send_requested runtime buffer ≡ err type_error) ↔ (length buffer < 24))
        × ((decode_tx_pda_created buffer ≡ err type_error) ↔ (length buffer < 24))
        × ((decode_message_processed buffer ≡ err type_error) ↔ (length buffer < 24))
  unfolding decode_send_message decode_process_message decode_send_requested decode_tx_pda_created
      decode_message_processed
  decode_type_error_iff runtime h = (
    read_u128_le_iff buffer 8 _ h (λ tx_id.
        Avoids-bind type_error _ _ (vector-Avoids 24) (λ recipient.
          Avoids-bind type_error _ _ (number-Avoids 8 recipient.next_offset) (λ dest.
            Avoids-bind type_error _ _ (vector-Avoids (recipient.next_offset + 8)) (λ chain_data.
              Avoids-bind type_error _ _ (number-Avoids 2 chain_data.next_offset) (λ confirmations.
                Avoids-bind type_error _ _ (show_address-Avoids recipient) (λ s. tt)))))),
    decode_create_tx_pda_iff runtime h,
    decode_create_tx_pda_iff runtime h,
    read_u128_le_iff buffer 8 _ h (λ tx_id.
        Avoids-bind type_error _ _ (vector-Avoids 56) (λ recipient.
          Avoids-bind type_error _ _ (number-Avoids 8 recipient.next_offset) (λ dest.
            Avoids-bind type_error _ _ (vector-Avoids (recipient.next_offset + 8)) (λ chain_data.
              Avoids-bind type_error _ _ (number-Avoids 2 chain_data.next_offset) (λ confirmations.
                Avoids-bind type_error _ _ (key-Avoids 24 56)
                  (λ s. Avoids-bind type_error _ _ (show_address-Avoids recipient) (λ s. tt))))))),
    read_u128_le_iff buffer 8 _ h
        (λ tx_id. Avoids-bind type_error _ _ (number-Avoids 8 24) (λ source. tt)),
    read_u128_le_iff buffer 8 _ h (λ tx_id.
        Avoids-bind type_error _ _ (number-Avoids 8 24)
          (λ source. Avoids-bind type_error _ _ (key-Avoids 32 64) (λ s. tt))),
  )

  -- The decoders of initialize_gateway and of the instructions on a signer registry throw a RangeError
  -- exactly if the data ends before the end of the chain id, or for the two with a vector of keys before
  -- the end of the vector's length.
  pub decode_range_error_iff :
      ((decode_initialize_gateway buffer ≡ err range_error) ↔ (length buffer < 16))
      × ((decode_initialize_signer_registry buffer ≡ err range_error) ↔ (length buffer < 21))
      × ((decode_update_signers buffer ≡ err range_error) ↔ (length buffer < 21))
      × ((decode_add_signer buffer ≡ err range_error) ↔ (length buffer < 17))
      × ((decode_remove_signer buffer ≡ err range_error) ↔ (length buffer < 17))
      × ((decode_update_threshold buffer ≡ err range_error) ↔ (length buffer < 17))
      × ((decode_set_registry_enabled buffer ≡ err range_error) ↔ (length buffer < 17))
  unfolding decode_initialize_gateway decode_initialize_signer_registry decode_update_signers
      decode_add_signer decode_remove_signer decode_update_threshold decode_set_registry_enabled
  decode_range_error_iff =
      let key : (b : Bytes) → Avoids range_error (base58_encode b) =
        base58_encode-Avoids range_error syntax-ne-range in
      (
        read_uint_le_iff buffer 8 _ (λ n. tt),
        read_vec_pubkey_iff buffer 9 _ (λ n keys. tt),
        read_vec_pubkey_iff buffer 9 _ (λ n keys. tt),
        read_uint_le_iff buffer 9 _ (λ n. Avoids-bind range_error _ _ (key _) (λ k. tt)),
        read_uint_le_iff buffer 9 _ (λ n. Avoids-bind range_error _ _ (key _) (λ k. tt)),
        read_uint_le_iff buffer 9 _ (λ n. tt),
        read_uint_le_iff buffer 9 _ (λ n. tt),
      )
