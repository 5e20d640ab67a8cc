-- ===== src/Decoders/Instructions/RoundTrip/Signers.antt =====
-- The decoders of the gateway and signer registry instructions in decoders/instructions.ts on data
-- in the program's wire format.
use via_solana_gateway_v.Prelude.{
  ℕ, ◌+◌, ◌*◌, ◌^◌, ◌<◌, ◌≡◌, List, [], ◌∷◌, ◌++◌, map, length, get_elem?, some, All, arith, ok,
}
use via_solana_gateway_v.Prelude.Digits.{to_string}
use via_solana_gateway_v.Buffer.{Bytes, le_bytes, read_uint_le, subarray}
use via_solana_gateway_v.Buffer.Laws.{
  At, At-next, At-start, length-le_bytes, read_uint_le-At, get_elem?-At, subarray-At,
}
use via_solana_gateway_v.Decoders.Utils.{
  base58_encode, read_vec_pubkey, decode_signer_registry_type, get_chain_name,
}
use via_solana_gateway_v.Decoders.Utils.Base58.{base58_text, base58_encode-eq-text}
use via_solana_gateway_v.Decoders.Utils.Reads.{
  IsKey, vec_pubkey, read_vec_pubkey-At, length-vec_pubkey,
}
use via_solana_gateway_v.Decoders.Instructions.Fields.{
  is_not_zero, decode_initialize_gateway, decode_set_system_enabled,
  decode_initialize_signer_registry, decode_update_signers, decode_add_signer, decode_remove_signer,
  decode_update_threshold, decode_set_registry_enabled,
}

module _ (disc rest : Bytes) (eight : length disc ≡ 8) where
  At-payload : (payload : Bytes) → At (disc ++ payload) 8 payload
  At-payload payload = rw eight at (At-start disc payload)

  -- The chain id of an initialize_gateway instruction is decoded.
  pub decode_initialize_gateway-wire :
      (chain_id : ℕ)
      → chain_id < 2 ^ 64
      → decode_initialize_gateway (disc ++ (le_bytes 8 chain_id ++ rest))
        ≡ ok (record { chain_id = to_string chain_id; chain_name = get_chain_name chain_id })
  unfolding decode_initialize_gateway
  decode_initialize_gateway-wire chain_id h = rw (
      read_uint_le-At 8 chain_id (disc ++ (le_bytes 8 chain_id ++ rest)) rest 8 (At-payload _)
        (omega arith) h)

  decode_set_system_enabled-wire :
      (enabled : ℕ)
      → decode_set_system_enabled (disc ++ (enabled ∷ rest))
        ≡ record { enabled = is_not_zero (some enabled) }
  unfolding decode_set_system_enabled
  decode_set_system_enabled-wire enabled =
      rw (get_elem?-At (disc ++ (enabled ∷ rest)) rest 8 enabled (At-payload _))

  -- What the six registry instructions begin with: the registry's type and its chain.
  module _ (registry_type chain_id : ℕ) (small : chain_id < 2 ^ 64) where
    abbrev registry_data : Bytes → Bytes
    registry_data fields = disc ++ (registry_type ∷ (le_bytes 8 chain_id ++ fields))

    At-chain : (fields : Bytes) → At (registry_data fields) 9 (le_bytes 8 chain_id ++ fields)
    At-chain fields =
        At-next (registry_data fields) (registry_type ∷ []) (le_bytes 8 chain_id ++ fields) 8 9
          (At-payload _) (omega arith)

    At-fields : (fields : Bytes) → At (registry_data fields) 17 fields
    At-fields fields =
        At-next (registry_data fields) (le_bytes 8 chain_id) fields 9 17 (At-chain fields)
          (omega (arith, length-le_bytes 8 chain_id))

    read_type : (fields : Bytes) → get_elem? (registry_data fields) 8 ≡ some registry_type
    read_type fields = get_elem?-At (registry_data fields) _ 8 registry_type (At-payload _)

    read_chain : (fields : Bytes) → read_uint_le 8 (registry_data fields) 9 ≡ ok chain_id
    read_chain fields =
        read_uint_le-At 8 chain_id (registry_data fields) fields 9 (At-chain fields) (omega arith)
          small

    module _ (keys : List Bytes) (threshold : ℕ) (are_keys : All IsKey keys)
        (few : length keys < 2 ^ 32) where
      abbrev signers_data : Bytes
      signers_data = registry_data (vec_pubkey keys ++ (threshold ∷ rest))

      read_signers :
          read_vec_pubkey signers_data 17
          ≡ ok (record {
            length = length keys;
            pubkeys = map base58_text keys;
            next_offset = 17 + 4 + 32 * length keys;
          })
      read_signers =
          read_vec_pubkey-At keys signers_data (threshold ∷ rest) 17 are_keys (At-fields _) few

      read_threshold : get_elem? signers_data (17 + 4 + 32 * length keys) ≡ some threshold
      read_threshold = get_elem?-At signers_data rest (17 + 4 + 32 * length keys) threshold (
          At-next signers_data (vec_pubkey keys) (threshold ∷ rest) 17 (17 + 4 + 32 * length keys)
            (At-fields _) (omega (arith, length-vec_pubkey keys are_keys)))

      -- The data of initialize_signer_registry, behind any 8 bytes and before any others, is
      -- decoded to the registry's type and chain, the signers' keys in base58 and the threshold.
      pub decode_initialize_signer_registry-wire :
          decode_initialize_signer_registry signers_data
          ≡ ok (record {
            registry_type = decode_signer_registry_type (some registry_type);
            registry_type_value = some registry_type;
            chain_id = to_string chain_id;
            chain_name = get_chain_name chain_id;
            signers = map base58_text keys;
            signer_count = length keys;
            required_signatures = some threshold;
          })
      unfolding decode_initialize_signer_registry
      decode_initialize_signer_registry-wire =
          rw (read_chain _) (rw read_signers (rw (read_type _) (rw read_threshold)))

      -- The data of update_signers, behind any 8 bytes and before any others, is decoded to the
      -- registry's type and chain, the new signers' keys in base58 and the new threshold, if the
      -- chain id fits 64 bits, the keys have 32 bytes and their number fits 32 bits.
      pub decode_update_signers-wire :
          decode_update_signers signers_data
          ≡ ok (record {
            registry_type = decode_signer_registry_type (some registry_type);
            registry_type_value = some registry_type;
            chain_id = to_string chain_id;
            chain_name = get_chain_name chain_id;
            new_signers = map base58_text keys;
            signer_count = length keys;
            new_required_signatures = some threshold;
          })
      unfolding decode_update_signers
      decode_update_signers-wire =
          rw (read_chain _) (rw read_signers (rw (read_type _) (rw read_threshold)))

    -- The key of a single signer.
    module _ (key : Bytes) (is_key : IsKey key) where
      abbrev signer_data : Bytes
      signer_data = registry_data (key ++ rest)

      read_signer : subarray signer_data 17 49 ≡ key
      read_signer = subarray-At signer_data key rest 17 49 (At-fields _) (omega (arith, is_key.0))

      encode_signer : base58_encode key ≡ ok (base58_text key)
      encode_signer = base58_encode-eq-text key is_key.1 (omega (arith, is_key.0))

      -- The data of add_signer and of remove_signer, behind any 8 bytes and before any others, is
      -- decoded by each to the registry's type and chain, and the signer's key in base58, if the
      -- chain id fits 64 bits and the key has 32 bytes.
      pub decode_signer-wire :
          (decode_add_signer signer_data
            ≡ ok (record {
              registry_type = decode_signer_registry_type (some registry_type);
              registry_type_value = some registry_type;
              chain_id = to_string chain_id;
              chain_name = get_chain_name chain_id;
              new_signer = base58_text key;
            }))
          × (decode_remove_signer signer_data
              ≡ ok (record {
                registry_type = decode_signer_registry_type (some registry_type);
                registry_type_value = some registry_type;
                chain_id = to_string chain_id;
                chain_name = get_chain_name chain_id;
                signer_to_remove = base58_text key;
              }))
      unfolding decode_add_signer decode_remove_signer
      decode_signer-wire = (
        rw (read_chain _) (rw read_signer (rw encode_signer (rw (read_type _)))),
        rw (read_chain _) (rw read_signer (rw encode_signer (rw (read_type _)))),
      )

    -- A last byte: the threshold, or the flag.
    module _ (last : ℕ) where
      abbrev byte_data : Bytes
      byte_data = registry_data (last ∷ rest)

      read_last : get_elem? byte_data 17 ≡ some last
      read_last = get_elem?-At byte_data rest 17 last (At-fields _)

      -- The data of update_threshold and of set_registry_enabled, behind any 8 bytes and before any
      -- others, is decoded to the registry's type and chain, and the threshold, or whether the last
      -- byte is not zero, if the chain id fits 64 bits.
      pub decode_last-wire :
          (decode_update_threshold byte_data
            ≡ ok (record {
              registry_type = decode_signer_registry_type (some registry_type);
              registry_type_value = some registry_type;
              chain_id = to_string chain_id;
              chain_name = get_chain_name chain_id;
              new_threshold = some last;
            }))
          × (decode_set_registry_enabled byte_data
              ≡ ok (record {
                registry_type = decode_signer_registry_type (some registry_type);
                registry_type_value = some registry_type;
                chain_id = to_string chain_id;
                chain_name = get_chain_name chain_id;
                enabled = is_not_zero (some last);
              }))
      unfolding decode_update_threshold decode_set_registry_enabled
      decode_last-wire = (
        rw (read_chain _) (rw (read_type _) (rw read_last)),
        rw (read_chain _) (rw (read_type _) (rw read_last)),
      )
