-- ===== src/Decoders/Instructions/Fields.antt =====
-- The decoders of single instructions in decoders/instructions.ts. Each skips the 8 bytes of the
-- discriminator and reads its fields one after another.
use via_solana_gateway_v.Prelude.{
  ℕ, zero, suc, ◌+◌, Bool, true, false, Option, none, some, get_elem?, ◌==◌, if◌then◌else◌, Text,
  Result, ok, ◌>>=◌,
}
use via_solana_gateway_v.Prelude.Digits.{to_string}
use via_solana_gateway_v.Buffer.{Bytes, subarray, read_uint_le, to_hex}
use via_solana_gateway_v.Decoders.Runtime.{Runtime}
use via_solana_gateway_v.Decoders.Utils.{
  base58_encode, read_u128_le, VecU8, read_vec_u8, read_vec_pubkey, read_vec_message_signature,
  decode_signer_registry_type, get_chain_name,
}
use via_solana_gateway_v.Decoders.Instructions.Types.{
  InitializeGatewayDecoded, SendMessageDecoded, CreateTxPdaDecoded, SetSystemEnabledDecoded,
  InitializeSignerRegistryDecoded, UpdateSignersDecoded, AddSignerDecoded, RemoveSignerDecoded,
  UpdateThresholdDecoded, SetRegistryEnabledDecoded, ProcessMessageDecoded,
}

-- v.length === 32 ? base58Encode(v.data) : v.data.toString("hex")
unfoldable pub show_address : VecU8 → Result Text
show_address v = if v.length == 32 then base58_encode v.bytes else ok (to_hex v.bytes)

-- `buffer[offset] !== 0`; undefined is not 0.
unfoldable pub is_not_zero : Option ℕ → Bool
is_not_zero none = true
is_not_zero (some zero) = false
is_not_zero (some (suc n)) = true

unfoldable pub decode_initialize_gateway : Bytes → Result InitializeGatewayDecoded
decode_initialize_gateway buffer = do
  chain_id ← read_uint_le 8 buffer 8
  ok (record { chain_id = to_string chain_id; chain_name = get_chain_name chain_id })

unfoldable pub decode_send_message : Runtime → Bytes → Result SendMessageDecoded
decode_send_message runtime buffer = do
  tx_id ← read_u128_le buffer 8
  recipient ← read_vec_u8 buffer (8 + 16)
  dest_chain_id ← read_uint_le 8 buffer recipient.next_offset
  chain_data ← read_vec_u8 buffer (recipient.next_offset + 8)
  confirmations ← read_uint_le 2 buffer chain_data.next_offset
  recipient_shown ← show_address recipient
  ok (record {
    tx_id = to_string tx_id;
    recipient = recipient_shown;
    recipient_length = recipient.length;
    dest_chain_id = to_string dest_chain_id;
    dest_chain_name = get_chain_name dest_chain_id;
    chain_data = runtime.to_utf8 chain_data.bytes;
    chain_data_hex = to_hex chain_data.bytes;
    confirmations = confirmations;
  })

unfoldable pub decode_create_tx_pda : Runtime → Bytes → Result CreateTxPdaDecoded
decode_create_tx_pda runtime buffer = do
  tx_id ← read_u128_le buffer 8
  source_chain_id ← read_uint_le 8 buffer (8 + 16)
  dest_chain_id ← read_uint_le 8 buffer (8 + 16 + 8)
  sender ← read_vec_u8 buffer (8 + 16 + 8 + 8)
  recipient ← read_vec_u8 buffer sender.next_offset
  on_chain_data ← read_vec_u8 buffer recipient.next_offset
  off_chain_data ← read_vec_u8 buffer on_chain_data.next_offset
  signatures ← read_vec_message_signature buffer off_chain_data.next_offset
  sender_shown ← show_address sender
  recipient_shown ← show_address recipient
  ok (record {
    tx_id = to_string tx_id;
    source_chain_id = to_string source_chain_id;
    source_chain_name = get_chain_name source_chain_id;
    dest_chain_id = to_string dest_chain_id;
    dest_chain_name = get_chain_name dest_chain_id;
    sender = sender_shown;
    sender_length = sender.length;
    recipient = recipient_shown;
    recipient_length = recipient.length;
    on_chain_data = runtime.to_utf8 on_chain_data.bytes;
    on_chain_data_hex = to_hex on_chain_data.bytes;
    off_chain_data = runtime.to_utf8 off_chain_data.bytes;
    off_chain_data_hex = to_hex off_chain_data.bytes;
    signatures = signatures.signatures;
    signature_count = signatures.length;
  })

-- The caller's constructor puts the instruction's name right.
unfoldable pub decode_process_message : Runtime → Bytes → Result ProcessMessageDecoded
decode_process_message runtime buffer = decode_create_tx_pda runtime buffer

unfoldable pub decode_set_system_enabled : Bytes → SetSystemEnabledDecoded
decode_set_system_enabled buffer = record { enabled = is_not_zero (get_elem? buffer 8) }

unfoldable pub decode_initialize_signer_registry : Bytes → Result InitializeSignerRegistryDecoded
decode_initialize_signer_registry buffer = do
  let registry_type = get_elem? buffer 8
  chain_id ← read_uint_le 8 buffer (8 + 1)
  signers ← read_vec_pubkey buffer (8 + 1 + 8)
  let required_signatures = get_elem? buffer signers.next_offset
  ok (record {
    registry_type = decode_signer_registry_type registry_type;
    registry_type_value = registry_type;
    chain_id = to_string chain_id;
    chain_name = get_chain_name chain_id;
    signers = signers.pubkeys;
    signer_count = signers.length;
    required_signatures = required_signatures;
  })

unfoldable pub decode_update_signers : Bytes → Result UpdateSignersDecoded
decode_update_signers buffer = do
  let registry_type = get_elem? buffer 8
  chain_id ← read_uint_le 8 buffer (8 + 1)
  signers ← read_vec_pubkey buffer (8 + 1 + 8)
  let required_signatures = get_elem? buffer signers.next_offset
  ok (record {
    registry_type = decode_signer_registry_type registry_type;
    registry_type_value = registry_type;
    chain_id = to_string chain_id;
    chain_name = get_chain_name chain_id;
    new_signers = signers.pubkeys;
    signer_count = signers.length;
    new_required_signatures = required_signatures;
  })

unfoldable pub decode_add_signer : Bytes → Result AddSignerDecoded
decode_add_signer buffer = do
  let registry_type = get_elem? buffer 8
  chain_id ← read_uint_le 8 buffer (8 + 1)
  new_signer ← base58_encode (subarray buffer (8 + 1 + 8) (8 + 1 + 8 + 32))
  ok (record {
    registry_type = decode_signer_registry_type registry_type;
    registry_type_value = registry_type;
    chain_id = to_string chain_id;
    chain_name = get_chain_name chain_id;
    new_signer = new_signer;
  })

unfoldable pub decode_remove_signer : Bytes → Result RemoveSignerDecoded
decode_remove_signer buffer = do
  let registry_type = get_elem? buffer 8
  chain_id ← read_uint_le 8 buffer (8 + 1)
  signer_to_remove ← base58_encode (subarray buffer (8 + 1 + 8) (8 + 1 + 8 + 32))
  ok (record {
    registry_type = decode_signer_registry_type registry_type;
    registry_type_value = registry_type;
    chain_id = to_string chain_id;
    chain_name = get_chain_name chain_id;
    signer_to_remove = signer_to_remove;
  })

unfoldable pub decode_update_threshold : Bytes → Result UpdateThresholdDecoded
decode_update_threshold buffer = do
  let registry_type = get_elem? buffer 8
  chain_id ← read_uint_le 8 buffer (8 + 1)
  let new_threshold = get_elem? buffer (8 + 1 + 8)
  ok (record {
    registry_type = decode_signer_registry_type registry_type;
    registry_type_value = registry_type;
    chain_id = to_string chain_id;
    chain_name = get_chain_name chain_id;
    new_threshold = new_threshold;
  })

unfoldable pub decode_set_registry_enabled : Bytes → Result SetRegistryEnabledDecoded
decode_set_registry_enabled buffer = do
  let registry_type = get_elem? buffer 8
  chain_id ← read_uint_le 8 buffer (8 + 1)
  let enabled = is_not_zero (get_elem? buffer (8 + 1 + 8))
  ok (record {
    registry_type = decode_signer_registry_type registry_type;
    registry_type_value = registry_type;
    chain_id = to_string chain_id;
    chain_name = get_chain_name chain_id;
    enabled = enabled;
  })
