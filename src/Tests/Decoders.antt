-- ===== src/Tests/Decoders.antt =====
-- The decoders at concrete inputs.
use via_solana_gateway_v.Prelude.{
  ◌↔◌, length, ◌&◌, ◌+◌, ℕ, zero, suc, ◌%◌, ◌<◌, ◌≡◌, ◌≢◌, refl, true, [], ◌∷◌, ◌++◌, map, some,
  replicate, arith, Text, codes, text_eq, ok, err, type_error, range_error,
}
use via_solana_gateway_v.Prelude.Digits.{print_base, to_string}
use via_solana_gateway_v.Buffer.{Bytes, IsBytes, le_bytes, to_hex, hex_symbol, big_int_of_hex}
use via_solana_gateway_v.Decoders.Runtime.{Runtime}
use via_solana_gateway_v.Decoders.Utils.{
  alphabet_at, leading_ones, base58_encode, read_u128_le, get_chain_name,
  decode_signer_registry_type,
}
use via_solana_gateway_v.Decoders.Utils.Base58.{
  base58_text, base58_decode, base58_decode-base58_encode,
}
use via_solana_gateway_v.Decoders.Utils.Reads.{IsKey, vec_u8, vec_pubkey, read_u128_le-At}
use via_solana_gateway_v.Decoders.Utils.Signatures.{vec_message_signature, signed_bytes}
use via_solana_gateway_v.Decoders.Utils.Names.{get_chain_name_injective}
use via_solana_gateway_v.Decoders.Events.{
  decode_send_requested, decode_tx_pda_created, decode_message_processed,
}
use via_solana_gateway_v.Decoders.Instructions
use via_solana_gateway_v.Decoders.Instructions.{
  SendMessageDecoded, is_not_zero, decode_send_message, decode_create_tx_pda,
  decode_process_message, decode_initialize_gateway, decode_set_system_enabled,
  decode_initialize_signer_registry, decode_update_signers, decode_add_signer, decode_remove_signer,
  decode_update_threshold, decode_set_registry_enabled,
}
use via_solana_gateway_v.Decoders.Instructions.RoundTrip.{
  SendMessageArgs, IsSendMessageArgs, send_message_wire, decode_send_message-wire, TxArgs, IsTxArgs,
  tx_wire, address_text,
}
use via_solana_gateway_v.Decoders.Instructions.RoundTrip.Signers.{
  decode_update_signers-wire, decode_signer-wire, decode_last-wire,
}
use via_solana_gateway_v.Decoders.Instructions.Truncated.{
  decode_type_error_iff, decode_range_error_iff,
}
use via_solana_gateway_v.Decoders.Index.{instruction, decode}
use via_solana_gateway_v.Decoders.Index.Classify.{kind_of, kind_by_discriminator, kind_of-decode}
use via_solana_gateway_v.Decoders.Index.Collision.{decode-ne-send_message}
use via_solana_gateway_v.Decoders.Index.EndToEnd.{create_tx_pda_bytes, decode-create_tx_pda}

-- A runtime that takes the codes of a text for the bytes.
abbrev bytes_of : Text → Bytes
bytes_of text = map (λ c. c % 256) text

bytes_of-IsBytes : (text : Text) → IsBytes (bytes_of text)
bytes_of-IsBytes [] = tt
bytes_of-IsBytes (c ∷ text) = (omega arith, bytes_of-IsBytes text)

abbrev plain : Runtime
plain = record {
  from_base64 = bytes_of;
  to_utf8 = λ bytes. bytes;
  from_base64-IsBytes = bytes_of-IsBytes;
}

base58_encode_test : base58_encode (0 ∷ 0 ∷ 255 ∷ []) ≡ ok (codes "115Q")
unfolding base58_encode big_int_of_hex to_hex leading_ones print_base alphabet_at
base58_encode_test = refl

abbrev a_key : Bytes
a_key = replicate 32 7

replicate-IsBytes : (n b : ℕ) → b < 256 → IsBytes (replicate n b)
replicate-IsBytes zero b h = tt
replicate-IsBytes (suc n) b h = (h, replicate-IsBytes n b h)

a_key-IsKey : IsKey a_key
a_key-IsKey = (refl, replicate-IsBytes 32 7 (omega arith))

abbrev args : TxArgs
args = record {
  tx_id = 300;
  source_chain_id = 1;
  dest_chain_id = 2;
  sender = 1 ∷ 2 ∷ [];
  recipient = 3 ∷ [];
  on_chain_data = 104 ∷ 105 ∷ [];
  off_chain_data = [];
  signatures = record { signature = replicate 64 9; signer = a_key } ∷ [];
}

args-IsTxArgs : IsTxArgs args
args-IsTxArgs = record {
  tx_id = omega arith;
  source_chain_id = omega arith;
  dest_chain_id = omega arith;
  sender = omega arith;
  sender_bytes = omega arith & omega arith & tt;
  recipient = omega arith;
  recipient_bytes = (omega arith, tt);
  on_chain_data = omega arith;
  off_chain_data = omega arith;
  signatures = omega arith;
  signed = ((refl, a_key-IsKey), tt);
}

abbrev base64 : Text
base64 = create_tx_pda_bytes ++ tx_wire args []

base64-bytes : plain.from_base64 base64 ≡ create_tx_pda_bytes ++ tx_wire args []
unfolding tx_wire le_bytes vec_u8 vec_message_signature signed_bytes
base64-bytes = refl

decode-create_tx_pda_example :
    decode plain base64
    ≡ instruction (
        Instructions.create_tx_pda (record {
          tx_id = codes "300";
          source_chain_id = codes "1";
          source_chain_name = codes "Solana Testnet";
          dest_chain_id = codes "2";
          dest_chain_name = codes "Ethereum";
          sender = codes "0102";
          sender_length = 2;
          recipient = codes "03";
          recipient_length = 1;
          on_chain_data = codes "hi";
          on_chain_data_hex = codes "6869";
          off_chain_data = [];
          off_chain_data_hex = [];
          signatures =
              record { signature = to_hex (replicate 64 9); signer = base58_text a_key } ∷ [];
          signature_count = 1;
        }))
unfolding to_string print_base get_chain_name text_eq address_text to_hex hex_symbol
decode-create_tx_pda_example = decode-create_tx_pda plain base64 args [] base64-bytes args-IsTxArgs

kind_of-decode_example :
    kind_of (decode plain base64) ≡ kind_by_discriminator (plain.from_base64 base64)
kind_of-decode_example = kind_of-decode plain base64

-- A decoded send_message instruction, and data with its discriminator.
abbrev sent : SendMessageDecoded
sent = record {
  tx_id = codes "1";
  recipient = codes "03";
  recipient_length = 1;
  dest_chain_id = codes "2";
  dest_chain_name = codes "Ethereum";
  chain_data = codes "hi";
  chain_data_hex = codes "6869";
  confirmations = 5;
}

abbrev sent_args : SendMessageArgs
sent_args = record {
  tx_id = 1;
  recipient = 3 ∷ [];
  dest_chain_id = 2;
  chain_data = 104 ∷ 105 ∷ [];
  confirmations = 5;
}

abbrev send_message_bytes : Bytes
send_message_bytes = 217 ∷ 24 ∷ 132 ∷ 154 ∷ 4 ∷ 108 ∷ 119 ∷ 122 ∷ []

decode-ne-send_message_example :
    decode plain (send_message_bytes ++ send_message_wire sent_args [])
    ≢ instruction (Instructions.send_message sent)
decode-ne-send_message_example =
    decode-ne-send_message plain (send_message_bytes ++ send_message_wire sent_args []) sent

sent_args-IsSendMessageArgs : IsSendMessageArgs sent_args
sent_args-IsSendMessageArgs = record {
  tx_id = omega arith;
  recipient = omega arith;
  recipient_bytes = (omega arith, tt);
  dest_chain_id = omega arith;
  chain_data = omega arith;
  confirmations = omega arith;
}

decode_send_message-wire_example :
    decode_send_message plain (send_message_bytes ++ send_message_wire sent_args []) ≡ ok sent
unfolding to_string print_base get_chain_name text_eq address_text to_hex hex_symbol
decode_send_message-wire_example =
    decode_send_message-wire plain send_message_bytes [] sent_args refl sent_args-IsSendMessageArgs

abbrev registry_bytes : Bytes
registry_bytes = 141 ∷ 93 ∷ 139 ∷ 119 ∷ 29 ∷ 93 ∷ 139 ∷ 119 ∷ []

decode_update_signers-wire_example :
    decode_update_signers
      (registry_bytes ++ (1 ∷ (le_bytes 8 7 ++ (vec_pubkey (a_key ∷ []) ++ (1 ∷ [])))))
    ≡ ok (record {
      registry_type = codes "Chain";
      registry_type_value = some 1;
      chain_id = codes "7";
      chain_name = codes "Chain 7";
      new_signers = base58_text a_key ∷ [];
      signer_count = 1;
      new_required_signatures = some 1;
    })
unfolding to_string print_base get_chain_name text_eq decode_signer_registry_type
decode_update_signers-wire_example =
    decode_update_signers-wire registry_bytes [] refl 1 7 (omega arith) (a_key ∷ []) 1
      (a_key-IsKey, tt) (omega arith)

decode_signer-wire_example :
    (decode_add_signer (registry_bytes ++ (0 ∷ (le_bytes 8 3 ++ (a_key ++ []))))
      ≡ ok (record {
        registry_type = codes "VIA";
        registry_type_value = some 0;
        chain_id = codes "3";
        chain_name = codes "Polygon";
        new_signer = base58_text a_key;
      }))
    × (decode_remove_signer (registry_bytes ++ (0 ∷ (le_bytes 8 3 ++ (a_key ++ []))))
        ≡ ok (record {
          registry_type = codes "VIA";
          registry_type_value = some 0;
          chain_id = codes "3";
          chain_name = codes "Polygon";
          signer_to_remove = base58_text a_key;
        }))
unfolding to_string print_base get_chain_name text_eq decode_signer_registry_type
decode_signer-wire_example =
    decode_signer-wire registry_bytes [] refl 0 3 (omega arith) a_key a_key-IsKey

decode_last-wire_example :
    (decode_update_threshold (registry_bytes ++ (2 ∷ (le_bytes 8 1 ++ (4 ∷ []))))
      ≡ ok (record {
        registry_type = codes "Project";
        registry_type_value = some 2;
        chain_id = codes "1";
        chain_name = codes "Solana Testnet";
        new_threshold = some 4;
      }))
    × (decode_set_registry_enabled (registry_bytes ++ (2 ∷ (le_bytes 8 1 ++ (4 ∷ []))))
        ≡ ok (record {
          registry_type = codes "Project";
          registry_type_value = some 2;
          chain_id = codes "1";
          chain_name = codes "Solana Testnet";
          enabled = true;
        }))
unfolding to_string print_base get_chain_name text_eq decode_signer_registry_type is_not_zero
decode_last-wire_example = decode_last-wire registry_bytes [] refl 2 1 (omega arith) 4

base58_decode-base58_encode_example :
    (s : Text) × (base58_encode (0 ∷ 0 ∷ 255 ∷ []) ≡ ok s) × (base58_decode s ≡ 0 ∷ 0 ∷ 255 ∷ [])
base58_decode-base58_encode_example =
    base58_decode-base58_encode 0 (0 ∷ 255 ∷ []) (omega arith & omega arith & omega arith & tt)

abbrev seven : ℕ
seven = 7

get_chain_name_injective_example : seven ≡ 3 + 4
get_chain_name_injective_example = get_chain_name_injective seven (3 + 4) refl

read_u128_le-At_example : read_u128_le (5 ∷ le_bytes 16 300) 1 ≡ ok 300
unfolding le_bytes
read_u128_le-At_example = read_u128_le-At 300 (5 ∷ le_bytes 16 300) [] 1 refl (omega arith)

-- Data of 23 bytes, the last byte of the transaction id missing.
decode_type_error_iff_example :
    let buffer : Bytes = replicate 23 7 in
    ((decode_send_message plain buffer ≡ err type_error) ↔ (length buffer < 24))
    × ((decode_create_tx_pda plain buffer ≡ err type_error) ↔ (length buffer < 24))
    × ((decode_process_message plain buffer ≡ err type_error) ↔ (length buffer < 24))
    × ((decode_send_requested plain buffer ≡ err type_error) ↔ (length buffer < 24))
    × ((decode_tx_pda_created buffer ≡ err type_error) ↔ (length buffer < 24))
    × ((decode_message_processed buffer ≡ err type_error) ↔ (length buffer < 24))
decode_type_error_iff_example = decode_type_error_iff (replicate 23 7) plain (omega arith)

-- Data of 16 bytes, the last byte of the chain id missing where a registry's type is before it.
decode_range_error_iff_example :
    let buffer : Bytes = replicate 16 7 in
    ((decode_initialize_gateway buffer ≡ err range_error) ↔ (length buffer < 16))
    × ((decode_initialize_signer_registry buffer ≡ err range_error) ↔ (length buffer < 21))
    × ((decode_update_signers buffer ≡ err range_error) ↔ (length buffer < 21))
    × ((decode_add_signer buffer ≡ err range_error) ↔ (length buffer < 17))
    × ((decode_remove_signer buffer ≡ err range_error) ↔ (length buffer < 17))
    × ((decode_update_threshold buffer ≡ err range_error) ↔ (length buffer < 17))
    × ((decode_set_registry_enabled buffer ≡ err range_error) ↔ (length buffer < 17))
decode_range_error_iff_example = decode_range_error_iff (replicate 16 7)
