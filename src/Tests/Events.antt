-- ===== src/Tests/Events.antt =====
-- The event decoders at concrete inputs.
use via_solana_gateway_v.Prelude.{
  ℕ, zero, suc, ◌%◌, ◌<◌, ◌≡◌, refl, [], ◌∷◌, ◌++◌, map, replicate, arith, Text, codes, text_eq, ok,
}
use via_solana_gateway_v.Prelude.Digits.{print_base, to_string}
use via_solana_gateway_v.Buffer.{Bytes, IsBytes, le_bytes, to_hex, hex_symbol}
use via_solana_gateway_v.Decoders.Runtime.{Runtime}
use via_solana_gateway_v.Decoders.Utils.{get_chain_name}
use via_solana_gateway_v.Decoders.Utils.Base58.{base58_text}
use via_solana_gateway_v.Decoders.Utils.Reads.{IsKey}
use via_solana_gateway_v.Decoders.Instructions.RoundTrip.{address_text}
use via_solana_gateway_v.Decoders.Events.{
  decode_send_requested, decode_tx_pda_created, decode_message_processed,
}
use via_solana_gateway_v.Decoders.Events.RoundTrip.{
  SendRequestedArgs, IsSendRequestedArgs, send_requested_wire, decode_send_requested-wire,
  decode_events-wire,
}

abbrev bytes_of : Text → Bytes
bytes_of text = map (λ c. c % 256) text

bytes_of-IsBytes : (text : Text) → IsBytes (bytes_of text)
bytes_of-IsBytes [] = tt
bytes_of-IsBytes (c ∷ text) = (omega arith, bytes_of-IsBytes text)

abbrev plain : Runtime
plain = record {
  from_base64 = bytes_of;
  to_utf8 = λ bytes. bytes;
  from_base64-IsBytes = bytes_of-IsBytes;
}

replicate-IsBytes : (n b : ℕ) → b < 256 → IsBytes (replicate n b)
replicate-IsBytes zero b h = tt
replicate-IsBytes (suc n) b h = (h, replicate-IsBytes n b h)

abbrev a_key : Bytes
a_key = replicate 32 7

a_key-IsKey : IsKey a_key
a_key-IsKey = (refl, replicate-IsBytes 32 7 (omega arith))

abbrev disc : Bytes
disc = 217 ∷ 24 ∷ 132 ∷ 154 ∷ 4 ∷ 108 ∷ 119 ∷ 122 ∷ []

abbrev args : SendRequestedArgs
args = record {
  tx_id = 300;
  sender = a_key;
  recipient = 3 ∷ [];
  dest_chain_id = 2;
  chain_data = 104 ∷ 105 ∷ [];
  confirmations = 5;
}

args-IsSendRequestedArgs : IsSendRequestedArgs args
args-IsSendRequestedArgs = record {
  tx_id = omega arith;
  sender = a_key-IsKey;
  recipient = omega arith;
  recipient_bytes = (omega arith, tt);
  dest_chain_id = omega arith;
  chain_data = omega arith;
  confirmations = omega arith;
}

decode_send_requested-wire_example :
    decode_send_requested plain (disc ++ send_requested_wire args [])
    ≡ ok (record {
      tx_id = codes "300";
      sender = base58_text a_key;
      recipient = codes "03";
      recipient_length = 1;
      dest_chain_id = codes "2";
      dest_chain_name = codes "Ethereum";
      chain_data = codes "hi";
      chain_data_hex = codes "6869";
      confirmations = 5;
    })
unfolding to_string print_base get_chain_name text_eq address_text to_hex hex_symbol
decode_send_requested-wire_example =
    decode_send_requested-wire plain disc [] args refl args-IsSendRequestedArgs

decode_events-wire_example :
    (decode_tx_pda_created (disc ++ (le_bytes 16 9 ++ (le_bytes 8 3 ++ [])))
      ≡ ok (record {
        tx_id = codes "9";
        source_chain_id = codes "3";
        source_chain_name = codes "Polygon";
      }))
    × (decode_message_processed (disc ++ (le_bytes 16 9 ++ (le_bytes 8 3 ++ (a_key ++ []))))
        ≡ ok (record {
          tx_id = codes "9";
          source_chain_id = codes "3";
          source_chain_name = codes "Polygon";
          relayer = base58_text a_key;
        }))
unfolding to_string print_base get_chain_name text_eq
decode_events-wire_example =
    decode_events-wire disc [] a_key 9 3 refl a_key-IsKey (omega arith) (omega arith)
