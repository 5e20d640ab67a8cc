-- ===== src/Decoders/Events.antt =====
-- decoders/events.ts: the decoders of single events, `decodeEvent` and `isLikelyEvent`.
mod Types
pub mod RoundTrip
pub use Types.*
use via_solana_gateway_v.Prelude.{
  ℕ, ◌+◌, Bool, true, false, ◌||◌, List, [], ◌∷◌, ◌++◌, Option, none, some, get_elem?, length, ltb,
  if◌then◌else◌, Text, codes, text_eq, Error, thrown, Result, ok, err, ◌>>=◌,
}
use via_solana_gateway_v.Prelude.Digits.{to_string}
use via_solana_gateway_v.Buffer.{Bytes, subarray, read_uint_le, to_hex}
use via_solana_gateway_v.Decoders.Runtime.{Runtime}
use via_solana_gateway_v.Decoders.Tables.{lookup, reverse_table, values_include}
use via_solana_gateway_v.Decoders.Utils.{base58_encode, read_u128_le, read_vec_u8, get_chain_name}
use via_solana_gateway_v.Decoders.Instructions.{show_address, is_not_zero}
use via_solana_gateway_v.Decoders.Instructions.Dispatch.{discriminator_of}

abbrev pub event_discriminators : List (Text × Text)
event_discriminators =
    (codes "send_requested", codes "d918849a046c777a")
    ∷ (codes "tx_pda_created", codes "7c5c5b3bb0d17af1")
    ∷ (codes "message_processed", codes "3d2b1c5a9a8b7f6e")
    ∷ (codes "system_status_changed", codes "1a2b3c4d5e6f7a8b")
    ∷ []

unfoldable pub discriminator_to_event : List (Text × Text)
discriminator_to_event = reverse_table [] event_discriminators

unfoldable pub decode_send_requested : Runtime → Bytes → Result SendRequestedDecoded
decode_send_requested runtime buffer = do
  tx_id ← read_u128_le buffer 8
  let sender = subarray buffer (8 + 16) (8 + 16 + 32)
  recipient ← read_vec_u8 buffer (8 + 16 + 32)
  dest_chain_id ← read_uint_le 8 buffer recipient.next_offset
  chain_data ← read_vec_u8 buffer (recipient.next_offset + 8)
  confirmations ← read_uint_le 2 buffer chain_data.next_offset
  sender_shown ← base58_encode sender
  recipient_shown ← show_address recipient
  ok (record {
    tx_id = to_string tx_id;
    sender = sender_shown;
    recipient = recipient_shown;
    recipient_length = recipient.length;
    dest_chain_id = to_string dest_chain_id;
    dest_chain_name = get_chain_name dest_chain_id;
    chain_data = runtime.to_utf8 chain_data.bytes;
    chain_data_hex = to_hex chain_data.bytes;
    confirmations = confirmations;
  })

unfoldable pub decode_tx_pda_created : Bytes → Result TxPdaCreatedDecoded
decode_tx_pda_created buffer = do
  tx_id ← read_u128_le buffer 8
  source_chain_id ← read_uint_le 8 buffer (8 + 16)
  ok (record {
    tx_id = to_string tx_id;
    source_chain_id = to_string source_chain_id;
    source_chain_name = get_chain_name source_chain_id;
  })

unfoldable pub decode_message_processed : Bytes → Result MessageProcessedDecoded
decode_message_processed buffer = do
  tx_id ← read_u128_le buffer 8
  source_chain_id ← read_uint_le 8 buffer (8 + 16)
  relayer ← base58_encode (subarray buffer (8 + 16 + 8) (8 + 16 + 8 + 32))
  ok (record {
    tx_id = to_string tx_id;
    source_chain_id = to_string source_chain_id;
    source_chain_name = get_chain_name source_chain_id;
    relayer = relayer;
  })

unfoldable pub decode_system_status_changed : Bytes → SystemStatusChangedDecoded
decode_system_status_changed buffer = record { enabled = is_not_zero (get_elem? buffer 8) }

-- The switch on `eventName`.
unfoldable pub decode_event_named : Runtime → Text → Bytes → Result DecodedEvent
decode_event_named runtime name buffer =
    if text_eq name (codes "send_requested")
    then (do d ← decode_send_requested runtime buffer; ok (send_requested d))
    else if text_eq name (codes "tx_pda_created")
    then (do d ← decode_tx_pda_created buffer; ok (tx_pda_created d))
    else if text_eq name (codes "message_processed")
    then (do d ← decode_message_processed buffer; ok (message_processed d))
    else if text_eq name (codes "system_status_changed")
    then ok (system_status_changed (decode_system_status_changed buffer))
    else err (thrown (codes "Decoder not implemented for " ++ name))

-- The `catch`: the exception is reported under the name of the event.
unfoldable pub event_caught : Text → Bytes → Result DecodedEvent → DecodedEvent
event_caught name buffer (ok d) = d
event_caught name buffer (err e) = error (record {
  event = name;
  error = e;
  discriminator = discriminator_of buffer;
  raw_hex = to_hex buffer;
})

-- What follows the lookup of the discriminator.
unfoldable pub decode_event_found : Runtime → Bytes → Option Text → DecodedEvent
decode_event_found runtime buffer none =
    unknown (record { discriminator = discriminator_of buffer; raw_hex = to_hex buffer })
decode_event_found runtime buffer (some name) =
    event_caught name buffer (decode_event_named runtime name buffer)

abbrev pub send_requested_discriminator : Text
send_requested_discriminator = codes "d918849a046c777a"

-- The lookup, with the special handling of send_requested.
unfoldable pub event_name_of : Text → Option Text
event_name_of discriminator =
    if text_eq discriminator send_requested_discriminator
    then some (codes "send_requested")
    else lookup discriminator discriminator_to_event

unfoldable pub decode_event : Runtime → Text → Result DecodedEvent
decode_event runtime base64 =
    let buffer = runtime.from_base64 base64 in
    if ltb (length buffer) 8
    then err (thrown (codes "Buffer too small for event discriminator"))
    else ok (decode_event_found runtime buffer (event_name_of (discriminator_of buffer)))

unfoldable pub is_likely_event : Runtime → Text → Bool
is_likely_event runtime base64 =
    let discriminator = discriminator_of (runtime.from_base64 base64) in
    if values_include event_discriminators discriminator
    then true
    else text_eq discriminator send_requested_discriminator
