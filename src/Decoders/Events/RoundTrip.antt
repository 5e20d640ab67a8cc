-- ===== src/Decoders/Events/RoundTrip.antt =====
-- The decoders of decoders/events.ts on data in the program's wire format: what they show is what
-- was emitted.
use via_solana_gateway_v.Prelude.{ℕ, ◌+◌, ◌^◌, ◌<◌, ◌≡◌, ◌++◌, length, arith, ok}
use via_solana_gateway_v.Prelude.Digits.{to_string}
use via_solana_gateway_v.Buffer.{Bytes, IsBytes, le_bytes, read_uint_le, subarray, to_hex}
use via_solana_gateway_v.Buffer.Laws.{At, At-next, length-le_bytes, read_uint_le-At, subarray-At}
use via_solana_gateway_v.Decoders.Runtime.{Runtime}
use via_solana_gateway_v.Decoders.Utils.{base58_encode, read_u128_le, get_chain_name}
use via_solana_gateway_v.Decoders.Utils.Base58.{base58_text, base58_encode-eq-text}
use via_solana_gateway_v.Decoders.Utils.Reads.{
  IsKey, read_u128_le-At, vec_u8, length-vec_u8, read_vec_u8-At,
}
use via_solana_gateway_v.Decoders.Instructions.RoundTrip.{address_text, show_address-eq, At-payload}
use via_solana_gateway_v.Decoders.Events.{
  decode_send_requested, decode_tx_pda_created, decode_message_processed,
}

-- The fields of the event send_requested.
pub record SendRequestedArgs : Type 0 where
  pub tx_id : ℕ
  pub sender : Bytes
  pub recipient : Bytes
  pub dest_chain_id : ℕ
  pub chain_data : Bytes
  pub confirmations : ℕ

pub record IsSendRequestedArgs (a : SendRequestedArgs) : Type 0 where
  pub tx_id : a.tx_id < 2 ^ 128
  pub sender : IsKey a.sender
  pub recipient : length a.recipient < 2 ^ 32
  pub recipient_bytes : IsBytes a.recipient
  pub dest_chain_id : a.dest_chain_id < 2 ^ 64
  pub chain_data : length a.chain_data < 2 ^ 32
  pub confirmations : a.confirmations < 2 ^ 16

-- The event's data behind the discriminator, in the wire format, before other bytes.
unfoldable pub send_requested_wire : SendRequestedArgs → Bytes → Bytes
send_requested_wire a rest =
    le_bytes 16 a.tx_id
    ++ (a.sender
        ++ (vec_u8 a.recipient
            ++ (le_bytes 8 a.dest_chain_id
                ++ (vec_u8 a.chain_data ++ (le_bytes 2 a.confirmations ++ rest)))))

-- The data of a send_requested event, behind any 8 bytes and before any others, is decoded to its
-- fields: numbers in decimal, the chain with its name, the sender in base58, the recipient in base58
-- or hexadecimal, the chain data as text and in hexadecimal; if the sender has 32 bytes, every other
-- field fits the wire format and the vectors' lengths fit 32 bits.
pub decode_send_requested-wire :
    (runtime : Runtime) (disc rest : Bytes) (a : SendRequestedArgs)
    → length disc ≡ 8
    → IsSendRequestedArgs a
    → decode_send_requested runtime (disc ++ send_requested_wire a rest)
      ≡ ok (record {
        tx_id = to_string a.tx_id;
        sender = base58_text a.sender;
        recipient = address_text a.recipient;
        recipient_length = length a.recipient;
        dest_chain_id = to_string a.dest_chain_id;
        dest_chain_name = get_chain_name a.dest_chain_id;
        chain_data = runtime.to_utf8 a.chain_data;
        chain_data_hex = to_hex a.chain_data;
        confirmations = a.confirmations;
      })
unfolding decode_send_requested send_requested_wire
decode_send_requested-wire runtime disc rest a e h =
    let buffer = disc ++ send_requested_wire a rest in
    let at_conf = le_bytes 2 a.confirmations ++ rest in
    let at_data = vec_u8 a.chain_data ++ at_conf in
    let at_dest = le_bytes 8 a.dest_chain_id ++ at_data in
    let at_recipient = vec_u8 a.recipient ++ at_dest in
    let at_sender = a.sender ++ at_recipient in
    let h0 = At-payload disc (send_requested_wire a rest) e in
    let h1 =
      At-next buffer (le_bytes 16 a.tx_id) at_sender 8 24 h0
        (omega (arith, length-le_bytes 16 a.tx_id)) in
    let h2 = At-next buffer a.sender at_recipient 24 56 h1 (omega (arith, h.sender.0)) in
    let o3 = 56 + 4 + length a.recipient in
    let h3 =
      At-next buffer (vec_u8 a.recipient) at_dest 56 o3 h2
        (omega (arith, length-vec_u8 a.recipient)) in
    let h4 =
      At-next buffer (le_bytes 8 a.dest_chain_id) at_data o3 (o3 + 8) h3
        (omega (arith, length-le_bytes 8 a.dest_chain_id)) in
    let o5 = o3 + 8 + 4 + length a.chain_data in
    let h5 =
      At-next buffer (vec_u8 a.chain_data) at_conf (o3 + 8) o5 h4
        (omega (arith, length-vec_u8 a.chain_data)) in
    let key : subarray buffer 24 56 ≡ a.sender =
      subarray-At buffer a.sender at_recipient 24 56 h1 (omega (arith, h.sender.0)) in
    let shown : base58_encode a.sender ≡ ok (base58_text a.sender) =
      base58_encode-eq-text a.sender h.sender.1 (omega (arith, h.sender.0)) in
    rw (read_u128_le-At a.tx_id buffer at_sender 8 h0 h.tx_id) (
      rw (read_vec_u8-At a.recipient buffer at_dest 56 h2 h.recipient) (
        rw (read_uint_le-At 8 a.dest_chain_id buffer at_data o3 h3 (omega arith) h.dest_chain_id) (
          rw (read_vec_u8-At a.chain_data buffer at_conf (o3 + 8) h4 h.chain_data) (
            rw (read_uint_le-At 2 a.confirmations buffer rest o5 h5 (omega arith) h.confirmations)
              (rw key (rw shown (rw (show_address-eq a.recipient o3 h.recipient_bytes))))))))

-- The transaction id and the chain of an event, at their places.
id_and_chain-At :
    (disc rest : Bytes) (tx_id source_chain_id : ℕ)
    → length disc ≡ 8
    → tx_id < 2 ^ 128
    → source_chain_id < 2 ^ 64
    → let buffer = disc ++ (le_bytes 16 tx_id ++ (le_bytes 8 source_chain_id ++ rest)) in
      (read_u128_le buffer 8 ≡ ok tx_id)
      × (read_uint_le 8 buffer 24 ≡ ok source_chain_id)
      × At buffer 32 rest
id_and_chain-At disc rest tx_id source_chain_id e small_id small_chain =
    let at_chain = le_bytes 8 source_chain_id ++ rest in
    let buffer = disc ++ (le_bytes 16 tx_id ++ at_chain) in
    let h0 = At-payload disc (le_bytes 16 tx_id ++ at_chain) e in
    let h1 =
      At-next buffer (le_bytes 16 tx_id) at_chain 8 24 h0
        (omega (arith, length-le_bytes 16 tx_id)) in
    (
      read_u128_le-At tx_id buffer at_chain 8 h0 small_id,
      read_uint_le-At 8 source_chain_id buffer rest 24 h1 (omega arith) small_chain,
      At-next buffer (le_bytes 8 source_chain_id) rest 24 32 h1
          (omega (arith, length-le_bytes 8 source_chain_id)),
    )

-- The data of tx_pda_created and message_processed events, behind any 8 bytes and before any others or
-- none, is decoded to its fields: the transaction id and the chain, where the former ends, and for the
-- latter the relayer's key in base58 as well; if the numbers fit 128 and 64 bits and the relayer's key
-- has 32 bytes.
pub decode_events-wire :
    (disc rest relayer : Bytes) (tx_id source_chain_id : ℕ)
    → length disc ≡ 8
    → IsKey relayer
    → tx_id < 2 ^ 128
    → source_chain_id < 2 ^ 64
    → (decode_tx_pda_created (disc ++ (le_bytes 16 tx_id ++ (le_bytes 8 source_chain_id ++ rest)))
        ≡ ok (record {
          tx_id = to_string tx_id;
          source_chain_id = to_string source_chain_id;
          source_chain_name = get_chain_name source_chain_id;
        }))
      × (decode_message_processed
            (disc ++ (le_bytes 16 tx_id ++ (le_bytes 8 source_chain_id ++ (relayer ++ rest))))
          ≡ ok (record {
            tx_id = to_string tx_id;
            source_chain_id = to_string source_chain_id;
            source_chain_name = get_chain_name source_chain_id;
            relayer = base58_text relayer;
          }))
unfolding decode_tx_pda_created decode_message_processed
decode_events-wire disc rest relayer tx_id source_chain_id e is_key small_id small_chain =
    let buffer = disc ++ (le_bytes 16 tx_id ++ (le_bytes 8 source_chain_id ++ (relayer ++ rest))) in
    let (id, chain, after) =
      id_and_chain-At disc rest tx_id source_chain_id e small_id small_chain in
    let (id', chain', h) =
      id_and_chain-At disc (relayer ++ rest) tx_id source_chain_id e small_id small_chain in
    let key = subarray-At buffer relayer rest 32 64 h (omega (arith, is_key.0)) in
    let shown : base58_encode relayer ≡ ok (base58_text relayer) =
      base58_encode-eq-text relayer is_key.1 (omega (arith, is_key.0)) in
    (rw id (rw chain), rw id' (rw chain' (rw key (rw shown))))
