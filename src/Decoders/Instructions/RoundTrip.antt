-- ===== src/Decoders/Instructions/RoundTrip.antt =====
-- The message decoders of decoders/instructions.ts on data in the program's wire format: what they
-- show is what was encoded.
pub mod Signers
use via_solana_gateway_v.Prelude.{
  ℕ, ◌+◌, ◌*◌, ◌^◌, ◌≤◌, ◌<◌, ◌≡◌, refl, sym, ap, ◌∙◌, inl, inr, List, [], ◌∷◌, ◌++◌, map, length,
  ◌==◌, if◌then◌else◌, Bool-cases, ==_iff, All, arith, Text, Result, ok, err, ◌>>=◌,
}
use via_solana_gateway_v.Prelude.Digits.{to_string}
use via_solana_gateway_v.Buffer.{Bytes, IsBytes, le_bytes, read_uint_le, to_hex}
use via_solana_gateway_v.Buffer.Laws.{At, At-next, At-start, length-le_bytes, read_uint_le-At}
use via_solana_gateway_v.Decoders.Runtime.{Runtime}
use via_solana_gateway_v.Decoders.Utils.{VecU8, get_chain_name}
use via_solana_gateway_v.Decoders.Utils.Base58.{base58_text, base58_encode-eq-text}
use via_solana_gateway_v.Decoders.Utils.Reads.{
  read_u128_le-At, vec_u8, length-vec_u8, read_vec_u8-At,
}
use via_solana_gateway_v.Decoders.Utils.Signatures.{
  Signed, IsSigned, shown, vec_message_signature, read_vec_message_signature-At,
}
use via_solana_gateway_v.Decoders.Instructions.Types.{SendMessageDecoded, CreateTxPdaDecoded}
use via_solana_gateway_v.Decoders.Instructions.Fields.{
  show_address, decode_send_message, decode_create_tx_pda,
}

-- What is shown of an address: base58 where it has the 32 bytes of a public key, else hexadecimal.
unfoldable pub address_text : Bytes → Text
address_text bytes = if length bytes == 32 then base58_text bytes else to_hex bytes

pub show_address-eq :
    (bytes : Bytes) (next : ℕ)
    → IsBytes bytes
    → show_address (record { length = length bytes; bytes = bytes; next_offset = next })
      ≡ ok (address_text bytes)
unfolding show_address address_text
show_address-eq bytes next h = elim (Bool-cases (length bytes == 32)) [
  | inl key ↦
      rw key (base58_encode-eq-text bytes h (omega (arith, (==_iff (length bytes) 32).0 key)))
  | inr other ↦ rw other
]

-- The arguments of the instruction send_message.
pub record SendMessageArgs : Type 0 where
  pub tx_id : ℕ
  pub recipient : Bytes
  pub dest_chain_id : ℕ
  pub chain_data : Bytes
  pub confirmations : ℕ

pub record IsSendMessageArgs (a : SendMessageArgs) : Type 0 where
  pub tx_id : a.tx_id < 2 ^ 128
  pub recipient : length a.recipient < 2 ^ 32
  pub recipient_bytes : IsBytes a.recipient
  pub dest_chain_id : a.dest_chain_id < 2 ^ 64
  pub chain_data : length a.chain_data < 2 ^ 32
  pub confirmations : a.confirmations < 2 ^ 16

-- The instruction's data behind the discriminator, in the wire format, before other bytes.
unfoldable pub send_message_wire : SendMessageArgs → Bytes → Bytes
send_message_wire a rest =
    le_bytes 16 a.tx_id
    ++ (vec_u8 a.recipient
        ++ (le_bytes 8 a.dest_chain_id
            ++ (vec_u8 a.chain_data ++ (le_bytes 2 a.confirmations ++ rest))))

pub At-payload : (disc payload : Bytes) → length disc ≡ 8 → At (disc ++ payload) 8 payload
At-payload disc payload e = rw e at (At-start disc payload)

-- The data of a send_message instruction, behind any 8 bytes and before any others, is decoded to
-- its arguments: numbers in decimal, the chain with its name, the recipient in base58 or
-- hexadecimal, the chain data as text and in hexadecimal; if every argument fits its field of the
-- wire format and the vectors' lengths fit 32 bits.
pub decode_send_message-wire :
    (runtime : Runtime) (disc rest : Bytes) (a : SendMessageArgs)
    → length disc ≡ 8
    → IsSendMessageArgs a
    → decode_send_message runtime (disc ++ send_message_wire a rest)
      ≡ ok (record {
        tx_id = to_string a.tx_id;
        recipient = address_text a.recipient;
        recipient_length = length a.recipient;
        dest_chain_id = to_string a.dest_chain_id;
        dest_chain_name = get_chain_name a.dest_chain_id;
        chain_data = runtime.to_utf8 a.chain_data;
        chain_data_hex = to_hex a.chain_data;
        confirmations = a.confirmations;
      })
unfolding decode_send_message send_message_wire
decode_send_message-wire runtime disc rest a e h =
    let buffer = disc ++ send_message_wire a rest in
    let at_conf = le_bytes 2 a.confirmations ++ rest in
    let at_data = vec_u8 a.chain_data ++ at_conf in
    let at_dest = le_bytes 8 a.dest_chain_id ++ at_data in
    let at_recipient = vec_u8 a.recipient ++ at_dest in
    let h0 = At-payload disc (send_message_wire a rest) e in
    let h1 =
      At-next buffer (le_bytes 16 a.tx_id) at_recipient 8 24 h0
        (omega (arith, length-le_bytes 16 a.tx_id)) in
    let o2 = 24 + 4 + length a.recipient in
    let h2 =
      At-next buffer (vec_u8 a.recipient) at_dest 24 o2 h1
        (omega (arith, length-vec_u8 a.recipient)) in
    let h3 =
      At-next buffer (le_bytes 8 a.dest_chain_id) at_data o2 (o2 + 8) h2
        (omega (arith, length-le_bytes 8 a.dest_chain_id)) in
    let o4 = o2 + 8 + 4 + length a.chain_data in
    let h4 =
      At-next buffer (vec_u8 a.chain_data) at_conf (o2 + 8) o4 h3
        (omega (arith, length-vec_u8 a.chain_data)) in
    rw (read_u128_le-At a.tx_id buffer at_recipient 8 h0 h.tx_id) (
      rw (read_vec_u8-At a.recipient buffer at_dest 24 h1 h.recipient) (
        rw (read_uint_le-At 8 a.dest_chain_id buffer at_data o2 h2 (omega arith) h.dest_chain_id) (
          rw (read_vec_u8-At a.chain_data buffer at_conf (o2 + 8) h3 h.chain_data) (
            rw (read_uint_le-At 2 a.confirmations buffer rest o4 h4 (omega arith) h.confirmations)
              (rw (show_address-eq a.recipient o2 h.recipient_bytes))))))

-- The arguments of create_tx_pda and of process_message.
pub record TxArgs : Type 0 where
  pub tx_id : ℕ
  pub source_chain_id : ℕ
  pub dest_chain_id : ℕ
  pub sender : Bytes
  pub recipient : Bytes
  pub on_chain_data : Bytes
  pub off_chain_data : Bytes
  pub signatures : List Signed

pub record IsTxArgs (a : TxArgs) : Type 0 where
  pub tx_id : a.tx_id < 2 ^ 128
  pub source_chain_id : a.source_chain_id < 2 ^ 64
  pub dest_chain_id : a.dest_chain_id < 2 ^ 64
  pub sender : length a.sender < 2 ^ 32
  pub sender_bytes : IsBytes a.sender
  pub recipient : length a.recipient < 2 ^ 32
  pub recipient_bytes : IsBytes a.recipient
  pub on_chain_data : length a.on_chain_data < 2 ^ 32
  pub off_chain_data : length a.off_chain_data < 2 ^ 32
  pub signatures : length a.signatures < 2 ^ 32
  pub signed : All IsSigned a.signatures

-- The instruction's data behind the discriminator, in the wire format, before other bytes.
unfoldable pub tx_wire : TxArgs → Bytes → Bytes
tx_wire a rest =
    le_bytes 16 a.tx_id
    ++ (le_bytes 8 a.source_chain_id
        ++ (le_bytes 8 a.dest_chain_id
            ++ (vec_u8 a.sender
                ++ (vec_u8 a.recipient
                    ++ (vec_u8 a.on_chain_data
                        ++ (vec_u8 a.off_chain_data
                            ++ (vec_message_signature a.signatures ++ rest)))))))

-- The data of a create_tx_pda or process_message instruction, behind any 8 bytes and before any
-- others, is decoded to its arguments, every signature with its signer's key.
pub decode_create_tx_pda-wire :
    (runtime : Runtime) (disc rest : Bytes) (a : TxArgs)
    → length disc ≡ 8
    → IsTxArgs a
    → decode_create_tx_pda runtime (disc ++ tx_wire a rest)
      ≡ ok (record {
        tx_id = to_string a.tx_id;
        source_chain_id = to_string a.source_chain_id;
        source_chain_name = get_chain_name a.source_chain_id;
        dest_chain_id = to_string a.dest_chain_id;
        dest_chain_name = get_chain_name a.dest_chain_id;
        sender = address_text a.sender;
        sender_length = length a.sender;
        recipient = address_text a.recipient;
        recipient_length = length a.recipient;
        on_chain_data = runtime.to_utf8 a.on_chain_data;
        on_chain_data_hex = to_hex a.on_chain_data;
        off_chain_data = runtime.to_utf8 a.off_chain_data;
        off_chain_data_hex = to_hex a.off_chain_data;
        signatures = map shown a.signatures;
        signature_count = length a.signatures;
      })
unfolding decode_create_tx_pda tx_wire
decode_create_tx_pda-wire runtime disc rest a e h =
    let buffer = disc ++ tx_wire a rest in
    let at_sigs = vec_message_signature a.signatures ++ rest in
    let at_off = vec_u8 a.off_chain_data ++ at_sigs in
    let at_on = vec_u8 a.on_chain_data ++ at_off in
    let at_recipient = vec_u8 a.recipient ++ at_on in
    let at_sender = vec_u8 a.sender ++ at_recipient in
    let at_dest = le_bytes 8 a.dest_chain_id ++ at_sender in
    let at_source = le_bytes 8 a.source_chain_id ++ at_dest in
    let h0 = At-payload disc (tx_wire a rest) e in
    let h1 =
      At-next buffer (le_bytes 16 a.tx_id) at_source 8 24 h0
        (omega (arith, length-le_bytes 16 a.tx_id)) in
    let h2 =
      At-next buffer (le_bytes 8 a.source_chain_id) at_dest 24 32 h1
        (omega (arith, length-le_bytes 8 a.source_chain_id)) in
    let h3 =
      At-next buffer (le_bytes 8 a.dest_chain_id) at_sender 32 40 h2
        (omega (arith, length-le_bytes 8 a.dest_chain_id)) in
    let o4 = 40 + 4 + length a.sender in
    let h4 =
      At-next buffer (vec_u8 a.sender) at_recipient 40 o4 h3
        (omega (arith, length-vec_u8 a.sender)) in
    let o5 = o4 + 4 + length a.recipient in
    let h5 =
      At-next buffer (vec_u8 a.recipient) at_on o4 o5 h4
        (omega (arith, length-vec_u8 a.recipient)) in
    let o6 = o5 + 4 + length a.on_chain_data in
    let h6 =
      At-next buffer (vec_u8 a.on_chain_data) at_off o5 o6 h5
        (omega (arith, length-vec_u8 a.on_chain_data)) in
    let o7 = o6 + 4 + length a.off_chain_data in
    let h7 =
      At-next buffer (vec_u8 a.off_chain_data) at_sigs o6 o7 h6
        (omega (arith, length-vec_u8 a.off_chain_data)) in
    rw (read_u128_le-At a.tx_id buffer at_source 8 h0 h.tx_id) (
      rw (read_uint_le-At 8 a.source_chain_id buffer at_dest 24 h1 (omega arith) h.source_chain_id)
        (rw (read_uint_le-At 8 a.dest_chain_id buffer at_sender 32 h2 (omega arith) h.dest_chain_id)
          (rw (read_vec_u8-At a.sender buffer at_recipient 40 h3 h.sender) (
            rw (read_vec_u8-At a.recipient buffer at_on o4 h4 h.recipient) (
              rw (read_vec_u8-At a.on_chain_data buffer at_off o5 h5 h.on_chain_data) (
                rw (read_vec_u8-At a.off_chain_data buffer at_sigs o6 h6 h.off_chain_data) (
                  rw
                    (read_vec_message_signature-At a.signatures buffer rest o7 h.signed h7
                      h.signatures)
                    (rw (show_address-eq a.sender o4 h.sender_bytes)
                      (rw (show_address-eq a.recipient o5 h.recipient_bytes))))))))))
