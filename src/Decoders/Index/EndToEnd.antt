-- ===== src/Decoders/Index/EndToEnd.antt =====
-- `decode` of decoders/index.ts on the whole data of an instruction.
use via_solana_gateway_v.Prelude.{
  ◌≡◌, refl, ap, ◌∙◌, false, [], ◌∷◌, ◌++◌, map, length, some, ltb, le→ltb, arith, Text, codes,
  text_eq, ok,
}
use via_solana_gateway_v.Prelude.Digits.{to_string}
use via_solana_gateway_v.Buffer.{Bytes, to_hex, hex_symbol, subarray}
use via_solana_gateway_v.Decoders.Runtime.{Runtime}
use via_solana_gateway_v.Decoders.Tables.{lookup, put, reverse_table, values_include}
use via_solana_gateway_v.Decoders.Utils.{get_chain_name}
use via_solana_gateway_v.Decoders.Utils.Signatures.{shown}
use via_solana_gateway_v.Decoders.Instructions.{create_tx_pda, decode_create_tx_pda}
use via_solana_gateway_v.Decoders.Instructions.RoundTrip.{
  TxArgs, IsTxArgs, tx_wire, address_text, decode_create_tx_pda-wire,
}
use via_solana_gateway_v.Decoders.Instructions.Dispatch.{
  discriminator_to_instruction, discriminator_of, decode_named, caught, decode_found,
}
use via_solana_gateway_v.Decoders.Events.{event_discriminators}
use via_solana_gateway_v.Decoders.Index.{instruction, decode}
use via_solana_gateway_v.Decoders.Index.Classify.{decode-listed}

-- The 8 bytes of create_tx_pda.
abbrev pub create_tx_pda_bytes : Bytes
create_tx_pda_bytes = 164 ∷ 43 ∷ 165 ∷ 228 ∷ 176 ∷ 209 ∷ 122 ∷ 241 ∷ []

create_tx_pda_key :
    (payload : Bytes) → discriminator_of (create_tx_pda_bytes ++ payload) ≡ codes "a42ba5e4b0d17af1"
unfolding discriminator_of subarray to_hex hex_symbol
create_tx_pda_key payload = refl

create_tx_pda_found :
    lookup (codes "a42ba5e4b0d17af1") discriminator_to_instruction ≡ some (codes "create_tx_pda")
unfolding lookup discriminator_to_instruction reverse_table put text_eq
create_tx_pda_found = refl

create_tx_pda_no_event : values_include event_discriminators (codes "a42ba5e4b0d17af1") ≡ false
unfolding values_include text_eq
create_tx_pda_no_event = refl

module _ (runtime : Runtime) (base64 : Text) (a : TxArgs) (rest : Bytes) where
  decode_found-create_tx_pda :
      (d : _)
      → decode_create_tx_pda runtime (create_tx_pda_bytes ++ tx_wire a rest) ≡ ok d
      → decode_found runtime (create_tx_pda_bytes ++ tx_wire a rest) (some (codes "create_tx_pda"))
        ≡ create_tx_pda d
  unfolding decode_found caught decode_named text_eq
  decode_found-create_tx_pda d e = rw e

  -- The text of a create_tx_pda transaction's data, which may have more bytes at its end, is decoded
  -- to that instruction with its arguments and signatures, if every argument fits its field of the
  -- wire format and every vector's length 32 bits.
  pub decode-create_tx_pda :
      runtime.from_base64 base64 ≡ create_tx_pda_bytes ++ tx_wire a rest
      → IsTxArgs a
      → decode runtime base64
        ≡ instruction (
            create_tx_pda (record {
              tx_id = to_string a.tx_id;
              source_chain_id = to_string a.source_chain_id;
              source_chain_name = get_chain_name a.source_chain_id;
              dest_chain_id = to_string a.dest_chain_id;
              dest_chain_name = get_chain_name a.dest_chain_id;
              sender = address_text a.sender;
              sender_length = length a.sender;
              recipient = address_text a.recipient;
              recipient_length = length a.recipient;
              on_chain_data = runtime.to_utf8 a.on_chain_data;
              on_chain_data_hex = to_hex a.on_chain_data;
              off_chain_data = runtime.to_utf8 a.off_chain_data;
              off_chain_data_hex = to_hex a.off_chain_data;
              signatures = map shown a.signatures;
              signature_count = length a.signatures;
            }))
  decode-create_tx_pda e h =
      let payload = tx_wire a rest in
      let key = ap discriminator_of e ∙ create_tx_pda_key payload in
      decode-listed runtime base64 (codes "create_tx_pda")
        (ap (λ bs. ltb (length bs) 8) e
          ∙ le→ltb (length (create_tx_pda_bytes ++ payload)) 8 (omega arith))
        (ap (values_include event_discriminators) key ∙ create_tx_pda_no_event)
        (ap (λ k. lookup k discriminator_to_instruction) key ∙ create_tx_pda_found)
      ∙ ap (λ bs. instruction (decode_found runtime bs (some (codes "create_tx_pda")))) e
      ∙ ap instruction (
          decode_found-create_tx_pda _
            (decode_create_tx_pda-wire runtime create_tx_pda_bytes rest a refl h))
