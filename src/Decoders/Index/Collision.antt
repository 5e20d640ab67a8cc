-- ===== src/Decoders/Index/Collision.antt =====
-- The discriminator that the tables give to the instruction send_message is also the one of the
-- event send_requested.
use via_solana_gateway_v.Prelude.{
  ◌≡◌, ◌≢◌, refl, sym, ap, ◌∙◌, true, false, length, ltb, All, ◌&◌, arith, Text, text_eq, Result,
  ok, err, ◌>>=◌,
}
use via_solana_gateway_v.Buffer.{Bytes}
use via_solana_gateway_v.Decoders.Runtime.{Runtime}
use via_solana_gateway_v.Decoders.Tables.{put, reverse_table, values_include}
use via_solana_gateway_v.Decoders.Tables.Laws.{lookup-All}
use via_solana_gateway_v.Decoders.Instructions.{
  DecodedInstruction, SendMessageDecoded, initialize_gateway, send_message, create_tx_pda,
  process_message, set_system_enabled, initialize_signer_registry, update_signers, add_signer,
  remove_signer, update_threshold, set_registry_enabled, decode_initialize_gateway,
  decode_create_tx_pda, decode_process_message, decode_set_system_enabled,
  decode_initialize_signer_registry, decode_update_signers, decode_add_signer, decode_remove_signer,
  decode_update_threshold, decode_set_registry_enabled,
}
use via_solana_gateway_v.Decoders.Instructions.Dispatch.{
  instruction_discriminators, discriminator_to_instruction, discriminator_of, decode_named, caught,
  decode_found,
}
use via_solana_gateway_v.Decoders.Events.{event_discriminators}
use via_solana_gateway_v.Decoders.Index.{instruction, decode}
use via_solana_gateway_v.Decoders.Index.Classify.{
  kind_of, as_instruction, kind_by_discriminator, kind_of-decode, decode-listed, found-instruction,
  is_some-some, input, key,
}

module _ (sent : SendMessageDecoded) (buffer : Bytes) where
  caught-ne-send_message :
      {A : Type 0} (name : Text) (r : Result A) (c : A → DecodedInstruction)
      → ((a : A) → c a ≢ send_message sent)
      → caught name buffer (r >>= λ a. ok (c a)) ≢ send_message sent
  unfolding caught
  caught-ne-send_message name (ok a) c h = h a
  caught-ne-send_message name (err e) c h = cc

  -- Of the entries of the table only the one for send_message gives that instruction.
  entries-send_message :
      (runtime : Runtime)
      → All
          (λ entry.
            caught entry.1 buffer (decode_named runtime entry.1 buffer) ≡ send_message sent
            → values_include event_discriminators entry.0 ≡ true)
          discriminator_to_instruction
  unfolding discriminator_to_instruction reverse_table put text_eq decode_named values_include
  entries-send_message runtime =
      (λ e. absurd (
        caught-ne-send_message _ (decode_initialize_gateway buffer) initialize_gateway (λ a. cc) e))
      & (λ e. refl)
      & (λ e. absurd (
          caught-ne-send_message _ (decode_create_tx_pda runtime buffer) create_tx_pda (λ a. cc) e))
      & (λ e. absurd (
          caught-ne-send_message _ (decode_process_message runtime buffer) process_message (λ a. cc)
            e))
      & (λ e. absurd (
          caught-ne-send_message _ (ok (decode_set_system_enabled buffer)) set_system_enabled
            (λ a. cc) e))
      & (λ e. absurd (
          caught-ne-send_message _ (decode_initialize_signer_registry buffer)
            initialize_signer_registry (λ a. cc) e))
      & (λ e.
          absurd
            (caught-ne-send_message _ (decode_update_signers buffer) update_signers (λ a. cc) e))
      & (λ e. absurd (caught-ne-send_message _ (decode_add_signer buffer) add_signer (λ a. cc) e))
      & (λ e.
          absurd (caught-ne-send_message _ (decode_remove_signer buffer) remove_signer (λ a. cc) e))
      & (λ e.
          absurd (
            caught-ne-send_message _ (decode_update_threshold buffer) update_threshold (λ a. cc) e))
      & (λ e. absurd (
          caught-ne-send_message _ (decode_set_registry_enabled buffer) set_registry_enabled
            (λ a. cc) e))
      & tt

-- An instruction is shown only for a listed discriminator of no event.
kind_by_discriminator-instruction :
    (buffer : Bytes)
    → kind_by_discriminator buffer ≡ as_instruction
    → (ltb (length buffer) 8 ≡ false)
      × (values_include event_discriminators (discriminator_of buffer) ≡ false)
      × (values_include instruction_discriminators (discriminator_of buffer) ≡ true)
unfolding kind_by_discriminator
kind_by_discriminator-instruction buffer h = ground arith

instruction_injective : {a b : DecodedInstruction} → instruction a ≡ instruction b → a ≡ b
instruction_injective e = cc

-- No data whatever is shown as a send_message instruction: the event table lists its discriminator,
-- and events go first.
pub decode-ne-send_message :
    (runtime : Runtime) (base64 : Text) (sent : SendMessageDecoded)
    → decode runtime base64 ≢ instruction (send_message sent)
decode-ne-send_message runtime base64 sent e =
    let (long, other, listed) =
      kind_by_discriminator-instruction (input runtime base64)
        (sym (kind_of-decode runtime base64) ∙ ap kind_of e) in
    let (name, found) = is_some-some _ (found-instruction (key runtime base64) ∙ listed) in
    let shown = sym (decode-listed runtime base64 name long other found) ∙ e in
    let listed_event =
      lookup-All
        (λ disc entry.
          caught entry (input runtime base64) (decode_named runtime entry (input runtime base64))
            ≡ send_message sent
          → values_include event_discriminators disc ≡ true)
        (key runtime base64) name discriminator_to_instruction
        (entries-send_message sent (input runtime base64) runtime) found
        (unfold decode_found in instruction_injective shown) in
    cc (sym other ∙ listed_event)
