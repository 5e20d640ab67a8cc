-- ===== src/Decoders/Index/Known.antt =====
-- The decoders of decoders/instructions.ts return no unknown instruction for a name of the table.
use via_solana_gateway_v.Prelude.{
  ◌≡◌, refl, true, false, some, All, ◌&◌, arith, Text, codes, text_eq, Error, Result, ok, err,
  ◌>>=◌,
}
use via_solana_gateway_v.Buffer.{Bytes}
use via_solana_gateway_v.Decoders.Runtime.{Runtime}
use via_solana_gateway_v.Decoders.Tables.{lookup, put, reverse_table}
use via_solana_gateway_v.Decoders.Tables.Laws.{lookup-All}
use via_solana_gateway_v.Decoders.Instructions.{
  DecodedInstruction, initialize_gateway, send_message, create_tx_pda, process_message,
  set_system_enabled, initialize_signer_registry, update_signers, add_signer, remove_signer,
  update_threshold, set_registry_enabled, decode_initialize_gateway, decode_send_message,
  decode_create_tx_pda, decode_process_message, decode_set_system_enabled,
  decode_initialize_signer_registry, decode_update_signers, decode_add_signer, decode_remove_signer,
  decode_update_threshold, decode_set_registry_enabled,
}
use via_solana_gateway_v.Decoders.Instructions.Dispatch.{
  discriminator_to_instruction, decode_named, caught, decode_found,
}
use via_solana_gateway_v.Decoders.Index.{is_known_instruction}

-- What a decoder returns, if it returns, is no unknown instruction.
abbrev Known : Result DecodedInstruction → Type 0
Known r = (d : DecodedInstruction) → r ≡ ok d → is_known_instruction d ≡ true

Known-ok : (d : DecodedInstruction) → is_known_instruction d ≡ true → Known (ok d)
Known-ok d h d' e = ground arith

Known-err : (x : Error) → Known (err x)
Known-err x d e = cc

Known-bind :
    {A : Type 0} (r : Result A) (c : A → DecodedInstruction)
    → ((a : A) → is_known_instruction (c a) ≡ true)
    → Known (r >>= λ a. ok (c a))
Known-bind (ok a) c h = Known-ok (c a) (h a)
Known-bind (err e) c h = Known-err e

-- Every entry of the reverse table has a name that is not "unknown" and a decoder that gives none.
entries-Known :
    (runtime : Runtime) (buffer : Bytes)
    → All
        (λ entry.
          Known (decode_named runtime entry.1 buffer) × (text_eq entry.1 (codes "unknown") ≡ false))
        discriminator_to_instruction
unfolding discriminator_to_instruction reverse_table put text_eq decode_named is_known_instruction
entries-Known runtime buffer =
    (Known-bind (decode_initialize_gateway buffer) initialize_gateway (λ a. refl), refl)
    & (Known-bind (decode_send_message runtime buffer) send_message (λ a. refl), refl)
    & (Known-bind (decode_create_tx_pda runtime buffer) create_tx_pda (λ a. refl), refl)
    & (Known-bind (decode_process_message runtime buffer) process_message (λ a. refl), refl)
    & (Known-ok (set_system_enabled (decode_set_system_enabled buffer)) refl, refl)
    & (
      Known-bind (decode_initialize_signer_registry buffer) initialize_signer_registry (λ a. refl),
      refl,
    )
    & (Known-bind (decode_update_signers buffer) update_signers (λ a. refl), refl)
    & (Known-bind (decode_add_signer buffer) add_signer (λ a. refl), refl)
    & (Known-bind (decode_remove_signer buffer) remove_signer (λ a. refl), refl)
    & (Known-bind (decode_update_threshold buffer) update_threshold (λ a. refl), refl)
    & (Known-bind (decode_set_registry_enabled buffer) set_registry_enabled (λ a. refl), refl)
    & tt

-- An instruction that is found in the table is decoded, or reported, under its own name.
pub decode_found-Known :
    (runtime : Runtime) (buffer : Bytes) (key name : Text)
    → lookup key discriminator_to_instruction ≡ some name
    → is_known_instruction (decode_found runtime buffer (some name)) ≡ true
unfolding decode_found
decode_found-Known runtime buffer key name h =
    let (decodes, other) =
      lookup-All
        (λ _ entry_name.
          Known (decode_named runtime entry_name buffer)
          × (text_eq entry_name (codes "unknown") ≡ false))
        key name discriminator_to_instruction (entries-Known runtime buffer) h in
    either (decode_named runtime name buffer) decodes other
  where
    either :
        (r : Result DecodedInstruction)
        → Known r
        → text_eq name (codes "unknown") ≡ false
        → is_known_instruction (caught name buffer r) ≡ true
    either (ok d) decodes other = unfold caught in decodes d refl
    either (err e) decodes other = unfold caught is_known_instruction in rw other
