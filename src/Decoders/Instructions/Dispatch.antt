-- ===== src/Decoders/Instructions/Dispatch.antt =====
-- `decodeInstruction` of decoders/instructions.ts: the discriminator table, the switch on the
-- instruction's name and the `try` around it.
use via_solana_gateway_v.Prelude.{
  List, [], ◌∷◌, ◌++◌, Option, none, some, length, ltb, if◌then◌else◌, Text, codes, text_eq, thrown,
  Result, ok, err, ◌>>=◌,
}
use via_solana_gateway_v.Buffer.{Bytes, subarray, to_hex}
use via_solana_gateway_v.Decoders.Runtime.{Runtime}
use via_solana_gateway_v.Decoders.Tables.{lookup, reverse_table}
use via_solana_gateway_v.Decoders.Instructions.Types.{
  DecodedInstruction, initialize_gateway, send_message, create_tx_pda, process_message,
  set_system_enabled, initialize_signer_registry, update_signers, add_signer, remove_signer,
  update_threshold, set_registry_enabled, unknown, error,
}
use via_solana_gateway_v.Decoders.Instructions.Fields.{
  decode_initialize_gateway, decode_send_message, decode_create_tx_pda, decode_process_message,
  decode_set_system_enabled, decode_initialize_signer_registry, decode_update_signers,
  decode_add_signer, decode_remove_signer, decode_update_threshold, decode_set_registry_enabled,
}

abbrev pub instruction_discriminators : List (Text × Text)
instruction_discriminators =
    (codes "initialize_gateway", codes "175175a0c5c87c47")
    ∷ (codes "send_message", codes "d918849a046c777a")
    ∷ (codes "create_tx_pda", codes "a42ba5e4b0d17af1")
    ∷ (codes "process_message", codes "93a64b5d1d5d8b77")
    ∷ (codes "set_system_enabled", codes "4e7d7c6b5b3b3c1a")
    ∷ (codes "initialize_signer_registry", codes "8d5d8b771d5d8b77")
    ∷ (codes "update_signers", codes "9b3b3c1a7c6b5b3b")
    ∷ (codes "add_signer", codes "b0d17af1a42ba5e4")
    ∷ (codes "remove_signer", codes "5d8b777c6b5b3b3c")
    ∷ (codes "update_threshold", codes "1d5d8b775d8b777c")
    ∷ (codes "set_registry_enabled", codes "7c6b5b3bb0d17af1")
    ∷ []

unfoldable pub discriminator_to_instruction : List (Text × Text)
discriminator_to_instruction = reverse_table [] instruction_discriminators

-- `subarray(0, 8).toString("hex")`
unfoldable pub discriminator_of : Bytes → Text
discriminator_of buffer = to_hex (subarray buffer 0 8)

-- The switch on `instructionName`.
unfoldable pub decode_named : Runtime → Text → Bytes → Result DecodedInstruction
decode_named runtime name buffer =
    if text_eq name (codes "initialize_gateway")
    then (do d ← decode_initialize_gateway buffer; ok (initialize_gateway d))
    else if text_eq name (codes "send_message")
    then (do d ← decode_send_message runtime buffer; ok (send_message d))
    else if text_eq name (codes "create_tx_pda")
    then (do d ← decode_create_tx_pda runtime buffer; ok (create_tx_pda d))
    else if text_eq name (codes "process_message")
    then (do d ← decode_process_message runtime buffer; ok (process_message d))
    else if text_eq name (codes "set_system_enabled")
    then ok (set_system_enabled (decode_set_system_enabled buffer))
    else if text_eq name (codes "initialize_signer_registry")
    then (do d ← decode_initialize_signer_registry buffer; ok (initialize_signer_registry d))
    else if text_eq name (codes "update_signers")
    then (do d ← decode_update_signers buffer; ok (update_signers d))
    else if text_eq name (codes "add_signer")
    then (do d ← decode_add_signer buffer; ok (add_signer d))
    else if text_eq name (codes "remove_signer")
    then (do d ← decode_remove_signer buffer; ok (remove_signer d))
    else if text_eq name (codes "update_threshold")
    then (do d ← decode_update_threshold buffer; ok (update_threshold d))
    else if text_eq name (codes "set_registry_enabled")
    then (do d ← decode_set_registry_enabled buffer; ok (set_registry_enabled d))
    else err (thrown (codes "Decoder not implemented for " ++ name))

-- The `catch`: the exception is reported under the name of the instruction.
unfoldable pub caught : Text → Bytes → Result DecodedInstruction → DecodedInstruction
caught name buffer (ok d) = d
caught name buffer (err e) = error (record {
  instruction = name;
  error = e;
  discriminator = discriminator_of buffer;
  raw_hex = to_hex buffer;
})

-- What follows the lookup of the discriminator.
unfoldable pub decode_found : Runtime → Bytes → Option Text → DecodedInstruction
decode_found runtime buffer none =
    unknown (record { discriminator = discriminator_of buffer; raw_hex = to_hex buffer })
decode_found runtime buffer (some name) = caught name buffer (decode_named runtime name buffer)

unfoldable pub decode_instruction : Runtime → Text → Result DecodedInstruction
decode_instruction runtime base64 =
    let buffer = runtime.from_base64 base64 in
    if ltb (length buffer) 8
    then err (thrown (codes "Buffer too small for instruction discriminator"))
    else ok (
        decode_found runtime buffer (lookup (discriminator_of buffer) discriminator_to_instruction))
