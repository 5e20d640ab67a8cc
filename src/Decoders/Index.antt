-- ===== src/Decoders/Index.antt =====
-- decoders/index.ts: `decode` tells events from instructions.
mod Known
pub mod Classify
pub mod Collision
pub mod EndToEnd
use via_solana_gateway_v.Prelude.{
  Bool, true, false, not, List, map, length, ltb, leb, if◌then◌else◌, Text, codes, text_eq, thrown,
  Result, ok, err, ◌>>=◌,
}
use via_solana_gateway_v.Buffer.{Bytes, to_hex}
use via_solana_gateway_v.Decoders.Runtime.{Runtime}
use via_solana_gateway_v.Decoders.Instructions
use via_solana_gateway_v.Decoders.Instructions.{DecodedInstruction}
use via_solana_gateway_v.Decoders.Instructions.Dispatch.{
  instruction_discriminators, discriminator_of, decode_instruction,
}
use via_solana_gateway_v.Decoders.Events
use via_solana_gateway_v.Decoders.Events.{
  DecodedEvent, event_discriminators, decode_event, is_likely_event,
}

pub data DecodedData : Type 0 where
  instruction : DecodedInstruction → DecodedData
  event : DecodedEvent → DecodedData
  unknown : Text → Text → DecodedData

-- `instructionResult.instruction !== "unknown"`
unfoldable pub is_known_instruction : DecodedInstruction → Bool
is_known_instruction (Instructions.DecodedInstruction.unknown u) = false
is_known_instruction (Instructions.DecodedInstruction.error e) =
    not (text_eq e.instruction (codes "unknown"))
is_known_instruction other = true

-- `eventResult.event !== "unknown"`
unfoldable pub is_known_event : DecodedEvent → Bool
is_known_event (Events.DecodedEvent.unknown u) = false
is_known_event (Events.DecodedEvent.error e) = not (text_eq e.event (codes "unknown"))
is_known_event other = true

-- The final `return` of the `try` block.
unfoldable pub neither : Bytes → DecodedData
neither buffer = unknown (discriminator_of buffer) (to_hex buffer)

-- The `else` branch after `decodeInstruction`: an unknown instruction is tried as an event.
unfoldable pub or_event : Runtime → Text → DecodedInstruction → Result DecodedData
or_event runtime base64 result = if is_known_instruction result then ok (instruction result) else do
  event_result ← decode_event runtime base64
  ok (
      if is_known_event event_result
      then event event_result
      else neither (runtime.from_base64 base64))

-- The `try` block.
unfoldable pub decode_body : Runtime → Text → Result DecodedData
decode_body runtime base64 =
    if ltb (length (runtime.from_base64 base64)) 8
    then err (thrown (codes "Buffer too small for discriminator"))
    else if is_likely_event runtime base64
    then (do result ← decode_event runtime base64; ok (event result))
    else (do result ← decode_instruction runtime base64; or_event runtime base64 result)

-- The `catch` block.
unfoldable pub or_unknown : Bytes → Result DecodedData → DecodedData
or_unknown buffer (ok d) = d
or_unknown buffer (err e) =
    unknown (if leb 8 (length buffer) then discriminator_of buffer else codes "invalid")
      (to_hex buffer)

unfoldable pub decode : Runtime → Text → DecodedData
decode runtime base64 = or_unknown (runtime.from_base64 base64) (decode_body runtime base64)

unfoldable pub decode_as_instruction : Runtime → Text → Result DecodedInstruction
decode_as_instruction runtime base64 = decode_instruction runtime base64

unfoldable pub decode_as_event : Runtime → Text → Result DecodedEvent
decode_as_event runtime base64 = decode_event runtime base64

-- `Object.keys(…)`
unfoldable pub get_supported_instructions : List Text
get_supported_instructions = map (λ entry. entry.0) instruction_discriminators

unfoldable pub get_supported_events : List Text
get_supported_events = map (λ entry. entry.0) event_discriminators
