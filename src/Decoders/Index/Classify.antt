-- ===== src/Decoders/Index/Classify.antt =====
-- How `decode` of decoders/index.ts tells events from instructions: by the discriminator alone.
use via_solana_gateway_v.Prelude.{
  ◌≡◌, refl, ap, ◌∙◌, true, false, ◌||◌, [], Option, none, some, length, ltb, if◌then◌else◌, arith,
  Text, text_eq, text_eq_comm, ok,
}
use via_solana_gateway_v.Buffer.{Bytes}
use via_solana_gateway_v.Decoders.Runtime.{Runtime}
use via_solana_gateway_v.Decoders.Tables.{lookup, values_include}
use via_solana_gateway_v.Decoders.Tables.Laws.{is_some, is_some-lookup-reverse_table}
use via_solana_gateway_v.Decoders.Instructions.Dispatch.{
  instruction_discriminators, discriminator_to_instruction, discriminator_of, decode_found,
  decode_instruction,
}
use via_solana_gateway_v.Decoders.Events.{
  event_discriminators, discriminator_to_event, event_name_of, send_requested_discriminator,
  decode_event_found, decode_event, is_likely_event,
}
use via_solana_gateway_v.Decoders.Index.Known.{decode_found-Known}
use via_solana_gateway_v.Decoders.Index.{
  DecodedData, instruction, event, unknown, is_known_instruction, is_known_event, neither, or_event,
  decode_body, or_unknown, decode,
}

pub data Kind : Type 0 where
  as_event as_instruction as_unknown : Kind

abbrev pub kind_of : DecodedData → Kind
kind_of (instruction d) = as_instruction
kind_of (event d) = as_event
kind_of (unknown d h) = as_unknown

-- The kind by the tables alone: an event's discriminator goes first.
unfoldable pub kind_by_discriminator : Bytes → Kind
kind_by_discriminator buffer =
    if ltb (length buffer) 8
    then as_unknown
    else if values_include event_discriminators (discriminator_of buffer)
    then as_event
    else if values_include instruction_discriminators (discriminator_of buffer)
    then as_instruction
    else as_unknown

-- The special case for send_requested adds nothing to the table.
is_likely_event-eq :
    (runtime : Runtime) (base64 : Text)
    → is_likely_event runtime base64
      ≡ values_include event_discriminators (discriminator_of (runtime.from_base64 base64))
is_likely_event-eq runtime base64 =
    unfold is_likely_event values_include in
    ground (
      arith,
      text_eq_comm send_requested_discriminator (discriminator_of (runtime.from_base64 base64)),
    )

pub is_some-none : {A : Type 0} (o : Option A) → is_some o ≡ false → o ≡ none
is_some-none none h = refl
is_some-none (some a) h = cc

pub is_some-some : {A : Type 0} (o : Option A) → is_some o ≡ true → (a : A) × (o ≡ some a)
is_some-some none h = cc
is_some-some (some a) h = (a, refl)

pub found-instruction :
    (key : Text)
    → is_some (lookup key discriminator_to_instruction)
      ≡ values_include instruction_discriminators key
unfolding discriminator_to_instruction
found-instruction key = is_some-lookup-reverse_table key [] instruction_discriminators ∙ empty
  where
    empty :
        (is_some (lookup key []) || values_include instruction_discriminators key)
        ≡ values_include instruction_discriminators key
    empty = unfold lookup in refl

found-event :
    (key : Text)
    → is_some (lookup key discriminator_to_event) ≡ values_include event_discriminators key
unfolding discriminator_to_event
found-event key = is_some-lookup-reverse_table key [] event_discriminators ∙ empty
  where
    empty :
        (is_some (lookup key []) || values_include event_discriminators key)
        ≡ values_include event_discriminators key
    empty = unfold lookup in refl

event_name_of-none :
    (key : Text) → values_include event_discriminators key ≡ false → event_name_of key ≡ none
unfolding event_name_of
event_name_of-none key h = rw special missing
  where
    missing : lookup key discriminator_to_event ≡ none
    missing = is_some-none _ (found-event key ∙ h)

    special : text_eq key send_requested_discriminator ≡ false
    special =
        unfold values_include in ground (arith, h, text_eq_comm key send_requested_discriminator)

module _ (runtime : Runtime) (base64 : Text) where
  abbrev pub input : Bytes
  input = runtime.from_base64 base64

  abbrev pub key : Text
  key = discriminator_of input

  decode_instruction-long :
      ltb (length input) 8 ≡ false
      → decode_instruction runtime base64
        ≡ ok (decode_found runtime input (lookup key discriminator_to_instruction))
  unfolding decode_instruction
  decode_instruction-long long = rw long

  decode_event-long :
      ltb (length input) 8 ≡ false
      → decode_event runtime base64 ≡ ok (decode_event_found runtime input (event_name_of key))
  unfolding decode_event
  decode_event-long long = rw long

  short_kind : ltb (length input) 8 ≡ true → kind_of (decode runtime base64) ≡ as_unknown
  unfolding decode decode_body or_unknown
  short_kind short = rw short

  event_kind :
      ltb (length input) 8 ≡ false
      → values_include event_discriminators key ≡ true
      → kind_of (decode runtime base64) ≡ as_event
  unfolding decode decode_body or_unknown
  event_kind long listed =
      rw long (rw (is_likely_event-eq runtime base64 ∙ listed) (rw (decode_event-long long)))

  -- Data with an instruction's discriminator that is no event's is decoded as that instruction.
  pub decode-listed :
      (name : Text)
      → ltb (length input) 8 ≡ false
      → values_include event_discriminators key ≡ false
      → lookup key discriminator_to_instruction ≡ some name
      → decode runtime base64 ≡ instruction (decode_found runtime input (some name))
  unfolding decode decode_body or_unknown or_event
  decode-listed name long other found = rw long (
      rw (is_likely_event-eq runtime base64 ∙ other) (
        rw (decode_instruction-long long)
          (rw found (rw (decode_found-Known runtime input key name found)))))

  instruction_kind :
      ltb (length input) 8 ≡ false
      → values_include event_discriminators key ≡ false
      → values_include instruction_discriminators key ≡ true
      → kind_of (decode runtime base64) ≡ as_instruction
  instruction_kind long other listed =
      let (name, found) = is_some-some _ (found-instruction key ∙ listed) in
      ap kind_of (decode-listed name long other found)

  unknown_kind :
      ltb (length input) 8 ≡ false
      → values_include event_discriminators key ≡ false
      → values_include instruction_discriminators key ≡ false
      → kind_of (decode runtime base64) ≡ as_unknown
  unfolding decode decode_body or_unknown or_event decode_found is_known_instruction
  unknown_kind long other others = rw long (
      rw (is_likely_event-eq runtime base64 ∙ other) (
        rw (decode_instruction-long long) (
          rw (is_some-none _ (found-instruction key ∙ others)) (
            rw (decode_event-long long) (
              rw (event_name_of-none key other)
                (unfold decode_event_found is_known_event neither in refl))))))

  -- What `decode` calls the data depends on the discriminator alone, even where a decoder throws:
  -- data of fewer than 8 bytes is unknown; a discriminator of the event table makes an event; any other of
  -- the instruction table makes an instruction; all else is unknown.
  pub kind_of-decode : kind_of (decode runtime base64) ≡ kind_by_discriminator input
  unfolding kind_by_discriminator
  kind_of-decode = ground (arith, short_kind, event_kind, instruction_kind, unknown_kind)
