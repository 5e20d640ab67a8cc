-- ===== src/Decoders/Instructions/Types.antt =====
-- The interfaces of decoders/instructions.ts. The literal type of the field `instruction` is the
-- constructor of `DecodedInstruction`; a field that is read by an index may be undefined.
use via_solana_gateway_v.Prelude.{ℕ, Bool, List, Option, Text, Error}
use via_solana_gateway_v.Decoders.Utils.{MessageSignature}

pub record InitializeGatewayDecoded : Type 0 where
  pub chain_id : Text
  pub chain_name : Text

pub record SendMessageDecoded : Type 0 where
  pub tx_id : Text
  pub recipient : Text
  pub recipient_length : ℕ
  pub dest_chain_id : Text
  pub dest_chain_name : Text
  pub chain_data : Text
  pub chain_data_hex : Text
  pub confirmations : ℕ

pub record CreateTxPdaDecoded : Type 0 where
  pub tx_id : Text
  pub source_chain_id : Text
  pub source_chain_name : Text
  pub dest_chain_id : Text
  pub dest_chain_name : Text
  pub sender : Text
  pub sender_length : ℕ
  pub recipient : Text
  pub recipient_length : ℕ
  pub on_chain_data : Text
  pub on_chain_data_hex : Text
  pub off_chain_data : Text
  pub off_chain_data_hex : Text
  pub signatures : List MessageSignature
  pub signature_count : ℕ

-- The same fields, under the name "process_message".
abbrev pub ProcessMessageDecoded : Type 0
ProcessMessageDecoded = CreateTxPdaDecoded

pub record SetSystemEnabledDecoded : Type 0 where
  pub enabled : Bool

pub record InitializeSignerRegistryDecoded : Type 0 where
  pub registry_type : Text
  pub registry_type_value : Option ℕ
  pub chain_id : Text
  pub chain_name : Text
  pub signers : List Text
  pub signer_count : ℕ
  pub required_signatures : Option ℕ

pub record UpdateSignersDecoded : Type 0 where
  pub registry_type : Text
  pub registry_type_value : Option ℕ
  pub chain_id : Text
  pub chain_name : Text
  pub new_signers : List Text
  pub signer_count : ℕ
  pub new_required_signatures : Option ℕ

pub record AddSignerDecoded : Type 0 where
  pub registry_type : Text
  pub registry_type_value : Option ℕ
  pub chain_id : Text
  pub chain_name : Text
  pub new_signer : Text

pub record RemoveSignerDecoded : Type 0 where
  pub registry_type : Text
  pub registry_type_value : Option ℕ
  pub chain_id : Text
  pub chain_name : Text
  pub signer_to_remove : Text

pub record UpdateThresholdDecoded : Type 0 where
  pub registry_type : Text
  pub registry_type_value : Option ℕ
  pub chain_id : Text
  pub chain_name : Text
  pub new_threshold : Option ℕ

pub record SetRegistryEnabledDecoded : Type 0 where
  pub registry_type : Text
  pub registry_type_value : Option ℕ
  pub chain_id : Text
  pub chain_name : Text
  pub enabled : Bool

pub record UnknownInstructionDecoded : Type 0 where
  pub discriminator : Text
  pub raw_hex : Text

-- `error` is the message of the exception; the exception itself stands for it here.
pub record ErrorDecoded : Type 0 where
  pub instruction : Text
  pub error : Error
  pub discriminator : Text
  pub raw_hex : Text

pub data DecodedInstruction : Type 0 where
  initialize_gateway : InitializeGatewayDecoded → DecodedInstruction
  send_message : SendMessageDecoded → DecodedInstruction
  create_tx_pda : CreateTxPdaDecoded → DecodedInstruction
  process_message : ProcessMessageDecoded → DecodedInstruction
  set_system_enabled : SetSystemEnabledDecoded → DecodedInstruction
  initialize_signer_registry : InitializeSignerRegistryDecoded → DecodedInstruction
  update_signers : UpdateSignersDecoded → DecodedInstruction
  add_signer : AddSignerDecoded → DecodedInstruction
  remove_signer : RemoveSignerDecoded → DecodedInstruction
  update_threshold : UpdateThresholdDecoded → DecodedInstruction
  set_registry_enabled : SetRegistryEnabledDecoded → DecodedInstruction
  unknown : UnknownInstructionDecoded → DecodedInstruction
  error : ErrorDecoded → DecodedInstruction
