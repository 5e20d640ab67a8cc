-- ===== src/Decoders/Events/Types.antt =====
-- The interfaces of decoders/events.ts; the literal type of the field `event` is the constructor.
use via_solana_gateway_v.Prelude.{ℕ, Bool, Text, Error}

pub record SendRequestedDecoded : Type 0 where
  pub tx_id : Text
  pub sender : Text
  pub recipient : Text
  pub recipient_length : ℕ
  pub dest_chain_id : Text
  pub dest_chain_name : Text
  pub chain_data : Text
  pub chain_data_hex : Text
  pub confirmations : ℕ

pub record TxPdaCreatedDecoded : Type 0 where
  pub tx_id : Text
  pub source_chain_id : Text
  pub source_chain_name : Text

pub record MessageProcessedDecoded : Type 0 where
  pub tx_id : Text
  pub source_chain_id : Text
  pub source_chain_name : Text
  pub relayer : Text

pub record SystemStatusChangedDecoded : Type 0 where
  pub enabled : Bool

pub record UnknownEventDecoded : Type 0 where
  pub discriminator : Text
  pub raw_hex : Text

-- `error` is the message of the exception; the exception itself stands for it here.
pub record EventErrorDecoded : Type 0 where
  pub event : Text
  pub error : Error
  pub discriminator : Text
  pub raw_hex : Text

pub data DecodedEvent : Type 0 where
  send_requested : SendRequestedDecoded → DecodedEvent
  tx_pda_created : TxPdaCreatedDecoded → DecodedEvent
  message_processed : MessageProcessedDecoded → DecodedEvent
  system_status_changed : SystemStatusChangedDecoded → DecodedEvent
  unknown : UnknownEventDecoded → DecodedEvent
  error : EventErrorDecoded → DecodedEvent
