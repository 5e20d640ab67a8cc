-- ===== src/Setup/Types.antt =====
-- The data of scripts/deployment/setup.ts and of the instructions it builds.
use via_solana_gateway_v.Prelude.{ℕ, Bool, List, Text}
use via_solana_gateway_v.Buffer.{Bytes}

pub record ChainConfig : Type 0 where
  pub id : ℕ
  pub name : Text
  pub description : Text
  pub enabled : Bool

-- `type` is any string here, since the file's JSON is not checked against the three literals.
pub record SignerConfig : Type 0 where
  pub registry_type : Text
  pub signers : List Text
  pub threshold : ℕ
  pub enabled : Bool

-- `signerRegistries` as `Object.entries` lists it. `authority` is read by no code.
pub record SetupConfig : Type 0 where
  pub chains : List ChainConfig
  pub signer_registries : List (ℕ × List SignerConfig)
  pub skip_existing : Bool
  pub dry_run : Bool

pub record SetupResult : Type 0 where
  pub success : Bool
  pub gateways_initialized : ℕ
  pub registries_initialized : ℕ
  pub counters_initialized : ℕ
  pub errors : List Text
  pub warnings : List Text
  pub transactions : List Text

pub record AccountMeta : Type 0 where
  pub pubkey : Bytes
  pub is_signer : Bool
  pub is_writable : Bool

pub record TransactionInstruction : Type 0 where
  pub keys : List AccountMeta
  pub program_id : Bytes
  pub data_bytes : Bytes

-- An instruction of the IDL file.
pub record IdlInstruction : Type 0 where
  pub name : Text
  pub discriminator : Bytes

-- The fields of `PostDeploymentSetup` that its methods read; a public key is its 32 bytes.
pub record PostDeploymentSetup : Type 0 where
  pub program_id : Bytes
  pub authority : Bytes
  pub idl : List IdlInstruction
