-- ===== src/Verify/Types.antt =====
-- The data of scripts/deployment/verify.ts.
use via_solana_gateway_v.Prelude.{ℕ, Bool, List, Option, Text, Error, Result}
use via_solana_gateway_v.Prelude.Actions.{Action}
use via_solana_gateway_v.Buffer.{Bytes}
use via_solana_gateway_v.Health.Types.{ℤ, DetailValue}

pub data Category : Type 0 where
  program account network security functional : Category

pub data CheckStatus : Type 0 where
  pass fail warning skip : CheckStatus

pub record CheckResult : Type 0 where
  pub name : Text
  pub category : Category
  pub status : CheckStatus
  pub message : Text
  pub details : List (Text × DetailValue)
  pub duration : ℤ

pub record Summary : Type 0 where
  pub total : ℕ
  pub passed : ℕ
  pub failed : ℕ
  pub warnings : ℕ

pub record VerificationResult : Type 0 where
  pub success : Bool
  pub checks : List CheckResult
  pub summary : Summary
  pub errors : List Text
  pub warnings : List Text

-- What the checks read of the configuration, with the keys that the constructor made of it.
-- `validateSignerRegistries` is read by no code.
pub record DeploymentVerifier : Type 0 where
  pub program_id : Text
  pub program_address : Bytes
  pub authority : Bytes
  pub check_categories : List Text
  pub skip_functional_tests : Bool
  pub expected_chains : Option (List ℕ)

pub record AccountInfo : Type 0 where
  pub executable : Bool
  pub contents : Bytes
  pub owner : Text
  pub lamports : ℕ

-- What a check that passes returns.
pub record Passed : Type 0 where
  pub message : Text
  pub details : List (Text × DetailValue)

-- The clock, @solana/web3.js and bn.js. Every call may return anything and may fail.
pub record Rpc (World : Type 0) : Type 0 where
  pub now : World → ℕ × World
  pub get_account_info : Bytes → Action World (Option AccountInfo)
  -- `getVersion()`: the values of "solana-core" and "feature-set"
  pub get_version : Action World (DetailValue × DetailValue)
  pub get_balance : Bytes → Action World ℕ
  pub find_program_address : List Bytes → Bytes → Result Bytes
  pub public_key : Text → Result Bytes
  pub to_array_like : ℕ → ℕ → Result Bytes
  -- `key.toString()`
  pub show_key : Bytes → Text
  -- `(lamports / LAMPORTS_PER_SOL).toFixed(4)`
  pub sol_to_fixed : ℕ → Text
  -- `error.message`, and `${error}`
  pub error_message : Error → Text
  pub show_error : Error → Text
