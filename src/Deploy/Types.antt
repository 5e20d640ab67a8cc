-- ===== src/Deploy/Types.antt =====
-- The data of scripts/deployment/deploy.ts.
use via_solana_gateway_v.Prelude.{ℕ, Bool, List, Option, Text}
use via_solana_gateway_v.Health.Types.{ℤ}
use via_solana_gateway_v.Network.Console.{Console}

-- An optional flag that is not given is `false`, as its tests take it.
pub record DeploymentOptions : Type 0 where
  pub network : Text
  pub skip_pre_validation : Bool
  pub skip_build : Bool
  pub skip_post_validation : Bool
  pub dry_run : Bool
  pub verbose : Bool
  pub program_keypair : Option Text

pub record Metrics : Type 0 where
  pub build_time : Option ℤ
  pub deploy_time : Option ℤ
  pub total_time : Option ℤ
  pub program_size : Option ℕ

pub record DeploymentResult : Type 0 where
  pub success : Bool
  pub network : Text
  pub program_id : Option Text
  pub tx_signature : Option Text
  pub error : Option Text
  pub warnings : List Text
  pub metrics : Metrics

-- The network manager's state, and the result that the phases fill.
pub record Deployment (World : Type 0) : Type 0 where
  pub console : Console World
  pub result : DeploymentResult
