-- ===== src/Env/Profiles.antt =====
-- The profiles of scripts/deployment/env-manager.ts.
use via_solana_gateway_v.Prelude.{List, [], ◌∷◌, none, some, Text, codes}
use via_solana_gateway_v.Env.Types.{EnvironmentProfile}

unfoldable pub localnet_profile : EnvironmentProfile
localnet_profile = record {
  name = codes "Local Development";
  description = codes "Local Solana test validator configuration";
  config =
      (codes "ANCHOR_PROVIDER_URL", codes "http://127.0.0.1:8899")
      ∷ (codes "ANCHOR_WALLET", codes "~/.config/solana/id.json")
      ∷ (codes "NETWORK", codes "localnet")
      ∷ (codes "PROGRAM_ID", codes "FkYFDWxJjG1wR5AgDvigHpzm79RHh5s1Ng9T6N96v2g7")
      ∷ (codes "PROGRAM_KEYPAIR", codes "target/deploy/message_gateway_v4-keypair.json")
      ∷ (codes "SKIP_PREFLIGHT", codes "false")
      ∷ (codes "COMMITMENT_LEVEL", codes "confirmed")
      ∷ (codes "LOG_LEVEL", codes "info")
      ∷ (codes "VERBOSE_DEPLOYMENT", codes "true")
      ∷ [];
  required = codes "ANCHOR_PROVIDER_URL" ∷ codes "ANCHOR_WALLET" ∷ codes "NETWORK" ∷ [];
  optional = codes "PROGRAM_ID" ∷ codes "PROGRAM_KEYPAIR" ∷ codes "LOG_LEVEL" ∷ [];
  warnings = none;
}

unfoldable pub devnet_profile : EnvironmentProfile
devnet_profile = record {
  name = codes "Devnet Testing";
  description = codes "Solana Devnet configuration for testing";
  config =
      (codes "ANCHOR_PROVIDER_URL", codes "https://api.devnet.solana.com")
      ∷ (codes "ANCHOR_WALLET", codes "~/.config/solana/id.json")
      ∷ (codes "NETWORK", codes "devnet")
      ∷ (codes "PROGRAM_KEYPAIR", codes "target/deploy/message_gateway_v4-devnet-keypair.json")
      ∷ (codes "DEPLOYMENT_COST_LIMIT", codes "2.0")
      ∷ (codes "DEPLOYMENT_TIMEOUT", codes "60000")
      ∷ (codes "SKIP_CONFIRMATION", codes "false")
      ∷ (codes "SKIP_PREFLIGHT", codes "false")
      ∷ (codes "COMMITMENT_LEVEL", codes "confirmed")
      ∷ (codes "LOG_LEVEL", codes "info")
      ∷ (codes "VERBOSE_DEPLOYMENT", codes "true")
      ∷ [];
  required =
      codes "ANCHOR_PROVIDER_URL"
      ∷ codes "ANCHOR_WALLET"
      ∷ codes "NETWORK"
      ∷ codes "PROGRAM_KEYPAIR"
      ∷ [];
  optional = codes "PROGRAM_ID" ∷ codes "DEPLOYMENT_COST_LIMIT" ∷ codes "LOG_LEVEL" ∷ [];
  warnings = some (codes "Ensure you have sufficient devnet SOL for deployment" ∷ []);
}

unfoldable pub testnet_profile : EnvironmentProfile
testnet_profile = record {
  name = codes "Testnet Validation";
  description = codes "Solana Testnet configuration for final validation";
  config =
      (codes "ANCHOR_PROVIDER_URL", codes "https://api.testnet.solana.com")
      ∷ (codes "ANCHOR_WALLET", codes "~/.config/solana/id.json")
      ∷ (codes "NETWORK", codes "testnet")
      ∷ (codes "PROGRAM_KEYPAIR", codes "target/deploy/message_gateway_v4-testnet-keypair.json")
      ∷ (codes "DEPLOYMENT_COST_LIMIT", codes "2.0")
      ∷ (codes "DEPLOYMENT_TIMEOUT", codes "120000")
      ∷ (codes "SKIP_CONFIRMATION", codes "false")
      ∷ (codes "SKIP_PREFLIGHT", codes "false")
      ∷ (codes "COMMITMENT_LEVEL", codes "confirmed")
      ∷ (codes "LOG_LEVEL", codes "info")
      ∷ (codes "VERBOSE_DEPLOYMENT", codes "true")
      ∷ [];
  required =
      codes "ANCHOR_PROVIDER_URL"
      ∷ codes "ANCHOR_WALLET"
      ∷ codes "NETWORK"
      ∷ codes "PROGRAM_KEYPAIR"
      ∷ [];
  optional = codes "PROGRAM_ID" ∷ codes "DEPLOYMENT_COST_LIMIT" ∷ codes "UPGRADE_AUTHORITY" ∷ [];
  warnings = some (codes "Ensure you have sufficient testnet SOL for deployment" ∷ []);
}

unfoldable pub mainnet_profile : EnvironmentProfile
mainnet_profile = record {
  name = codes "Production Mainnet";
  description = codes "Solana Mainnet production configuration";
  config =
      (codes "ANCHOR_PROVIDER_URL", codes "https://api.mainnet-beta.solana.com")
      ∷ (codes "ANCHOR_WALLET", codes "~/.config/solana/id.json")
      ∷ (codes "NETWORK", codes "mainnet")
      ∷ (codes "PROGRAM_KEYPAIR", codes "target/deploy/message_gateway_v4-mainnet-keypair.json")
      ∷ (codes "DEPLOYMENT_COST_LIMIT", codes "10.0")
      ∷ (codes "DEPLOYMENT_TIMEOUT", codes "300000")
      ∷ (codes "SKIP_CONFIRMATION", codes "false")
      ∷ (codes "SKIP_PREFLIGHT", codes "false")
      ∷ (codes "COMMITMENT_LEVEL", codes "finalized")
      ∷ (codes "LOG_LEVEL", codes "warn")
      ∷ (codes "VERBOSE_DEPLOYMENT", codes "true")
      ∷ (codes "MULTISIG_THRESHOLD", codes "2")
      ∷ [];
  required =
      codes "ANCHOR_PROVIDER_URL"
      ∷ codes "ANCHOR_WALLET"
      ∷ codes "NETWORK"
      ∷ codes "PROGRAM_KEYPAIR"
      ∷ codes "UPGRADE_AUTHORITY"
      ∷ [];
  optional = codes "DEPLOYMENT_COST_LIMIT" ∷ codes "MULTISIG_THRESHOLD" ∷ [];
  warnings = some (
      codes "PRODUCTION DEPLOYMENT - Costs 3-5 SOL"
      ∷ codes "Ensure upgrade authority is properly configured"
      ∷ codes "Consider using multisig for upgrade authority"
      ∷ codes "Backup your keypair securely before deployment"
      ∷ []);
}

unfoldable pub custom_profile : EnvironmentProfile
custom_profile = record {
  name = codes "Custom Configuration";
  description = codes "User-defined custom configuration";
  config = [];
  required = codes "ANCHOR_PROVIDER_URL" ∷ codes "NETWORK" ∷ [];
  optional = [];
  warnings = none;
}

-- `this.profiles` as `Object.entries` lists it.
unfoldable pub profiles : List (Text × EnvironmentProfile)
profiles =
    (codes "localnet", localnet_profile)
    ∷ (codes "devnet", devnet_profile)
    ∷ (codes "testnet", testnet_profile)
    ∷ (codes "mainnet", mainnet_profile)
    ∷ (codes "custom", custom_profile)
    ∷ []
