-- ===== src/Setup/Config.antt =====
-- The command line of scripts/deployment/setup.ts: `parseArgs`, `loadSetupConfig` and `main`.
pub mod CommandLine
pub mod DryRun
use via_solana_gateway_v.Prelude.{
  ℕ, Bool, true, false, not, ◌&&◌, ◌||◌, List, [], ◌∷◌, ◌++◌, Option, none, some, if◌then◌else◌,
  Text, codes, text_eq, thrown, Result, ok, err, ◌>>=◌,
}
use via_solana_gateway_v.Prelude.Words.{includes}
use via_solana_gateway_v.Buffer.{Bytes}
use via_solana_gateway_v.Network.Types.{entry}
use via_solana_gateway_v.Network.Config.{known}
use via_solana_gateway_v.Setup.Types.{
  ChainConfig, SignerConfig, SetupConfig, TransactionInstruction, PostDeploymentSetup,
}
use via_solana_gateway_v.Setup.Cluster.{Cluster}
use via_solana_gateway_v.Setup.Session.{Session}
use via_solana_gateway_v.Setup.Run.{setup}

pub record CliArgs : Type 0 where
  pub network : Text
  pub config_path : Option Text
  pub program_id : Option Text
  pub wallet_path : Option Text
  pub dry_run : Bool
  pub skip_existing : Bool

-- The options that a value follows, and the field that each sets.
unfoldable pub takes_value : Text → Bool
takes_value a =
    text_eq a (codes "--config") || text_eq a (codes "--program-id") || text_eq a (codes "--wallet")

unfoldable pub set_option : Text → Option Text → CliArgs → CliArgs
set_option a value result =
    if text_eq a (codes "--config")
    then record result { config_path = value }
    else if text_eq a (codes "--program-id")
    then record result { program_id = value }
    else if text_eq a (codes "--wallet")
    then record result { wallet_path = value }
    else result

-- The loop over the words after the first. An option at the end has the value `undefined`.
unfoldable pub parse_options : List Text → CliArgs → CliArgs
parse_options [] result = result
parse_options (a ∷ []) result = set_option a none result
parse_options (a ∷ value ∷ rest) result = elim (takes_value a) [
  | true ↦ parse_options rest (set_option a (some value) result)
  | false ↦ parse_options (value ∷ rest) result
]

-- `process.argv.slice(2)`; without a word, or with `--help`, the usage is shown.
unfoldable pub parse_args : List Text → Option CliArgs
parse_args [] = none
parse_args (network ∷ rest) =
    let args = network ∷ rest in
    if includes (codes "--help") args
    then none
    else some (
        parse_options rest (record {
          network = network;
          config_path = none;
          program_id = none;
          wallet_path = none;
          dry_run = includes (codes "--dry-run") args;
          skip_existing = not (includes (codes "--force") args);
        }))

abbrev pub default_config : SetupConfig
default_config =
    let signer = codes "11111111111111111111111111111112" in
    record {
      chains =
          record {
            id = 1;
            name = codes "Solana";
            description = codes "Solana blockchain";
            enabled = true;
          }
          ∷ record {
            id = 2;
            name = codes "Ethereum";
            description = codes "Ethereum blockchain";
            enabled = false;
          }
          ∷ record {
            id = 3;
            name = codes "Polygon";
            description = codes "Polygon blockchain";
            enabled = false;
          }
          ∷ [];
      signer_registries =
          (
            1,
            record {
              registry_type = codes "VIA";
              signers = signer ∷ [];
              threshold = 1;
              enabled = true;
            }
                ∷ record {
                  registry_type = codes "Chain";
                  signers = signer ∷ [];
                  threshold = 1;
                  enabled = true;
                }
                ∷ [],
          )
          ∷ [];
      skip_existing = true;
      dry_run = false;
    }

-- The keys that a configuration file may have.
pub record PartialConfig : Type 0 where
  pub chains : Option (List ChainConfig)
  pub signer_registries : Option (List (ℕ × List SignerConfig))
  pub skip_existing : Option Bool
  pub dry_run : Option Bool

abbrev pub override : {A : Type 0} → A → Option A → A
override a none = a
override a (some b) = b

-- `{ ...defaultConfig, ...file }`
unfoldable pub spread_config : SetupConfig → PartialConfig → SetupConfig
spread_config config file = record {
  chains = override config.chains file.chains;
  signer_registries = override config.signer_registries file.signer_registries;
  skip_existing = override config.skip_existing file.skip_existing;
  dry_run = override config.dry_run file.dry_run;
}

-- `a || b` on strings that may be undefined: the empty string counts as absent.
unfoldable pub or_else : Option Text → Option Text → Option Text
or_else (some (c ∷ s)) other = some (c ∷ s)
or_else _ other = other

-- An entry of network-config.json.
pub record NetworkInfo : Type 0 where
  pub url : Text
  pub program_id : Option Text
  pub wallet_path : Option Text

-- What `main` finds: the files, the environment, and the cluster at a URL. `create` is the
-- constructor of `PostDeploymentSetup`, which reads the wallet and the IDL.
pub record Host (World : Type 0) : Type 0 where
  -- `networks` of network-config.json
  pub read_network_config : Result (List (Text × NetworkInfo))
  pub file_exists : Text → Bool
  pub read_config : Text → Result PartialConfig
  pub env_program_id : Option Text
  pub env_anchor_wallet : Option Text
  pub create : Text → Bytes → Text → Result PostDeploymentSetup
  pub cluster : Text → Cluster World

abbrev pub read_or_default : Result PartialConfig → SetupConfig
read_or_default (ok file) = spread_config default_config file
read_or_default (err e) = default_config

-- The exit code, the cluster and what was sent to it.
pub record Exit (World : Type 0) : Type 0 where
  pub code : ℕ
  pub world : World
  pub sent : List TransactionInstruction

abbrev pub finish : {World : Type 0} → Session World → Exit World
finish s = record { code = if s.result.success then 0 else 1; world = s.world; sent = s.sent }

module _ {World : Type 0} (host : Host World) where
  unfoldable pub load_network_config : Text → Result NetworkInfo
  load_network_config network = do
    networks ← host.read_network_config
    known network (entry network networks)

  -- A file that cannot be read or parsed is passed over with a warning.
  unfoldable pub load_setup_config : Option Text → SetupConfig
  load_setup_config none = default_config
  load_setup_config (some []) = default_config
  load_setup_config (some (c ∷ s)) =
      let config_path = c ∷ s in
      if host.file_exists config_path
      then read_or_default (host.read_config config_path)
      else default_config

  abbrev required : Option Text → Result Text
  required (some (c ∷ id)) = ok (c ∷ id)
  required _ = err (
      thrown
        (codes "Program ID not found. Specify --program-id or set PROGRAM_ID environment variable"))

  abbrev wallet_or_default : Option Text → Text
  wallet_or_default (some (c ∷ path)) = c ∷ path
  wallet_or_default _ = codes "~/.config/solana/id.json"

  -- `finalWalletPath`
  unfoldable pub final_wallet_path : CliArgs → NetworkInfo → Text
  final_wallet_path cli info =
      wallet_or_default (or_else cli.wallet_path (or_else info.wallet_path host.env_anchor_wallet))

  -- The body of the `try` block up to the call of `setup`, which follows it.
  unfoldable pub prepare : CliArgs → Result (Text × SetupConfig × PostDeploymentSetup)
  prepare cli = do
    info ← load_network_config cli.network
    program_id ← required (or_else cli.program_id (or_else info.program_id host.env_program_id))
    let config = record (load_setup_config cli.config_path) {
      dry_run = cli.dry_run;
      skip_existing = cli.skip_existing;
    }
    key ← (host.cluster info.url).public_key program_id
    this ← host.create info.url key (final_wallet_path cli info)
    ok (info.url, config, this)

  unfoldable pub run_prepared :
      Result (Text × SetupConfig × PostDeploymentSetup) → World → Exit World
  run_prepared (ok (url, config, this)) w = finish (setup (host.cluster url) this config w)
  run_prepared (err e) w = record { code = 1; world = w; sent = [] }

  abbrev pub run_parsed : Option CliArgs → World → Option (Exit World)
  run_parsed none w = none
  run_parsed (some cli) w = some (run_prepared (prepare cli) w)

  -- `main`: nothing but the usage, or an exit.
  unfoldable pub main : List Text → World → Option (Exit World)
  main args w = run_parsed (parse_args args) w
