-- ===== src/Deploy/Run.antt =====
-- The orchestrator of scripts/deployment/deploy.ts, and its command line.
pub mod Invariants
pub mod Outcome
pub mod Live
pub mod Unkeyed
use via_solana_gateway_v.Prelude.{
  ℕ, Bool, true, false, not, ◌&&◌, ◌||◌, List, [], ◌∷◌, Option, none, some, if◌then◌else◌, Text,
  codes, text_eq, Result, ok, err,
}
use via_solana_gateway_v.Prelude.Actions.{Action, pure, ◌>>=◌, ◌>>◌}
use via_solana_gateway_v.Prelude.Words.{includes}
use via_solana_gateway_v.Health.Types.{minus}
use via_solana_gateway_v.Network.Types.{Paths}
use via_solana_gateway_v.Network.System.{System}
use via_solana_gateway_v.Network.Console.{Console}
use via_solana_gateway_v.Network.Config.{load_config}
use via_solana_gateway_v.Network.Manager.{prepare_network}
use via_solana_gateway_v.Deploy.Types.{DeploymentOptions, DeploymentResult, Deployment}
use via_solana_gateway_v.Deploy.Phases.{
  on_console, change, date_now, set_total_time, pre_deployment_validation, build_program,
  deploy_program, post_deployment_validation,
}

abbrev pub initial_result : Text → DeploymentResult
initial_result network = record {
  success = false;
  network = network;
  program_id = none;
  tx_signature = none;
  error = none;
  warnings = [];
  metrics = record {
    build_time = none;
    deploy_time = none;
    total_time = none;
    program_size = none;
  };
}

abbrev succeeded : DeploymentResult → DeploymentResult
succeeded r = record r { success = true }

abbrev failed : Text → DeploymentResult → DeploymentResult
failed message r = record r { error = some message }

abbrev initial_options : Text → DeploymentOptions
initial_options network = record {
  network = network;
  skip_pre_validation = false;
  skip_build = false;
  skip_post_validation = false;
  dry_run = false;
  verbose = false;
  program_keypair = none;
}

abbrev set_flag : Text → DeploymentOptions → DeploymentOptions
set_flag flag o =
    if text_eq flag (codes "--skip-pre-validation")
    then record o { skip_pre_validation = true }
    else if text_eq flag (codes "--skip-build")
    then record o { skip_build = true }
    else if text_eq flag (codes "--skip-post-validation")
    then record o { skip_post_validation = true }
    else if text_eq flag (codes "--dry-run")
    then record o { dry_run = true }
    else if text_eq flag (codes "--verbose")
    then record o { verbose = true }
    else o

abbrev set_keypair : Option Text → DeploymentOptions → DeploymentOptions
set_keypair path o = record o { program_keypair = path }

-- The loop over the words behind the network; `args[++i]` is `undefined` at the end.
unfoldable pub parse_flags : List Text → DeploymentOptions → DeploymentOptions
parse_flags [] o = o
parse_flags (flag ∷ []) o =
    if text_eq flag (codes "--program-keypair") then set_keypair none o else set_flag flag o
parse_flags (flag ∷ value ∷ rest) o = elim (text_eq flag (codes "--program-keypair")) [
  | true ↦ parse_flags rest (set_keypair (some value) o)
  | false ↦ parse_flags (value ∷ rest) (set_flag flag o)
]

unfoldable pub parse_cli_args : Text → List Text → DeploymentOptions
parse_cli_args network flags = parse_flags flags (initial_options network)

module _ {World : Type 0} (system : System World) (paths : Paths) where
  -- `if (condition) { await step }`
  abbrev pub when :
      Bool → Action (Deployment World) (Unit {0}) → Action (Deployment World) (Unit {0})
  when condition step = if condition then step else pure tt

  -- The phases before the deployment.
  unfoldable pub prepare_and_build : DeploymentOptions → Action (Deployment World) (Unit {0})
  prepare_and_build options =
      when (not options.skip_pre_validation) (pre_deployment_validation system paths options)
      >> on_console (prepare_network system paths options.network)
      >> when (not options.skip_build) (build_program system paths)

  -- The five phases.
  unfoldable pub phases : DeploymentOptions → Action (Deployment World) (Unit {0})
  phases options =
      prepare_and_build options
      >> when (not options.dry_run) (deploy_program system paths options)
      >> when (not options.skip_post_validation && not options.dry_run)
          (post_deployment_validation system paths options)

  -- The end of the `try` block, and the `catch` block.
  abbrev pub conclude : ℕ → Result (Unit {0}) → Deployment World → Deployment World
  conclude start_time (ok u) s =
      ((date_now system paths >>= λ now.
      change (set_total_time (minus now start_time)) >> change succeeded)
        s).1
  conclude start_time (err e) s =
      ((change (failed (system.error_message e))
          >> (date_now system paths >>= λ now. change (set_total_time (minus now start_time))))
        s).1

  abbrev timed : DeploymentOptions → ℕ → Deployment World → Deployment World
  timed options start_time s = let (r, s') = phases options s in conclude start_time r s'

  unfoldable pub deploy : DeploymentOptions → Console World → Deployment World
  deploy options console =
      let (start_time, w) = system.now console.world in
      timed options start_time (record {
        console = record { world = w; config = console.config; effects = console.effects };
        result = initial_result options.network;
      })

  abbrev status : Bool → ℕ
  status true = 0
  status false = 1

  -- What the constructor throws is only printed, by `main().catch(console.error)`.
  abbrev after_constructor :
      DeploymentOptions → Result (Unit {0}) → Console World → ℕ × Console World
  after_constructor options (err e) s = (0, s)
  after_constructor options (ok u) s =
      let d = deploy options s in (status d.result.success, d.console)

  -- The exit status of the process, for `process.argv.slice(2)`.
  unfoldable pub main : List Text → Console World → ℕ × Console World
  main [] s = (0, s)
  main (network ∷ flags) s =
      if includes (codes "--help") (network ∷ flags) || includes (codes "-h") (network ∷ flags)
      then (0, s)
      else let (r, s') = load_config system paths s in
        after_constructor (parse_cli_args network flags) r s'
