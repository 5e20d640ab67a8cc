-- ===== src/Deploy/Phases.antt =====
-- The phases of a deployment in scripts/deployment/deploy.ts, as actions that run the network
-- manager and fill the result.
use via_solana_gateway_v.Prelude.{
  ℕ, Bool, true, false, [], ◌∷◌, ◌++◌, Option, none, some, if◌then◌else◌, Text, codes, ok, thrown,
}
use via_solana_gateway_v.Prelude.Actions.{Action, pure, throw, gets, rescue, ◌>>=◌, ◌>>◌}
use via_solana_gateway_v.Prelude.Words.{trim}
use via_solana_gateway_v.Health.Types.{ℤ, minus}
use via_solana_gateway_v.Network.Types.{Paths, truthy}
use via_solana_gateway_v.Network.System.{System}
use via_solana_gateway_v.Network.Console.{Console, exec, exists, require, require_command}
use via_solana_gateway_v.Network.Config.{get_network_url}
use via_solana_gateway_v.Network.Manager.{validate_network}
use via_solana_gateway_v.Deploy.Types.{DeploymentOptions, DeploymentResult, Deployment}
use via_solana_gateway_v.Deploy.Output.{extract_program_id, extract_tx_signature, contains}

abbrev pub push_warning : Text → DeploymentResult → DeploymentResult
push_warning warning r = record r { warnings = r.warnings ++ (warning ∷ []) }

abbrev set_program_size : ℕ → DeploymentResult → DeploymentResult
set_program_size size r = record r { metrics = record (r.metrics) { program_size = some size } }

abbrev set_build_time : ℤ → DeploymentResult → DeploymentResult
set_build_time time r = record r { metrics = record (r.metrics) { build_time = some time } }

abbrev set_deploy_time : ℤ → DeploymentResult → DeploymentResult
set_deploy_time time r = record r { metrics = record (r.metrics) { deploy_time = some time } }

abbrev pub set_total_time : ℤ → DeploymentResult → DeploymentResult
set_total_time time r = record r { metrics = record (r.metrics) { total_time = some time } }

-- The program that the output names, and its transaction.
abbrev set_deployed : Text → DeploymentResult → DeploymentResult
set_deployed output r = record r {
  program_id = extract_program_id output;
  tx_signature = extract_tx_signature output;
}

abbrev keypair_option : Option Text → Text
keypair_option none = []
keypair_option (some path) = codes " --program-keypair " ++ path

unfoldable pub deploy_command : DeploymentOptions → Text
deploy_command options =
    codes "anchor deploy --provider.cluster "
    ++ options.network
    ++ keypair_option (truthy options.program_keypair)

abbrev is_blank : Text → Bool
is_blank [] = true
is_blank (c ∷ s) = false

module _ {World A : Type 0} where
  -- A call of the network manager, or of Node.
  abbrev pub on_console : Action (Console World) A → Action (Deployment World) A
  on_console m s =
      let (r, console) = m s.console in (r, record { console = console; result = s.result })

module _ {World : Type 0} where
  abbrev pub change : (DeploymentResult → DeploymentResult) → Action (Deployment World) (Unit {0})
  change f s = (ok tt, record { console = s.console; result = f s.result })

module _ {World : Type 0} (system : System World) (paths : Paths) where
  -- `Date.now()`
  abbrev pub date_now : Action (Deployment World) ℕ
  date_now s =
      let (time, w) = system.now s.console.world in
      (
        ok time,
        record {
          console = record { world = w; config = s.console.config; effects = s.console.effects };
          result = s.result;
        },
      )

  unfoldable pub check_workspace : Action (Deployment World) (Unit {0})
  check_workspace =
      rescue
        (on_console (exec system (codes "git status --porcelain")) >>= λ git_status.
          if is_blank (trim git_status)
          then pure tt
          else change (push_warning (codes "Working directory has uncommitted changes")))
        (λ e. pure tt)

  unfoldable pub pre_deployment_validation :
      DeploymentOptions → Action (Deployment World) (Unit {0})
  pre_deployment_validation options =
      on_console (
        require_command system (codes "solana --version")
          (codes "Solana CLI not found. Please install Solana CLI first."))
      >> on_console (
          require_command system (codes "anchor --version")
            (codes "Anchor CLI not found. Please install Anchor CLI first."))
      >> (on_console (validate_network system paths options.network) >>= λ is_valid.
          on_console (
            require is_valid
              (codes "Network " ++ options.network ++ codes " failed validation checks"))
          >> check_workspace)

  abbrev program_path : Text
  program_path = codes "target/deploy/message_gateway_v4.so"

  unfoldable pub measure_program : Action (Deployment World) (Unit {0})
  measure_program = on_console (exists system program_path) >>= λ found.
      if found
      then ((λ s. (system.stat_size program_path s.console.world, s)) >>= λ size.
          change (set_program_size size))
      else pure tt

  unfoldable pub build_program : Action (Deployment World) (Unit {0})
  build_program = date_now >>= λ build_start.
      rescue
        (on_console (exec system (codes "anchor clean"))
          >> on_console (exec system (codes "anchor build"))
          >> measure_program
          >> (date_now >>= λ now. change (set_build_time (minus now build_start))))
        (λ e. throw (thrown (codes "Build failed: " ++ system.show_error e)))

  -- What is taken from the output of the deployment.
  unfoldable pub record_deployed : ℕ → Text → Action (Deployment World) (Unit {0})
  record_deployed deploy_start deploy_output =
      change (set_deployed deploy_output)
      >> (date_now >>= λ now. change (set_deploy_time (minus now deploy_start)))

  unfoldable pub deploy_program : DeploymentOptions → Action (Deployment World) (Unit {0})
  deploy_program options = date_now >>= λ deploy_start.
      rescue (on_console (exec system (deploy_command options)) >>= record_deployed deploy_start)
        (λ e. throw (thrown (codes "Deployment failed: " ++ system.show_error e)))

  -- The program's account is asked for.
  unfoldable pub verify_account : Text → Text → Action (Deployment World) (Unit {0})
  verify_account network program_id =
      rescue
        (gets (λ s. s.console.config) >>= λ config.
          on_console (
            exec system (
              codes "solana account "
              ++ program_id
              ++ codes " --url "
              ++ get_network_url network config))
          >>= λ account_info.
              if contains (codes "Account not found") account_info
              then throw (thrown (codes "Program not found on network after deployment"))
              else pure tt)
        (λ e. change (push_warning (codes "Program verification failed: " ++ system.show_error e)))

  abbrev pub verify_if_known : Text → Option Text → Action (Deployment World) (Unit {0})
  verify_if_known network none = pure tt
  verify_if_known network (some program_id) = verify_account network program_id

  unfoldable pub post_deployment_validation :
      DeploymentOptions → Action (Deployment World) (Unit {0})
  post_deployment_validation options = gets (λ s. s.result.program_id) >>= λ program_id.
      verify_if_known options.network (truthy program_id)
