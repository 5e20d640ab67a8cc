-- ===== src/Tests/Deploy.antt =====
-- Deployments at concrete inputs.
use mathlib.Core.List.{Memᴰ}
use via_solana_gateway_v.Prelude.{
  ok, ◌≡◌, ◌↔◌, refl, true, false, ◌∷◌, [], none, some, codes, text_eq,
}
use via_solana_gateway_v.Prelude.Words.{
  includes, trim, trim_start, trim_end, is_space, starts_with, split,
}
use via_solana_gateway_v.Prelude.Actions.{rescue, ◌>>=◌}
use via_solana_gateway_v.Network.Types.{entry}
use via_solana_gateway_v.Network.Console.{executed, require_command}
use via_solana_gateway_v.Network.Anchor.{
  update_networks, networks_to_update, update_toml, update_anchor_toml, sync_program_id,
}
use via_solana_gateway_v.Network.Manager.{
  network_reachable, validate_requirement, validate_all, validate_network, generate_if_missing,
  prepare_network,
}
use via_solana_gateway_v.Deploy.Types.{DeploymentOptions, Deployment}
use via_solana_gateway_v.Deploy.Output.{
  extract_program_id, search_text, after_label, bounded_word, word, is_alphanumeric,
}
use via_solana_gateway_v.Deploy.Phases.{
  pre_deployment_validation, build_program, deploy_program, post_deployment_validation,
  deploy_command, record_deployed, check_workspace, measure_program, verify_account,
}
use via_solana_gateway_v.Deploy.Run.{prepare_and_build, phases, deploy, parse_flags, parse_cli_args}
use via_solana_gateway_v.Deploy.Run.Outcome.{
  NotDeployed, deploy_success_iff, deploy_dry_run, deploy-Ran,
}
use via_solana_gateway_v.Network.System.{System}
use via_solana_gateway_v.Network.Manager.Live.{Working}
use via_solana_gateway_v.Network.Manager.Missing.{Missing}
use via_solana_gateway_v.Deploy.Run.Unkeyed.{deploy_without_keypair}
use via_solana_gateway_v.Deploy.Run.Live.{deploy_succeeds}
use via_solana_gateway_v.Tests.Network.{a_program, devnet, Files, a_system, the_paths, a_console}

abbrev some_options : DeploymentOptions
some_options = record {
  network = codes "devnet";
  skip_pre_validation = false;
  skip_build = false;
  skip_post_validation = false;
  dry_run = false;
  verbose = false;
  program_keypair = none;
}

abbrev dry_options : DeploymentOptions
dry_options = record some_options { dry_run = true }

abbrev deployed : Deployment Files
deployed = deploy a_system the_paths some_options a_console

abbrev dry_deployed : Deployment Files
dry_deployed = deploy a_system the_paths dry_options a_console

deployed_lem : deployed.result.success ≡ true
unfolding deploy phases prepare_and_build pre_deployment_validation build_program deploy_program
    post_deployment_validation deploy_command record_deployed check_workspace measure_program
    verify_account rescue ◌>>=◌ entry require_command text_eq trim trim_start trim_end is_space
    validate_network validate_all validate_requirement network_reachable prepare_network
    generate_if_missing update_anchor_toml networks_to_update update_toml update_networks
    sync_program_id split extract_program_id search_text after_label starts_with
deployed_lem = refl

deploy_success_iff_example : (deployed.result.success ≡ true) ↔ (deployed.result.error ≡ none)
deploy_success_iff_example = deploy_success_iff a_system the_paths some_options a_console

deploy_dry_run_example : NotDeployed dry_deployed.console
deploy_dry_run_example = deploy_dry_run a_system the_paths dry_options a_console refl tt

deploy-Ran_example : Memᴰ (executed (deploy_command some_options)) deployed.console.effects
deploy-Ran_example = deploy-Ran a_system the_paths some_options a_console refl deployed_lem

-- The output of a deployment, read back.
extracted :
    extract_program_id
      (codes "Deploy success\nProgram Id: 2RgmXiQc6d5nys8vCMLKAovNKXneQK9SLkgRtnThex7i\n")
    ≡ some (codes "2RgmXiQc6d5nys8vCMLKAovNKXneQK9SLkgRtnThex7i")
unfolding extract_program_id search_text after_label bounded_word word is_alphanumeric starts_with
    trim_start is_space
extracted = refl

parsed :
    (parse_cli_args
      (codes "devnet")
      (codes "--dry-run" ∷ codes "--program-keypair" ∷ codes "k.json" ∷ [])).program_keypair
    ≡ some (codes "k.json")
unfolding parse_cli_args parse_flags text_eq
parsed = refl

-- A system where every file is there and can be read.
abbrev steady : System Files
steady = record a_system {
  exists_sync = λ path files. true;
  read_file_sync = λ path files. ok (codes "[provider]");
}

steady-Working : Working steady (a_console.config) (codes "devnet")
unfolding entry text_eq
steady-Working = record {
  runs = λ cwd command files. (a_program, refl);
  there = λ path files. refl;
  readable = λ path files. (codes "[provider]", refl);
  writable = λ path text files. refl;
  sized = λ path files. (100, refl);
  named = refl;
  info = devnet;
  requirement = record {
    min_balance = codes "2 SOL";
    validation = codes "keypair_exists" ∷ codes "network_reachable" ∷ [];
  };
  known_network = refl;
  known_requirement = refl;
  id = a_program;
  has_id = refl;
}

deploy_succeeds_example : (deploy steady the_paths some_options a_console).result.success ≡ true
deploy_succeeds_example = deploy_succeeds steady the_paths some_options a_console steady-Working

-- A system where no file is there.
abbrev bare : System Files
bare = record a_system { exists_sync = λ path files. false }

bare-Missing : Missing bare (a_console.config) (codes "devnet")
unfolding entry text_eq includes
bare-Missing = record {
  info = devnet;
  requirement = record {
    min_balance = codes "2 SOL";
    validation = codes "keypair_exists" ∷ codes "network_reachable" ∷ [];
  };
  known_network = refl;
  known_requirement = refl;
  asked = refl;
  not_there = λ files. refl;
}

deploy_without_keypair_example :
    (deploy bare the_paths some_options a_console).result.success ≡ false
deploy_without_keypair_example =
    deploy_without_keypair bare the_paths some_options a_console bare-Missing refl
