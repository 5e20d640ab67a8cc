-- ===== src/Setup/Config/DryRun.antt =====
-- The flag `--dry-run` on the command line of scripts/deployment/setup.ts.
use via_solana_gateway_v.Prelude.{
  ◌≡◌, refl, sym, ap, ◌∙◌, Bool, true, false, not, if◌then◌else◌, List, [], ◌∷◌, Option, none, some,
  arith, Text, codes, Result, ok, err, OnOk, OnOk-bind,
}
use via_solana_gateway_v.Setup.Types.{SetupConfig, PostDeploymentSetup}
use via_solana_gateway_v.Setup.Run.Planned.{setup_dry_run}
use via_solana_gateway_v.Prelude.Words.{includes}
use via_solana_gateway_v.Setup.Config.{
  CliArgs, set_option, parse_options, parse_args, Host, Exit, load_network_config,
  final_wallet_path, prepare, run_prepared, run_parsed, main,
}

set_option-dry_run :
    (a : Text) (value : Option Text) (r : CliArgs) → (set_option a value r).dry_run ≡ r.dry_run
unfolding set_option
set_option-dry_run a value r = ground arith

parse_options-dry_run :
    (words : List Text) (r : CliArgs) → (parse_options words r).dry_run ≡ r.dry_run
unfolding parse_options
parse_options-dry_run [] r = refl
parse_options-dry_run (a ∷ []) r = set_option-dry_run a none r
parse_options-dry_run (a ∷ value ∷ rest) r = ground (
  arith,
  parse_options-dry_run rest (set_option a (some value) r),
  set_option-dry_run a (some value) r,
  parse_options-dry_run (value ∷ rest) r,
)

-- With `--dry-run` among its words, what `parseArgs` returns is a dry run.
parse_args-dry_run :
    (args : List Text) (cli : CliArgs)
    → includes (codes "--dry-run") args ≡ true
    → parse_args args ≡ some cli
    → cli.dry_run ≡ true
unfolding parse_args
parse_args-dry_run [] cli flag e = cc
parse_args-dry_run (network ∷ rest) cli flag e =
    elim_help (includes (codes "--help") (network ∷ rest)) e
  where
    found : CliArgs
    found = record {
      network = network;
      config_path = none;
      program_id = none;
      wallet_path = none;
      dry_run = includes (codes "--dry-run") (network ∷ rest);
      skip_existing = not (includes (codes "--force") (network ∷ rest));
    }

    elim_help :
        (b : Bool)
        → (if b then none else some (parse_options rest found)) ≡ some cli
        → cli.dry_run ≡ true
    elim_help true h = cc
    elim_help false h =
        let same : parse_options rest found ≡ cli = cc in
        ap (λ c. c.dry_run) (sym same) ∙ parse_options-dry_run rest found ∙ flag

abbrev IsDry : Text × SetupConfig × PostDeploymentSetup → Type 0
IsDry prepared = prepared.1.dry_run ≡ true

module _ {World : Type 0} (host : Host World) where
  prepare-dry_run : (cli : CliArgs) → cli.dry_run ≡ true → OnOk IsDry (prepare host cli)
  unfolding prepare
  prepare-dry_run cli dry = OnOk-bind IsDry (load_network_config host cli.network) _ λ info.
      OnOk-bind IsDry _ _ λ program_id.
        OnOk-bind IsDry ((host.cluster info.url).public_key program_id) _ λ key.
          OnOk-bind IsDry (host.create info.url key (final_wallet_path host cli info)) _ λ this. dry

  run_prepared-dry_run :
      (r : Result (Text × SetupConfig × PostDeploymentSetup)) (w : World)
      → OnOk IsDry r
      → (run_prepared host r w).sent ≡ []
  unfolding run_prepared
  run_prepared-dry_run (ok (url, config, this)) w dry =
      setup_dry_run (host.cluster url) this config w dry
  run_prepared-dry_run (err e) w dry = refl

  -- With `--dry-run` anywhere among its words, `main` sends nothing to the cluster, whatever the
  -- configuration file says and whatever the cluster answers.
  pub main_dry_run :
      (args : List Text) (w : World) (exit : Exit World)
      → includes (codes "--dry-run") args ≡ true
      → main host args w ≡ some exit
      → exit.sent ≡ []
  unfolding main
  main_dry_run args w exit flag e =
      parsed (parse_args args) (λ cli. parse_args-dry_run args cli flag) e
    where
      parsed :
          (o : Option CliArgs)
          → ((cli : CliArgs) → o ≡ some cli → cli.dry_run ≡ true)
          → run_parsed host o w ≡ some exit
          → exit.sent ≡ []
      parsed none dry h = cc
      parsed (some cli) dry h =
          let same : run_prepared host (prepare host cli) w ≡ exit = cc in
          ap (λ x. x.sent) (sym same)
          ∙ run_prepared-dry_run (prepare host cli) w (prepare-dry_run cli (dry cli refl))
