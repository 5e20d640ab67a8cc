-- ===== src/Deploy/Run/Outcome.antt =====
-- What `deploy` of scripts/deployment/deploy.ts reports, and when it deploys.
use mathlib.Core.Bool.{true≢false}
use mathlib.Core.List.{Memᴰ}
use mathlib.Core.List.Memᴰ.{head, tail}
use via_solana_gateway_v.Prelude.{
  ℕ, ◌≡◌, ◌↔◌, refl, sym, subst, ◌∙◌, Bool, true, false, not, ◌&&◌, List, ◌∷◌, ◌++◌, none, All,
  Text, codes, thrown, Result, ok, err, OnOk,
}
use via_solana_gateway_v.Prelude.Words.{starts_with}
use via_solana_gateway_v.Prelude.Actions.{Action, throw, ◌>>=◌}
use via_solana_gateway_v.Prelude.Actions.Gives.{
  Gives, Gives_always, Gives-Keeps, Gives-then, Gives-rescue,
}
use via_solana_gateway_v.Network.Types.{Paths}
use via_solana_gateway_v.Network.System.{System}
use via_solana_gateway_v.Network.Console.{
  Effect, executed, written, made_directory, unlinked, Console, exec,
}
use via_solana_gateway_v.Network.Manager.Effects.{
  Managed, solana_version, anchor_version, keygen_version, keygen, address, keys_sync,
  cluster_version, writes, makes, removes, Keeps-exec, Keeps-require_command,
  Keeps-validate_network, Keeps-prepare_network,
}
use via_solana_gateway_v.Deploy.Types.{DeploymentOptions, Deployment}
use via_solana_gateway_v.Deploy.Phases.{
  on_console, date_now, deploy_command, record_deployed, deploy_program, post_deployment_validation,
}
use via_solana_gateway_v.Deploy.Run.{when, prepare_and_build, phases, deploy, conclude}
use via_solana_gateway_v.Deploy.Run.Invariants.{
  Auxiliary, git_status, clean, build, account, Kept, Keeps-phases,
  Keeps-post_deployment_validation, Keeps-when, Keeps-record_deployed,
}

-- The command that deploys.
unfoldable pub is_deploy : Effect → Bool
is_deploy (executed command) = starts_with (codes "anchor deploy") command
is_deploy (written path text) = false
is_deploy (made_directory path) = false
is_deploy (unlinked path) = false

abbrev pub NotDeployed : {World : Type 0} → Console World → Type 0
NotDeployed s = All (λ e. is_deploy e ≡ false) s.effects

Managed-is_deploy : (e : Effect) → Managed e → is_deploy e ≡ false
unfolding is_deploy starts_with
Managed-is_deploy e solana_version = refl
Managed-is_deploy e anchor_version = refl
Managed-is_deploy e keygen_version = refl
Managed-is_deploy e (keygen path) = refl
Managed-is_deploy e (address path) = refl
Managed-is_deploy e keys_sync = refl
Managed-is_deploy e (cluster_version url) = refl
Managed-is_deploy e (writes path text) = refl
Managed-is_deploy e (makes path) = refl
Managed-is_deploy e (removes path) = refl

Auxiliary-is_deploy : (command : Text) → Auxiliary command → is_deploy (executed command) ≡ false
unfolding is_deploy starts_with
Auxiliary-is_deploy command git_status = refl
Auxiliary-is_deploy command clean = refl
Auxiliary-is_deploy command build = refl
Auxiliary-is_deploy command (account rest) = refl

module _ {World : Type 0} (system : System World) (paths : Paths) where
  module _ (E : List Effect → Type 0)
      (grows : (e : Effect) (es : List Effect) → is_deploy e ≡ false → E es → E (e ∷ es)) where
    abbrev On : Console World → Type 0
    On s = E s.effects

    effects-Kept : Kept system paths (λ s. E s.console.effects)
    effects-Kept = record {
      keeps_now = λ s h. h;
      keeps_change = λ f fills s h. h;
      keeps_auxiliary = λ command a s h.
          Keeps-exec system On command (λ w s h. grows _ _ (Auxiliary-is_deploy command a) h)
            s.console h;
      keeps_tool_check = λ message s h.
          Keeps-require_command system On (codes "solana --version") message
            (λ w s h. grows _ _ (Managed-is_deploy _ solana_version) h) s.console h;
      keeps_anchor_check = λ message s h.
          Keeps-require_command system On (codes "anchor --version") message
            (λ w s h. grows _ _ (Managed-is_deploy _ anchor_version) h) s.console h;
      keeps_validate = λ network s h.
          Keeps-validate_network system On paths (λ e m w s h. grows _ _ (Managed-is_deploy e m) h)
            (λ c s h. h) network s.console h;
      keeps_prepare = λ network s h.
          Keeps-prepare_network system On paths (λ e m w s h. grows _ _ (Managed-is_deploy e m) h)
            (λ c s h. h) network s.console h;
    }

  abbrev pub Unconcluded : Deployment World → Type 0
  Unconcluded s = (s.result.success ≡ false) × (s.result.error ≡ none)

  pub result-Kept : Kept system paths Unconcluded
  result-Kept = record {
    keeps_now = λ s h. h;
    keeps_change = λ f fills s h. ((fills s.result).0 ∙ h.0, (fills s.result).1 ∙ h.1);
    keeps_auxiliary = λ command a s h. h;
    keeps_tool_check = λ message s h. h;
    keeps_anchor_check = λ message s h. h;
    keeps_validate = λ network s h. h;
    keeps_prepare = λ network s h. h;
  }

  conclude_iff :
      (start_time : _) (r : Result (Unit {0})) (s : Deployment World)
      → Unconcluded s
      → ((conclude system paths start_time r s).result.success ≡ true)
        ↔ ((conclude system paths start_time r s).result.error ≡ none)
  unfolding ◌>>=◌
  conclude_iff start_time (ok u) s h = (λ e. h.1, λ e. refl)
  conclude_iff start_time (err e) s h = (λ t. absurd (true≢false (sym t ∙ h.0)), λ t. cc)

  -- Whatever the commands, the files and the configuration are, the result of `deploy` is a success if and only if it has no error.
  pub deploy_success_iff :
      (options : DeploymentOptions) (console : Console World)
      → ((deploy system paths options console).result.success ≡ true)
        ↔ ((deploy system paths options console).result.error ≡ none)
  unfolding deploy
  deploy_success_iff options console =
      conclude_iff _ _ _
        (Keeps-phases system paths Unconcluded result-Kept options (λ e s h. h) _ (refl, refl))

  conclude_effects :
      (start_time : _) (r : Result (Unit {0})) (s : Deployment World)
      → (conclude system paths start_time r s).console.effects ≡ s.console.effects
  unfolding ◌>>=◌
  conclude_effects start_time (ok u) s = refl
  conclude_effects start_time (err e) s = refl

  -- A dry run runs no `anchor deploy`, whatever the commands, the files and the configuration are.
  pub deploy_dry_run :
      (options : DeploymentOptions) (console : Console World)
      → options.dry_run ≡ true
      → NotDeployed console
      → NotDeployed (deploy system paths options console).console
  unfolding deploy
  deploy_dry_run options console dry h =
      subst (All (λ e. is_deploy e ≡ false)) (sym (conclude_effects _ _ _)) (
        Keeps-phases system paths (λ s. All (λ e. is_deploy e ≡ false) s.console.effects)
          (effects-Kept (All (λ e. is_deploy e ≡ false)) (λ e es n h. (n, h))) options
          (λ e. absurd (true≢false (sym dry ∙ e))) _ h)

  module _ (options : DeploymentOptions) where
    abbrev Any : Deployment World → Type 0
    Any s = Unit {0}

    abbrev Ran : Deployment World → Type 0
    Ran s = Memᴰ (executed (deploy_command options)) s.console.effects

    Gives_anything : {A : Type 0} (m : Action (Deployment World) A) → Gives Any m (λ a. Any)
    Gives_anything m = Gives_always Any Any m (λ s h. tt)

    Keeps-Ran : Kept system paths Ran
    Keeps-Ran =
        effects-Kept (λ es. Memᴰ (executed (deploy_command options)) es) (λ e es n m. tail m)

    deploy_program-Gives : Gives Any (deploy_program system paths options) (λ u. Ran)
    unfolding deploy_program
    deploy_program-Gives =
        Gives-then Any (λ a. Any) (λ u. Ran) (date_now system paths) _
          (Gives_anything (date_now system paths))
          (λ deploy_start.
            Gives-rescue Any (λ u. Ran) _
              (λ e. throw (thrown (codes "Deployment failed: " ++ system.show_error e)))
              (Gives-then Any (λ output. Ran) (λ u. Ran)
                (on_console (exec system (deploy_command options)))
                (record_deployed system paths deploy_start)
                (Gives_always Any Ran (on_console (exec system (deploy_command options)))
                  (λ s h. head refl))
                (λ output.
                  Gives-Keeps Ran (record_deployed system paths deploy_start output)
                    (Keeps-record_deployed system paths Ran Keeps-Ran deploy_start output)))
              (λ e s h. tt))

    phases-Gives : options.dry_run ≡ false → Gives Any (phases system paths options) (λ u. Ran)
    unfolding phases
    phases-Gives dry =
        Gives-then Any (λ u. Ran) (λ u. Ran) _ _
          (Gives-then Any (λ u. Any) (λ u. Ran) (prepare_and_build system paths options) _
            (Gives_anything (prepare_and_build system paths options))
            (λ u.
              subst
                (λ b.
                  Gives Any (when system paths (not b) (deploy_program system paths options))
                    (λ v. Ran))
                (sym dry) deploy_program-Gives))
          (λ u.
            Gives-Keeps Ran
              (when system paths (not options.skip_post_validation && not options.dry_run)
                (post_deployment_validation system paths options))
              (Keeps-when system paths Ran Keeps-Ran _ _
                (λ e. Keeps-post_deployment_validation system paths Ran Keeps-Ran options)))

    conclude-Ran :
        (start_time : ℕ) (r : Result (Unit {0})) (s : Deployment World)
        → Unconcluded s
        → OnOk (λ u. Ran s) r
        → (conclude system paths start_time r s).result.success ≡ true
        → Ran (conclude system paths start_time r s)
    unfolding ◌>>=◌
    conclude-Ran start_time (ok u) s h ran t = ran
    conclude-Ran start_time (err e) s h ran t = absurd (true≢false (sym t ∙ h.0))

    -- A deployment that is no dry run and succeeds has run `anchor deploy` for the network and with the keypair of its options.
    pub deploy-Ran :
        (console : Console World)
        → options.dry_run ≡ false
        → (deploy system paths options console).result.success ≡ true
        → Ran (deploy system paths options console)
    unfolding deploy
    deploy-Ran console dry t =
        conclude-Ran _ _ _
          (Keeps-phases system paths Unconcluded result-Kept options (λ e s h. h) _ (refl, refl))
          (phases-Gives dry _ tt) t
