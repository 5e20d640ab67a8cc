-- ===== src/Deploy/Run/Unkeyed.antt =====
-- The first deployment of scripts/deployment/deploy.ts to a network, where the file of its keypair is
-- still missing.
use via_solana_gateway_v.Prelude.{
  ℕ, ◌≡◌, refl, sym, subst, Bool, true, false, not, Text, codes, Result, ok, err, OnOk,
}
use mathlib.Core.Bool.{true≢false}
use via_solana_gateway_v.Prelude.Actions.{Action, ◌>>=◌}
use via_solana_gateway_v.Prelude.Actions.Gives.{Gives, Gives-then, Gives-Keeps}
use via_solana_gateway_v.Network.Types.{Paths}
use via_solana_gateway_v.Network.System.{System}
use via_solana_gateway_v.Network.Console.{Console, require, require_command}
use via_solana_gateway_v.Network.Manager.{validate_network}
use via_solana_gateway_v.Network.Manager.Effects.{Keeps-require_command}
use via_solana_gateway_v.Network.Manager.Missing.{Missing, Configured, validate_network-Unmet}
use via_solana_gateway_v.Deploy.Types.{DeploymentOptions, Deployment}
use via_solana_gateway_v.Deploy.Phases.{on_console, pre_deployment_validation}
use via_solana_gateway_v.Deploy.Run.{when, prepare_and_build, phases, conclude, deploy}
use via_solana_gateway_v.Deploy.Run.Invariants.{Keeps-phases}
use via_solana_gateway_v.Deploy.Run.Outcome.{Unconcluded, result-Kept}

-- What an action that always throws gives.
abbrev Never : {A World : Type 0} → A → Deployment World → Type 0
Never a s = ⊥

-- What comes behind such an action is not run.
Gives-Never :
    {A B World : Type 0} (P : Deployment World → Type 0) (m : Action (Deployment World) A)
    (f : A → Action (Deployment World) B)
    → Gives P m Never
    → Gives P (m >>= f) Never
Gives-Never P m f never = Gives-then P Never Never m f never (λ a s h. absurd h)

module _ {World : Type 0} (system : System World) (paths : Paths) (options : DeploymentOptions)
    (console : Console World) (missing : Missing system console.config options.network) where
  abbrev D : Deployment World → Type 0
  D s = Configured system paths console.config options.network missing s.console

  abbrev C : Console World → Type 0
  C = Configured system paths console.config options.network missing

  require-Never :
      (is_valid : Bool) (message : Text)
      → Gives (λ s. is_valid ≡ false) (on_console (require {World = World} is_valid message)) Never
  require-Never true message = λ s h. absurd (true≢false h)
  require-Never false message = λ s h. tt

  tool-Gives :
      (command message : Text)
      → Gives D (on_console (require_command system command message)) (λ u. D)
  tool-Gives command message =
      Gives-Keeps D (on_console (require_command system command message))
        (λ s h. Keeps-require_command system C command message (λ w s h. h) s.console h)

  pre_deployment_validation-Never : Gives D (pre_deployment_validation system paths options) Never
  unfolding pre_deployment_validation
  pre_deployment_validation-Never =
      Gives-then D (λ u. D) Never _ _
        (Gives-then D (λ u. D) (λ u. D) _ _ (tool-Gives (codes "solana --version") _)
          (λ u. tool-Gives (codes "anchor --version") _))
        (λ u.
          Gives-then D (λ met s. met ≡ false) Never
            (on_console (validate_network system paths options.network)) _
            (λ s h.
              validate_network-Unmet system paths console.config options.network missing s.console
                h)
            (λ is_valid.
              Gives-Never _ (on_console (require is_valid _)) _ (require-Never is_valid _)))

  phases-Never : options.skip_pre_validation ≡ false → Gives D (phases system paths options) Never
  unfolding phases prepare_and_build
  phases-Never e = Gives-Never D _ _ (
      Gives-Never D _ _ (
        Gives-Never D _ _ (
          Gives-Never D _ _ (
            subst
              (λ b.
                Gives D (when system paths (not b) (pre_deployment_validation system paths options))
                  Never)
              (sym e) pre_deployment_validation-Never))))

  conclude-Never :
      (start_time : ℕ) (r : Result (Unit {0})) (s : Deployment World)
      → Unconcluded system paths s
      → OnOk (λ u. Never u s) r
      → (conclude system paths start_time r s).result.success ≡ false
  unfolding ◌>>=◌
  conclude-Never start_time (ok u) s h never = absurd never
  conclude-Never start_time (err e) s h never = h.0

  -- If the configuration asks for the file of the network's keypair, the file is not there and the
  -- validation is not skipped, the deployment fails.
  pub deploy_without_keypair :
      options.skip_pre_validation ≡ false
      → (deploy system paths options console).result.success ≡ false
  unfolding deploy
  deploy_without_keypair e =
      conclude-Never _ _ _
        (Keeps-phases system paths (Unconcluded system paths) (result-Kept system paths) options
          (λ e s h. h) _ (refl, refl))
        (phases-Never e _ refl)
