-- ===== src/Deploy/Run/Invariants.antt =====
-- Invariants of the phases of a deployment in scripts/deployment/deploy.ts: what each way to change
-- the state keeps, the phases keep.
use via_solana_gateway_v.Prelude.{
  ℕ, ◌≡◌, refl, Bool, true, false, not, ◌++◌, Option, none, some, Text, codes,
}
use via_solana_gateway_v.Prelude.Actions.{Action}
use via_solana_gateway_v.Prelude.Actions.Keeps.{Keeps, Keeps-then, Keeps-rescue, Keeps-branch}
use via_solana_gateway_v.Network.Types.{Paths, truthy}
use via_solana_gateway_v.Network.System.{System}
use via_solana_gateway_v.Network.Console.{exec, require, require_command}
use via_solana_gateway_v.Network.Manager.{validate_network, prepare_network}
use via_solana_gateway_v.Deploy.Types.{DeploymentOptions, DeploymentResult, Deployment}
use via_solana_gateway_v.Deploy.Phases.{
  on_console, change, date_now, check_workspace, pre_deployment_validation, measure_program,
  build_program, deploy_command, record_deployed, deploy_program, verify_account, verify_if_known,
  post_deployment_validation,
}
use via_solana_gateway_v.Deploy.Run.{when, prepare_and_build, phases}

-- A change of the result that concludes nothing.
abbrev pub Fills : (DeploymentResult → DeploymentResult) → Type 0
Fills f = (r : DeploymentResult) → ((f r).success ≡ r.success) × ((f r).error ≡ r.error)

-- The commands that the phases run besides those of the network manager and the deployment itself.
pub data Auxiliary : Text → Type 0 where
  git_status : Auxiliary (codes "git status --porcelain")
  clean : Auxiliary (codes "anchor clean")
  build : Auxiliary (codes "anchor build")
  account : (rest : Text) → Auxiliary (codes "solana account " ++ rest)

-- What is kept by each way in which the phases change the state.
pub record Kept {World : Type 0} (system : System World) (paths : Paths)
    (P : Deployment World → Type 0) : Type 0 where
  pub keeps_now : Keeps P (date_now system paths)
  pub keeps_change : (f : DeploymentResult → DeploymentResult) → Fills f → Keeps P (change f)
  pub keeps_auxiliary :
      (command : Text) → Auxiliary command → Keeps P (on_console (exec system command))
  pub keeps_tool_check :
      (message : Text)
      → Keeps P (on_console (require_command system (codes "solana --version") message))
  pub keeps_anchor_check :
      (message : Text)
      → Keeps P (on_console (require_command system (codes "anchor --version") message))
  pub keeps_validate :
      (network : Text) → Keeps P (on_console (validate_network system paths network))
  pub keeps_prepare : (network : Text) → Keeps P (on_console (prepare_network system paths network))

module _ {World : Type 0} (system : System World) (paths : Paths) (P : Deployment World → Type 0)
    (kept : Kept system paths P) where
  Keeps-required :
      (b : Bool) (message : Text) → Keeps P (on_console (require {World = World} b message))
  Keeps-required true message s h = h
  Keeps-required false message s h = h

  Keeps-check_workspace : Keeps P (check_workspace system paths)
  unfolding check_workspace
  Keeps-check_workspace =
      Keeps-rescue P _ _
        (Keeps-then P _ _
          (λ status. Keeps-branch P _ _ _ (λ s h. h) (kept.keeps_change _ (λ r. (refl, refl))))
          (kept.keeps_auxiliary _ git_status))
        (λ e s h. h)

  Keeps-pre_deployment_validation :
      (options : DeploymentOptions) → Keeps P (pre_deployment_validation system paths options)
  unfolding pre_deployment_validation
  Keeps-pre_deployment_validation options =
      Keeps-then P _ _
        (λ u.
          Keeps-then P _ _
            (λ is_valid. Keeps-then P _ _ (λ u. Keeps-check_workspace) (Keeps-required is_valid _))
            (kept.keeps_validate options.network))
        (Keeps-then P _ _ (λ u. kept.keeps_anchor_check _) (kept.keeps_tool_check _))

  Keeps-measure_program : Keeps P (measure_program system paths)
  unfolding measure_program
  Keeps-measure_program =
      Keeps-then P _ _
        (λ found.
          Keeps-branch P found _ _
            (Keeps-then P _ _ (λ size. kept.keeps_change _ (λ r. (refl, refl))) (λ s h. h))
            (λ s h. h))
        (λ s h. h)

  Keeps-build_program : Keeps P (build_program system paths)
  unfolding build_program
  Keeps-build_program =
      Keeps-then P _ _
        (λ build_start.
          Keeps-rescue P _ _
            (Keeps-then P _ _
              (λ u.
                Keeps-then P _ _ (λ now. kept.keeps_change _ (λ r. (refl, refl))) kept.keeps_now)
              (Keeps-then P _ _ (λ u. Keeps-measure_program)
                (Keeps-then P _ _ (λ u. kept.keeps_auxiliary _ build)
                  (kept.keeps_auxiliary _ clean))))
            (λ e s h. h))
        kept.keeps_now

  pub Keeps-record_deployed :
      (deploy_start : ℕ) (output : Text)
      → Keeps P (record_deployed system paths deploy_start output)
  unfolding record_deployed
  Keeps-record_deployed deploy_start output =
      Keeps-then P _ _
        (λ u. Keeps-then P _ _ (λ now. kept.keeps_change _ (λ r. (refl, refl))) kept.keeps_now)
        (kept.keeps_change _ (λ r. (refl, refl)))

  Keeps-deploy_program :
      (options : DeploymentOptions)
      → Keeps P (on_console (exec system (deploy_command options)))
      → Keeps P (deploy_program system paths options)
  unfolding deploy_program
  Keeps-deploy_program options k =
      Keeps-then P _ _
        (λ deploy_start.
          Keeps-rescue P _ _
            (Keeps-then P _ _ (λ output. Keeps-record_deployed deploy_start output) k) (λ e s h. h))
        kept.keeps_now

  Keeps-verify_account :
      (network program_id : Text) → Keeps P (verify_account system paths network program_id)
  unfolding verify_account
  Keeps-verify_account network program_id =
      Keeps-rescue P _ _
        (Keeps-then P _ _
          (λ config.
            Keeps-then P _ _ (λ info. Keeps-branch P _ _ _ (λ s h. h) (λ s h. h))
              (kept.keeps_auxiliary _ (account _)))
          (λ s h. h))
        (λ e. kept.keeps_change _ (λ r. (refl, refl)))

  pub Keeps-post_deployment_validation :
      (options : DeploymentOptions) → Keeps P (post_deployment_validation system paths options)
  unfolding post_deployment_validation
  Keeps-post_deployment_validation options =
      Keeps-then P _ _ (λ program_id. if_known (truthy program_id)) (λ s h. h)
    where
      if_known : (o : Option Text) → Keeps P (verify_if_known system paths options.network o)
      if_known none = λ s h. h
      if_known (some program_id) = Keeps-verify_account options.network program_id

  pub Keeps-when :
      (b : Bool) (m : Action (Deployment World) (Unit {0}))
      → (b ≡ true → Keeps P m)
      → Keeps P (when system paths b m)
  Keeps-when true m k = k refl
  Keeps-when false m k = λ s h. h

  -- The phases, if the deployment itself keeps it wherever it is not a dry run.
  pub Keeps-phases :
      (options : DeploymentOptions)
      → (options.dry_run ≡ false → Keeps P (on_console (exec system (deploy_command options))))
      → Keeps P (phases system paths options)
  unfolding phases prepare_and_build
  Keeps-phases options k =
      Keeps-then P _ _ (λ u. Keeps-when _ _ (λ e. Keeps-post_deployment_validation options))
        (Keeps-then P _ _
          (λ u. Keeps-when _ _ (λ e. Keeps-deploy_program options (k (of_not options.dry_run e))))
          (Keeps-then P _ _ (λ u. Keeps-when _ _ (λ e. Keeps-build_program))
            (Keeps-then P _ _ (λ u. kept.keeps_prepare options.network)
              (Keeps-when _ _ (λ e. Keeps-pre_deployment_validation options)))))
    where
      of_not : (b : Bool) → not b ≡ true → b ≡ false
      of_not true e = cc
      of_not false e = refl
