-- ===== src/Deploy/Run/Live.antt =====
-- A deployment where the tools work: every phase of scripts/deployment/deploy.ts returns.
use via_solana_gateway_v.Prelude.{
  ℕ, ◌≡◌, refl, sym, subst, Bool, true, false, Option, none, some, Text, codes, Result, ok, err,
}
use via_solana_gateway_v.Prelude.Actions.{Action, ◌>>=◌}
use via_solana_gateway_v.Prelude.Actions.Keeps.{Keeps-then, Keeps-branch}
use via_solana_gateway_v.Prelude.Actions.Gives.{
  Returns, Returns-then, Returns-rescue, Returns_true, Returns_rescued,
}
use via_solana_gateway_v.Network.Types.{NetworkConfig, Paths, truthy}
use via_solana_gateway_v.Network.System.{System}
use via_solana_gateway_v.Network.Console.{Console, exec}
use via_solana_gateway_v.Network.Manager.{validate_network, prepare_network}
use via_solana_gateway_v.Deploy.Types.{DeploymentOptions, Deployment}
use via_solana_gateway_v.Deploy.Phases.{
  on_console, change, date_now, check_workspace, pre_deployment_validation, measure_program,
  build_program, deploy_command, record_deployed, deploy_program, verify_account, verify_if_known,
  post_deployment_validation,
}
use via_solana_gateway_v.Deploy.Run.{when, prepare_and_build, phases, conclude, deploy}
use via_solana_gateway_v.Network.Manager.Live.{
  Working, Met, exec_in-Returns, exists-Returns, require-Returns, require_command-Returns,
  validate_network-Returns, prepare_network-Returns,
}

module _ {World : Type 0} (system : System World) (paths : Paths) (config : NetworkConfig)
    (network : Text) (working : Working system config network) where
  -- The phases, over the state of a deployment.
  abbrev D : Deployment World → Type 0
  D s = s.console.config ≡ config

  abbrev UnitD : Unit {0} → Deployment World → Type 0
  UnitD u = D

  changed-Returns : (f : _) → Returns D (change f) UnitD
  changed-Returns f s h = (tt, refl, h)

  now-Returns : Returns D (date_now system paths) (λ time. D)
  now-Returns s h = ((system.now s.console.world).0, refl, h)

  ran-Returns : (command : Text) → Returns D (on_console (exec system command)) (λ output. D)
  ran-Returns command s h =
      exec_in-Returns system paths config network working none command s.console h

  check_workspace-Returns : Returns D (check_workspace system paths) UnitD
  unfolding check_workspace
  check_workspace-Returns =
      Returns_rescued D _ _
        (Keeps-then D _ _ (λ status. Keeps-branch D _ _ _ (λ s h. h) (λ s h. h)) (λ s h. h))
        (λ e s h. (tt, refl, h))

  pre_deployment_validation-Returns :
      (options : DeploymentOptions)
      → options.network ≡ network
      → Returns D (pre_deployment_validation system paths options) UnitD
  unfolding pre_deployment_validation
  pre_deployment_validation-Returns options same =
      Returns-then D UnitD UnitD _ _
        (Returns-then D UnitD UnitD _ _
          (λ s h.
            require_command-Returns system paths config network working (codes "solana --version") _
              s.console h)
          (λ u s h.
            require_command-Returns system paths config network working (codes "anchor --version") _
              s.console h))
        (λ u.
          Returns-then D (λ met s. Met system paths config network working met s.console) UnitD _ _
            (subst
              (λ name.
                Returns D (on_console (validate_network system paths name))
                  (λ met s. Met system paths config network working met s.console))
              (sym same)
              (λ s h. validate_network-Returns system paths config network working s.console h))
            (λ is_valid.
              Returns-then _ UnitD UnitD _ _
                (λ s h. require-Returns system paths config network working is_valid _ s.console h)
                (λ u. check_workspace-Returns)))

  measure_program-Returns : Returns D (measure_program system paths) UnitD
  unfolding measure_program
  measure_program-Returns =
      Returns-then D (λ met s. Met system paths config network working met s.console) UnitD _ _
        (λ s h. exists-Returns system paths config network working _ s.console h)
        (λ found.
          Returns_true D UnitD _ _
            (Returns-then D (λ size. D) UnitD _ _ sized (λ size s h. (tt, refl, h))) found)
    where
      sized :
          Returns D
            (λ s.
              (system.stat_size (codes "target/deploy/message_gateway_v4.so") s.console.world, s))
            (λ size. D)
      sized s h =
          let (size, e) =
            working.sized (codes "target/deploy/message_gateway_v4.so") s.console.world in
          (size, e, h)

  timed-Returns : (f : ℕ → _) → Returns D (date_now system paths >>= λ now. change (f now)) UnitD
  timed-Returns f =
      Returns-then D (λ time. D) UnitD _ _ now-Returns (λ now. changed-Returns (f now))

  build_program-Returns : Returns D (build_program system paths) UnitD
  unfolding build_program
  build_program-Returns =
      Returns-then D (λ time. D) UnitD _ _ now-Returns
        (λ build_start. Returns-rescue D UnitD _ _ (
          Returns-then D UnitD UnitD _ _
            (Returns-then D (λ output. D) UnitD _ _
              (Returns-then D (λ output. D) (λ output. D) _ _ (ran-Returns (codes "anchor clean"))
                (λ u. ran-Returns (codes "anchor build")))
              (λ u. measure_program-Returns))
            (λ u. timed-Returns _)))

  deploy_program-Returns :
      (options : DeploymentOptions) → Returns D (deploy_program system paths options) UnitD
  unfolding deploy_program record_deployed
  deploy_program-Returns options =
      Returns-then D (λ time. D) UnitD _ _ now-Returns
        (λ deploy_start. Returns-rescue D UnitD _ _ (
          Returns-then D (λ output. D) UnitD _ _ (ran-Returns (deploy_command options))
            (λ output.
              Returns-then D UnitD UnitD _ _ (λ s h. (tt, refl, h)) (λ u. timed-Returns _))))

  verify_account-Returns :
      (name program_id : Text) → Returns D (verify_account system paths name program_id) UnitD
  unfolding verify_account
  verify_account-Returns name program_id =
      Returns_rescued D _ _
        (Keeps-then D _ _
          (λ c. Keeps-then D _ _ (λ info. Keeps-branch D _ _ _ (λ s h. h) (λ s h. h)) (λ s h. h))
          (λ s h. h))
        (λ e s h. (tt, refl, h))

  post_deployment_validation-Returns :
      (options : DeploymentOptions)
      → Returns D (post_deployment_validation system paths options) UnitD
  unfolding post_deployment_validation
  post_deployment_validation-Returns options =
      Returns-then D (λ o. D) UnitD _ _ (λ s h. (s.result.program_id, refl, h))
        (λ o. if_known (truthy o))
    where
      if_known :
          (o : Option Text) → Returns D (verify_if_known system paths options.network o) UnitD
      if_known none = λ s h. (tt, refl, h)
      if_known (some program_id) = verify_account-Returns options.network program_id

  when-Returns :
      (b : Bool) (m : Action (Deployment World) (Unit {0}))
      → Returns D m UnitD
      → Returns D (when system paths b m) UnitD
  when-Returns true m r = r
  when-Returns false m r = λ s h. (tt, refl, h)

  phases-Returns :
      (options : DeploymentOptions)
      → options.network ≡ network
      → Returns D (phases system paths options) UnitD
  unfolding phases prepare_and_build
  phases-Returns options same =
      Returns-then D UnitD UnitD _ _
        (Returns-then D UnitD UnitD _ _
          (Returns-then D UnitD UnitD _ _
            (Returns-then D UnitD UnitD _ _
              (when-Returns _ _ (pre_deployment_validation-Returns options same))
              (λ u.
                subst (λ name. Returns D (on_console (prepare_network system paths name)) UnitD)
                  (sym same)
                  (λ s h. prepare_network-Returns system paths config network working s.console h)))
            (λ u. when-Returns _ _ build_program-Returns))
          (λ u. when-Returns _ _ (deploy_program-Returns options)))
        (λ u. when-Returns _ _ (post_deployment_validation-Returns options))

conclude_ok :
    {World : Type 0} (system : System World) (paths : Paths) (start_time : ℕ)
    (r : Result (Unit {0})) (s : Deployment World)
    → r ≡ ok tt
    → (conclude system paths start_time r s).result.success ≡ true
unfolding ◌>>=◌
conclude_ok system paths start_time (ok u) s e = refl
conclude_ok system paths start_time (err x) s e = cc

-- If every command and every access to a file works, and the network has a program ID and requirements
-- in the configuration, the deployment to it succeeds, whatever its options are.
pub deploy_succeeds :
    {World : Type 0} (system : System World) (paths : Paths) (options : DeploymentOptions)
    (console : Console World)
    → Working system console.config options.network
    → (deploy system paths options console).result.success ≡ true
unfolding deploy
deploy_succeeds system paths options console working =
    let (u, e, h) =
      phases-Returns system paths console.config options.network working options refl _ refl in
    conclude_ok system paths _ _ _ e
