-- ===== src/Network/Manager.antt =====
-- validateNetwork, prepareNetwork and the command line of
-- scripts/deployment/network-manager.ts.
pub mod Effects
pub mod Live
pub mod Missing
use via_solana_gateway_v.Prelude.{
  ℕ, Bool, true, false, not, ◌||◌, List, [], ◌∷◌, ◌++◌, Option, none, some, if◌then◌else◌, Text,
  codes, text_eq, thrown, Result, ok, err,
}
use via_solana_gateway_v.Prelude.Actions.{Action, pure, throw, lift, gets, rescue, ◌>>=◌, ◌>>◌}
use via_solana_gateway_v.Network.Types.{Network, Paths, entry, truthy}
use via_solana_gateway_v.Network.System.{System}
use via_solana_gateway_v.Network.Console.{Console, exec, exists}
use via_solana_gateway_v.Prelude.Words.{includes}
use via_solana_gateway_v.Network.Config.{known, defined, load_config}
use via_solana_gateway_v.Network.Keypair.{generate_keypair}
use via_solana_gateway_v.Network.Anchor.{update_anchor_toml, sync_program_id}

module _ {World : Type 0} (system : System World) (paths : Paths) where
  -- The case "network_reachable" of the switch.
  unfoldable pub network_reachable : Network → Action (Console World) Bool
  network_reachable network_config =
      rescue
        (exec system (codes "solana cluster-version --url " ++ network_config.url) >>= λ output.
          pure true)
        (λ e. pure false)

  -- One round of the loop of validateNetwork: whether the requirement is met.
  unfoldable pub validate_requirement : Network → Text → Action (Console World) Bool
  validate_requirement network_config validation =
      if text_eq validation (codes "keypair_exists")
      then exists system network_config.keypair_path
      else if text_eq validation (codes "network_reachable")
      then network_reachable network_config
      else pure true

  unfoldable pub validate_all : Network → List Text → Bool → Action (Console World) Bool
  validate_all network_config [] all_valid = pure all_valid
  validate_all network_config (validation ∷ validations) all_valid =
      validate_requirement network_config validation >>= λ met.
      validate_all network_config validations (if met then all_valid else false)

  unfoldable pub validate_network : Text → Action (Console World) Bool
  validate_network network = gets (λ s. s.config) >>= λ config.
      lift (known network (entry network config.networks)) >>= λ network_config.
      lift (defined (entry network config.requirements)) >>= λ requirements.
      validate_all network_config requirements.validation true

  abbrev is_set : Option Text → Bool
  is_set none = false
  is_set (some text) = true

  -- `if (!networkConfig.programId || !fs.existsSync(networkConfig.keypairPath))`
  unfoldable pub generate_if_missing : Text → Network → Action (Console World) (Unit {0})
  generate_if_missing network network_config =
      exists system network_config.keypair_path >>= λ found.
      if not (is_set (truthy network_config.program_id)) || not found
      then (generate_keypair system paths network >>= λ program_id. pure tt)
      else pure tt

  -- Whether the network is ready is only printed.
  unfoldable pub prepare_network : Text → Action (Console World) (Unit {0})
  prepare_network network = gets (λ s. s.config) >>= λ config.
      lift (defined (entry network config.networks)) >>= λ network_config.
      generate_if_missing network network_config
      >> update_anchor_toml system paths (some network)
      >> sync_program_id system paths
      >> (validate_network network >>= λ is_valid. pure tt)

  -- `if (!network) throw new Error("Network name required")`, and the rest.
  abbrev with_network :
      Option Text → (Text → Action (Console World) (Unit {0})) → Action (Console World) (Unit {0})
  with_network none run = throw (thrown (codes "Network name required"))
  with_network (some network) run = run network

  unfoldable pub execute_command : Text → Option Text → Action (Console World) (Unit {0})
  execute_command command network =
      if text_eq command (codes "list")
      then pure tt
      else if text_eq command (codes "generate")
      then with_network (truthy network)
          (λ net. generate_keypair system paths net >>= λ program_id. pure tt)
      else if text_eq command (codes "prepare")
      then with_network (truthy network) prepare_network
      else if text_eq command (codes "validate")
      then with_network (truthy network) (λ net. validate_network net >>= λ is_valid. pure tt)
      else if text_eq command (codes "update-config")
      then update_anchor_toml system paths none
      else throw (thrown (codes "Unknown command: " ++ command))

  abbrev status : Result (Unit {0}) → ℕ
  status (ok u) = 0
  status (err e) = 1

  abbrev first : List Text → Option Text
  first [] = none
  first (a ∷ args) = some a

  -- `main().catch(console.error)`: the constructor stands outside the `try`, and what it throws is
  -- only printed.
  abbrev after_constructor : List Text → Result (Unit {0}) → Console World → ℕ × Console World
  after_constructor args (err e) s = (0, s)
  after_constructor [] (ok u) s = (0, s)
  after_constructor (command ∷ rest) (ok u) s =
      if includes (codes "--help") (command ∷ rest) || includes (codes "-h") (command ∷ rest)
      then (0, s)
      else let (r, s') = execute_command command (first rest) s in (status r, s')

  -- The exit status of the process, for `process.argv.slice(2)`.
  unfoldable pub main : List Text → Console World → ℕ × Console World
  main args s = let (r, s') = load_config system paths s in after_constructor args r s'
