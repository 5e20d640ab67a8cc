-- ===== src/Network/Config.antt =====
-- The configuration of the network manager of scripts/deployment/network-manager.ts: loadConfig, saveConfig
-- and the entries of a network.
use via_solana_gateway_v.Prelude.{
  List, ◌++◌, Option, none, some, Text, codes, type_error, thrown, Result, ok, err,
}
use via_solana_gateway_v.Prelude.Actions.{Action, lift, gets, rescue, ◌>>=◌, ◌>>◌}
use via_solana_gateway_v.Network.Types.{
  Network, Requirement, NetworkConfig, ParsedConfig, Paths, entry, change_entry,
}
use via_solana_gateway_v.Network.System.{System}
use via_solana_gateway_v.Network.Console.{
  Console, set_config, write, exists, read, rethrow_message, rethrow, require,
}

-- `x.networks[network].programId = programId`
unfoldable pub set_program_id : Text → Text → NetworkConfig → NetworkConfig
set_program_id network program_id config = record config {
  networks = change_entry network (λ n. record n { program_id = some program_id }) config.networks;
}

-- The entry that the code reads a field of, which throws where it is `undefined`.
abbrev pub defined : {A : Type 0} → Option A → Result A
defined none = err type_error
defined (some a) = ok a

abbrev pub known : {A : Type 0} → Text → Option A → Result A
known network none = err (thrown (codes "Unknown network: " ++ network))
known network (some a) = ok a

-- The structure check of loadConfig.
unfoldable pub check_structure : ParsedConfig → Result NetworkConfig
check_structure parsed = with_networks parsed.networks parsed.requirements
  where
    with_networks :
        Option (List (Text × Network)) → Option (List (Text × Requirement)) → Result NetworkConfig
    with_networks none requirements =
        err (thrown (codes "Invalid network configuration: missing networks section"))
    with_networks (some networks) none =
        err (thrown (codes "Invalid network configuration: missing requirements section"))
    with_networks (some networks) (some requirements) =
        ok (record { networks = networks; requirements = requirements })

abbrev url_or_default : Option Network → Text
url_or_default none = codes "http://127.0.0.1:8899"
url_or_default (some network) = network.url

unfoldable pub get_network_url : Text → NetworkConfig → Text
get_network_url network config = url_or_default (entry network config.networks)

module _ {World : Type 0} (system : System World) (paths : Paths) where
  unfoldable pub load_config : Action (Console World) (Unit {0})
  load_config =
      rescue
        (exists system paths.config_path >>= λ found.
          require found (codes "Network configuration file not found: " ++ paths.config_path)
          >> (read system paths.config_path >>= λ config_data.
              lift (system.parse_config config_data) >>= λ parsed.
              lift (check_structure parsed) >>= λ config. set_config config))
        (rethrow_message system (codes "Failed to load network configuration: "))

  unfoldable pub save_config : Action (Console World) (Unit {0})
  save_config =
      rescue
        (gets (λ s. s.config) >>= λ config.
          write system paths.config_path (system.print_config config))
        (rethrow system (codes "Failed to save network configuration: "))
