-- ===== src/Network/Anchor.antt =====
-- updateAnchorToml and syncProgramId of scripts/deployment/network-manager.ts.
pub mod Programs
use via_solana_gateway_v.Prelude.{
  List, [], ◌∷◌, ◌++◌, Option, none, some, Text, codes, type_error, Result, ok, err,
}
use via_solana_gateway_v.Prelude.Actions.{Action, pure, lift, gets, rescue, ◌>>=◌, ◌>>◌}
use via_solana_gateway_v.Prelude.Words.{split, join}
use via_solana_gateway_v.Network.Types.{Network, NetworkConfig, Paths, entry, keys, truthy}
use via_solana_gateway_v.Network.System.{System}
use via_solana_gateway_v.Network.Console.{
  Console, exec_in, write, exists, read, rethrow_message, rethrow, require, require_command,
}
use via_solana_gateway_v.Network.Toml.{update_program}

-- The loop over `networksToUpdate`.
abbrev update_one : Text → Option Text → List Text → List Text
update_one net none lines = lines
update_one net (some program_id) lines = update_program net program_id lines

abbrev update_known :
    Text → Option Network → (List Text → Result (List Text)) → List Text → Result (List Text)
update_known net none rest lines = err type_error
update_known net (some network) rest lines = rest (update_one net (truthy network.program_id) lines)

unfoldable pub update_networks : List (Text × Network) → List Text → List Text → Result (List Text)
update_networks networks [] lines = ok lines
update_networks networks (net ∷ nets) lines =
    update_known net (entry net networks) (update_networks networks nets) lines

-- `network ? [network] : Object.keys(this.config.networks)`
abbrev one_or_all : List (Text × Network) → Option Text → List Text
one_or_all networks none = keys networks
one_or_all networks (some network) = network ∷ []

unfoldable pub networks_to_update : Option Text → NetworkConfig → List Text
networks_to_update network config = one_or_all config.networks (truthy network)

-- The whole text of Anchor.toml, by its lines.
unfoldable pub update_toml : NetworkConfig → List Text → Text → Result Text
update_toml config nets text = joined (update_networks config.networks nets (split 10 text))
  where
    joined : Result (List Text) → Result Text
    joined (ok lines) = ok (join 10 lines)
    joined (err e) = err e

module _ {World : Type 0} (system : System World) (paths : Paths) where
  unfoldable pub update_anchor_toml : Option Text → Action (Console World) (Unit {0})
  update_anchor_toml network =
      rescue
        (exists system paths.anchor_toml_path >>= λ found.
          require found (codes "Anchor.toml not found: " ++ paths.anchor_toml_path)
          >> (read system paths.anchor_toml_path >>= λ toml_content.
              gets (λ s. s.config) >>= λ config.
              lift (update_toml config (networks_to_update network config) toml_content) >>= λ text.
              write system paths.anchor_toml_path text))
        (rethrow system (codes "Failed to update Anchor.toml: "))

  unfoldable pub sync_program_id : Action (Console World) (Unit {0})
  sync_program_id =
      rescue
        (require_command system (codes "anchor --version")
            (codes "Anchor CLI not found. Please install Anchor CLI first.")
          >> exec_in system (some paths.project_root)
              (codes "anchor keys sync --program-name message_gateway_v4")
          >> pure tt)
        (rethrow_message system (codes "Failed to sync program ID: "))
