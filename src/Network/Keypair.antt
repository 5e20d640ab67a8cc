-- ===== src/Network/Keypair.antt =====
-- generateKeypair and getKeypairAddress of scripts/deployment/network-manager.ts.
pub mod Recorded
use via_solana_gateway_v.Prelude.{
  Error, Result, ok, err, ℕ, Bool, true, ◌&&◌, ◌||◌, [], ◌∷◌, ◌++◌, length, leb, if◌then◌else◌,
  Text, codes, thrown,
}
use via_solana_gateway_v.Prelude.Actions.{Action, pure, throw, lift, gets, rescue, ◌>>=◌, ◌>>◌}
use via_solana_gateway_v.Prelude.Words.{trim}
use via_solana_gateway_v.Network.Types.{Network, Paths, entry}
use via_solana_gateway_v.Network.System.{System}
use via_solana_gateway_v.Network.Console.{
  Console, set_config, exec, mkdir, unlink, exists, rethrow_message, require, require_command,
}
use via_solana_gateway_v.Network.Config.{set_program_id, known, save_config}

-- The characters of the class `[1-9A-HJ-NP-Za-km-z]`.
unfoldable pub is_base58 : ℕ → Bool
is_base58 c =
    (leb 49 c && leb c 57)
    || (leb 65 c && leb c 72)
    || (leb 74 c && leb c 78)
    || (leb 80 c && leb c 90)
    || (leb 97 c && leb c 107)
    || (leb 109 c && leb c 122)

unfoldable pub all_base58 : Text → Bool
all_base58 [] = true
all_base58 (c ∷ s) = is_base58 c && all_base58 s

-- `/^[1-9A-HJ-NP-Za-km-z]{32,44}$/.test(programId)`
unfoldable pub is_program_id : Text → Bool
is_program_id s = all_base58 s && leb 32 (length s) && leb (length s) 44

-- `if (!address) throw new Error(…)`
abbrev nonempty : Text → Result Text
nonempty [] = err (thrown (codes "Empty address returned from solana CLI"))
nonempty (c ∷ s) = ok (c ∷ s)

module _ {World : Type 0} (system : System World) (paths : Paths) where
  unfoldable pub get_keypair_address : Text → Action (Console World) Text
  get_keypair_address keypair_path =
      rescue
        (require_command system (codes "solana --version") (
            codes
              "solana CLI not found. Please install Solana CLI first: https://docs.solana.com/cli/install-solana-cli-tools")
          >> (exists system keypair_path >>= λ found.
              require found (codes "Keypair file not found: " ++ keypair_path)
              >> (exec system (codes "solana address -k " ++ keypair_path) >>= λ result.
                  lift (nonempty (trim result)))))
        (rethrow_message system
          (codes "Failed to get address from keypair " ++ keypair_path ++ codes ": "))

  unfoldable pub store_program_id : Text → Text → Action (Console World) Text
  store_program_id network program_id = gets (λ s. s.config) >>= λ config.
      set_config (set_program_id network program_id config)
      >> save_config system paths
      >> pure program_id

  -- The branch of generateKeypair for a keypair that is there.
  unfoldable pub use_keypair : Text → Text → Action (Console World) Text
  use_keypair network keypair_path =
      get_keypair_address keypair_path >>= λ existing. store_program_id network existing

  -- Its `try` block, and what the `catch` block removes.
  unfoldable pub create_keypair : Text → Text → Action (Console World) Text
  create_keypair network keypair_path =
      require_command system (codes "solana-keygen --version") (
        codes
          "solana-keygen not found. Please install Solana CLI first: https://docs.solana.com/cli/install-solana-cli-tools")
      >> exec system (codes "solana-keygen new --no-bip39-passphrase -o " ++ keypair_path)
      >> (exists system keypair_path >>= λ found.
          require found (codes "Keypair generation failed - file not created at " ++ keypair_path)
          >> (get_keypair_address keypair_path >>= λ program_id.
              require (is_program_id program_id) (codes "Invalid program ID format: " ++ program_id)
              >> store_program_id network program_id))

  unfoldable pub clean_up : Text → Action (Console World) (Unit {0})
  clean_up keypair_path = exists system keypair_path >>= λ found.
      if found then rescue (unlink system keypair_path) (λ e. pure tt) else pure tt

  unfoldable pub ensure_directory : Text → Action (Console World) (Unit {0})
  ensure_directory path =
      exists system path >>= λ found. if found then pure tt else mkdir system path

  -- The `catch` block, which throws again.
  unfoldable pub abandon : Text → Text → Error → Action (Console World) Text
  abandon network keypair_path e =
      clean_up keypair_path
      >> rethrow_message system (codes "Failed to generate keypair for " ++ network ++ codes ": ") e

  -- generateKeypair for a network of the configuration.
  unfoldable pub generate_for : Text → Network → Action (Console World) Text
  generate_for network network_config =
      let keypair_path = system.resolve network_config.keypair_path in
      ensure_directory (system.dirname keypair_path)
      >> (exists system keypair_path >>= λ found.
          if found
          then use_keypair network keypair_path
          else rescue (create_keypair network keypair_path) (abandon network keypair_path))

  unfoldable pub generate_keypair : Text → Action (Console World) Text
  generate_keypair network = gets (λ s. s.config) >>= λ config.
      lift (known network (entry network config.networks)) >>= generate_for network
