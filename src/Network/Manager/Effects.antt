-- ===== src/Network/Manager/Effects.antt =====
-- What a run of the network manager of scripts/deployment/network-manager.ts asks of the operating
-- system.
use via_solana_gateway_v.Prelude.{
  Error, text_eq, none, Error, Result, Bool, true, List, [], ◌∷◌, ◌++◌, Option, some, All, Text,
  codes,
}
use via_solana_gateway_v.Prelude.Actions.{pure}
use via_solana_gateway_v.Prelude.Actions.Keeps.{
  Keeps, Keeps-after_result, Keeps-then, Keeps-rescue, Keeps-branch,
}
use via_solana_gateway_v.Network.Types.{NetworkConfig, Network, Paths}
use via_solana_gateway_v.Network.System.{System}
use via_solana_gateway_v.Network.Console.{
  Effect, executed, written, made_directory, unlinked, Console, asks, write, exec, exists,
  set_config, require, require_command,
}
use via_solana_gateway_v.Network.Config.{set_program_id, save_config}
use via_solana_gateway_v.Network.Keypair.{
  get_keypair_address, store_program_id, use_keypair, create_keypair, clean_up, ensure_directory,
  abandon, generate_for, generate_keypair,
}
use via_solana_gateway_v.Network.Anchor.{update_anchor_toml, sync_program_id}
use via_solana_gateway_v.Network.Manager.{
  network_reachable, validate_requirement, validate_all, validate_network, generate_if_missing,
  prepare_network,
}

-- The commands and the changes of files that the manager can ask for.
pub data Managed : Effect → Type 0 where
  solana_version : Managed (executed (codes "solana --version"))
  anchor_version : Managed (executed (codes "anchor --version"))
  keygen_version : Managed (executed (codes "solana-keygen --version"))
  keygen :
      (path : Text)
      → Managed (executed (codes "solana-keygen new --no-bip39-passphrase -o " ++ path))
  address : (path : Text) → Managed (executed (codes "solana address -k " ++ path))
  keys_sync : Managed (executed (codes "anchor keys sync --program-name message_gateway_v4"))
  cluster_version : (url : Text) → Managed (executed (codes "solana cluster-version --url " ++ url))
  writes : (path text : Text) → Managed (written path text)
  makes : (path : Text) → Managed (made_directory path)
  removes : (path : Text) → Managed (unlinked path)

-- What stays true when an effect is asked for, whatever it does to the world.
abbrev pub Steps : {World : Type 0} → (Console World → Type 0) → Effect → Type 0
Steps P e =
    (w : _) (s : _) → P s → P (record { world = w; config = s.config; effects = e ∷ s.effects })

-- Every effect so far is of a kind.
abbrev pub Only : {World : Type 0} → (Effect → Type 0) → Console World → Type 0
Only P s = All P s.effects

module _ {World : Type 0} (system : System World) (P : Console World → Type 0) where
  pub Keeps-asks :
      {A : Type 0} (e : Effect) (call : World → Result A × World)
      → Steps P e
      → Keeps P (asks e call)
  Keeps-asks e call p s h = p (call s.world).1 s h

  pub Keeps-exec : (command : Text) → Steps P (executed command) → Keeps P (exec system command)
  Keeps-exec command p = Keeps-asks (executed command) (system.exec_sync none command) p

  pub Keeps-write :
      (path text : Text) → Steps P (written path text) → Keeps P (write system path text)
  Keeps-write path text p = Keeps-asks (written path text) (system.write_file_sync path text) p

  pub Keeps-require : (b : Bool) (message : Text) → Keeps P (require b message)
  Keeps-require b message = Keeps-branch P b _ _ (λ s h. h) (λ s h. h)

  pub Keeps-require_command :
      (command message : Text)
      → Steps P (executed command)
      → Keeps P (require_command system command message)
  unfolding require_command
  Keeps-require_command command message p =
      Keeps-rescue P _ _ (Keeps-then P _ _ (λ output s h. h) (Keeps-exec command p)) (λ e s h. h)

  module _ (paths : Paths) where
    pub Keeps-get_keypair_address :
        (path : Text)
        → Steps P (executed (codes "solana --version"))
        → Steps P (executed (codes "solana address -k " ++ path))
        → Keeps P (get_keypair_address system paths path)
    unfolding get_keypair_address
    Keeps-get_keypair_address path version address_of =
        Keeps-rescue P _ _
          (Keeps-then P _ _
            (λ u.
              Keeps-then P _ _
                (λ found.
                  Keeps-then P _ _
                    (λ u.
                      Keeps-then P (exec system (codes "solana address -k " ++ path)) _
                        (λ result s h. h) (Keeps-exec _ address_of))
                    (Keeps-require found _))
                (λ s h. h))
            (Keeps-require_command _ _ version))
          (λ e s h. h)

    pub Keeps-save_config :
        ((text : Text) → Steps P (written paths.config_path text))
        → Keeps P (save_config system paths)
    unfolding save_config
    Keeps-save_config w =
        Keeps-rescue P _ _
          (Keeps-then P _ _
            (λ c. Keeps-write paths.config_path (system.print_config c) (w (system.print_config c)))
            (λ s h. h))
          (λ e s h. h)

    pub Keeps-store_program_id :
        (network program_id : Text)
        → ((text : Text) → Steps P (written paths.config_path text))
        → ((config : NetworkConfig) → Keeps P (set_config config))
        → Keeps P (store_program_id system paths network program_id)
    unfolding store_program_id
    Keeps-store_program_id network program_id w c =
        Keeps-then P _ _
          (λ config.
            Keeps-then P _ _ (λ u s h. h)
              (Keeps-then P (set_config (set_program_id network program_id config)) _
                (λ u. Keeps-save_config w) (c _)))
          (λ s h. h)

    pub Keeps-ensure_directory :
        (path : Text) → Steps P (made_directory path) → Keeps P (ensure_directory system paths path)
    unfolding ensure_directory
    Keeps-ensure_directory path p =
        Keeps-then P _ _
          (λ found. Keeps-branch P found _ _ (λ s h. h) (Keeps-asks _ (system.mkdir_sync path) p))
          (λ s h. h)

  module _ (paths : Paths) (managed : (e : Effect) → Managed e → Steps P e)
      (configured : (config : NetworkConfig) → Keeps P (set_config config)) where
    Keeps-clean_up : (path : Text) → Keeps P (clean_up system paths path)
    unfolding clean_up
    Keeps-clean_up path =
        Keeps-then P _ _
          (λ found.
            Keeps-branch P found _ _
              (Keeps-rescue P _ _
                (Keeps-asks _ (system.unlink_sync path) (managed _ (removes path))) (λ e s h. h))
              (λ s h. h))
          (λ s h. h)

    Keeps-address_of : (path : Text) → Keeps P (get_keypair_address system paths path)
    Keeps-address_of path =
        Keeps-get_keypair_address paths path (managed _ solana_version) (managed _ (address path))

    Keeps-stored :
        (network program_id : Text) → Keeps P (store_program_id system paths network program_id)
    Keeps-stored network program_id =
        Keeps-store_program_id paths network program_id (λ text. managed _ (writes _ text))
          configured

    Keeps-create_keypair :
        (network path : Text) → Keeps P (create_keypair system paths network path)
    unfolding create_keypair
    Keeps-create_keypair network path =
        Keeps-then P _ _
          (λ u.
            Keeps-then P _ _
              (λ found.
                Keeps-then P _ _
                  (λ u.
                    Keeps-then P _ _
                      (λ program_id.
                        Keeps-then P _ _ (λ u. Keeps-stored network program_id) (Keeps-require _ _))
                      (Keeps-address_of path))
                  (Keeps-require found _))
              (λ s h. h))
          (Keeps-then P _ _ (λ u. Keeps-exec _ (managed _ (keygen path)))
            (Keeps-require_command _ _ (managed _ keygen_version)))

    Keeps-use_keypair : (network path : Text) → Keeps P (use_keypair system paths network path)
    unfolding use_keypair
    Keeps-use_keypair network path =
        Keeps-then P _ _ (λ existing. Keeps-stored network existing) (Keeps-address_of path)

    Keeps-abandon :
        (network path : Text) (e : Error) → Keeps P (abandon system paths network path e)
    unfolding abandon
    Keeps-abandon network path e = Keeps-then P _ _ (λ u s h. h) (Keeps-clean_up path)

    Keeps-generate_for :
        (network : Text) (n : Network) → Keeps P (generate_for system paths network n)
    unfolding generate_for
    Keeps-generate_for network n =
        Keeps-then P _ _
          (λ u.
            Keeps-then P _ _
              (λ found. Keeps-branch P found _ _ (Keeps-use_keypair network _) (
                Keeps-rescue P _ _ (Keeps-create_keypair network _)
                  (λ e. Keeps-abandon network _ e)))
              (λ s h. h))
          (Keeps-ensure_directory paths _ (managed _ (makes _)))

    pub Keeps-generate_keypair : (network : Text) → Keeps P (generate_keypair system paths network)
    unfolding generate_keypair
    Keeps-generate_keypair network =
        Keeps-then P _ _ (λ config. Keeps-after_result P _ _ (λ n e. Keeps-generate_for network n))
          (λ s h. h)

    pub Keeps-update_anchor_toml :
        (network : Option Text) → Keeps P (update_anchor_toml system paths network)
    unfolding update_anchor_toml
    Keeps-update_anchor_toml network =
        Keeps-rescue P _ _
          (Keeps-then P _ _
            (λ found.
              Keeps-then P _ _
                (λ u.
                  Keeps-then P _ _
                    (λ toml_content.
                      Keeps-then P _ _
                        (λ config. Keeps-after_result P _ _ (λ text e.
                          Keeps-write _ text (managed _ (writes paths.anchor_toml_path text))))
                        (λ s h. h))
                    (λ s h. h))
                (Keeps-require found _))
            (λ s h. h))
          (λ e s h. h)

    pub Keeps-sync_program_id : Keeps P (sync_program_id system paths)
    unfolding sync_program_id
    Keeps-sync_program_id =
        Keeps-rescue P _ _
          (Keeps-then P _ _ (λ u s h. h)
            (Keeps-then P _ _
              (λ u.
                Keeps-asks _
                  (system.exec_sync (some paths.project_root)
                    (codes "anchor keys sync --program-name message_gateway_v4"))
                  (managed _ keys_sync))
              (Keeps-require_command _ _ (managed _ anchor_version))))
          (λ e s h. h)

    Keeps-network_reachable : (network : Network) → Keeps P (network_reachable system paths network)
    unfolding network_reachable
    Keeps-network_reachable network =
        Keeps-rescue P _ _
          (Keeps-then P (exec system (codes "solana cluster-version --url " ++ network.url)) _
            (λ output s h. h) (Keeps-exec _ (managed _ (cluster_version network.url))))
          (λ e s h. h)

    Keeps-validate_requirement :
        (network : Network) (validation : Text)
        → Keeps P (validate_requirement system paths network validation)
    unfolding validate_requirement
    Keeps-validate_requirement network validation =
        Keeps-branch P (text_eq validation (codes "keypair_exists"))
          (exists system network.keypair_path) _ (λ s h. h)
          (Keeps-branch P (text_eq validation (codes "network_reachable"))
            (network_reachable system paths network) (pure true) (Keeps-network_reachable network)
            (λ s h. h))

    Keeps-validate_all :
        (network : Network) (validations : List Text) (all_valid : Bool)
        → Keeps P (validate_all system paths network validations all_valid)
    unfolding validate_all
    Keeps-validate_all network [] all_valid = λ s h. h
    Keeps-validate_all network (validation ∷ validations) all_valid =
        Keeps-then P _ _ (λ met. Keeps-validate_all network validations _)
          (Keeps-validate_requirement network validation)

    pub Keeps-validate_network : (network : Text) → Keeps P (validate_network system paths network)
    unfolding validate_network
    Keeps-validate_network network =
        Keeps-then P _ _
          (λ config.
            Keeps-after_result P _ _
              (λ n e. Keeps-after_result P _ _ (λ r e. Keeps-validate_all n r.validation true)))
          (λ s h. h)

    pub Keeps-prepare_network : (network : Text) → Keeps P (prepare_network system paths network)
    unfolding prepare_network generate_if_missing
    Keeps-prepare_network network =
        Keeps-then P _ _
          (λ config. Keeps-after_result P _ _ (λ n e.
            Keeps-then P _ _
              (λ u. Keeps-then P _ _ (λ is_valid s h. h) (Keeps-validate_network network))
              (Keeps-then P _ _ (λ u. Keeps-sync_program_id)
                (Keeps-then P _ _ (λ u. Keeps-update_anchor_toml (some network))
                  (Keeps-then P _ _
                    (λ found.
                      Keeps-branch P _ _ _
                        (Keeps-then P _ _ (λ program_id s h. h) (Keeps-generate_keypair network))
                        (λ s h. h))
                    (λ s h. h))))))
          (λ s h. h)
