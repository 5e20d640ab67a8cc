-- ===== src/Network/Keypair/Recorded.antt =====
-- What generateKeypair of scripts/deployment/network-manager.ts leaves in the configuration, and
-- what it does where a keypair is there.
use via_solana_gateway_v.Prelude.{
  ◌≡◌, refl, subst, Bool, true, false, List, [], ◌∷◌, ◌++◌, Option, none, some, if◌then◌else◌,
  arith, Text, codes, Error, ok, OnOk,
}
use via_solana_gateway_v.Prelude.Words.{starts_with}
use via_solana_gateway_v.Prelude.Actions.{rescue, rescue, pure, gets, ◌>>=◌}
use via_solana_gateway_v.Prelude.Actions.Keeps.{Keeps, Keeps-then}
use via_solana_gateway_v.Prelude.Actions.Gives.{Gives, Gives-Keeps, Gives-then, Gives-rescue}
use via_solana_gateway_v.Network.Types.{Network, Paths, NetworkConfig, entry, change_entry}
use via_solana_gateway_v.Network.System.{System}
use via_solana_gateway_v.Network.Console.{
  Effect, executed, written, made_directory, unlinked, Console, set_config, exists, exec, require,
  require_command,
}
use via_solana_gateway_v.Network.Config.{set_program_id, save_config}
use via_solana_gateway_v.Network.Keypair.{
  get_keypair_address, store_program_id, use_keypair, create_keypair, clean_up, ensure_directory,
  abandon, generate_for, generate_keypair,
}
use via_solana_gateway_v.Network.Manager.Effects.{
  Keeps-require, Keeps-require_command, Keeps-exec, Keeps-get_keypair_address, Keeps-save_config,
  Keeps-store_program_id, Keeps-ensure_directory, Only,
}

-- The program ID that the configuration has for a network, if it has the network.
unfoldable pub recorded : Text → NetworkConfig → Option (Option Text)
recorded network config = id_of (entry network config.networks)
  where
    id_of : Option Network → Option (Option Text)
    id_of none = none
    id_of (some n) = some n.program_id

entry-change_entry :
    {A : Type 0} (key : Text) (f : A → A) (entries : List (Text × A)) (a : A)
    → entry key entries ≡ some a
    → entry key (change_entry key f entries) ≡ some (f a)
unfolding entry change_entry
entry-change_entry key f [] a h = cc
entry-change_entry key f ((k, b) ∷ entries) a h = grind (arith, entry-change_entry key f entries a)

recorded-set_program_id :
    (network program_id : Text) (config : NetworkConfig) (n : Network)
    → entry network config.networks ≡ some n
    → recorded network (set_program_id network program_id config) ≡ some (some program_id)
unfolding recorded set_program_id
recorded-set_program_id network program_id config n e =
    rw
      (entry-change_entry network (λ m. record m { program_id = some program_id }) config.networks n
        e)
      refl

module _ {World : Type 0} (system : System World) (paths : Paths) (network : Text)
    (config : NetworkConfig) (n : Network) (there : entry network config.networks ≡ some n) where
  abbrev Same : Console World → Type 0
  Same s = s.config ≡ config

  abbrev Stored : Text → Console World → Type 0
  Stored program_id s = recorded network s.config ≡ some (some program_id)

  store_program_id-Gives :
      (program_id : Text) → Gives Same (store_program_id system paths network program_id) Stored
  unfolding store_program_id
  store_program_id-Gives program_id =
      Gives-then Same (λ c s. (c ≡ config) × (s.config ≡ config)) Stored (gets (λ s. s.config)) _
        (λ s h. (h, h))
        (λ c.
          Gives-then _ (λ u. Stored program_id) Stored _ (λ u. pure program_id)
            (Gives-then _ (λ u. Stored program_id) (λ u. Stored program_id)
              (set_config (set_program_id network program_id c)) (λ u. save_config system paths)
              (λ s h. rw h.0 (recorded-set_program_id network program_id config n there))
              (λ u.
                Gives-Keeps (Stored program_id) (save_config system paths)
                  (Keeps-save_config system (Stored program_id) paths (λ text w s h. h))))
            (λ u s h. h))

  address_of-Gives : (path : Text) → Gives Same (get_keypair_address system paths path) (λ a. Same)
  address_of-Gives path =
      Gives-Keeps Same (get_keypair_address system paths path)
        (Keeps-get_keypair_address system Same paths path (λ w s h. h) (λ w s h. h))

  use_keypair-Gives : (path : Text) → Gives Same (use_keypair system paths network path) Stored
  unfolding use_keypair
  use_keypair-Gives path =
      Gives-then Same (λ a. Same) Stored _ _ (address_of-Gives path)
        (λ existing. store_program_id-Gives existing)

  required-Gives : (b : Bool) (message : Text) → Gives Same (require b message) (λ u. Same)
  required-Gives b message =
      Gives-Keeps Same (require b message) (Keeps-require system Same b message)

  command-Gives : (command : Text) → Gives Same (exec system command) (λ output. Same)
  command-Gives command =
      Gives-Keeps Same (exec system command) (Keeps-exec system Same command (λ w s h. h))

  tool-Gives :
      (command message : Text) → Gives Same (require_command system command message) (λ u. Same)
  tool-Gives command message =
      Gives-Keeps Same (require_command system command message)
        (Keeps-require_command system Same command message (λ w s h. h))

  create_keypair-Gives :
      (path : Text) → Gives Same (create_keypair system paths network path) Stored
  unfolding create_keypair
  create_keypair-Gives path =
      Gives-then Same (λ a. Same) Stored _ _
        (Gives-then Same (λ a. Same) (λ a. Same) _
          (λ u. exec system (codes "solana-keygen new --no-bip39-passphrase -o " ++ path))
          (tool-Gives _ _) (λ u. command-Gives _))
        (λ output.
          Gives-then Same (λ a. Same) Stored (exists system path) _ (λ s h. h)
            (λ found.
              Gives-then Same (λ a. Same) Stored _ _ (required-Gives found _)
                (λ u.
                  Gives-then Same (λ a. Same) Stored _ _ (address_of-Gives path)
                    (λ program_id.
                      Gives-then Same (λ a. Same) Stored _ _ (required-Gives _ _)
                        (λ u. store_program_id-Gives program_id)))))

  ensured-Gives : (path : Text) → Gives Same (ensure_directory system paths path) (λ u. Same)
  ensured-Gives path =
      Gives-Keeps Same (ensure_directory system paths path)
        (Keeps-ensure_directory system Same paths path (λ w s h. h))

  abandon-Gives :
      (path : Text) (e : Error) → Gives (λ s. Unit {0}) (abandon system paths network path e) Stored
  unfolding abandon
  abandon-Gives path e =
      Gives-then _ (λ u s. Unit {0}) Stored (clean_up system paths path) _
        (Gives-Keeps (λ s. Unit {0}) (clean_up system paths path) (λ s h. tt)) (λ u s h. tt)

  generate_for-Gives : Gives Same (generate_for system paths network n) Stored
  unfolding generate_for
  generate_for-Gives =
      Gives-then Same (λ a. Same) Stored _ _ (ensured-Gives _)
        (λ u.
          Gives-then Same (λ a. Same) Stored (exists system _) _ (λ s h. h) (λ found. chosen found))
    where
      keypair_path : Text
      keypair_path = system.resolve n.keypair_path

      chosen :
          (found : Bool)
          → Gives Same
              (if found
                then use_keypair system paths network keypair_path
                else rescue
                    (create_keypair system paths network keypair_path)
                    (abandon system paths network keypair_path))
              Stored
      chosen true = use_keypair-Gives _
      chosen false = Gives-rescue Same Stored _ _ (create_keypair-Gives _) (abandon-Gives _)

module _ {World : Type 0} (system : System World) (paths : Paths) where
  generate_keypair-Gives :
      (network : Text) (s : Console World)
      → OnOk
          (λ program_id.
            recorded network (generate_keypair system paths network s).1.config
            ≡ some (some program_id))
          (generate_keypair system paths network s).0
  unfolding generate_keypair ◌>>=◌
  generate_keypair-Gives network s = go (entry network s.config.networks) refl
    where
      go :
          (o : Option Network)
          → entry network s.config.networks ≡ o
          → OnOk
              (λ program_id.
                recorded network (generate_keypair system paths network s).1.config
                ≡ some (some program_id))
              (generate_keypair system paths network s).0
      go none e = rw e tt
      go (some n) e = rw e (generate_for-Gives system paths network s.config n e s refl)

  -- If generateKeypair returns a program ID, the configuration then has it for that network,
  -- whatever the commands and the files did.
  pub generate_keypair-recorded :
      (network : Text) (s after : Console World) (program_id : Text)
      → generate_keypair system paths network s ≡ (ok program_id, after)
      → recorded network after.config ≡ some (some program_id)
  generate_keypair-recorded network s after program_id e =
      let h : OnOk (λ p. recorded network after.config ≡ some (some p)) (ok program_id) =
        subst (λ r. OnOk (λ p. recorded network r.1.config ≡ some (some p)) r.0) e
          (generate_keypair-Gives network s) in
      h

-- A command that makes a new keypair, or the removal of a file.
unfoldable pub is_destructive : Effect → Bool
is_destructive (executed command) = starts_with (codes "solana-keygen new") command
is_destructive (written path text) = false
is_destructive (made_directory path) = false
is_destructive (unlinked path) = true

abbrev pub Careful : {World : Type 0} → Console World → Type 0
Careful = Only (λ e. is_destructive e ≡ false)

module _ {World : Type 0} (system : System World) (paths : Paths) where
  use_keypair-Careful :
      (network path : Text) → Keeps Careful (use_keypair system paths network path)
  unfolding use_keypair is_destructive starts_with
  use_keypair-Careful network path =
      Keeps-then Careful _ _
        (λ existing.
          Keeps-store_program_id system Careful paths network existing (λ text w s h. (refl, h))
            (λ config s h. h))
        (Keeps-get_keypair_address system Careful paths path (λ w s h. (refl, h))
          (λ w s h. (refl, h)))

  -- Where a keypair and its directory are there, generateKeypair asks for no new keypair and removes
  -- nothing, whatever the commands do.
  pub generate_keypair-Careful :
      (network : Text) (n : Network) (s : Console World)
      → entry network s.config.networks ≡ some n
      → system.exists_sync (system.dirname (system.resolve n.keypair_path)) s.world ≡ true
      → system.exists_sync (system.resolve n.keypair_path) s.world ≡ true
      → Careful s
      → Careful (generate_keypair system paths network s).1
  unfolding generate_keypair generate_for ensure_directory ◌>>=◌
  generate_keypair-Careful network n s known_network directory keypair h =
      rw (known_network, directory, keypair)
        (use_keypair-Careful network (system.resolve n.keypair_path) s h)
