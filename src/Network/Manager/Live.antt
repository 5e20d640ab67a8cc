-- ===== src/Network/Manager/Live.antt =====
-- The network manager of scripts/deployment/network-manager.ts where the tools work: preparing and
-- validating a network returns.
use via_solana_gateway_v.Prelude.{
  ℕ, ◌≡◌, refl, sym, ap, subst, Bool, true, false, List, [], ◌∷◌, ◌++◌, Option, none, some, Text,
  codes, text_eq, ok, if◌then◌else◌,
}
use via_solana_gateway_v.Prelude.Actions.{pure, lift, gets, ◌>>=◌}
use via_solana_gateway_v.Prelude.Actions.Gives.{Returns, Returns-then, Returns-rescue, Returns_true}
use via_solana_gateway_v.Network.Types.{Network, Requirement, NetworkConfig, Paths, entry, truthy}
use via_solana_gateway_v.Network.System.{System}
use via_solana_gateway_v.Network.Console.{
  Console, exec, exec_in, exists, read, require, require_command,
}
use via_solana_gateway_v.Network.Anchor.{
  update_networks, networks_to_update, update_toml, update_anchor_toml, sync_program_id,
}
use via_solana_gateway_v.Network.Config.{known, defined}
use via_solana_gateway_v.Network.Manager.{
  network_reachable, validate_requirement, validate_all, validate_network, generate_if_missing,
  prepare_network,
}

-- Every command, every access to a file and the look-up of the network work, and the network has a
-- program ID.
pub record Working {World : Type 0} (system : System World) (config : NetworkConfig)
    (network : Text) : Type 0 where
  pub runs :
      (cwd : Option Text) (command : Text) (w : World)
      → (output : Text) × ((system.exec_sync cwd command w).0 ≡ ok output)
  pub there : (path : Text) (w : World) → system.exists_sync path w ≡ true
  pub readable :
      (path : Text) (w : World) → (text : Text) × (system.read_file_sync path w ≡ ok text)
  pub writable : (path text : Text) (w : World) → (system.write_file_sync path text w).0 ≡ ok tt
  pub sized : (path : Text) (w : World) → (size : ℕ) × (system.stat_size path w ≡ ok size)
  pub named : truthy (some network) ≡ some network
  pub info : Network
  pub requirement : Requirement
  pub known_network : entry network config.networks ≡ some info
  pub known_requirement : entry network config.requirements ≡ some requirement
  pub id : Text
  pub has_id : truthy info.program_id ≡ some id

module _ {World : Type 0} (system : System World) (paths : Paths) (config : NetworkConfig)
    (network : Text) (working : Working system config network) where
  abbrev pub C : Console World → Type 0
  C s = s.config ≡ config

  abbrev pub UnitC : Unit {0} → Console World → Type 0
  UnitC u = C

  abbrev pub Met : Bool → Console World → Type 0
  Met met s = (met ≡ true) × C s

  pub exec_in-Returns :
      (cwd : Option Text) (command : Text) → Returns C (exec_in system cwd command) (λ output. C)
  exec_in-Returns cwd command s h =
      let (output, e) = working.runs cwd command s.world in (output, e, h)

  pub exists-Returns : (path : Text) → Returns C (exists system path) Met
  exists-Returns path s h = (true, ap ok (working.there path s.world), (refl, h))

  pub require-Returns :
      (b : Bool) (message : Text)
      → Returns (λ s. (b ≡ true) × C s) (require {World = World} b message) UnitC
  require-Returns b message = Returns_true C UnitC (pure tt) _ (λ s h. (tt, refl, h)) b

  pub require_command-Returns :
      (command message : Text) → Returns C (require_command system command message) UnitC
  unfolding require_command
  require_command-Returns command message = Returns-rescue C UnitC _ _ (
      Returns-then C (λ output. C) UnitC (exec system command) _ (exec_in-Returns none command)
        (λ output s h. (tt, refl, h)))

  update_toml_known :
      (text : Text)
      → (edited : Text) × (update_toml config (networks_to_update (some network) config) text
          ≡ ok edited)
  unfolding update_toml update_networks networks_to_update
  update_toml_known text = rw (working.named, working.known_network) (_, refl)

  sync_program_id-Returns : Returns C (sync_program_id system paths) UnitC
  unfolding sync_program_id
  sync_program_id-Returns = Returns-rescue C UnitC _ _ (
      Returns-then C (λ output. C) UnitC _ _
        (Returns-then C UnitC (λ output. C) _ _
          (require_command-Returns (codes "anchor --version") _)
          (λ u. exec_in-Returns (some paths.project_root) _))
        (λ output s h. (tt, refl, h)))

  update_anchor_toml-Returns : Returns C (update_anchor_toml system paths (some network)) UnitC
  unfolding update_anchor_toml
  update_anchor_toml-Returns = Returns-rescue C UnitC _ _ (
      Returns-then C Met UnitC (exists system paths.anchor_toml_path) _
        (exists-Returns paths.anchor_toml_path)
        (λ found. Returns-then _ UnitC UnitC _ _ (require-Returns found _) (λ u.
          Returns-then C (λ text. C) UnitC (read system paths.anchor_toml_path) _ read_toml
            (λ text.
              Returns-then C (λ c s. (c ≡ config) × C s) UnitC (gets (λ s. s.config)) _
                (λ s h. (s.config, refl, (h, h)))
                (λ c.
                  Returns-then _ (λ edited. C) UnitC
                    (lift (update_toml c (networks_to_update (some network) c) text)) _
                    (edits text c)
                    (λ edited s h.
                      (tt, working.writable paths.anchor_toml_path edited s.world, h)))))))
    where
      read_toml : Returns C (read system paths.anchor_toml_path) (λ text. C)
      read_toml s h =
          let (text, e) = working.readable paths.anchor_toml_path s.world in (text, e, h)

      edits :
          (text : Text) (c : NetworkConfig)
          → Returns
              (λ s. (c ≡ config) × C s)
              (lift (update_toml c (networks_to_update (some network) c) text))
              (λ edited. C)
      edits text c s h =
          let (edited, e) = update_toml_known text in
          (
            edited,
            subst (λ d. update_toml d (networks_to_update (some network) d) text ≡ ok edited)
                (sym h.0) e,
            h.1,
          )

  network_reachable-Returns : (n : Network) → Returns C (network_reachable system paths n) Met
  unfolding network_reachable
  network_reachable-Returns n = Returns-rescue C Met _ _ (
      Returns-then C (λ output. C) Met
        (exec system (codes "solana cluster-version --url " ++ n.url)) _ (exec_in-Returns none _)
        (λ output s h. (true, refl, (refl, h))))

  validate_requirement-Returns :
      (n : Network) (validation : Text)
      → Returns C (validate_requirement system paths n validation) Met
  unfolding validate_requirement
  validate_requirement-Returns n validation =
      go (text_eq validation (codes "keypair_exists"))
        (text_eq validation (codes "network_reachable"))
    where
      go :
          (a b : Bool)
          → Returns C
              (if a
                then exists system n.keypair_path
                else if b
                then network_reachable system paths n
                else pure true)
              Met
      go true b = exists-Returns n.keypair_path
      go false true = network_reachable-Returns n
      go false false = λ s h. (true, refl, (refl, h))

  validate_all-Returns :
      (n : Network) (validations : List Text) (b : Bool)
      → b ≡ true
      → Returns C (validate_all system paths n validations b) Met
  unfolding validate_all
  validate_all-Returns n [] b e = λ s h. (b, refl, (e, h))
  validate_all-Returns n (validation ∷ validations) b e =
      Returns-then C Met Met _ _ (validate_requirement-Returns n validation)
        (λ met s h. validate_all-Returns n validations (if met then b else false) (rw h.0 e) s h.1)

  -- What is read of the configuration is what `working` knows of it.
  abbrev Read : NetworkConfig → Console World → Type 0
  Read c s = (c ≡ config) × C s

  config-Returns : Returns C (gets (λ s. s.config)) Read
  config-Returns s h = (s.config, refl, (h, h))

  abbrev Known : Network → Console World → Type 0
  Known n s = (n ≡ working.info) × C s

  known-Returns :
      (c : NetworkConfig) → Returns (Read c) (lift (known network (entry network c.networks))) Known
  known-Returns c s h = (
    working.info,
    subst (λ d. known network (entry network d.networks) ≡ ok working.info) (sym h.0)
        (ap (known network) working.known_network),
    (refl, h.1),
  )

  defined_network-Returns :
      (c : NetworkConfig) → Returns (Read c) (lift (defined (entry network c.networks))) Known
  defined_network-Returns c s h = (
    working.info,
    subst (λ d. defined (entry network d.networks) ≡ ok working.info) (sym h.0)
        (ap defined working.known_network),
    (refl, h.1),
  )

  pub validate_network-Returns : Returns C (validate_network system paths network) Met
  unfolding validate_network
  validate_network-Returns = Returns-then C Read Met _ _ config-Returns (λ c s h.
      Returns-then (Read c) (λ n s. Read c s) Met _ _ (known-Returns' c)
        (λ n.
          Returns-then (Read c) (λ r. C) Met _ _ (requirement-Returns c)
            (λ r. validate_all-Returns n r.validation true refl))
        s h)
    where
      known-Returns' :
          (c : NetworkConfig)
          → Returns (Read c) (lift (known network (entry network c.networks))) (λ n. Read c)
      known-Returns' c s h = let (n, e, k) = known-Returns c s h in (n, e, h)

      requirement-Returns :
          (c : NetworkConfig)
          → Returns (Read c) (lift (defined (entry network c.requirements))) (λ r. C)
      requirement-Returns c s h = (
        working.requirement,
        subst (λ d. defined (entry network d.requirements) ≡ ok working.requirement) (sym h.0)
            (ap defined working.known_requirement),
        h.1,
      )

  generate_if_missing-Returns :
      (n : Network) → Returns (Known n) (generate_if_missing system paths network n) UnitC
  unfolding generate_if_missing ◌>>=◌
  generate_if_missing-Returns n s h =
      rw (h.0, working.has_id, working.there working.info.keypair_path s.world) (tt, refl, h.1)

  pub prepare_network-Returns : Returns C (prepare_network system paths network) UnitC
  unfolding prepare_network
  prepare_network-Returns = Returns-then C Read UnitC _ _ config-Returns (λ c.
      Returns-then (Read c) Known UnitC _ _ (defined_network-Returns c) (λ n.
        Returns-then (Known n) UnitC UnitC _ _
          (Returns-then (Known n) UnitC UnitC _ _
            (Returns-then (Known n) UnitC UnitC _ _ (generate_if_missing-Returns n)
              (λ u. update_anchor_toml-Returns))
            (λ u. sync_program_id-Returns))
          (λ u.
            Returns-then C Met UnitC _ _ validate_network-Returns
              (λ is_valid s h. (tt, refl, h.1)))))
