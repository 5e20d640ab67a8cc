-- ===== src/Network/Manager/Missing.antt =====
-- validateNetwork of scripts/deployment/network-manager.ts where the file of the keypair is missing.
use via_solana_gateway_v.Prelude.{
  ◌≡◌, refl, Bool, true, false, ◌||◌, List, [], ◌∷◌, some, Text, codes, text_eq, if◌then◌else◌,
}
use via_solana_gateway_v.Prelude.Words.{includes}
use via_solana_gateway_v.Prelude.Actions.{◌>>=◌}
use via_solana_gateway_v.Prelude.Actions.Gives.{Gives, Gives_always, Gives-then}
use via_solana_gateway_v.Network.Types.{Network, Requirement, NetworkConfig, Paths, entry}
use via_solana_gateway_v.Network.System.{System}
use via_solana_gateway_v.Network.Console.{Console}
use via_solana_gateway_v.Network.Manager.{validate_requirement, validate_all, validate_network}

-- The configuration asks for the file of the network's keypair, and the file is not there.
pub record Missing {World : Type 0} (system : System World) (config : NetworkConfig)
    (network : Text) : Type 0 where
  pub info : Network
  pub requirement : Requirement
  pub known_network : entry network config.networks ≡ some info
  pub known_requirement : entry network config.requirements ≡ some requirement
  pub asked : includes (codes "keypair_exists") requirement.validation ≡ true
  pub not_there : (w : World) → system.exists_sync info.keypair_path w ≡ false

module _ {World : Type 0} (system : System World) (paths : Paths) where
  abbrev Any : Console World → Type 0
  Any s = Unit {0}

  abbrev pub Unmet : Bool → Console World → Type 0
  Unmet met s = met ≡ false

  module _ (n : Network) (gone : (w : World) → system.exists_sync n.keypair_path w ≡ false) where
    validate_requirement-Unmet :
        (validation : Text)
        → text_eq validation (codes "keypair_exists") ≡ true
        → Gives Any (validate_requirement system paths n validation) Unmet
    unfolding validate_requirement
    validate_requirement-Unmet validation e = rw e (λ s h. gone s.world)

    ite_false : (met b : Bool) → b ≡ false → (if met then b else false) ≡ false
    ite_false true b e = e
    ite_false false b e = refl

    -- One requirement that is not met is not met at the end.
    validate_all-Failed :
        (validations : List Text) (b : Bool)
        → b ≡ false
        → Gives Any (validate_all system paths n validations b) Unmet
    unfolding validate_all
    validate_all-Failed [] b e = λ s h. e
    validate_all-Failed (validation ∷ validations) b e =
        Gives-then Any (λ met. Any) Unmet (validate_requirement system paths n validation) _
          (Gives_always Any Any (validate_requirement system paths n validation) (λ s h. tt))
          (λ met. validate_all-Failed validations (if met then b else false) (ite_false met b e))

    validate_all-Unmet :
        (validations : List Text) (b : Bool)
        → includes (codes "keypair_exists") validations ≡ true
        → Gives Any (validate_all system paths n validations b) Unmet
    unfolding validate_all includes
    validate_all-Unmet [] b e = cc
    validate_all-Unmet (validation ∷ validations) b e =
        either (text_eq validation (codes "keypair_exists")) refl e
          (λ met h. validate_all-Unmet validations (if met then b else false) h)
      where
        either :
            (same : Bool)
            → text_eq validation (codes "keypair_exists") ≡ same
            → (same || includes (codes "keypair_exists") validations) ≡ true
            → ((met : Bool)
                → includes (codes "keypair_exists") validations ≡ true
                → Gives Any
                    (validate_all system paths n validations (if met then b else false))
                    Unmet)
            → Gives Any (validate_all system paths n (validation ∷ validations) b) Unmet
        either true h e' rest =
            Gives-then Any Unmet Unmet (validate_requirement system paths n validation) _
              (validate_requirement-Unmet validation h)
              (λ met s unmet.
                validate_all-Failed validations (if met then b else false) (rw unmet refl) s tt)
        either false h e' rest =
            Gives-then Any (λ met. Any) Unmet (validate_requirement system paths n validation) _
              (Gives_always Any Any (validate_requirement system paths n validation) (λ s h. tt))
              (λ met. rest met e')

  module _ (config : NetworkConfig) (network : Text) (missing : Missing system config network) where
    abbrev pub Configured : Console World → Type 0
    Configured s = s.config ≡ config

    pub validate_network-Unmet : Gives Configured (validate_network system paths network) Unmet
    unfolding validate_network ◌>>=◌
    validate_network-Unmet s h =
        rw (h, missing.known_network, missing.known_requirement)
          (validate_all-Unmet missing.info missing.not_there missing.requirement.validation true
            missing.asked _ tt)
