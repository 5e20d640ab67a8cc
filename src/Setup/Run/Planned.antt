-- ===== src/Setup/Run/Planned.antt =====
-- What `setup` of scripts/deployment/setup.ts hands to `sendAndConfirm`.
use mathlib.Core.List.{Memᴰ}
use mathlib.Core.List.Memᴰ.{head, tail}
use via_solana_gateway_v.Prelude.{
  ℕ, ◌≤◌, ◌≡◌, refl, Bool, true, false, List, [], ◌∷◌, length, All, arith, Text, Result, ok,
  if◌then◌else◌,
}
use via_solana_gateway_v.Buffer.{Bytes}
use via_solana_gateway_v.Setup.Types.{
  ChainConfig, SignerConfig, SetupConfig, SetupResult, TransactionInstruction, PostDeploymentSetup,
}
use via_solana_gateway_v.Setup.Cluster.{Cluster}
use via_solana_gateway_v.Setup.Build.{
  get_gateway_pda, get_counter_pda, get_signer_registry_pda, build_gateway_instruction,
  build_counter_instruction, build_registry_instruction,
}
use via_solana_gateway_v.Prelude.Actions.{Action, ◌>>=◌}
use via_solana_gateway_v.Setup.Session.{Session, remote}
use via_solana_gateway_v.Setup.Session.Keeps.{Keeps-catching}
use via_solana_gateway_v.Prelude.Actions.Keeps.{
  Keeps, Keeps-early_return, Keeps-after_result, Keeps-then,
}
use via_solana_gateway_v.Setup.Run.{
  account_exists, skip_if_exists, send_and_confirm, unless_dry_run, initialize_gateway,
  initialize_counter_pda, signer_pubkeys, validate_threshold, initialize_signer_registry,
  validate_authority, for_enabled, initialize_registries, concluded, setup,
}

validate_threshold-bounds :
    (threshold count : ℕ)
    → validate_threshold threshold count ≡ ok tt
    → (1 ≤ threshold) × (threshold ≤ count)
unfolding validate_threshold
validate_threshold-bounds threshold count h = ground arith

module _ {World : Type 0} (cluster : Cluster World) (this : PostDeploymentSetup)
    (config : SetupConfig) where
  -- An instruction that the configuration asks for: it is built for an enabled chain, or for an
  -- enabled registry whose signers are keys and whose threshold is between 1 and their number.
  pub data Planned : TransactionInstruction → Type 0 where
    gateway :
        (chain : ChainConfig) (pda : Bytes) {ix : TransactionInstruction}
        → Memᴰ chain config.chains
        → chain.enabled ≡ true
        → get_gateway_pda cluster this chain.id ≡ ok pda
        → build_gateway_instruction cluster this pda chain.id ≡ ok ix
        → Planned ix
    counter :
        (chain : ChainConfig) (pda : Bytes) {ix : TransactionInstruction}
        → Memᴰ chain config.chains
        → chain.enabled ≡ true
        → get_counter_pda cluster this chain.id ≡ ok pda
        → build_counter_instruction cluster this pda chain.id ≡ ok ix
        → Planned ix
    registry :
        (chain_id : ℕ) (registries : List SignerConfig) (signer : SignerConfig)
        (pda gateway_pda : Bytes) (keys : List Bytes) {ix : TransactionInstruction}
        → Memᴰ (chain_id, registries) config.signer_registries
        → Memᴰ signer registries
        → signer.enabled ≡ true
        → get_signer_registry_pda cluster this signer.registry_type chain_id ≡ ok pda
        → get_gateway_pda cluster this chain_id ≡ ok gateway_pda
        → signer_pubkeys cluster signer.signers ≡ ok keys
        → 1 ≤ signer.threshold
        → signer.threshold ≤ length keys
        → build_registry_instruction cluster this pda gateway_pda signer.registry_type chain_id keys
            signer.threshold
          ≡ ok ix
        → Planned ix

  -- A property of what was sent, which a real run keeps when it sends a planned instruction.
  module _ (P : List TransactionInstruction → Type 0)
      (sends : (ix : TransactionInstruction) (sent : List TransactionInstruction)
        → config.dry_run ≡ false
        → Planned ix
        → P sent
        → P (ix ∷ sent)) where
    abbrev Sent : Session World → Type 0
    Sent s = P s.sent

    Keeps-account_exists : (address : Bytes) → Keeps Sent (account_exists cluster address)
    unfolding account_exists
    Keeps-account_exists address s h = h

    Keeps-skip_if_exists :
        (address : Bytes) (what : Text) (rest : Action (Session World) (Unit {0}))
        → Keeps Sent rest
        → Keeps Sent (skip_if_exists cluster config address what rest)
    unfolding skip_if_exists
    Keeps-skip_if_exists address what rest k =
        Keeps-early_return Sent config.skip_existing _ _
          (Keeps-then Sent (account_exists cluster address) _
            (λ exists. Keeps-early_return Sent exists _ _ (λ s h. h) (λ _. k))
            (Keeps-account_exists address))
          (λ _. k)

    Keeps-send_and_confirm :
        (ix : TransactionInstruction)
        → config.dry_run ≡ false
        → Planned ix
        → Keeps Sent (send_and_confirm cluster ix)
    unfolding send_and_confirm ◌>>=◌
    Keeps-send_and_confirm ix real planned s h = sends ix s.sent real planned h

    Keeps-unless_dry_run :
        (instruction : Result TransactionInstruction) (count : Text → SetupResult → SetupResult)
        → ((ix : TransactionInstruction) → instruction ≡ ok ix → Planned ix)
        → Keeps Sent (unless_dry_run cluster config instruction count)
    unfolding unless_dry_run
    Keeps-unless_dry_run instruction count planned =
        Keeps-early_return Sent config.dry_run _ _ (λ s h. h)
          λ real. Keeps-after_result Sent _ instruction λ ix e.
            Keeps-then Sent (send_and_confirm cluster ix) _ (λ tx s h. h)
              (Keeps-send_and_confirm ix real (planned ix e))

    Keeps-initialize_gateway :
        (chain : ChainConfig)
        → Memᴰ chain config.chains
        → chain.enabled ≡ true
        → (s : Session World) → Sent s
        → Sent (initialize_gateway cluster this chain config s)
    unfolding initialize_gateway
    Keeps-initialize_gateway chain listed on =
        Keeps-catching Sent _ _
          (Keeps-after_result Sent _ (get_gateway_pda cluster this chain.id) λ pda e.
            Keeps-skip_if_exists pda _ _
              (Keeps-unless_dry_run _ _ λ ix built. gateway chain pda listed on e built))
          (λ e s h. h)

    Keeps-initialize_counter_pda :
        (chain : ChainConfig)
        → Memᴰ chain config.chains
        → chain.enabled ≡ true
        → (s : Session World) → Sent s
        → Sent (initialize_counter_pda cluster this chain config s)
    unfolding initialize_counter_pda
    Keeps-initialize_counter_pda chain listed on =
        Keeps-catching Sent _ _
          (Keeps-after_result Sent _ (get_counter_pda cluster this chain.id) λ pda e.
            Keeps-skip_if_exists pda _ _
              (Keeps-unless_dry_run _ _ λ ix built. counter chain pda listed on e built))
          (λ e s h. h)

    Keeps-initialize_signer_registry :
        (chain_id : ℕ) (registries : List SignerConfig) (signer : SignerConfig)
        → Memᴰ (chain_id, registries) config.signer_registries
        → Memᴰ signer registries
        → signer.enabled ≡ true
        → (s : Session World) → Sent s
        → Sent (initialize_signer_registry cluster this chain_id signer config s)
    unfolding initialize_signer_registry
    Keeps-initialize_signer_registry chain_id registries signer listed mine on =
        Keeps-catching Sent _ _
          (Keeps-after_result Sent _
            (get_signer_registry_pda cluster this signer.registry_type chain_id)
            λ pda e.
              Keeps-after_result Sent _ (get_gateway_pda cluster this chain_id) λ gateway_pda eg.
                Keeps-skip_if_exists pda _ _ (
                  Keeps-after_result Sent _ (signer_pubkeys cluster signer.signers) λ keys ek.
                    Keeps-after_result Sent _ (validate_threshold signer.threshold (length keys))
                      λ valid ev.
                        let (low, high) =
                          validate_threshold-bounds signer.threshold (length keys) ev in
                        Keeps-unless_dry_run _ _ λ ix built.
                          registry chain_id registries signer pda gateway_pda keys listed mine on e
                            eg ek low high built))
          (λ e s h. h)

    Keeps-validate_authority :
        (s : Session World) → Sent s → Sent (validate_authority cluster this s)
    unfolding validate_authority
    Keeps-validate_authority =
        Keeps-catching Sent _ _
          (Keeps-then Sent (remote (cluster.get_balance this.authority)) _
            (λ balance. Keeps-early_return Sent _ _ _ (λ s h. h) (λ _ s h. h)) (λ s h. h))
          (λ e s h. h)

    Keeps-for_enabled :
        {A : Type 0} (enabled : A → Bool) (step : A → Session World → Session World) (xs : List A)
        → ((x : A) → Memᴰ x xs → enabled x ≡ true → (s : Session World) → Sent s → Sent (step x s))
        → (s : Session World) → Sent s
        → Sent (for_enabled enabled step xs s)
    unfolding for_enabled
    Keeps-for_enabled enabled step [] k s h = h
    Keeps-for_enabled enabled step (x ∷ xs) k s h =
        Keeps-for_enabled enabled step xs (λ y m. k y (tail m)) _ (chosen (enabled x) refl)
      where
        chosen : (b : Bool) → enabled x ≡ b → Sent (if b then step x s else s)
        chosen true on = k x (head refl) on s h
        chosen false off = h

    Keeps-initialize_registries :
        (entries : List (ℕ × List SignerConfig))
        → ((entry : ℕ × List SignerConfig)
            → Memᴰ entry entries
            → Memᴰ entry config.signer_registries)
        → (s : Session World) → Sent s
        → Sent (initialize_registries cluster this config entries s)
    unfolding initialize_registries
    Keeps-initialize_registries [] sub s h = h
    Keeps-initialize_registries ((chain_id, registries) ∷ entries) sub s h =
        Keeps-initialize_registries entries (λ entry m. sub entry (tail m)) _
          (Keeps-for_enabled _ _ registries
            (λ signer mine on.
              Keeps-initialize_signer_registry chain_id registries signer
                (sub (chain_id, registries) (head refl)) mine on)
            s h)

    setup_keeps : (w : World) → P [] → P (setup cluster this config w).sent
    unfolding setup concluded
    setup_keeps w h =
        Keeps-initialize_registries config.signer_registries (λ entry m. m) _
          (Keeps-for_enabled _ _ config.chains (λ chain. Keeps-initialize_counter_pda chain) _
            (Keeps-for_enabled _ _ config.chains (λ chain. Keeps-initialize_gateway chain) _
              (Keeps-validate_authority _ h)))

  -- Whatever the cluster answers, every instruction that `setup` hands to `sendAndConfirm` is
  -- planned: it is built for an enabled chain, or for an enabled registry whose signers are keys
  -- and whose threshold is at least 1 and at most their number.
  pub setup-Planned : (w : World) → All Planned (setup cluster this config w).sent
  setup-Planned w = setup_keeps (All Planned) (λ ix sent real planned h. (planned, h)) w tt

  -- A dry run sends nothing, whatever the cluster answers.
  pub setup_dry_run : (w : World) → config.dry_run ≡ true → (setup cluster this config w).sent ≡ []
  setup_dry_run w dry = setup_keeps (λ sent. sent ≡ []) (λ ix sent real planned h. cc) w refl
