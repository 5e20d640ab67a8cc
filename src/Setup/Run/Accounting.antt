-- ===== src/Setup/Run/Accounting.antt =====
-- The counters and lists of the result of `setup` in scripts/deployment/setup.ts.
use via_solana_gateway_v.Prelude.{
  ℕ, ◌+◌, ◌*◌, ◌≤◌, ◌≡◌, Bool, true, false, List, [], ◌∷◌, length, filter, arith, Text, Result,
  if◌then◌else◌,
}
use via_solana_gateway_v.Buffer.{Bytes}
use via_solana_gateway_v.Setup.Types.{
  ChainConfig, SignerConfig, SetupConfig, SetupResult, TransactionInstruction, PostDeploymentSetup,
}
use via_solana_gateway_v.Setup.Cluster.{Cluster}
use via_solana_gateway_v.Setup.Build.{get_gateway_pda, get_counter_pda, get_signer_registry_pda}
use via_solana_gateway_v.Prelude.Actions.{Action, ◌>>=◌}
use via_solana_gateway_v.Setup.Session.{Session}
use via_solana_gateway_v.Setup.Run.{
  validate_threshold, signer_pubkeys, is_found, account_exists, skip_if_exists, send_and_confirm,
  unless_dry_run, initialize_gateway, initialize_counter_pda, initialize_signer_registry,
  validate_authority, for_enabled, initialize_registries, concluded, setup, empty_result,
}
use via_solana_gateway_v.Setup.Run.Reports.{
  initialized, reported, Reports, Reports-trans, Reports-step, Reports-none, Reports-push_warning,
  Counts, Counts-gateway, Counts-counter, Counts-registry, Once, Once-if, Once-lift, Once-catching,
  AtMost-if, AtMost-lift, AtMost-catching,
}

-- How many registries of the entries are enabled.
abbrev pub enabled_registries : List (ℕ × List SignerConfig) → ℕ
enabled_registries [] = 0
enabled_registries ((chain_id, registries) ∷ entries) =
    length (filter (λ registry. registry.enabled) registries) + enabled_registries entries

-- The steps that a configuration asks for.
abbrev pub asked : SetupConfig → ℕ
asked config =
    2 * length (filter (λ chain. chain.enabled) config.chains)
    + enabled_registries config.signer_registries

module _ {World : Type 0} (cluster : Cluster World) (config : SetupConfig) where
  Once-skip_if_exists :
      (address : Bytes) (what : Text) (rest : Action (Session World) (Unit {0}))
      → Once rest
      → Once (skip_if_exists cluster config address what rest)
  unfolding skip_if_exists account_exists ◌>>=◌
  Once-skip_if_exists address what rest k =
      Once-if config.skip_existing _ _
        (λ _ s.
          Once-if (is_found (cluster.get_account_info address s.world).0) _ _
            (λ _ s. Reports-push_warning _ s.result) (λ _. k) (account_exists cluster address s).1)
        (λ _. k)

  Once-unless_dry_run :
      (instruction : Result TransactionInstruction) (count : Text → SetupResult → SetupResult)
      → config.dry_run ≡ false
      → Counts count
      → Once (unless_dry_run cluster config instruction count)
  unfolding unless_dry_run send_and_confirm ◌>>=◌
  Once-unless_dry_run instruction count real k =
      Once-if config.dry_run _ _ (λ dry. absurd cc)
        λ _. Once-lift instruction _ λ ix s.
          Once-lift (cluster.send_and_confirm ix s.world).0 _ (λ tx s'. k tx s'.result)
            (record {
              world = (cluster.send_and_confirm ix s.world).1;
              result = s.result;
              sent = ix ∷ s.sent;
            })

  module _ (this : PostDeploymentSetup) (real : config.dry_run ≡ false) where
    -- A step of the setup makes one report, whatever happens.
    abbrev Step : (Session World → Session World) → Type 0
    Step step = (s : Session World) → Reports 1 s.result (step s).result

    Step-initialize_gateway :
        (chain : ChainConfig) → Step (initialize_gateway cluster this chain config)
    unfolding initialize_gateway
    Step-initialize_gateway chain = Once-catching _ _ (
        Once-lift (get_gateway_pda cluster this chain.id) _
          λ pda. Once-skip_if_exists pda _ _ (Once-unless_dry_run _ _ real Counts-gateway))

    Step-initialize_counter_pda :
        (chain : ChainConfig) → Step (initialize_counter_pda cluster this chain config)
    unfolding initialize_counter_pda
    Step-initialize_counter_pda chain = Once-catching _ _ (
        Once-lift (get_counter_pda cluster this chain.id) _
          λ pda. Once-skip_if_exists pda _ _ (Once-unless_dry_run _ _ real Counts-counter))

    Step-initialize_signer_registry :
        (chain_id : ℕ) (registry : SignerConfig)
        → Step (initialize_signer_registry cluster this chain_id registry config)
    unfolding initialize_signer_registry
    Step-initialize_signer_registry chain_id registry = Once-catching _ _ (
        Once-lift (get_signer_registry_pda cluster this registry.registry_type chain_id) _ λ pda.
          Once-lift (get_gateway_pda cluster this chain_id) _ λ gateway_pda.
            Once-skip_if_exists pda _ _ (
              Once-lift (signer_pubkeys cluster registry.signers) _ λ keys.
                Once-lift (validate_threshold registry.threshold (length keys)) _
                  λ valid. Once-unless_dry_run _ _ real Counts-registry))

    validate_authority-Reports :
        (s : Session World)
        → (n : ℕ) × (n ≤ 1) × Reports n s.result (validate_authority cluster this s).result
    unfolding validate_authority ◌>>=◌
    validate_authority-Reports = AtMost-catching _ _ λ s.
        let (balance, w) = cluster.get_balance this.authority s.world in
        AtMost-lift balance _
          (λ lamports.
            AtMost-if _ _ _ (λ s1. (1, omega arith, Reports-push_warning _ s1.result))
              (λ s1. (0, omega arith, Reports-none s1.result)))
          (record { world = w; result = s.result; sent = s.sent })

    for_enabled-Reports :
        {A : Type 0} (enabled : A → Bool) (step : A → Session World → Session World) (xs : List A)
        → ((x : A) → Step (step x))
        → (s : Session World)
        → Reports (length (filter enabled xs)) s.result (for_enabled enabled step xs s).result
    unfolding for_enabled
    for_enabled-Reports enabled step [] k s = Reports-none s.result
    for_enabled-Reports enabled step (x ∷ xs) k s =
        chosen (enabled x) (λ s1. for_enabled-Reports enabled step xs k s1)
      where
        chosen :
            (b : Bool)
            → ((s1 : Session World)
                → Reports
                    (length (filter enabled xs))
                    s1.result
                    (for_enabled enabled step xs s1).result)
            → Reports
                (length (elim b [ true ↦ x ∷ filter enabled xs | false ↦ filter enabled xs ]))
                s.result
                (for_enabled enabled step xs (if b then step x s else s)).result
        chosen true below = Reports-step _ _ _ (k x s) (below (step x s))
        chosen false below = below s

    initialize_registries-Reports :
        (entries : List (ℕ × List SignerConfig)) (s : Session World)
        → Reports
            (enabled_registries entries)
            s.result
            (initialize_registries cluster this config entries s).result
    unfolding initialize_registries
    initialize_registries-Reports [] s = Reports-none s.result
    initialize_registries-Reports ((chain_id, registries) ∷ entries) s =
        Reports-trans _ _ _
          (for_enabled-Reports _ _ registries (Step-initialize_signer_registry chain_id) s)
          (initialize_registries-Reports entries _)

    -- Outside a dry run, and whatever the cluster answers, the initialisations, warnings and errors
    -- in the result of `setup` are together as many as the steps that the configuration asks for
    -- (two for each enabled chain, one for each enabled registry), or one more; and there are as
    -- many transactions as initialisations.
    pub setup_reports :
        (w : World)
        → let r = (setup cluster this config w).result in
          (asked config ≤ reported r)
          × (reported r ≤ asked config + 1)
          × (length r.transactions ≡ initialized r)
    unfolding setup concluded
    setup_reports w =
        let s0 : Session World = record { world = w; result = empty_result; sent = [] } in
        let (n, le, q1) = validate_authority-Reports s0 in
        let s1 = validate_authority cluster this s0 in
        let q2 = for_enabled-Reports _ _ config.chains Step-initialize_gateway s1 in
        let s2 =
          for_enabled (λ chain. chain.enabled)
            (λ chain. initialize_gateway cluster this chain config) config.chains s1 in
        let q3 = for_enabled-Reports _ _ config.chains Step-initialize_counter_pda s2 in
        let s3 =
          for_enabled (λ chain. chain.enabled)
            (λ chain. initialize_counter_pda cluster this chain config) config.chains s2 in
        let q4 = initialize_registries-Reports config.signer_registries s3 in
        let q = Reports-trans _ _ _ q1 (Reports-trans _ _ _ q2 (Reports-trans _ _ _ q3 q4)) in
        (omega (arith, q.reports), omega (arith, q.reports), omega (arith, q.transactions))
