-- ===== src/Setup/Run.antt =====
-- The orchestrator of scripts/deployment/setup.ts: `setup` and the three initialisers.
pub mod Planned
pub mod Reports
pub mod Accounting
use via_solana_gateway_v.Prelude.{
  ℕ, ◌+◌, Bool, true, false, ◌||◌, List, [], ◌∷◌, ◌++◌, Option, none, some, length, ltb,
  if◌then◌else◌, Text, codes, thrown, Result, ok, err,
}
use via_solana_gateway_v.Prelude.Digits.{to_string}
use via_solana_gateway_v.Buffer.{Bytes}
use via_solana_gateway_v.Setup.Types.{
  ChainConfig, SignerConfig, SetupConfig, SetupResult, TransactionInstruction, PostDeploymentSetup,
}
use via_solana_gateway_v.Setup.Cluster.{Cluster}
use via_solana_gateway_v.Setup.Build.{
  get_gateway_pda, get_counter_pda, get_signer_registry_pda, build_gateway_instruction,
  build_counter_instruction, build_registry_instruction,
}
use via_solana_gateway_v.Prelude.Actions.{Action, pure, lift, ◌>>=◌, ◌>>◌}
use via_solana_gateway_v.Setup.Session.{Session, remote, modify, log_sent, catching}

-- `push` on the lists of the result, and the three counters with the transaction that goes with
-- each.
abbrev pub push_error : Text → SetupResult → SetupResult
push_error message r = record r { errors = r.errors ++ (message ∷ []) }

abbrev pub push_warning : Text → SetupResult → SetupResult
push_warning message r = record r { warnings = r.warnings ++ (message ∷ []) }

abbrev pub gateway_initialized : Text → SetupResult → SetupResult
gateway_initialized tx r = record r {
  gateways_initialized = r.gateways_initialized + 1;
  transactions = r.transactions ++ (tx ∷ []);
}

abbrev pub counter_initialized : Text → SetupResult → SetupResult
counter_initialized tx r = record r {
  counters_initialized = r.counters_initialized + 1;
  transactions = r.transactions ++ (tx ∷ []);
}

abbrev pub registry_initialized : Text → SetupResult → SetupResult
registry_initialized tx r = record r {
  registries_initialized = r.registries_initialized + 1;
  transactions = r.transactions ++ (tx ∷ []);
}

abbrev is_account : Option Bytes → Bool
is_account none = false
is_account (some info) = true

-- An account that cannot be read counts as missing.
abbrev pub is_found : Result (Option Bytes) → Bool
is_found (ok info) = is_account info
is_found (err e) = false

-- The `errorMsg` of the three initialisers.
unfoldable pub failed_to_initialize : Text → ℕ → Text → Text
failed_to_initialize what chain_id error =
    codes "Failed to initialize "
    ++ what
    ++ codes " for chain "
    ++ to_string chain_id
    ++ codes ": "
    ++ error

-- `registry.threshold < 1 || registry.threshold > signerPubkeys.length`
unfoldable pub validate_threshold : ℕ → ℕ → Result (Unit {0})
validate_threshold threshold count =
    if ltb threshold 1 || ltb count threshold
    then err (
        thrown (
          codes "Invalid threshold "
          ++ to_string threshold
          ++ codes " for "
          ++ to_string count
          ++ codes " signers"))
    else ok tt

abbrev pub empty_result : SetupResult
empty_result = record {
  success = false;
  gateways_initialized = 0;
  registries_initialized = 0;
  counters_initialized = 0;
  errors = [];
  warnings = [];
  transactions = [];
}

module _ {World : Type 0} where
  -- `for (const x of xs) { if (x.enabled) { await step(x); } }`
  unfoldable pub for_enabled :
      {A : Type 0}
      → (A → Bool)
      → (A → Session World → Session World)
      → List A
      → Session World
      → Session World
  for_enabled enabled step [] s = s
  for_enabled enabled step (x ∷ xs) s =
      for_enabled enabled step xs (if enabled x then step x s else s)

  -- `result.success = result.errors.length === 0`
  unfoldable pub concluded : Session World → Session World
  concluded s = record s { result = record (s.result) { success = is_empty s.result.errors } }
    where
      is_empty : List Text → Bool
      is_empty [] = true
      is_empty (e ∷ es) = false

module _ {World : Type 0} (cluster : Cluster World) where
  unfoldable pub account_exists : Bytes → Action (Session World) Bool
  account_exists address s =
      let (info, w) = cluster.get_account_info address s.world in
      (ok (is_found info), record { world = w; result = s.result; sent = s.sent })

  -- `if (config.skipExisting) { if (await accountExists(…)) { …; return; } }`, and the rest.
  unfoldable pub skip_if_exists :
      SetupConfig → Bytes → Text → Action (Session World) Unit → Action (Session World) Unit
  skip_if_exists config address what rest =
      if config.skip_existing
      then (account_exists address >>= λ exists.
          if exists then modify (push_warning (what ++ codes " already exists")) else rest)
      else rest

  unfoldable pub send_and_confirm : TransactionInstruction → Action (Session World) Text
  send_and_confirm ix = log_sent ix >> remote (cluster.send_and_confirm ix)

  -- `if (config.dryRun) { …; return; }`, and the rest: the instruction is built, sent and counted.
  unfoldable pub unless_dry_run :
      SetupConfig
      → Result TransactionInstruction
      → (Text → SetupResult → SetupResult)
      → Action (Session World) Unit
  unless_dry_run config instruction count =
      if config.dry_run
      then pure tt
      else (lift instruction >>= λ ix. send_and_confirm ix >>= λ tx. modify (count tx))

  abbrev public_key_or_throw : Text → Result Bytes → Result Bytes
  public_key_or_throw signer (ok key) = ok key
  public_key_or_throw signer (err e) = err (thrown (codes "Invalid signer public key: " ++ signer))

  abbrev add_key : Result Bytes → Result (List Bytes) → Result (List Bytes)
  add_key (ok key) (ok keys) = ok (key ∷ keys)
  add_key (ok key) (err e) = err e
  add_key (err e) keys = err e

  -- `registry.signers.map(…)`: the first key that is none is reported.
  unfoldable pub signer_pubkeys : List Text → Result (List Bytes)
  signer_pubkeys [] = ok []
  signer_pubkeys (signer ∷ signers) =
      add_key (public_key_or_throw signer (cluster.public_key signer)) (signer_pubkeys signers)

  module _ (this : PostDeploymentSetup) where
    unfoldable pub initialize_gateway : ChainConfig → SetupConfig → Session World → Session World
    initialize_gateway chain config =
        catching
          (λ e. push_error (failed_to_initialize (codes "gateway") chain.id (cluster.show_error e)))
          (lift (get_gateway_pda cluster this chain.id) >>= λ gateway_pda.
            skip_if_exists config gateway_pda (codes "Gateway for chain " ++ to_string chain.id) (
              unless_dry_run config (build_gateway_instruction cluster this gateway_pda chain.id)
                gateway_initialized))

    unfoldable pub initialize_counter_pda :
        ChainConfig → SetupConfig → Session World → Session World
    initialize_counter_pda chain config =
        catching
          (λ e.
            push_error (failed_to_initialize (codes "Counter PDA") chain.id (cluster.show_error e)))
          (lift (get_counter_pda cluster this chain.id) >>= λ counter_pda.
            skip_if_exists config counter_pda (codes "Counter PDA for chain " ++ to_string chain.id)
              (unless_dry_run config (build_counter_instruction cluster this counter_pda chain.id)
                counter_initialized))

    unfoldable pub initialize_signer_registry :
        ℕ → SignerConfig → SetupConfig → Session World → Session World
    initialize_signer_registry chain_id registry config =
        catching
          (λ e. push_error (
            failed_to_initialize (registry.registry_type ++ codes " registry") chain_id
              (cluster.show_error e)))
          (lift (get_signer_registry_pda cluster this registry.registry_type chain_id)
            >>= λ registry_pda. lift (get_gateway_pda cluster this chain_id) >>= λ gateway_pda.
                skip_if_exists config registry_pda
                  (registry.registry_type ++ codes " registry for chain " ++ to_string chain_id)
                  (lift (signer_pubkeys registry.signers) >>= λ keys.
                    lift (validate_threshold registry.threshold (length keys))
                    >> (unless_dry_run config
                        (build_registry_instruction cluster this registry_pda gateway_pda
                          registry.registry_type chain_id keys registry.threshold)
                        registry_initialized)))

    -- `balanceSOL < 0.1` in lamports.
    unfoldable pub validate_authority : Session World → Session World
    validate_authority =
        catching
          (λ e. push_error (codes "Failed to check authority balance: " ++ cluster.show_error e))
          (remote (cluster.get_balance this.authority) >>= λ balance.
            if ltb balance 100000000
            then modify (
                push_warning (
                  codes "Low balance: "
                  ++ cluster.sol_to_fixed balance
                  ++ codes " SOL. May not be sufficient for setup."))
            else pure tt)

    unfoldable pub initialize_registries :
        SetupConfig → List (ℕ × List SignerConfig) → Session World → Session World
    initialize_registries config [] s = s
    initialize_registries config ((chain_id, registries) ∷ entries) s =
        initialize_registries config entries (
          for_enabled (λ registry. registry.enabled)
            (λ registry. initialize_signer_registry chain_id registry config) registries s)

    -- No step lets an exception through, so the outer `catch` has nothing to catch.
    unfoldable pub setup : SetupConfig → World → Session World
    setup config w =
        let s0 : Session World = record { world = w; result = empty_result; sent = [] } in
        let s1 = validate_authority s0 in
        let s2 =
          for_enabled (λ chain. chain.enabled) (λ chain. initialize_gateway chain config)
            config.chains s1 in
        let s3 =
          for_enabled (λ chain. chain.enabled) (λ chain. initialize_counter_pda chain config)
            config.chains s2 in
        concluded (initialize_registries config config.signer_registries s3)
