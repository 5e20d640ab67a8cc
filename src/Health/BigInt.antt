-- ===== src/Health/BigInt.antt =====
-- A registry's chain id among the details of a service, in the JSON output of
-- scripts/deployment/health.ts.
use mathlib.Core.List.{Memᴰ}
use mathlib.Core.List.Memᴰ.{head, tail}
use via_solana_gateway_v.Prelude.{
  ℕ, ◌+◌, ◌*◌, ◌≤◌, ◌≡◌, refl, ap₂, subst, true, List, [], ◌∷◌, ◌++◌, some, length, le→ltb, arith,
  Text, codes, text_eq_iff, type_error, ok, err,
}
use via_solana_gateway_v.Buffer.{Bytes, read_uint_le}
use via_solana_gateway_v.Health.Types.{
  ServiceHealth, HealthCheckResult, HealthConfig, AccountInfo, Monitor,
}
use via_solana_gateway_v.Health.Checks.{Report, checked, registry_pda_of}
use via_solana_gateway_v.Health.Registry.{registry_report, registry_answered, check_registry}
use via_solana_gateway_v.Health.Perform.{
  push, some_big_int, holds_big_int, run_checks, registry_checks, check_registry_health, run_all,
  Counts, perform_health_check,
}
use via_solana_gateway_v.Health.Overall.{perform_health_check-throws}

-- The registry's account is at its address whenever it is asked for, is long enough and holds the
-- number of its signers and, behind them, its chain id.
pub record Found {World : Type 0} (monitor : Monitor World) (config : HealthConfig)
    (registry_type : Text) (chain_id : ℕ) : Type 0 where
  pub address : Bytes
  pub at_address : registry_pda_of monitor config registry_type chain_id ≡ ok address
  pub info : AccountInfo
  pub there : (w : World) → (monitor.get_account_info address w).0 ≡ ok (some info)
  pub long : 56 ≤ length info.contents
  pub signers : ℕ
  pub has_signers : read_uint_le 4 info.contents 41 ≡ ok signers
  pub chain : ℕ
  pub has_chain : read_uint_le 8 info.contents (45 + signers * 32 + 1) ≡ ok chain

holds_left :
    (xs ys : List ServiceHealth) → holds_big_int xs ≡ true → holds_big_int (xs ++ ys) ≡ true
unfolding holds_big_int
holds_left [] ys h = cc
holds_left (x ∷ xs) ys h = ground (arith, holds_left xs ys)

holds_right :
    (xs : List ServiceHealth) (y : ServiceHealth)
    → some_big_int y.details ≡ true
    → holds_big_int (xs ++ (y ∷ [])) ≡ true
unfolding holds_big_int
holds_right [] y h = rw h refl
holds_right (x ∷ xs) y h = ground (arith, holds_right xs y h)

module _ {World : Type 0} where
  run_checks_kept :
      (checks : List (World → Report × World)) (k : ℕ) (r : HealthCheckResult) (w : World)
      → holds_big_int r.services ≡ true
      → holds_big_int (run_checks checks k r w).1.services ≡ true
  unfolding run_checks
  run_checks_kept [] k r w h = h
  run_checks_kept (check ∷ checks) k r w h =
      run_checks_kept checks _ (push (check w).0 r) _ (holds_left r.services _ h)

  run_checks_holds :
      (check : World → Report × World) (checks : List (World → Report × World)) (k : ℕ)
      (r : HealthCheckResult) (w : World)
      → ((w' : World) → some_big_int (check w').0.service.details ≡ true)
      → Memᴰ check checks
      → holds_big_int (run_checks checks k r w).1.services ≡ true
  unfolding run_checks
  run_checks_holds check [] k r w big m = elim m [ ]
  run_checks_holds check (c ∷ checks) k r w big (head e) =
      run_checks_kept checks _ (push (c w).0 r) _ (
        holds_right r.services _
          (subst (λ d. some_big_int (d w).0.service.details ≡ true) e (big w)))
  run_checks_holds check (c ∷ checks) k r w big (tail m) =
      run_checks_holds check checks _ (push (c w).0 r) _ big m

module _ {World : Type 0} (monitor : Monitor World) (config : HealthConfig) where
  check_registry_big :
      (registry_type : Text) (chain_id : ℕ) (found : Found monitor config registry_type chain_id)
      (w : World)
      → some_big_int (check_registry monitor config registry_type chain_id w).0.service.details
        ≡ true
  unfolding check_registry checked registry_answered registry_report
  check_registry_big registry_type chain_id found w =
      rw
        (
          found.at_address,
          found.there,
          le→ltb (length found.info.contents) 56 found.long,
          found.has_signers,
          found.has_chain,
        )
        refl

  registry_checks-Mem :
      (registry_type : Text) (chain_id : ℕ) (chains : List ℕ)
      → Memᴰ registry_type (codes "VIA" ∷ codes "Chain" ∷ [])
      → Memᴰ chain_id chains
      → Memᴰ
          (check_registry monitor config registry_type chain_id)
          (registry_checks monitor config chains)
  registry_checks-Mem registry_type chain_id [] t m = elim m [ ]
  registry_checks-Mem registry_type chain_id (c ∷ chains) (tail (tail t)) (head e) = elim t [ ]
  registry_checks-Mem registry_type chain_id (c ∷ chains) (head t) (head e) =
      head (ap₂ (check_registry monitor config) t e)
  registry_checks-Mem registry_type chain_id (c ∷ chains) (tail (head t)) (head e) =
      tail (head (ap₂ (check_registry monitor config) t e))
  registry_checks-Mem registry_type chain_id (c ∷ chains) t (tail m) =
      tail (tail (registry_checks-Mem registry_type chain_id chains t m))

  run_all_big :
      (registry_type : Text) (chain_id : ℕ) (w : World)
      → Memᴰ registry_type (codes "VIA" ∷ codes "Chain" ∷ [])
      → Memᴰ chain_id config.monitored_chains
      → Found monitor config registry_type chain_id
      → holds_big_int (run_all monitor config w).0.services ≡ true
  unfolding run_all check_registry_health
  run_all_big registry_type chain_id w t m found =
      run_checks_holds (check_registry monitor config registry_type chain_id)
        (registry_checks monitor config config.monitored_chains) 0 _ _
        (check_registry_big registry_type chain_id found)
        (registry_checks-Mem registry_type chain_id config.monitored_chains t m)

  -- If the output is JSON, and the account of one of the two registries of a monitored chain is always
  -- found and can be parsed, `performHealthCheck` throws a TypeError, whatever else the cluster answers.
  pub perform_health_check_json :
      (registry_type : Text) (chain_id : ℕ) (counts : Counts) (w : World)
      → config.output_format ≡ codes "json"
      → Memᴰ registry_type (codes "VIA" ∷ codes "Chain" ∷ [])
      → Memᴰ chain_id config.monitored_chains
      → Found monitor config registry_type chain_id
      → (perform_health_check monitor config counts w).0.0 ≡ err type_error
  perform_health_check_json registry_type chain_id counts w json t m found =
      perform_health_check-throws monitor config counts w (
        rw
          (
            (text_eq_iff config.output_format (codes "json")).1 json,
            run_all_big registry_type chain_id w t m found,
          )
          refl)
