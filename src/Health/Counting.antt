-- ===== src/Health/Counting.antt =====
-- What the four checks of scripts/deployment/health.ts add up to.
use via_solana_gateway_v.Prelude.{
  ℕ, suc, ◌+◌, ◌*◌, ◌≤◌, ◌≡◌, refl, ap, Bool, true, false, List, [], ◌∷◌, length, length-append,
  filter, length-filter-append, if◌then◌else◌, All, ◌&◌, arith, codes,
}
use via_solana_gateway_v.Health.Types.{
  ServiceStatus, ServiceHealth, HealthMetrics, HealthCheckResult, HealthConfig, Monitor,
}
use via_solana_gateway_v.Health.Checks.{Report, check_network, check_program}
use via_solana_gateway_v.Health.Perform.{
  initial_result, push, is_up, is_down, is_critical, count_services, count_critical, run_checks,
  gateway_checks, registry_checks, check_network_health, check_program_health, check_gateway_health,
  check_registry_health, run_all,
}
use via_solana_gateway_v.Health.Laws.{
  IsSound, check_network-IsSound, check_program-IsSound, check_gateway-IsSound,
  check_registry-IsSound,
}

-- From `r` to `r'` there are `n` more services, `c` more of them up, and no more critical alerts
-- than services that are down.
record Extends (n c : ℕ) (r r' : HealthCheckResult) : Type 0 where
  services : length r'.services ≡ length r.services + n
  ups : count_services is_up r' ≡ count_services is_up r + c
  criticals :
      count_critical r' + count_services is_down r ≤ count_critical r + count_services is_down r'

Extends-none : (r : HealthCheckResult) → Extends 0 0 r r
Extends-none r = record { services = omega arith; ups = omega arith; criticals = omega arith }

Extends-trans :
    {m n a b : ℕ} (r r' r'' : HealthCheckResult)
    → Extends m a r r'
    → Extends n b r' r''
    → Extends (m + n) (a + b) r r''
Extends-trans r r' r'' x y = record {
  services = omega (arith, x.services, y.services);
  ups = omega (arith, x.ups, y.ups);
  criticals = omega (arith, x.criticals, y.criticals);
}

count_one :
    (p : ServiceStatus → Bool) (s : ServiceHealth)
    → length (filter (λ service. p service.status) (s ∷ [])) ≡ (if p s.status then 1 else 0)
count_one p s = ground arith

push-Extends :
    (report : Report) (r : HealthCheckResult)
    → IsSound report
    → Extends 1 (if report.counted then 1 else 0) r (push report r)
push-Extends report r sound = record {
  services = omega (arith, length-append r.services (report.service ∷ []));
  ups = rw sound.counted (
      omega (
        arith,
        length-filter-append (λ service. is_up service.status) r.services (report.service ∷ []),
        count_one is_up report.service,
      ));
  criticals = omega (
    arith,
    length-filter-append (λ service. is_down service.status) r.services (report.service ∷ []),
    length-filter-append (λ alert. is_critical alert.level) r.alerts report.alerts,
    count_one is_down report.service,
    sound.critical,
  );
}

module _ {World : Type 0} where
  run_checks-Extends :
      (checks : List (World → Report × World)) (k : ℕ) (r : HealthCheckResult) (w : World)
      → All (λ check. (w' : World) → IsSound (check w').0) checks
      → let (count, r', w') = run_checks checks k r w in
        (c : ℕ) × (count ≡ k + c) × Extends (length checks) c r r'
  unfolding run_checks
  run_checks-Extends [] k r w h = (0, omega arith, Extends-none r)
  run_checks-Extends (check ∷ checks) k r w (sound, h) =
      let (report, w') = check w in
      let one = push-Extends report r (sound w) in
      let (c, e, more) =
        run_checks-Extends checks (k + (if report.counted then 1 else 0)) (push report r) w' h in
      ((if report.counted then 1 else 0) + c, omega (arith, e), Extends-step one more)
    where
      Extends-step :
          {n a b : ℕ} {r' r'' : HealthCheckResult}
          → Extends 1 a r r'
          → Extends n b r' r''
          → Extends (suc n) (a + b) r r''
      Extends-step x y = record {
        services = omega (arith, x.services, y.services);
        ups = omega (arith, x.ups, y.ups);
        criticals = omega (arith, x.criticals, y.criticals);
      }

run_checks-metrics :
    {World : Type 0} (checks : List (World → Report × World)) (k : ℕ) (r : HealthCheckResult)
    (w : World)
    → (run_checks checks k r w).1.metrics ≡ r.metrics
unfolding run_checks
run_checks-metrics [] k r w = refl
run_checks-metrics (check ∷ checks) k r w =
    let (report, w') = check w in
    run_checks-metrics checks (k + (if report.counted then 1 else 0)) (push report r) w'

-- A change of the metrics is none of the services or alerts.
metrics_either :
    {n c : ℕ} (b : Bool) (r r' : HealthCheckResult) (m : HealthMetrics)
    → Extends n c r r'
    → Extends n c r (if b then r' else record r' { metrics = m })
metrics_either true r r' m x = x
metrics_either false r r' m x = record {
  services = x.services;
  ups = x.ups;
  criticals = x.criticals;
}

one_or_none : (b : Bool) → (if b then 1 else 0) ≤ 1
one_or_none true = omega arith
one_or_none false = omega arith

module _ {World : Type 0} (monitor : Monitor World) (config : HealthConfig) where
  gateway_checks-All :
      (chains : List ℕ)
      → All (λ check. (w' : World) → IsSound (check w').0) (gateway_checks monitor config chains)
  gateway_checks-All [] = tt
  gateway_checks-All (chain_id ∷ chains) =
      (check_gateway-IsSound monitor config chain_id, gateway_checks-All chains)

  registry_checks-All :
      (chains : List ℕ)
      → All (λ check. (w' : World) → IsSound (check w').0) (registry_checks monitor config chains)
  registry_checks-All [] = tt
  registry_checks-All (chain_id ∷ chains) =
      check_registry-IsSound monitor config (codes "VIA") chain_id
      & check_registry-IsSound monitor config (codes "Chain") chain_id
      & registry_checks-All chains

  length-gateway_checks :
      (chains : List ℕ) → length (gateway_checks monitor config chains) ≡ length chains
  length-gateway_checks [] = refl
  length-gateway_checks (chain_id ∷ chains) = ap suc (length-gateway_checks chains)

  length-registry_checks :
      (chains : List ℕ) → length (registry_checks monitor config chains) ≡ 2 * length chains
  length-registry_checks [] = refl
  length-registry_checks (chain_id ∷ chains) = omega (arith, length-registry_checks chains)

  network-Extends :
      (r : HealthCheckResult) (w : World)
      → (c : ℕ) × (c ≤ 1) × Extends 1 c r (check_network_health monitor config r w).0
  unfolding check_network_health
  network-Extends r w =
      let (report, w') = check_network monitor config w in
      (
        if report.counted then 1 else 0,
        one_or_none report.counted,
        metrics_either (is_down report.service.status) r (push report r) _
            (push-Extends report r (check_network-IsSound monitor config w)),
      )

  program-Extends :
      (r : HealthCheckResult) (w : World)
      → (c : ℕ) × (c ≤ 1) × Extends 1 c r (check_program_health monitor config r w).0
  unfolding check_program_health
  program-Extends r w =
      let (report, w') = check_program monitor config w in
      (
        if report.counted then 1 else 0,
        one_or_none report.counted,
        metrics_either false r (push report r) _
            (push-Extends report r (check_program-IsSound monitor config w)),
      )

  gateways-Extends :
      (r : HealthCheckResult) (w : World)
      → let r' = (check_gateway_health monitor config r w).0 in
        Extends (length config.monitored_chains) r'.metrics.gateway_count r r'
  unfolding check_gateway_health
  gateways-Extends r w =
      let chains = config.monitored_chains in
      let (c, e, x) =
        run_checks-Extends (gateway_checks monitor config chains) 0 r w
          (gateway_checks-All chains) in
      record {
        services = omega (arith, x.services, length-gateway_checks chains);
        ups = omega (arith, x.ups, e);
        criticals = x.criticals;
      }

  registries-Extends :
      (r : HealthCheckResult) (w : World)
      → let r' = (check_registry_health monitor config r w).0 in
        (r'.metrics.gateway_count ≡ r.metrics.gateway_count)
        × Extends (2 * length config.monitored_chains) r'.metrics.registry_count r r'
  unfolding check_registry_health
  registries-Extends r w =
      let chains = config.monitored_chains in
      let checks = registry_checks monitor config chains in
      let (c, e, x) = run_checks-Extends checks 0 r w (registry_checks-All chains) in
      (
        ap (λ m. m.gateway_count) (run_checks-metrics checks 0 r w),
        record {
          services = omega (arith, x.services, length-registry_checks chains);
          ups = omega (arith, x.ups, e);
          criticals = x.criticals;
        },
      )

  -- Whatever the cluster answers, the four checks report two services and three more for each
  -- monitored chain; there are no more critical alerts than services that are down; and the
  -- services that are up are as many as the counts of healthy gateways and registries say, or one
  -- or two more.
  pub run_all_counts :
      (w : World)
      → let r = (run_all monitor config w).0 in
        (length r.services ≡ 2 + 3 * length config.monitored_chains)
        × (count_critical r ≤ count_services is_down r)
        × (r.metrics.gateway_count + r.metrics.registry_count ≤ count_services is_up r)
        × (count_services is_up r ≤ r.metrics.gateway_count + r.metrics.registry_count + 2)
  unfolding run_all
  run_all_counts w =
      let (r1, w1) = check_network_health monitor config initial_result w in
      let (r2, w2) = check_program_health monitor config r1 w1 in
      let (r3, w3) = check_gateway_health monitor config r2 w2 in
      let (c1, l1, x1) = network-Extends initial_result w in
      let (c2, l2, x2) = program-Extends r1 w1 in
      let x3 = gateways-Extends r2 w2 in
      let (same, x4) = registries-Extends r3 w3 in
      (
        omega (arith, x1.services, x2.services, x3.services, x4.services),
        omega (arith, x1.criticals, x2.criticals, x3.criticals, x4.criticals),
        omega (arith, x1.ups, x2.ups, x3.ups, x4.ups, same),
        omega (arith, x1.ups, x2.ups, x3.ups, x4.ups, same, l1, l2),
      )
