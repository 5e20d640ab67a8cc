-- ===== src/Health/Perform.antt =====
-- `performHealthCheck` of scripts/deployment/health.ts: the four checks, the overall status and the
-- output.
use via_solana_gateway_v.Prelude.{
  Error, ℕ, ◌+◌, Bool, true, false, ◌||◌, ◌&&◌, List, [], ◌∷◌, ◌++◌, none, length, filter, ltb,
  if◌then◌else◌, Text, codes, text_eq, type_error, Result, ok, err,
}
use via_solana_gateway_v.Health.Types.{
  pos, ServiceStatus, up, down, degraded, DetailValue, big_int_value, ServiceHealth, AlertLevel,
  critical, healthy, partly_degraded, unhealthy, HealthCheckResult, HealthConfig, Monitor,
}
use via_solana_gateway_v.Health.Checks.{Report, check_network, check_program, check_gateway}
use via_solana_gateway_v.Health.Registry.{check_registry}

abbrev pub initial_result : HealthCheckResult
initial_result = record {
  overall = healthy;
  services = [];
  metrics = record {
    network_latency = pos 0;
    program_availability = 0;
    gateway_count = 0;
    registry_count = 0;
    error_rate = (0, 1);
  };
  alerts = [];
}

-- `result.services.push(…)` and `result.alerts.push(…)`
abbrev pub push : Report → HealthCheckResult → HealthCheckResult
push report result = record result {
  services = result.services ++ (report.service ∷ []);
  alerts = result.alerts ++ report.alerts;
}

abbrev pub is_up : ServiceStatus → Bool
is_up up = true
is_up _ = false

abbrev pub is_down : ServiceStatus → Bool
is_down down = true
is_down _ = false

abbrev pub is_degraded : ServiceStatus → Bool
is_degraded degraded = true
is_degraded _ = false

abbrev pub is_critical : AlertLevel → Bool
is_critical critical = true
is_critical _ = false

-- `result.services.filter(…).length` and `result.alerts.filter(…).length`
abbrev pub count_services : (ServiceStatus → Bool) → HealthCheckResult → ℕ
count_services p result = length (filter (λ service. p service.status) result.services)

abbrev pub count_critical : HealthCheckResult → ℕ
count_critical result = length (filter (λ alert. is_critical alert.level) result.alerts)

module _ {World : Type 0} where
  -- A loop of checks with the number of the healthy accounts so far.
  unfoldable pub run_checks :
      List (World → Report × World) → ℕ → HealthCheckResult → World → ℕ × HealthCheckResult × World
  run_checks [] healthy_count result w = (healthy_count, result, w)
  run_checks (check ∷ checks) healthy_count result w =
      let (report, w') = check w in
      run_checks checks (healthy_count + (if report.counted then 1 else 0)) (push report result) w'

-- `calculateOverallHealth`; the error rate is the quotient of the two counts.
unfoldable pub calculate_overall_health : ℕ → ℕ → HealthCheckResult → HealthCheckResult
calculate_overall_health error_count check_count result = record result {
  overall =
      if ltb 0 (count_services is_down result) || ltb 0 (count_critical result)
      then unhealthy
      else if ltb 0 (count_services is_degraded result)
      then partly_degraded
      else healthy;
  metrics = record (result.metrics) { error_rate = (error_count, check_count) };
}

abbrev is_big_int : DetailValue → Bool
is_big_int (big_int_value n) = true
is_big_int _ = false

abbrev pub some_big_int : List (Text × DetailValue) → Bool
some_big_int [] = false
some_big_int ((key, value) ∷ details) = is_big_int value || some_big_int details

unfoldable pub holds_big_int : List ServiceHealth → Bool
holds_big_int [] = false
holds_big_int (service ∷ services) = some_big_int service.details || holds_big_int services

-- `outputHealthResults`: `JSON.stringify` throws a TypeError on a BigInt; the other formats print.
unfoldable pub output_health_results : HealthConfig → HealthCheckResult → Result (Unit {0})
output_health_results config result =
    if text_eq config.output_format (codes "json") && holds_big_int result.services
    then err type_error
    else ok tt

-- The counters of the service.
pub record Counts : Type 0 where
  pub check_count : ℕ
  pub error_count : ℕ

module _ {World : Type 0} (monitor : Monitor World) (config : HealthConfig) where
  abbrev pub gateway_checks : List ℕ → List (World → Report × World)
  gateway_checks [] = []
  gateway_checks (chain_id ∷ chains) = check_gateway monitor config chain_id ∷ gateway_checks chains

  -- Only the two required types of registry are checked.
  abbrev pub registry_checks : List ℕ → List (World → Report × World)
  registry_checks [] = []
  registry_checks (chain_id ∷ chains) =
      check_registry monitor config (codes "VIA") chain_id
      ∷ check_registry monitor config (codes "Chain") chain_id
      ∷ registry_checks chains

  unfoldable pub check_network_health : HealthCheckResult → World → HealthCheckResult × World
  check_network_health result w =
      let (report, w') = check_network monitor config w in
      let pushed = push report result in
      (
        if is_down report.service.status then pushed else record pushed {
          metrics = record (pushed.metrics) { network_latency = report.service.response_time };
        },
        w',
      )

  unfoldable pub check_program_health : HealthCheckResult → World → HealthCheckResult × World
  check_program_health result w =
      let (report, w') = check_program monitor config w in
      let pushed = push report result in
      (
        record pushed {
          metrics = record (pushed.metrics) {
            program_availability = if report.counted then 100 else 0;
          };
        },
        w',
      )

  unfoldable pub check_gateway_health : HealthCheckResult → World → HealthCheckResult × World
  check_gateway_health result w =
      let (count, pushed, w') = run_checks (gateway_checks config.monitored_chains) 0 result w in
      (record pushed { metrics = record (pushed.metrics) { gateway_count = count } }, w')

  unfoldable pub check_registry_health : HealthCheckResult → World → HealthCheckResult × World
  check_registry_health result w =
      let (count, pushed, w') = run_checks (registry_checks config.monitored_chains) 0 result w in
      (record pushed { metrics = record (pushed.metrics) { registry_count = count } }, w')

  -- The four checks, none of which lets an exception through.
  unfoldable pub run_all : World → HealthCheckResult × World
  run_all w =
      let (r1, w1) = check_network_health initial_result w in
      let (r2, w2) = check_program_health r1 w1 in
      let (r3, w3) = check_gateway_health r2 w2 in check_registry_health r3 w3

  abbrev pub failed_result : Error → HealthCheckResult → HealthCheckResult
  failed_result e result = record result {
    overall = unhealthy;
    alerts =
        result.alerts
        ++ (record {
          level = critical;
          message = codes "Health check failed: " ++ monitor.error_message e;
          service = none;
        }
            ∷ []);
  }

  abbrev pub returned : HealthCheckResult → Result (Unit {0}) → Result HealthCheckResult
  returned result (ok u) = ok result
  returned result (err e) = err e

  -- The `catch` block, whose own output may throw again.
  unfoldable pub or_failed :
      Counts → HealthCheckResult → Result (Unit {0}) → Result HealthCheckResult × Counts
  or_failed counts result (ok u) = (ok result, counts)
  or_failed counts result (err e) =
      let failed = failed_result e result in
      (
        returned failed (output_health_results config failed),
        record counts { error_count = counts.error_count + 1 },
      )

  unfoldable pub perform_health_check : Counts → World → (Result HealthCheckResult × Counts) × World
  perform_health_check counts w =
      let started : Counts = record counts { check_count = counts.check_count + 1 } in
      let (collected, w') = run_all w in
      let result = calculate_overall_health started.error_count started.check_count collected in
      (or_failed started result (output_health_results config result), w')
