-- ===== src/Health/Overall.antt =====
-- What `performHealthCheck` of scripts/deployment/health.ts concludes from the checks.
use via_solana_gateway_v.Prelude.{
  ℕ, suc, ◌+◌, ◌≤◌, ◌≡◌, ◌↔◌, ◌∙◌, ap, true, false, List, [], ◌∷◌, length, filter, if◌then◌else◌,
  ◌&&◌, ◌||◌, ltb, arith, codes, text_eq, type_error, ok, err,
}
use via_solana_gateway_v.Health.Types.{
  ServiceStatus, up, down, degraded, ServiceHealth, Overall, healthy, partly_degraded, unhealthy,
  HealthCheckResult, HealthConfig, Monitor,
}
use via_solana_gateway_v.Health.Perform.{
  is_up, is_down, is_degraded, count_services, count_critical, calculate_overall_health,
  holds_big_int, output_health_results, Counts, run_all, or_failed, failed_result, returned,
  perform_health_check,
}
use via_solana_gateway_v.Health.Counting.{run_all_counts}

-- Every service is up, down or degraded.
status_counts :
    (services : List ServiceHealth)
    → length services
      ≡ length (filter (λ s. is_up s.status) services)
        + length (filter (λ s. is_down s.status) services)
        + length (filter (λ s. is_degraded s.status) services)
status_counts [] = omega arith
status_counts (s ∷ services) = by_status s.status (status_counts services)
  where
    by_status :
        (status : ServiceStatus)
        → length services
          ≡ length (filter (λ s. is_up s.status) services)
            + length (filter (λ s. is_down s.status) services)
            + length (filter (λ s. is_degraded s.status) services)
        → suc (length services)
          ≡ length (elim (is_up status) [
            | true ↦ s ∷ filter (λ s. is_up s.status) services
            | false ↦ filter (λ s. is_up s.status) services
          ])
            + length (elim (is_down status) [
              | true ↦ s ∷ filter (λ s. is_down s.status) services
              | false ↦ filter (λ s. is_down s.status) services
            ])
            + length (elim (is_degraded status) [
              | true ↦ s ∷ filter (λ s. is_degraded s.status) services
              | false ↦ filter (λ s. is_degraded s.status) services
            ])
    by_status up e = omega (arith, e)
    by_status down e = omega (arith, e)
    by_status degraded e = omega (arith, e)

-- The status by the counts of the services and of the critical alerts.
abbrev overall_of : ℕ → ℕ → ℕ → Overall
overall_of downs criticals degradeds =
    if ltb 0 downs || ltb 0 criticals
    then unhealthy
    else if ltb 0 degradeds
    then partly_degraded
    else healthy

overall_of_iff :
    (total ups downs degradeds criticals : ℕ)
    → total ≡ ups + downs + degradeds
    → criticals ≤ downs
    → ((overall_of downs criticals degradeds ≡ healthy) ↔ (ups ≡ total))
      × ((overall_of downs criticals degradeds ≡ unhealthy) ↔ (1 ≤ downs))
overall_of_iff total ups downs degradeds criticals e h = ground arith

calculate_overall :
    (errors checks : ℕ) (r : HealthCheckResult)
    → count_critical r ≤ count_services is_down r
    → let r' = calculate_overall_health errors checks r in
      ((r'.overall ≡ healthy) ↔ (count_services is_up r' ≡ length r'.services))
      × ((r'.overall ≡ unhealthy) ↔ (1 ≤ count_services is_down r'))
unfolding calculate_overall_health
calculate_overall errors checks r h = overall_of_iff _ _ _ _ _ (status_counts r.services) h

module _ {World : Type 0} (monitor : Monitor World) (config : HealthConfig) where
  output_throws :
      (r : HealthCheckResult)
      → (text_eq config.output_format (codes "json") && holds_big_int r.services) ≡ true
      → output_health_results config r ≡ err type_error
  unfolding output_health_results
  output_throws r big = rw big

  output_prints :
      (r : HealthCheckResult)
      → (text_eq config.output_format (codes "json") && holds_big_int r.services) ≡ false
      → output_health_results config r ≡ ok tt
  unfolding output_health_results
  output_prints r small = rw small

  or_failed-throws :
      (counts : Counts) (r : HealthCheckResult)
      → (text_eq config.output_format (codes "json") && holds_big_int r.services) ≡ true
      → (or_failed monitor config counts r (err type_error)).0 ≡ err type_error
  unfolding or_failed
  or_failed-throws counts r big =
      let failed = failed_result monitor config type_error r in
      ap (returned monitor config failed) (output_throws failed big)

  -- A check whose output is JSON throws a TypeError, from the output in the `catch` block, if a
  -- service has a BigInt among its details.
  pub perform_health_check-throws :
      (counts : Counts) (w : World)
      → (text_eq config.output_format (codes "json")
          && holds_big_int (run_all monitor config w).0.services)
        ≡ true
      → (perform_health_check monitor config counts w).0.0 ≡ err type_error
  unfolding perform_health_check calculate_overall_health
  perform_health_check-throws counts w big =
      let r = (run_all monitor config w).0 in
      let started : Counts = record counts { check_count = counts.check_count + 1 } in
      let concluded = calculate_overall_health started.error_count started.check_count r in
      ap (λ o. (or_failed monitor config started concluded o).0) (output_throws concluded big)
      ∙ or_failed-throws started concluded big

  -- A check whose output is not JSON, or that found no BigInt, gives a result, which is healthy
  -- exactly if every service is up, and unhealthy exactly if one is down.
  pub perform_health_check-overall :
      (counts : Counts) (w : World)
      → (text_eq config.output_format (codes "json")
          && holds_big_int (run_all monitor config w).0.services)
        ≡ false
      → (r : HealthCheckResult) × ((perform_health_check monitor config counts w).0.0 ≡ ok r)
        × ((r.overall ≡ healthy) ↔ (count_services is_up r ≡ length r.services))
        × ((r.overall ≡ unhealthy) ↔ (1 ≤ count_services is_down r))
  unfolding perform_health_check or_failed calculate_overall_health
  perform_health_check-overall counts w small =
      let r = (run_all monitor config w).0 in
      let started : Counts = record counts { check_count = counts.check_count + 1 } in
      let concluded = calculate_overall_health started.error_count started.check_count r in
      let (h, u) =
        calculate_overall started.error_count started.check_count r
          (run_all_counts monitor config w).1 in
      (
        concluded,
        ap (λ o. (or_failed monitor config started concluded o).0) (output_prints concluded small),
        h,
        u,
      )
