-- ===== src/Tests/Health.antt =====
-- The health check at concrete inputs.
use mathlib.Core.List.Memᴰ.{head, tail}
use via_solana_gateway_v.Prelude.{
  ℕ, ◌+◌, ◌*◌, ◌≤◌, ◌≡◌, ◌↔◌, refl, true, false, ◌&&◌, [], ◌∷◌, length, some, replicate, Text,
  codes, text_eq, type_error, arith, ok, err,
}
use via_solana_gateway_v.Buffer.{read_uint_le, le_value}
use via_solana_gateway_v.Setup.Build.{get_registry_type_discriminant}
use via_solana_gateway_v.Health.Types.{
  text_value, number_value, healthy, unhealthy, HealthCheckResult, HealthConfig, AccountInfo,
  Monitor,
}
use via_solana_gateway_v.Health.Checks.{registry_pda_of}
use via_solana_gateway_v.Health.Perform.{
  is_up, is_down, count_services, count_critical, holds_big_int, Counts, run_all,
  perform_health_check,
}
use via_solana_gateway_v.Health.Counting.{run_all_counts}
use via_solana_gateway_v.Health.Overall.{perform_health_check-overall}
use via_solana_gateway_v.Health.BigInt.{Found, perform_health_check_json}

-- A cluster whose every account is executable and holds 80 zero bytes: disabled, but there.
abbrev zeros : AccountInfo
zeros = record { executable = true; contents = replicate 80 0; owner = codes "o" }

abbrev monitor : Monitor ℕ
monitor = record {
  now = λ w. (w, w + 1);
  get_version = λ w. (ok (text_value (codes "1.18"), number_value 7), w);
  get_account_info = λ address w. (ok (some zeros), w);
  find_program_address = λ seeds program. ok (replicate 32 5);
  to_array_like = λ width n. ok (replicate width 0);
  methods = 0;
  show_key = λ key. codes "key";
  error_message = λ e. codes "message";
  show_error = λ e. codes "error";
}

abbrev config : Text → HealthConfig
config format = record {
  program_id = replicate 32 1;
  response_time_threshold = 5000;
  monitored_chains = 1 ∷ [];
  output_format = format;
}

abbrev fresh : Counts
fresh = record { check_count = 0; error_count = 0 }

run_all_counts_example :
    let r = (run_all monitor (config (codes "json")) 0).0 in
    (length r.services ≡ 2 + 3 * 1)
    × (count_critical r ≤ count_services is_down r)
    × (r.metrics.gateway_count + r.metrics.registry_count ≤ count_services is_up r)
    × (count_services is_up r ≤ r.metrics.gateway_count + r.metrics.registry_count + 2)
run_all_counts_example = run_all_counts monitor (config (codes "json")) 0

console-small :
    (text_eq (codes "console") (codes "json")
      && holds_big_int (run_all monitor (config (codes "console")) 0).0.services)
    ≡ false
unfolding text_eq
console-small = refl

perform_health_check-overall_example :
    (r : HealthCheckResult) × ((perform_health_check monitor (config (codes "console")) fresh 0).0.0
      ≡ ok r)
    × ((r.overall ≡ healthy) ↔ (count_services is_up r ≡ length r.services))
    × ((r.overall ≡ unhealthy) ↔ (1 ≤ count_services is_down r))
perform_health_check-overall_example =
    perform_health_check-overall monitor (config (codes "console")) fresh 0 console-small

-- A registry that is found, whether it is enabled or not, makes the JSON output throw.
zeros-Found : Found monitor (config (codes "json")) (codes "Chain") 1
unfolding registry_pda_of get_registry_type_discriminant read_uint_le le_value text_eq
zeros-Found = record {
  address = replicate 32 5;
  at_address = refl;
  info = zeros;
  there = λ w. refl;
  long = omega arith;
  signers = 0;
  has_signers = refl;
  chain = 0;
  has_chain = refl;
}

perform_health_check_json_example :
    (perform_health_check monitor (config (codes "json")) fresh 0).0.0 ≡ err type_error
perform_health_check_json_example =
    perform_health_check_json monitor (config (codes "json")) (codes "Chain") 1 fresh 0 refl
      (tail (head refl)) (head refl) zeros-Found
