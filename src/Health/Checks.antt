-- ===== src/Health/Checks.antt =====
-- The four checks of scripts/deployment/health.ts. Each `try` with its `catch` reports one service,
-- with the alerts that it raises.
use via_solana_gateway_v.Prelude.{
  ℕ, Bool, true, false, List, [], ◌∷◌, ◌++◌, Option, none, some, get_elem?, length, ltb, ◌==◌,
  if◌then◌else◌, Text, codes, Error, thrown, Result, ok, err, ◌>>=◌,
}
use via_solana_gateway_v.Prelude.Digits.{to_string}
use via_solana_gateway_v.Buffer.{Bytes, subarray, read_uint_le}
use via_solana_gateway_v.Setup.Build.{get_registry_type_discriminant}
use via_solana_gateway_v.Health.Types.{
  ℤ, minus, show_int, less, greater, ServiceStatus, up, down, degraded, DetailValue, text_value,
  number_value, flag_value, undefined_value, big_int_value, ServiceHealth, AlertLevel, warning,
  critical, Alert, HealthConfig, AccountInfo, Monitor,
}
use via_solana_gateway_v.Health.Types

-- What one check pushes, and whether it found its service healthy, which the loops count.
pub record Report : Type 0 where
  pub service : ServiceHealth
  pub alerts : List Alert
  pub counted : Bool

abbrev pub alert : AlertLevel → Text → Text → List Alert
alert level message service =
    record { level = level; message = message; service = some service } ∷ []

-- A service that answered, and one that did not.
abbrev pub answered : Text → ServiceStatus → ℤ → List (Text × DetailValue) → ServiceHealth
answered name status time details = record {
  name = name;
  status = status;
  response_time = time;
  uptime = 100;
  details = details;
  error = none;
}

abbrev pub unanswered : Text → ℤ → Text → ServiceHealth
unanswered name time message = record {
  name = name;
  status = down;
  response_time = time;
  uptime = 0;
  details = [];
  error = some message;
}

abbrev pub byte_value : Option ℕ → DetailValue
byte_value none = undefined_value
byte_value (some n) = number_value n

-- `byte === 1`
abbrev pub is_one : Option ℕ → Bool
is_one none = false
is_one (some n) = n == 1

abbrev pub invalid_length : Text → AccountInfo → Error
invalid_length kind info =
    thrown (
      codes "Invalid "
      ++ kind
      ++ codes " account data length: "
      ++ to_string (length info.contents))

module _ {World : Type 0} (monitor : Monitor World) where
  -- What the `catch` block has to read of the clock, if what follows the response time throws.
  abbrev pub concluded : ℕ → World → (Error → ℤ → Report) → Result Report → Report × World
  concluded start w failed (ok report) = (report, w)
  concluded start w failed (err e) =
      let (again, w') = monitor.now w in (failed e (minus again start), w')

  abbrev pub fetched :
      {A : Type 0}
      → ℕ
      → Result A
      → World
      → (A → ℤ → Result Report)
      → (Error → ℤ → Report)
      → Report × World
  fetched start (ok a) w succeed failed =
      let (stop, w') = monitor.now w in concluded start w' failed (succeed a (minus stop start))
  fetched start (err e) w succeed failed =
      let (stop, w') = monitor.now w in (failed e (minus stop start), w')

  -- const startTime = Date.now(); try { …; const responseTime = Date.now() - startTime; … } catch
  unfoldable pub checked :
      {A : Type 0}
      → (World → Result A × World)
      → (A → ℤ → Result Report)
      → (Error → ℤ → Report)
      → World
      → Report × World
  checked fetch succeed failed w =
      let (start, w1) = monitor.now w in let (r, w2) = fetch w1 in fetched start r w2 succeed failed

  module _ (config : HealthConfig) where
    unfoldable pub network_answered : DetailValue × DetailValue → ℤ → Result Report
    network_answered (core, feature_set) latency = ok (record {
      service =
          answered (codes "network")
            (if less latency config.response_time_threshold then up else degraded) latency
            ((codes "solanaCore", core) ∷ (codes "featureSet", feature_set) ∷ []);
      alerts =
          if greater latency config.response_time_threshold
          then alert warning (codes "High network latency: " ++ show_int latency ++ codes "ms")
              (codes "network")
          else [];
      counted = less latency config.response_time_threshold;
    })

    unfoldable pub network_failed : Error → ℤ → Report
    network_failed e time = record {
      service = unanswered (codes "network") time (monitor.error_message e);
      alerts =
          alert critical (codes "Network connectivity failed: " ++ monitor.show_error e)
            (codes "network");
      counted = false;
    }

    unfoldable pub check_network : World → Report × World
    check_network = checked monitor.get_version network_answered network_failed

    unfoldable pub program_answered : Option AccountInfo → ℤ → Result Report
    program_answered none time = err (thrown (codes "Program not found or not executable"))
    program_answered (some info) time =
        if info.executable
        then ok (record {
          service = answered (codes "program") up time (
              (codes "executable", flag_value info.executable)
              ∷ (codes "dataLength", number_value (length info.contents))
              ∷ (codes "methods", number_value monitor.methods)
              ∷ (codes "owner", text_value info.owner)
              ∷ []);
          alerts = [];
          counted = true;
        })
        else err (thrown (codes "Program not found or not executable"))

    unfoldable pub program_failed : Error → ℤ → Report
    program_failed e time = record {
      service = unanswered (codes "program") time (monitor.error_message e);
      alerts =
          alert critical (codes "Program unavailable: " ++ monitor.show_error e) (codes "program");
      counted = false;
    }

    unfoldable pub check_program : World → Report × World
    check_program =
        checked (monitor.get_account_info config.program_id) program_answered program_failed

    -- The address is computed, and the account behind it is fetched.
    abbrev pub account_at : Result Bytes → World → Result (Bytes × Option AccountInfo) × World
    account_at (err e) w = (err e, w)
    account_at (ok pda) w =
        let (r, w') = monitor.get_account_info pda w in ((r >>= λ info. ok (pda, info)), w')

    unfoldable pub gateway_pda_of : ℕ → Result Bytes
    gateway_pda_of chain_id = do
      chain ← monitor.to_array_like 8 chain_id
      monitor.find_program_address (codes "gateway" ∷ chain ∷ []) config.program_id

    unfoldable pub registry_pda_of : Text → ℕ → Result Bytes
    registry_pda_of registry_type chain_id = do
      discriminant ← get_registry_type_discriminant registry_type
      type_seed ← monitor.to_array_like 1 discriminant
      chain ← monitor.to_array_like 8 chain_id
      monitor.find_program_address (codes "signer_registry" ∷ type_seed ∷ chain ∷ [])
          config.program_id

    abbrev pub gateway_name : ℕ → Text
    gateway_name chain_id = codes "gateway-chain-" ++ to_string chain_id

    -- The service and the alerts of a gateway whose account was parsed.
    unfoldable pub gateway_report : ℕ → Bytes → AccountInfo → ℤ → ℕ → Report
    gateway_report chain_id pda info time parsed_chain_id =
        let system_enabled = is_one (get_elem? info.contents 48) in
        record {
          service =
              answered (gateway_name parsed_chain_id) (if system_enabled then up else degraded) time
                ((codes "chainId", text_value (to_string parsed_chain_id))
                  ∷ (codes "authority", text_value (monitor.show_key (subarray info.contents 8 40)))
                  ∷ (codes "systemEnabled", flag_value system_enabled)
                  ∷ (codes "address", text_value (monitor.show_key pda))
                  ∷ []);
          alerts =
              if system_enabled
              then []
              else alert warning
                  (codes "Gateway for chain " ++ to_string chain_id ++ codes " is disabled")
                  (gateway_name chain_id);
          counted = system_enabled;
        }

    abbrev pub gateway_parsed : ℕ → Bytes → AccountInfo → ℤ → Result Report
    gateway_parsed chain_id pda info time = do
      parsed_chain_id ← read_uint_le 8 info.contents 40
      ok (gateway_report chain_id pda info time parsed_chain_id)

    unfoldable pub gateway_answered : ℕ → Bytes × Option AccountInfo → ℤ → Result Report
    gateway_answered chain_id (pda, none) time = err (thrown (codes "Gateway account not found"))
    gateway_answered chain_id (pda, some info) time =
        if ltb (length info.contents) 50
        then err (invalid_length (codes "gateway") info)
        else gateway_parsed chain_id pda info time

    unfoldable pub gateway_failed : ℕ → Error → ℤ → Report
    gateway_failed chain_id e time = record {
      service = unanswered (gateway_name chain_id) time (monitor.error_message e);
      alerts =
          alert Types.AlertLevel.error
            (codes "Gateway for chain "
              ++ to_string chain_id
              ++ codes " not found or inaccessible: "
              ++ monitor.show_error e)
            (gateway_name chain_id);
      counted = false;
    }

    unfoldable pub check_gateway : ℕ → World → Report × World
    check_gateway chain_id =
        checked (account_at (gateway_pda_of chain_id)) (gateway_answered chain_id)
          (gateway_failed chain_id)
