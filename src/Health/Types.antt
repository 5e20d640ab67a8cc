-- ===== src/Health/Types.antt =====
-- The data of scripts/deployment/health.ts. The times of a check and of an alert (`lastCheck`,
-- `timestamp`) are left out; the response times, which decide a status, are not.
use via_solana_gateway_v.Prelude.Digits.{to_string}
use via_solana_gateway_v.Prelude.{
  ◌+◌, ◌++◌, codes, ℕ, ◌-◌, Bool, true, false, ltb, if◌then◌else◌, List, Option, Text, Error,
  Result,
}
use via_solana_gateway_v.Buffer.{Bytes}

-- A difference of two readings of the clock, which may have been set back between them.
pub data ℤ : Type 0 where
  pos : ℕ → ℤ
  negsuc : ℕ → ℤ

abbrev pub minus : ℕ → ℕ → ℤ
minus a b = if ltb a b then negsuc (b - a - 1) else pos (a - b)

-- `${z}`
abbrev pub show_int : ℤ → Text
show_int (pos n) = to_string n
show_int (negsuc n) = codes "-" ++ to_string (n + 1)

-- `z < n` and `z > n`
abbrev pub less : ℤ → ℕ → Bool
less (pos k) n = ltb k n
less (negsuc k) n = true

abbrev pub greater : ℤ → ℕ → Bool
greater (pos k) n = ltb n k
greater (negsuc k) n = false

pub data ServiceStatus : Type 0 where
  up down degraded : ServiceStatus

-- The values in the details of a service. `JSON.stringify` has no text for a BigInt.
pub data DetailValue : Type 0 where
  text_value : Text → DetailValue
  number_value : ℕ → DetailValue
  flag_value : Bool → DetailValue
  undefined_value : DetailValue
  big_int_value : ℕ → DetailValue

pub record ServiceHealth : Type 0 where
  pub name : Text
  pub status : ServiceStatus
  pub response_time : ℤ
  pub uptime : ℕ
  pub details : List (Text × DetailValue)
  pub error : Option Text

pub data AlertLevel : Type 0 where
  info warning error critical : AlertLevel

pub record Alert : Type 0 where
  pub level : AlertLevel
  pub message : Text
  pub service : Option Text

pub data Overall : Type 0 where
  healthy partly_degraded unhealthy : Overall

-- `errorRate` is kept as the two counts whose quotient it is.
pub record HealthMetrics : Type 0 where
  pub network_latency : ℤ
  pub program_availability : ℕ
  pub gateway_count : ℕ
  pub registry_count : ℕ
  pub error_rate : ℕ × ℕ

pub record HealthCheckResult : Type 0 where
  pub overall : Overall
  pub services : List ServiceHealth
  pub metrics : HealthMetrics
  pub alerts : List Alert

-- What the checks read of the configuration.
pub record HealthConfig : Type 0 where
  pub program_id : Bytes
  pub response_time_threshold : ℕ
  pub monitored_chains : List ℕ
  pub output_format : Text

pub record AccountInfo : Type 0 where
  pub executable : Bool
  pub contents : Bytes
  pub owner : Text

-- The clock, @solana/web3.js, Anchor and bn.js. Every call may return anything and may fail.
pub record Monitor (World : Type 0) : Type 0 where
  pub now : World → ℕ × World
  -- `getVersion()`: the values of "solana-core" and "feature-set"
  pub get_version : World → Result (DetailValue × DetailValue) × World
  pub get_account_info : Bytes → World → Result (Option AccountInfo) × World
  pub find_program_address : List Bytes → Bytes → Result Bytes
  pub to_array_like : ℕ → ℕ → Result Bytes
  -- `Object.keys(this.program.methods).length`
  pub methods : ℕ
  -- `key.toString()`
  pub show_key : Bytes → Text
  -- `error.message`, and `${error}`
  pub error_message : Error → Text
  pub show_error : Error → Text
