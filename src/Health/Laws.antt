-- ===== src/Health/Laws.antt =====
-- What the checks of scripts/deployment/health.ts report, one by one and together.
use via_solana_gateway_v.Prelude.{
  ltb, codes, ◌>>=◌, ℕ, ◌+◌, ◌*◌, ◌≤◌, ◌≡◌, refl, Bool, true, false, Option, none, some, length,
  filter, if◌then◌else◌, arith, Text, Error, Result, ok, err, OnOk, OnOk-bind,
}
use via_solana_gateway_v.Buffer.{Bytes, read_uint_le}
use via_solana_gateway_v.Health.Types.{ℤ, AccountInfo, HealthConfig, Monitor}
use via_solana_gateway_v.Health.Checks.{
  invalid_length, gateway_report, gateway_parsed, Report, concluded, fetched, checked,
  network_answered, network_failed, check_network, program_answered, program_failed, check_program,
  gateway_answered, gateway_failed, check_gateway,
}
use via_solana_gateway_v.Health.Registry.{
  registry_parsed, registry_report, registry_answered, registry_failed, check_registry,
}
use via_solana_gateway_v.Health.Perform.{is_up, is_down, is_critical}

-- A report is critical only of a service that is down, and counts exactly a service that is up.
pub record IsSound (report : Report) : Type 0 where
  pub critical :
      length (filter (λ alert. is_critical alert.level) report.alerts)
      ≤ (if is_down report.service.status then 1 else 0)
  pub counted : report.counted ≡ is_up report.service.status

OnOk-if :
    {A : Type 0} (P : A → Type 0) (b : Bool) (x y : Result A)
    → OnOk P x
    → OnOk P y
    → OnOk P (if b then x else y)
OnOk-if P true x y hx hy = hx
OnOk-if P false x y hx hy = hy

module _ {World : Type 0} (monitor : Monitor World) where
  checked-OnOk :
      {A : Type 0} (P : Report → Type 0) (fetch : World → Result A × World)
      (succeed : A → ℤ → Result Report) (failed : Error → ℤ → Report)
      → ((a : A) (t : ℤ) → OnOk P (succeed a t))
      → ((e : Error) (t : ℤ) → P (failed e t))
      → (w : World) → P (checked monitor fetch succeed failed w).0
  unfolding checked
  checked-OnOk P fetch succeed failed hs hf w =
      let (start, w1) = monitor.now w in let (r, w2) = fetch w1 in on_fetch start r w2
    where
      on_report :
          (start : ℕ) (r : Result Report) (w : World)
          → OnOk P r
          → P (concluded monitor start w failed r).0
      on_report start (ok report) w h = h
      on_report start (err e) w h = hf e _

      on_fetch :
          (start : ℕ) (r : Result _) (w : World) → P (fetched monitor start r w succeed failed).0
      on_fetch start (ok a) w = on_report start (succeed a _) _ (hs a _)
      on_fetch start (err e) w = hf e _

  module _ (config : HealthConfig) where
    pub check_network-IsSound : (w : World) → IsSound (check_network monitor config w).0
    unfolding check_network network_answered network_failed
    check_network-IsSound =
        checked-OnOk IsSound _ _ _
          (λ (core, set) t. record { critical = ground arith; counted = ground arith })
          (λ e t. record { critical = omega arith; counted = refl })

    program_executable :
        (info : AccountInfo) (t : ℤ) → OnOk IsSound (program_answered monitor config (some info) t)
    unfolding program_answered
    program_executable info t =
        OnOk-if IsSound info.executable _ _ (record { critical = omega arith; counted = refl }) tt

    pub check_program-IsSound : (w : World) → IsSound (check_program monitor config w).0
    unfolding check_program program_answered program_failed
    check_program-IsSound =
        checked-OnOk IsSound _ _ _ answers
          (λ e t. record { critical = omega arith; counted = refl })
      where
        answers :
            (info : Option AccountInfo) (t : ℤ)
            → OnOk IsSound (program_answered monitor config info t)
        answers none t = tt
        answers (some info) t = program_executable info t

    gateway_report-IsSound :
        (chain_id : ℕ) (pda : Bytes) (info : AccountInfo) (t : ℤ) (parsed : ℕ)
        → IsSound (gateway_report monitor config chain_id pda info t parsed)
    unfolding gateway_report
    gateway_report-IsSound chain_id pda info t parsed = record {
      critical = ground arith;
      counted = ground arith;
    }

    gateway_answered-IsSound :
        (chain_id : ℕ) (found : Bytes × Option AccountInfo) (t : ℤ)
        → OnOk IsSound (gateway_answered monitor config chain_id found t)
    unfolding gateway_answered
    gateway_answered-IsSound chain_id (pda, none) t = tt
    gateway_answered-IsSound chain_id (pda, some info) t =
        OnOk-if IsSound (ltb (length info.contents) 50)
          (err (invalid_length (codes "gateway") info))
          (gateway_parsed monitor config chain_id pda info t) tt
          (OnOk-bind IsSound (read_uint_le 8 info.contents 40)
            (λ parsed. ok (gateway_report monitor config chain_id pda info t parsed))
            (gateway_report-IsSound chain_id pda info t))

    pub check_gateway-IsSound :
        (chain_id : ℕ) (w : World) → IsSound (check_gateway monitor config chain_id w).0
    unfolding check_gateway gateway_failed
    check_gateway-IsSound chain_id =
        checked-OnOk IsSound _ _ _ (gateway_answered-IsSound chain_id)
          (λ e t. record { critical = omega arith; counted = refl })

    registry_report-IsSound :
        (registry_type : Text) (chain_id : ℕ) (pda : Bytes) (info : AccountInfo) (t : ℤ)
        (count parsed : ℕ)
        → IsSound (registry_report monitor config registry_type chain_id pda info t count parsed)
    unfolding registry_report
    registry_report-IsSound registry_type chain_id pda info t count parsed = record {
      critical = ground arith;
      counted = ground arith;
    }

    registry_answered-IsSound :
        (registry_type : Text) (chain_id : ℕ) (found : Bytes × Option AccountInfo) (t : ℤ)
        → OnOk IsSound (registry_answered monitor config registry_type chain_id found t)
    unfolding registry_answered
    registry_answered-IsSound registry_type chain_id (pda, none) t = tt
    registry_answered-IsSound registry_type chain_id (pda, some info) t =
        OnOk-if IsSound (ltb (length info.contents) 56)
          (err (invalid_length (codes "registry") info))
          (registry_parsed monitor config registry_type chain_id pda info t) tt
          (OnOk-bind IsSound (read_uint_le 4 info.contents 41)
            (λ count. read_uint_le 8 info.contents (45 + count * 32 + 1) >>= λ parsed.
              ok (registry_report monitor config registry_type chain_id pda info t count parsed))
            λ count.
              OnOk-bind IsSound (read_uint_le 8 info.contents (45 + count * 32 + 1))
                (λ parsed.
                  ok
                    (registry_report monitor config registry_type chain_id pda info t count parsed))
                (registry_report-IsSound registry_type chain_id pda info t count))

    pub check_registry-IsSound :
        (registry_type : Text) (chain_id : ℕ) (w : World)
        → IsSound (check_registry monitor config registry_type chain_id w).0
    unfolding check_registry registry_failed
    check_registry-IsSound registry_type chain_id =
        checked-OnOk IsSound _ _ _ (registry_answered-IsSound registry_type chain_id)
          (λ e t. record { critical = omega arith; counted = refl })
