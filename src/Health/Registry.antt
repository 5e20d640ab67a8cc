-- ===== src/Health/Registry.antt =====
-- The check of a signer registry's account in scripts/deployment/health.ts.
use via_solana_gateway_v.Prelude.{
  ℕ, ◌+◌, ◌*◌, false, ◌&&◌, [], ◌∷◌, ◌++◌, Option, none, some, get_elem?, length, map, ltb, leb,
  if◌then◌else◌, Text, codes, Error, thrown, Result, ok, err, ◌>>=◌,
}
use via_solana_gateway_v.Prelude.Digits.{to_string}
use via_solana_gateway_v.Buffer.{Bytes, read_uint_le}
use via_solana_gateway_v.Health.Types.{
  ℤ, up, down, degraded, DetailValue, text_value, number_value, flag_value, big_int_value, warning,
  HealthConfig, AccountInfo, Monitor,
}
use via_solana_gateway_v.Health.Types
use via_solana_gateway_v.Health.Checks.{
  Report, invalid_length, alert, answered, unanswered, byte_value, is_one, checked, account_at,
  registry_pda_of,
}

-- `text.toLowerCase()` on letters of ASCII.
abbrev to_lower : Text → Text
to_lower text = map (λ c. if leb b'A' c && leb c b'Z' then c + 32 else c) text

abbrev pub registry_name : Text → ℕ → Text
registry_name registry_type chain_id =
    codes "registry-" ++ to_lower registry_type ++ codes "-chain-" ++ to_string chain_id

module _ {World : Type 0} (monitor : Monitor World) (config : HealthConfig) (registry_type : Text)
    (chain_id : ℕ) where
  -- The service and the alerts of a registry whose account was parsed.
  unfoldable pub registry_report : Bytes → AccountInfo → ℤ → ℕ → ℕ → Report
  registry_report pda info time signers_length parsed_chain_id =
      let signers_end_offset = 45 + signers_length * 32 in
      let required_signatures = get_elem? info.contents signers_end_offset in
      let enabled = is_one (get_elem? info.contents (signers_end_offset + 9)) in
      let is_healthy = enabled && ltb 0 signers_length in
      record {
        service =
            answered (registry_name registry_type parsed_chain_id)
              (if is_healthy then up else degraded) time
              ((codes "type", text_value registry_type)
                ∷ (codes "chainId", big_int_value parsed_chain_id)
                ∷ (codes "signerCount", number_value signers_length)
                ∷ (codes "threshold", byte_value required_signatures)
                ∷ (codes "enabled", flag_value enabled)
                ∷ (codes "address", text_value (monitor.show_key pda))
                ∷ []);
        alerts =
            if is_healthy
            then []
            else alert warning
                (registry_type
                  ++ codes " registry for chain "
                  ++ to_string chain_id
                  ++ codes " is disabled or has no signers")
                (registry_name registry_type chain_id);
        counted = is_healthy;
      }

  abbrev pub registry_parsed : Bytes → AccountInfo → ℤ → Result Report
  registry_parsed pda info time = do
    signers_length ← read_uint_le 4 info.contents 41
    parsed_chain_id ← read_uint_le 8 info.contents (45 + signers_length * 32 + 1)
    ok (registry_report pda info time signers_length parsed_chain_id)

  unfoldable pub registry_answered : Bytes × Option AccountInfo → ℤ → Result Report
  registry_answered (pda, none) time = err (thrown (codes "Registry account not found"))
  registry_answered (pda, some info) time =
      if ltb (length info.contents) 56
      then err (invalid_length (codes "registry") info)
      else registry_parsed pda info time

  unfoldable pub registry_failed : Error → ℤ → Report
  registry_failed e time = record {
    service = unanswered (registry_name registry_type chain_id) time (monitor.error_message e);
    alerts =
        alert Types.AlertLevel.error
          (registry_type
            ++ codes " registry for chain "
            ++ to_string chain_id
            ++ codes " not found: "
            ++ monitor.show_error e)
          (registry_name registry_type chain_id);
    counted = false;
  }

  unfoldable pub check_registry : World → Report × World
  check_registry =
      checked monitor
        (account_at monitor config (registry_pda_of monitor config registry_type chain_id))
        registry_answered registry_failed
