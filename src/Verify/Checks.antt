-- ===== src/Verify/Checks.antt =====
-- The checks of scripts/deployment/verify.ts: each returns a message with details, or throws.
use via_solana_gateway_v.Prelude.{
  ℕ, Bool, false, List, [], ◌∷◌, ◌++◌, Option, none, some, get_elem?, length, ltb, ◌==◌,
  if◌then◌else◌, Text, codes, text_eq, Error, thrown, Result, ok, err,
}
use via_solana_gateway_v.Prelude.Digits.{to_string}
use via_solana_gateway_v.Prelude.Actions.{Action, pure, throw, lift, rescue, ◌>>=◌}
use via_solana_gateway_v.Buffer.{Bytes, subarray, read_uint_le}
use via_solana_gateway_v.Health.Types.{DetailValue, text_value, number_value, flag_value}
use via_solana_gateway_v.Verify.Types.{DeploymentVerifier, AccountInfo, Passed, Rpc}

abbrev pub passed_with : Text → List (Text × DetailValue) → Passed
passed_with message details = record { message = message; details = details }

-- `if (!accountInfo) throw new Error(message)`
abbrev pub found_or : Text → Option AccountInfo → Result AccountInfo
found_or message none = err (thrown message)
found_or message (some info) = ok info

-- `if (!accountInfo.executable) throw new Error(message)`
abbrev pub executable_or : Text → AccountInfo → Result AccountInfo
executable_or message info = if info.executable then ok info else err (thrown message)

abbrev is_one : Option ℕ → Bool
is_one none = false
is_one (some n) = n == 1

module _ {World : Type 0} (rpc : Rpc World) (this : DeploymentVerifier) where
  -- `catch (error) { throw new Error(prefix + error); }`
  abbrev pub rethrow : {A : Type 0} → Text → Error → Action World A
  rethrow prefix e = throw (thrown (prefix ++ rpc.show_error e))

  unfoldable pub get_gateway_pda : ℕ → Action World Bytes
  get_gateway_pda chain_id = lift (rpc.to_array_like 8 chain_id) >>= λ chain_bytes.
      lift (rpc.find_program_address (codes "gateway" ∷ chain_bytes ∷ []) this.program_address)

  unfoldable pub check_program_deployment : Action World Passed
  check_program_deployment = rpc.get_account_info this.program_address >>= λ account_info.
      lift (found_or (codes "Program account not found") account_info) >>= λ info.
      lift (executable_or (codes "Program account is not executable") info) >>= λ info. pure (
        passed_with (codes "Program deployed and executable") (
          (codes "owner", text_value info.owner)
          ∷ (codes "dataLength", number_value (length info.contents))
          ∷ (codes "lamports", number_value info.lamports)
          ∷ []))

  unfoldable pub check_program_id : Action World Passed
  check_program_id =
      let actual = rpc.show_key this.program_address in
      if text_eq this.program_id actual
      then pure (
          passed_with (codes "Program ID matches expected value")
            ((codes "programId", text_value actual) ∷ []))
      else throw (
          thrown
            (codes "Program ID mismatch: expected " ++ this.program_id ++ codes ", got " ++ actual))

  unfoldable pub check_program_instructions : Action World Passed
  check_program_instructions =
      rescue
        (lift (rpc.public_key this.program_id) >>= λ key.
          rpc.get_account_info key >>= λ account_info.
          lift (found_or (codes "Program account not found") account_info) >>= λ info.
          lift (executable_or (codes "Program is not executable") info) >>= λ info. pure (
            passed_with (codes "Program contains executable instructions") (
              (codes "dataLength", number_value (length info.contents))
              ∷ (codes "executable", flag_value info.executable)
              ∷ (codes "owner", text_value info.owner)
              ∷ [])))
        (rethrow (codes "Program instructions check failed: "))

  unfoldable pub check_connectivity : Action World Passed
  check_connectivity = rpc.get_version >>= λ version. pure (
      passed_with (codes "Connected to Solana cluster")
        ((codes "solanaCore", version.0) ∷ (codes "featureSet", version.1) ∷ []))

  -- `balanceSOL < 0.01` in lamports.
  unfoldable pub check_balance : Action World Passed
  check_balance = rpc.get_balance this.authority >>= λ balance.
      if ltb balance 10000000
      then throw
          (thrown (codes "Insufficient balance: " ++ rpc.sol_to_fixed balance ++ codes " SOL"))
      else pure (
          passed_with
            (codes "Authority has sufficient balance: " ++ rpc.sol_to_fixed balance ++ codes " SOL")
            ((codes "balance", number_value balance)
              ∷ (codes "balanceSOL", text_value (rpc.sol_to_fixed balance))
              ∷ []))

  -- What is read of the account of a gateway.
  unfoldable pub parse_gateway : Bytes → AccountInfo → Result Passed
  parse_gateway gateway_pda info =
      if ltb (length info.contents) 50
      then err (thrown (codes "Invalid account data length: " ++ to_string (length info.contents)))
      else parsed (read_uint_le 8 info.contents 40)
    where
      parsed : Result ℕ → Result Passed
      parsed (err e) = err e
      parsed (ok chain_id) = ok (
          passed_with (codes "Gateway initialized for chain " ++ to_string chain_id) (
            (codes "address", text_value (rpc.show_key gateway_pda))
            ∷ (codes "authority", text_value (rpc.show_key (subarray info.contents 8 40)))
            ∷ (codes "chainId", text_value (to_string chain_id))
            ∷ (codes "systemEnabled", flag_value (is_one (get_elem? info.contents 48)))
            ∷ []))

  unfoldable pub check_gateway : ℕ → Action World Passed
  check_gateway chain_id = get_gateway_pda chain_id >>= λ gateway_pda.
      rescue
        (rpc.get_account_info gateway_pda >>= λ account_info.
          lift (found_or (codes "Account not found") account_info) >>= λ info.
          lift (parse_gateway gateway_pda info))
        (rethrow (codes "Gateway not initialized for chain " ++ to_string chain_id ++ codes ": "))

  unfoldable pub check_authority : Action World Passed
  check_authority = rpc.get_account_info this.authority >>= λ account_info.
      lift (found_or (codes "Authority account not found") account_info) >>= λ info. pure (
        passed_with (codes "Authority account configured properly")
          ((codes "owner", text_value info.owner) ∷ []))

  abbrev none_or : Option AccountInfo → Result Passed
  none_or none = ok (
      passed_with (codes "Program responds correctly to queries")
        ((codes "queryTest", text_value (codes "passed")) ∷ []))
  none_or (some info) = err (thrown (codes "Unexpected: random PDA returned data"))

  unfoldable pub check_query : Action World Passed
  check_query =
      rescue
        (lift (rpc.find_program_address (codes "test" ∷ codes "query" ∷ []) this.program_address)
          >>= λ pda.
              rescue (rpc.get_account_info pda >>= λ account_info. lift (none_or account_info))
                (rethrow (codes "Unexpected query error: ")))
        (rethrow (codes "Program query test failed: "))
