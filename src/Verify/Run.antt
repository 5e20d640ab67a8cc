-- ===== src/Verify/Run.antt =====
-- The orchestrator of scripts/deployment/verify.ts: `verify`, `runCheck`, `shouldRunCategory` and
-- `calculateSummary`.
pub mod Counts
pub mod Unknown
use via_solana_gateway_v.Prelude.{
  ℕ, Bool, true, false, not, ◌&&◌, ◌||◌, List, [], ◌∷◌, ◌++◌, Option, none, some, length, filter,
  ◌==◌, if◌then◌else◌, Text, codes, Result, ok, err,
}
use via_solana_gateway_v.Prelude.Digits.{to_string}
use via_solana_gateway_v.Prelude.Words.{includes}
use via_solana_gateway_v.Prelude.Actions.{Action}
use via_solana_gateway_v.Health.Types.{minus}
use via_solana_gateway_v.Verify.Types.{
  Category, program, account, network, security, functional, CheckStatus, pass, fail, warning, skip,
  CheckResult, VerificationResult, DeploymentVerifier, Passed, Rpc,
}
use via_solana_gateway_v.Verify.Checks.{
  check_program_deployment, check_program_id, check_program_instructions, check_connectivity,
  check_balance, check_gateway, check_authority, check_query,
}

-- The outside world, and the result that the checks fill.
pub record Verification (World : Type 0) : Type 0 where
  pub world : World
  pub result : VerificationResult

abbrev is_pass : CheckStatus → Bool
is_pass pass = true
is_pass fail = false
is_pass warning = false
is_pass skip = false

abbrev is_fail : CheckStatus → Bool
is_fail pass = false
is_fail fail = true
is_fail warning = false
is_fail skip = false

abbrev is_warning : CheckStatus → Bool
is_warning pass = false
is_warning fail = false
is_warning warning = true
is_warning skip = false

abbrev pub count : (CheckStatus → Bool) → List CheckResult → ℕ
count p checks = length (filter (λ c. p c.status) checks)

unfoldable pub calculate_summary : VerificationResult → VerificationResult
calculate_summary result = record result {
  summary = record {
    total = length result.checks;
    passed = count is_pass result.checks;
    failed = count is_fail result.checks;
    warnings = count is_warning result.checks;
  };
}

abbrev pub push_check : CheckResult → VerificationResult → VerificationResult
push_check check result = record result { checks = result.checks ++ (check ∷ []) }

abbrev initial_result : VerificationResult
initial_result = record {
  success = false;
  checks = [];
  summary = record { total = 0; passed = 0; failed = 0; warnings = 0 };
  errors = [];
  warnings = [];
}

abbrev pub chains_or_one : Option (List ℕ) → List ℕ
chains_or_one none = 1 ∷ []
chains_or_one (some chains) = chains

unfoldable pub should_run_category : DeploymentVerifier → Text → Bool
should_run_category this category =
    is_empty this.check_categories || includes category this.check_categories
  where
    is_empty : List Text → Bool
    is_empty [] = true
    is_empty (c ∷ cs) = false

module _ {World : Type 0} (rpc : Rpc World) (this : DeploymentVerifier) where
  -- What a check reports.
  abbrev pub report : Text → Category → ℕ → Result Passed → ℕ → CheckResult
  report name category start (ok p) now = record {
    name = name;
    category = category;
    status = pass;
    message = p.message;
    details = p.details;
    duration = minus now start;
  }
  report name category start (err e) now = record {
    name = name;
    category = category;
    status = fail;
    message = rpc.error_message e;
    details = [];
    duration = minus now start;
  }

  unfoldable pub run_check :
      Text → Category → Action World Passed → Verification World → Verification World
  run_check name category check_function s =
      let (start_time, w1) = rpc.now s.world in
      let (outcome, w2) = check_function w1 in
      let (end_time, w3) = rpc.now w2 in
      record {
        world = w3;
        result = push_check (report name category start_time outcome end_time) s.result;
      }

  unfoldable pub run_program_checks : Verification World → Verification World
  run_program_checks s =
      run_check (codes "Program Instructions") program (check_program_instructions rpc this) (
        run_check (codes "Program ID Verification") program (check_program_id rpc this)
          (run_check (codes "Program Deployment") program (check_program_deployment rpc this) s))

  unfoldable pub run_network_checks : Verification World → Verification World
  run_network_checks s =
      run_check (codes "Authority Balance") network (check_balance rpc this)
        (run_check (codes "Network Connectivity") network (check_connectivity rpc this) s)

  unfoldable pub run_gateway_checks : List ℕ → Verification World → Verification World
  run_gateway_checks [] s = s
  run_gateway_checks (chain_id ∷ chains) s = run_gateway_checks chains (
      run_check (codes "Gateway Chain " ++ to_string chain_id) account
        (check_gateway rpc this chain_id) s)

  unfoldable pub run_account_checks : Verification World → Verification World
  run_account_checks = run_gateway_checks (chains_or_one this.expected_chains)

  unfoldable pub run_security_checks : Verification World → Verification World
  run_security_checks = run_check (codes "Authority Security") security (check_authority rpc this)

  unfoldable pub run_functional_checks : Verification World → Verification World
  run_functional_checks =
      run_check (codes "Program Query Functionality") functional (check_query rpc this)

  -- `if (this.shouldRunCategory(category)) { await run(result); }`
  abbrev pub if_selected :
      Text → (Verification World → Verification World) → Verification World → Verification World
  if_selected category run s = if should_run_category this category then run s else s

  abbrev conclude : VerificationResult → VerificationResult
  conclude result = record result { success = result.summary.failed == 0 }

  unfoldable pub run_checks : Verification World → Verification World
  run_checks s =
      let s1 = if_selected (codes "program") run_program_checks s in
      let s2 = if_selected (codes "network") run_network_checks s1 in
      let s3 = if_selected (codes "account") run_account_checks s2 in
      let s4 = if_selected (codes "security") run_security_checks s3 in
      if should_run_category this (codes "functional") && not this.skip_functional_tests
      then run_functional_checks s4
      else s4

  abbrev pub started : World → Verification World
  started w = record { world = w; result = initial_result }

  -- No check lets an exception through, so the outer `catch` has nothing to catch.
  unfoldable pub verify : World → Verification World
  verify w =
      let s = run_checks (started w) in
      record { world = s.world; result = conclude (calculate_summary s.result) }
