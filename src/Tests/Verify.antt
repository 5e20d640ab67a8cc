-- ===== src/Tests/Verify.antt =====
-- The deployment verifier at concrete inputs.
use via_solana_gateway_v.Prelude.{
  ℕ, ◌+◌, ◌≡◌, ◌↔◌, refl, true, false, [], ◌∷◌, some, All, replicate, codes, text_eq, ok,
}
use via_solana_gateway_v.Prelude.Words.{includes}
use via_solana_gateway_v.Health.Types.{text_value}
use via_solana_gateway_v.Verify.Types.{DeploymentVerifier, VerificationResult, Rpc}
use via_solana_gateway_v.Verify.Run.{should_run_category, verify}
use via_solana_gateway_v.Verify.Run.Counts.{planned, Pass, verify_counts, verify_success_iff}
use via_solana_gateway_v.Verify.Run.Unknown.{NotKnown, verify_unknown_category}

-- A cluster where every account is there with 60 bytes, and the clock counts the calls.
abbrev a_rpc : Rpc ℕ
a_rpc = record {
  now = λ w. (w, w + 1);
  get_account_info = λ key w. (
    ok (
        some (record {
          executable = true;
          contents = replicate 60 1;
          owner = codes "owner";
          lamports = 1;
        })),
    w,
  );
  get_version = λ w. (ok (text_value (codes "1.18"), text_value (codes "1")), w);
  get_balance = λ key w. (ok 20000000, w);
  find_program_address = λ seeds program. ok (replicate 32 3);
  public_key = λ text. ok (replicate 32 2);
  to_array_like = λ width n. ok (replicate width 0);
  show_key = λ key. codes "Key";
  sol_to_fixed = λ lamports. codes "0.0200";
  error_message = λ e. codes "error";
  show_error = λ e. codes "Error: error";
}

abbrev a_verifier : DeploymentVerifier
a_verifier = record {
  program_id = codes "Key";
  program_address = replicate 32 2;
  authority = replicate 32 1;
  check_categories = [];
  skip_functional_tests = false;
  expected_chains = some (1 ∷ 2 ∷ []);
}

abbrev misspelt : DeploymentVerifier
misspelt = record a_verifier { check_categories = codes "acount" ∷ [] }

abbrev verified : VerificationResult
verified = (verify a_rpc a_verifier 0).result

verify_counts_example :
    (verified.summary.total ≡ planned a_verifier)
    × (verified.summary.passed + verified.summary.failed ≡ planned a_verifier)
    × (verified.summary.warnings ≡ 0)
    × (verified.errors ≡ [])
verify_counts_example = verify_counts a_rpc a_verifier 0

verify_success_iff_example : (verified.success ≡ true) ↔ All Pass verified.checks
verify_success_iff_example = verify_success_iff a_rpc a_verifier 0

misspelt-NotKnown : All NotKnown (codes "acount" ∷ [])
unfolding includes text_eq
misspelt-NotKnown = (refl, tt)

verify_unknown_category_example :
    ((verify a_rpc misspelt 0).result.checks ≡ [])
    × ((verify a_rpc misspelt 0).world ≡ 0)
    × ((verify a_rpc misspelt 0).result.success ≡ true)
verify_unknown_category_example =
    verify_unknown_category a_rpc misspelt 0 (codes "acount") [] refl misspelt-NotKnown

planned_all : planned a_verifier ≡ 9
unfolding planned should_run_category
planned_all = refl
