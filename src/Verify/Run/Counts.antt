-- ===== src/Verify/Run/Counts.antt =====
-- How many checks `verify` of scripts/deployment/verify.ts runs, and when it reports a success.
use mathlib.Core.Bool.{true≢false}
use via_solana_gateway_v.Prelude.{
  ℕ, suc, ◌+◌, ◌≡◌, ◌≤◌, ◌↔◌, refl, sym, ap, subst, ◌∙◌, Bool, true, false, not, ◌&&◌, List, [],
  ◌∷◌, ◌++◌, length, length-append, length-filter-append, ==_iff, if◌then◌else◌, All, arith, Text,
  codes, Result, ok, err,
}
use via_solana_gateway_v.Prelude.Actions.{Action}
use via_solana_gateway_v.Verify.Types.{
  Category, CheckStatus, pass, fail, warning, skip, CheckResult, VerificationResult,
  DeploymentVerifier, Passed, Rpc,
}
use via_solana_gateway_v.Verify.Run.{
  Verification, is_pass, is_fail, is_warning, count, calculate_summary, push_check, chains_or_one,
  should_run_category, report, run_check, run_program_checks, run_network_checks,
  run_gateway_checks, run_account_checks, run_security_checks, run_functional_checks, run_checks,
  started, verify,
}

-- The checks that the configuration asks for.
unfoldable pub planned : DeploymentVerifier → ℕ
planned this =
    (if should_run_category this (codes "program") then 3 else 0)
    + (if should_run_category this (codes "network") then 2 else 0)
    + (if should_run_category this (codes "account")
        then length (chains_or_one this.expected_chains)
        else 0)
    + (if should_run_category this (codes "security") then 1 else 0)
    + (if should_run_category this (codes "functional") && not this.skip_functional_tests
        then 1
        else 0)

-- Every check has passed or failed, there are `n` of them, and no error stopped them.
record Counted (n : ℕ) (r : VerificationResult) : Type 0 where
  total : length r.checks ≡ n
  decided : count is_pass r.checks + count is_fail r.checks ≡ n
  unwarned : count is_warning r.checks ≡ 0
  unstopped : r.errors ≡ []

abbrev pub Pass : CheckResult → Type 0
Pass c = c.status ≡ pass

count_cons :
    (p : CheckStatus → Bool) (c : CheckResult) (checks : List CheckResult)
    → count p (c ∷ checks) ≡ (if p c.status then suc (count p checks) else count p checks)
count_cons p c checks = go (p c.status) refl
  where
    go :
        (b : Bool)
        → p c.status ≡ b
        → count p (c ∷ checks) ≡ (if b then suc (count p checks) else count p checks)
    go true e = rw e refl
    go false e = rw e refl

count_le : (checks : List CheckResult) → count is_pass checks ≤ length checks
count_le [] = omega arith
count_le (c ∷ checks) = ground (arith, count_le checks, count_cons is_pass c checks)

cons_fail_iff :
    (c : CheckResult) (checks : List CheckResult)
    → is_pass c.status ≡ false
    → (count is_pass (c ∷ checks) ≡ length (c ∷ checks)) ↔ All Pass (c ∷ checks)
cons_fail_iff c checks e = (
  λ h. absurd (omega (arith, few, count_le checks, h)),
  λ h. absurd (true≢false (sym (ap is_pass h.0) ∙ e)),
)
  where
    few : count is_pass (c ∷ checks) ≡ count is_pass checks
    few =
        count_cons is_pass c checks
        ∙ ap (λ b. if b then suc (count is_pass checks) else count is_pass checks) e

cons-Pass_iff :
    (c : CheckResult) (checks : List CheckResult) (status : CheckStatus)
    → c.status ≡ status
    → (count is_pass checks ≡ length checks) ↔ All Pass checks
    → (count is_pass (c ∷ checks) ≡ length (c ∷ checks)) ↔ All Pass (c ∷ checks)
cons-Pass_iff c checks pass e ih =
    (λ h. (e, ih.0 (omega (arith, one, h))), λ h. omega (arith, one, ih.1 h.1))
  where
    one : count is_pass (c ∷ checks) ≡ suc (count is_pass checks)
    one = rw e refl
cons-Pass_iff c checks fail e ih = cons_fail_iff c checks (ap is_pass e)
cons-Pass_iff c checks warning e ih = cons_fail_iff c checks (ap is_pass e)
cons-Pass_iff c checks skip e ih = cons_fail_iff c checks (ap is_pass e)

count-Pass_iff :
    (checks : List CheckResult) → (count is_pass checks ≡ length checks) ↔ All Pass checks
count-Pass_iff [] = (λ e. tt, λ h. refl)
count-Pass_iff (c ∷ checks) = cons-Pass_iff c checks c.status refl (count-Pass_iff checks)

module _ {World : Type 0} (rpc : Rpc World) (this : DeploymentVerifier) where
  count_report :
      (name : Text) (category : Category) (start end : ℕ) (outcome : Result Passed)
      → let check = report rpc this name category start outcome end in
        ((if is_pass check.status then 1 else 0) + (if is_fail check.status then 1 else 0) ≡ 1)
        × (is_warning check.status ≡ false)
  count_report name category start end (ok p) = (refl, refl)
  count_report name category start end (err e) = (refl, refl)

  count_push :
      (p : CheckStatus → Bool) (checks : List CheckResult) (check : CheckResult)
      → count p (checks ++ check ∷ []) ≡ count p checks + (if p check.status then 1 else 0)
  count_push p checks check =
      length-filter-append (λ c. p c.status) checks (check ∷ [])
      ∙ ap (λ n. count p checks + n) (one (p check.status) refl)
    where
      one : (b : Bool) → p check.status ≡ b → count p (check ∷ []) ≡ (if b then 1 else 0)
      one true e = rw e refl
      one false e = rw e refl

  Counted-push :
      (n : ℕ) (r : VerificationResult) (name : Text) (category : Category) (start end : ℕ)
      (outcome : Result Passed)
      → Counted n r
      → Counted (n + 1) (push_check (report rpc this name category start outcome end) r)
  Counted-push n r name category start end (ok p) h = record {
    total = omega (
      arith,
      length-append r.checks (report rpc this name category start (ok p) end ∷ []),
      h.total,
    );
    decided = omega (
      arith,
      count_push is_pass r.checks (report rpc this name category start (ok p) end),
      count_push is_fail r.checks (report rpc this name category start (ok p) end),
      h.decided,
    );
    unwarned = omega (
      arith,
      count_push is_warning r.checks (report rpc this name category start (ok p) end),
      h.unwarned,
    );
    unstopped = h.unstopped;
  }
  Counted-push n r name category start end (err e) h = record {
    total = omega (
      arith,
      length-append r.checks (report rpc this name category start (err e) end ∷ []),
      h.total,
    );
    decided = omega (
      arith,
      count_push is_pass r.checks (report rpc this name category start (err e) end),
      count_push is_fail r.checks (report rpc this name category start (err e) end),
      h.decided,
    );
    unwarned = omega (
      arith,
      count_push is_warning r.checks (report rpc this name category start (err e) end),
      h.unwarned,
    );
    unstopped = h.unstopped;
  }

  -- A step that makes `k` checks.
  abbrev Makes : ℕ → (Verification World → Verification World) → Type 0
  Makes k run =
      (n : ℕ) (s : Verification World) → Counted n s.result → Counted (n + k) (run s).result

  recount : {m n : ℕ} {r : VerificationResult} → m ≡ n → Counted m r → Counted n r
  recount {r = r} e h = subst (λ k. Counted k r) e h

  run_check-Makes :
      (name : Text) (category : Category) (f : Action World Passed)
      → Makes 1 (run_check rpc this name category f)
  unfolding run_check
  run_check-Makes name category f n s h = Counted-push n s.result name category _ _ _ h

  run_program_checks-Makes : Makes 3 (run_program_checks rpc this)
  unfolding run_program_checks
  run_program_checks-Makes n s h =
      recount (omega arith)
        (run_check-Makes _ _ _ _ _ (run_check-Makes _ _ _ _ _ (run_check-Makes _ _ _ n s h)))

  run_network_checks-Makes : Makes 2 (run_network_checks rpc this)
  unfolding run_network_checks
  run_network_checks-Makes n s h =
      recount (omega arith) (run_check-Makes _ _ _ _ _ (run_check-Makes _ _ _ n s h))

  run_gateway_checks-Makes :
      (chains : List ℕ) → Makes (length chains) (run_gateway_checks rpc this chains)
  unfolding run_gateway_checks
  run_gateway_checks-Makes [] n s h = recount (omega arith) h
  run_gateway_checks-Makes (chain_id ∷ chains) n s h =
      recount (omega arith) (run_gateway_checks-Makes chains _ _ (run_check-Makes _ _ _ n s h))

  selected_Makes :
      (b : Bool) (k : ℕ) (run : Verification World → Verification World)
      → Makes k run
      → (n : ℕ) (s : Verification World) → Counted n s.result
      → Counted (n + (if b then k else 0)) (if b then run s else s).result
  selected_Makes true k run m n s h = m n s h
  selected_Makes false k run m n s h = recount (omega arith) h

  run_checks-Counted :
      (s : Verification World)
      → Counted 0 s.result
      → Counted (planned this) (run_checks rpc this s).result
  unfolding run_checks planned run_account_checks run_security_checks run_functional_checks
  run_checks-Counted s h = recount (omega arith) (
      selected_Makes
        (should_run_category this (codes "functional") && not this.skip_functional_tests) 1
        (run_functional_checks rpc this) (run_check-Makes _ _ _) _ _
        (selected_Makes (should_run_category this (codes "security")) 1
          (run_security_checks rpc this) (run_check-Makes _ _ _) _ _
          (selected_Makes (should_run_category this (codes "account"))
            (length (chains_or_one this.expected_chains)) (run_account_checks rpc this)
            (run_gateway_checks-Makes _) _ _
            (selected_Makes (should_run_category this (codes "network")) 2
              (run_network_checks rpc this) run_network_checks-Makes _ _
              (selected_Makes (should_run_category this (codes "program")) 3
                (run_program_checks rpc this) run_program_checks-Makes 0 s h)))))

  -- Whatever the cluster answers, the total of the summary is the number of checks that the
  -- configuration asks for: three of the program, two of the network, one for each chain, one of
  -- security and a functional one, each if its category is selected, and the functional one if it is
  -- not skipped. The passed and the failed checks are together as many, and there is no warning and
  -- no error.
  pub verify_counts :
      (w : World)
      → let r = (verify rpc this w).result in
        (r.summary.total ≡ planned this)
        × (r.summary.passed + r.summary.failed ≡ planned this)
        × (r.summary.warnings ≡ 0)
        × (r.errors ≡ [])
  unfolding verify calculate_summary
  verify_counts w =
      let h =
        run_checks-Counted (started rpc this w)
          (record { total = refl; decided = refl; unwarned = refl; unstopped = refl }) in
      (h.total, h.decided, h.unwarned, h.unstopped)

  -- Whatever the cluster answers, `verify` reports a success if and only if every check in its result
  -- has passed.
  pub verify_success_iff :
      (w : World)
      → ((verify rpc this w).result.success ≡ true) ↔ All Pass (verify rpc this w).result.checks
  unfolding verify calculate_summary
  verify_success_iff w =
      let h =
        run_checks-Counted (started rpc this w)
          (record { total = refl; decided = refl; unwarned = refl; unstopped = refl }) in
      let s = run_checks rpc this (started rpc this w) in
      (
        λ e.
            let none_failed = (==_iff (count is_fail s.result.checks) 0).0 e in
            (count-Pass_iff s.result.checks).0 (omega (arith, h.total, h.decided, none_failed)),
        λ p.
            let all_passed = (count-Pass_iff s.result.checks).1 p in
            (==_iff (count is_fail s.result.checks) 0).1
              (omega (arith, h.total, h.decided, all_passed)),
      )
