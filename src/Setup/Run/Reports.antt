-- ===== src/Setup/Run/Reports.antt =====
-- What the steps of `setup` in scripts/deployment/setup.ts add to its result: one report each.
use via_solana_gateway_v.Prelude.{
  ℕ, suc, ◌+◌, ◌≤◌, ◌≡◌, refl, Bool, true, false, [], ◌∷◌, length, length-append, arith, Text,
  Error, Result, ok, err, if◌then◌else◌,
}
use via_solana_gateway_v.Setup.Types.{SetupResult}
use via_solana_gateway_v.Prelude.Actions.{Action, lift, ◌>>=◌}
use via_solana_gateway_v.Setup.Session.{Session, modify, handle, catching}
use via_solana_gateway_v.Setup.Run.{
  push_warning, gateway_initialized, counter_initialized, registry_initialized, push_error,
}

-- What was initialised, and all that was reported.
abbrev pub initialized : SetupResult → ℕ
initialized r = r.gateways_initialized + r.counters_initialized + r.registries_initialized

abbrev pub reported : SetupResult → ℕ
reported r = initialized r + length r.warnings + length r.errors

-- From `r` to `r'` there are `n` more reports, and as many more transactions as initialisations.
pub record Reports (n : ℕ) (r r' : SetupResult) : Type 0 where
  pub reports : reported r' ≡ reported r + n
  pub transactions : length r'.transactions + initialized r ≡ length r.transactions + initialized r'

pub Reports-trans :
    {m n : ℕ} (r r' r'' : SetupResult) → Reports m r r' → Reports n r' r'' → Reports (m + n) r r''
Reports-trans r r' r'' a b = record {
  reports = omega (arith, a.reports, b.reports);
  transactions = omega (arith, a.transactions, b.transactions);
}

pub Reports-step :
    {n : ℕ} (r r' r'' : SetupResult) → Reports 1 r r' → Reports n r' r'' → Reports (suc n) r r''
Reports-step r r' r'' a b = record {
  reports = omega (arith, a.reports, b.reports);
  transactions = omega (arith, a.transactions, b.transactions);
}

pub Reports-none : (r : SetupResult) → Reports 0 r r
Reports-none r = record { reports = omega arith; transactions = refl }

pub Reports-push_error : (message : Text) (r : SetupResult) → Reports 1 r (push_error message r)
Reports-push_error message r = record {
  reports = omega (arith, length-append r.errors (message ∷ []));
  transactions = refl;
}

pub Reports-push_warning : (message : Text) (r : SetupResult) → Reports 1 r (push_warning message r)
Reports-push_warning message r = record {
  reports = omega (arith, length-append r.warnings (message ∷ []));
  transactions = refl;
}

-- A counter that goes up with its transaction.
abbrev pub Counts : (Text → SetupResult → SetupResult) → Type 0
Counts count = (tx : Text) (r : SetupResult) → Reports 1 r (count tx r)

pub Counts-gateway : Counts gateway_initialized
Counts-gateway tx r = record {
  reports = omega arith;
  transactions = omega (arith, length-append r.transactions (tx ∷ []));
}

pub Counts-counter : Counts counter_initialized
Counts-counter tx r = record {
  reports = omega arith;
  transactions = omega (arith, length-append r.transactions (tx ∷ []));
}

pub Counts-registry : Counts registry_initialized
Counts-registry tx r = record {
  reports = omega arith;
  transactions = omega (arith, length-append r.transactions (tx ∷ []));
}

-- An action that makes one report if it returns, and none if it throws.
abbrev pub made : {A : Type 0} → Result A → ℕ
made (ok a) = 1
made (err e) = 0

abbrev pub Once : {World A : Type 0} → Action (Session World) A → Type 0
Once m = (s : Session _) → Reports (made (m s).0) s.result (m s).1.result

module _ {World : Type 0} where
  pub Once-if :
      {A : Type 0} (b : Bool) (m n : Action (Session World) A)
      → (b ≡ true → Once m)
      → (b ≡ false → Once n)
      → Once (if b then m else n)
  Once-if true m n km kn = km refl
  Once-if false m n km kn = kn refl

  pub Once-lift :
      {A B : Type 0} (r : Result A) (f : A → Action (Session World) B)
      → ((a : A) → Once (f a))
      → Once (lift r >>= f)
  unfolding ◌>>=◌
  Once-lift (ok a) f k s = k a s
  Once-lift (err e) f k s = Reports-none s.result

  pub Once-catching :
      (h : Error → Text) (m : Action (Session World) (Unit {0}))
      → Once m
      → (s : Session World) → Reports 1 s.result (catching (λ e. push_error (h e)) m s).result
  unfolding catching
  Once-catching h m k s = either (m s).0 (m s).1 (k s)
    where
      either :
          (r : Result (Unit {0})) (s' : Session World)
          → Reports (made r) s.result s'.result
          → Reports 1 s.result (handle r (λ e s1. (modify (push_error (h e)) s1).1) s').result
      either (ok u) s' q = q
      either (err e) s' q =
          Reports-trans s.result s'.result _ q (Reports-push_error (h e) s'.result)

-- An action that makes at most one report, and none if it throws.
abbrev pub AtMostOnce : {World A : Type 0} → Action (Session World) A → Type 0
AtMostOnce m = (s : Session _) → (n : ℕ) × (n ≤ made (m s).0) × Reports n s.result (m s).1.result

module _ {World : Type 0} where
  pub AtMost-if :
      {A : Type 0} (b : Bool) (m n : Action (Session World) A)
      → AtMostOnce m
      → AtMostOnce n
      → AtMostOnce (if b then m else n)
  AtMost-if true m n km kn = km
  AtMost-if false m n km kn = kn

  pub AtMost-lift :
      {A B : Type 0} (r : Result A) (f : A → Action (Session World) B)
      → ((a : A) → AtMostOnce (f a))
      → AtMostOnce (lift r >>= f)
  unfolding ◌>>=◌
  AtMost-lift (ok a) f k s = k a s
  AtMost-lift (err e) f k s = (0, omega arith, Reports-none s.result)

  pub AtMost-catching :
      (h : Error → Text) (m : Action (Session World) (Unit {0}))
      → AtMostOnce m
      → (s : Session World)
      → (n : ℕ) × (n ≤ 1) × Reports n s.result (catching (λ e. push_error (h e)) m s).result
  unfolding catching
  AtMost-catching h m k s = either (m s).0 (m s).1 (k s)
    where
      either :
          (r : Result (Unit {0})) (s' : Session World)
          → (n : ℕ) × (n ≤ made r) × Reports n s.result s'.result
          → (n : ℕ) × (n ≤ 1)
            × Reports n s.result (handle r (λ e s1. (modify (push_error (h e)) s1).1) s').result
      either (ok u) s' q = q
      either (err e) s' (n, le, q) = (
        n + 1,
        omega arith,
        Reports-trans s.result s'.result _ q (Reports-push_error (h e) s'.result),
      )
