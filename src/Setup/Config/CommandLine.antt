-- ===== src/Setup/Config/CommandLine.antt =====
-- `parseArgs` of scripts/deployment/setup.ts against the command lines that ask for given settings.
use via_solana_gateway_v.Prelude.{
  ◌≡◌, refl, ap, subst, ◌∙◌, Bool, true, false, not, ◌||◌, List, [], ◌∷◌, ◌++◌, Option, none, some,
  arith, Text, codes, text_eq,
}
use via_solana_gateway_v.Prelude.Words.{includes}
use via_solana_gateway_v.Setup.Config.{CliArgs, takes_value, set_option, parse_options, parse_args}

abbrev option_words : Text → Option Text → List Text
option_words name none = []
option_words name (some value) = name ∷ value ∷ []

abbrev flag_words : Text → Bool → List Text
flag_words name true = name ∷ []
flag_words name false = []

abbrev flags : CliArgs → List Text
flags cli =
    flag_words (codes "--dry-run") cli.dry_run
    ++ flag_words (codes "--force") (not cli.skip_existing)

-- The command line that asks for the settings.
unfoldable pub command_line : CliArgs → List Text
command_line cli =
    cli.network
    ∷ (option_words (codes "--config") cli.config_path
        ++ (option_words (codes "--program-id") cli.program_id
            ++ (option_words (codes "--wallet") cli.wallet_path ++ flags cli)))

-- A word that is none of the three flags.
pub record IsPlain (word : Text) : Type 0 where
  pub not_help : text_eq word (codes "--help") ≡ false
  pub not_dry_run : text_eq word (codes "--dry-run") ≡ false
  pub not_force : text_eq word (codes "--force") ≡ false

abbrev pub IsPlainOption : Option Text → Type 0
IsPlainOption none = Unit
IsPlainOption (some value) = IsPlain value

includes-append :
    (word : Text) (xs ys : List Text)
    → includes word (xs ++ ys) ≡ (includes word xs || includes word ys)
unfolding includes
includes-append word [] ys = refl
includes-append word (x ∷ xs) ys = ground (arith, includes-append word xs ys)

-- An option of a command line has none of the flags in it.
includes-option_words :
    (word name : Text) (o : Option Text)
    → text_eq name word ≡ false
    → ((value : Text) → o ≡ some value → text_eq value word ≡ false)
    → (ys : List Text) → includes word (option_words name o ++ ys) ≡ includes word ys
unfolding includes
includes-option_words word name none h k ys = refl
includes-option_words word name (some value) h k ys = rw h (rw (k value refl))

flags_parse : (cli r : CliArgs) → parse_options (flags cli) r ≡ r
unfolding parse_options takes_value set_option text_eq
flags_parse cli r = by_flags cli.dry_run cli.skip_existing
  where
    by_flags :
        (d s : Bool)
        → parse_options (flag_words (codes "--dry-run") d ++ flag_words (codes "--force") (not s)) r
          ≡ r
    by_flags true true = refl
    by_flags true false = refl
    by_flags false true = refl
    by_flags false false = refl

-- Each option is taken with the word behind it.
config_parse :
    (o : Option Text) (ys : List Text) (r : CliArgs)
    → r.config_path ≡ none
    → parse_options (option_words (codes "--config") o ++ ys) r
      ≡ parse_options ys (record r { config_path = o })
unfolding parse_options takes_value set_option text_eq
config_parse none ys r h = ap (λ p. parse_options ys (record r { config_path = p })) h
config_parse (some v) ys r h = refl

program_id_parse :
    (o : Option Text) (ys : List Text) (r : CliArgs)
    → r.program_id ≡ none
    → parse_options (option_words (codes "--program-id") o ++ ys) r
      ≡ parse_options ys (record r { program_id = o })
unfolding parse_options takes_value set_option text_eq
program_id_parse none ys r h = ap (λ p. parse_options ys (record r { program_id = p })) h
program_id_parse (some v) ys r h = refl

wallet_parse :
    (o : Option Text) (ys : List Text) (r : CliArgs)
    → r.wallet_path ≡ none
    → parse_options (option_words (codes "--wallet") o ++ ys) r
      ≡ parse_options ys (record r { wallet_path = o })
unfolding parse_options takes_value set_option text_eq
wallet_parse none ys r h = ap (λ p. parse_options ys (record r { wallet_path = p })) h
wallet_parse (some v) ys r h = refl

-- A flag word is on the command line exactly where it is among the flags.
includes-command_line :
    (word : Text) (cli : CliArgs)
    → text_eq cli.network word ≡ false
    → text_eq (codes "--config") word ≡ false
    → text_eq (codes "--program-id") word ≡ false
    → text_eq (codes "--wallet") word ≡ false
    → ((value : Text) → cli.config_path ≡ some value → text_eq value word ≡ false)
    → ((value : Text) → cli.program_id ≡ some value → text_eq value word ≡ false)
    → ((value : Text) → cli.wallet_path ≡ some value → text_eq value word ≡ false)
    → includes word (command_line cli) ≡ includes word (flags cli)
unfolding includes command_line
includes-command_line word cli n c p w hc hp hw = rw n (
    includes-option_words word _ cli.config_path c hc _
    ∙ includes-option_words word _ cli.program_id p hp _
    ∙ includes-option_words word _ cli.wallet_path w hw _)

flags_found :
    (cli : CliArgs)
    → (includes (codes "--help") (flags cli) ≡ false)
      × (includes (codes "--dry-run") (flags cli) ≡ cli.dry_run)
      × (not (includes (codes "--force") (flags cli)) ≡ cli.skip_existing)
unfolding includes text_eq
flags_found cli = by_flags cli.dry_run cli.skip_existing
  where
    by_flags :
        (d s : Bool)
        → let words = flag_words (codes "--dry-run") d ++ flag_words (codes "--force") (not s) in
          (includes (codes "--help") words ≡ false)
          × (includes (codes "--dry-run") words ≡ d)
          × (not (includes (codes "--force") words) ≡ s)
    by_flags true true = (refl, refl, refl)
    by_flags true false = (refl, refl, refl)
    by_flags false true = (refl, refl, refl)
    by_flags false false = (refl, refl, refl)

IsPlain-value :
    (o : Option Text) → IsPlainOption o → (value : Text) → o ≡ some value → IsPlain value
IsPlain-value none h value e = cc
IsPlain-value (some v) h value e = let same : v ≡ value = cc in subst IsPlain same h

module _ (cli : CliArgs) (network : IsPlain cli.network) (config : IsPlainOption cli.config_path)
    (program : IsPlainOption cli.program_id) (wallet : IsPlainOption cli.wallet_path) where
  found :
      (includes (codes "--help") (command_line cli) ≡ false)
      × (includes (codes "--dry-run") (command_line cli) ≡ cli.dry_run)
      × (not (includes (codes "--force") (command_line cli)) ≡ cli.skip_existing)
  unfolding text_eq
  found =
      let (h, d, f) = flags_found cli in
      (
        includes-command_line (codes "--help") cli network.not_help refl refl refl
              (λ v e. (IsPlain-value _ config v e).not_help)
              (λ v e. (IsPlain-value _ program v e).not_help)
              (λ v e. (IsPlain-value _ wallet v e).not_help)
            ∙ h,
        includes-command_line (codes "--dry-run") cli network.not_dry_run refl refl refl
              (λ v e. (IsPlain-value _ config v e).not_dry_run)
              (λ v e. (IsPlain-value _ program v e).not_dry_run)
              (λ v e. (IsPlain-value _ wallet v e).not_dry_run)
            ∙ d,
        ap not (
              includes-command_line (codes "--force") cli network.not_force refl refl refl
                (λ v e. (IsPlain-value _ config v e).not_force)
                (λ v e. (IsPlain-value _ program v e).not_force)
                (λ v e. (IsPlain-value _ wallet v e).not_force))
            ∙ f,
      )

  -- `parseArgs` reads back the settings of a command line, if neither the network nor the value of
  -- an option is the word of a flag.
  pub parse_args-command_line : parse_args (command_line cli) ≡ some cli
  unfolding parse_args command_line
  parse_args-command_line =
      let (h, d, f) = found in
      rw h (
        rw d (
          rw f (
            ap some (
              config_parse cli.config_path _ _ refl
              ∙ program_id_parse cli.program_id _ _ refl
              ∙ wallet_parse cli.wallet_path _ _ refl
              ∙ flags_parse cli cli))))
