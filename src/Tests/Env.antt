-- ===== src/Tests/Env.antt =====
-- The environment manager at concrete inputs.
use mathlib.Core.List.Memᴰ.{head, tail}
use via_solana_gateway_v.Prelude.{
  ℕ, not, ◌&&◌, arith, ◌≡◌, refl, Bool, true, false, [], ◌∷◌, some, ◌&◌, inl, Text, codes, text_eq,
  ok,
}
use via_solana_gateway_v.Prelude.Words.{is_space, starts_with, Lacks-lacks, IsWord}
use via_solana_gateway_v.Network.Types.{entry}
use via_solana_gateway_v.Env.Types.{EnvironmentProfile, Shell}
use via_solana_gateway_v.Env.Profiles.{mainnet_profile}
use via_solana_gateway_v.Env.Files.{unlines, value_of, config_lines, load_text}
use via_solana_gateway_v.Env.Files.RoundTrip.{IsKey}
use via_solana_gateway_v.Env.Files.Generated.{Plain, load_text-config_lines}
use via_solana_gateway_v.Env.Manager.{validate_profile}
use via_solana_gateway_v.Env.Manager.Validated.{validate_profile_missing}

-- A small profile that requires a key without a value.
abbrev a_profile : EnvironmentProfile
a_profile = record {
  name = codes "Test";
  description = codes "A test";
  config = (codes "NETWORK", codes "testnet") ∷ [];
  required = codes "NETWORK" ∷ codes "OWNER" ∷ [];
  optional = codes "LEVEL" ∷ [];
  warnings = some (codes "Careful" ∷ []);
}

-- Every character passes a test.
abbrev all_codes : (ℕ → Bool) → Text → Bool
all_codes p [] = true
all_codes p (c ∷ s) = p c && all_codes p s

IsWord-all_codes : (s : Text) → all_codes (λ c. not (is_space c)) s ≡ true → IsWord s
IsWord-all_codes [] h = tt
IsWord-all_codes (c ∷ s) h = (ground (arith, h), IsWord-all_codes s (ground (arith, h)))

network_IsKey : IsKey (codes "NETWORK")
unfolding is_space starts_with
network_IsKey =
    (IsWord-all_codes (codes "NETWORK") refl, Lacks-lacks 61 (codes "NETWORK") refl, refl, λ e. cc)

owner_IsKey : IsKey (codes "OWNER")
unfolding is_space starts_with
owner_IsKey =
    (IsWord-all_codes (codes "OWNER") refl, Lacks-lacks 61 (codes "OWNER") refl, refl, λ e. cc)

level_IsKey : IsKey (codes "LEVEL")
unfolding is_space starts_with
level_IsKey =
    (IsWord-all_codes (codes "LEVEL") refl, Lacks-lacks 61 (codes "LEVEL") refl, refl, λ e. cc)

a_profile-Plain : Plain a_profile (codes "2025")
unfolding is_space entry text_eq
a_profile-Plain = record {
  name_line = Lacks-lacks 10 (codes "Test") refl;
  description_line = Lacks-lacks 10 (codes "A test") refl;
  time_line = Lacks-lacks 10 (codes "2025") refl;
  warning_lines = (Lacks-lacks 10 (codes "Careful") refl, tt);
  required_keys = network_IsKey & owner_IsKey & tt;
  optional_keys = level_IsKey & tt;
  entries = ((network_IsKey, IsWord-all_codes (codes "testnet") refl, refl), tt);
}

abbrev a_file : Text
a_file = unlines (config_lines a_profile (codes "2025"))

-- A machine with one file, `.env`.
abbrev a_shell : Shell Text
a_shell = record {
  exists_sync = λ path content. text_eq path (codes ".env");
  read_file_sync = λ path content. (ok content, content);
  write_file_sync = λ path text content. (ok tt, text);
  copy_file_sync = λ from to content. (ok tt, content);
  iso_now = λ content. (codes "2025", content);
  show_now = λ content. (codes "1", content);
  env_path = codes ".env";
  template_path = codes ".env.template";
  homedir = codes "/root";
  to_upper = λ text. text;
  show_error = λ e. [];
}

load_text-config_lines_example :
    entry (codes "NETWORK") (load_text a_file)
    ≡ some (value_of (a_profile.config) (codes "NETWORK"))
load_text-config_lines_example =
    load_text-config_lines a_profile (codes "2025") (codes "NETWORK") a_profile-Plain
      (inl (head refl))

no_owner : value_of (a_profile.config) (codes "OWNER") ≡ []
unfolding value_of entry text_eq
no_owner = refl

env_exists : text_eq (codes ".env") (codes ".env") ≡ true
unfolding text_eq
env_exists = refl

validate_profile_missing_example : (validate_profile a_shell a_profile a_file).0 ≡ ok false
validate_profile_missing_example =
    validate_profile_missing a_shell a_profile (codes "2025") (codes "OWNER") a_file a_profile-Plain
      (tail (head refl)) no_owner env_exists refl

no_authority : value_of (mainnet_profile.config) (codes "UPGRADE_AUTHORITY") ≡ []
unfolding value_of entry text_eq mainnet_profile
no_authority = refl
