-- ===== src/Env/Manager.antt =====
-- The methods of EnvironmentManager in scripts/deployment/env-manager.ts, and its command line.
pub mod Validated
use via_solana_gateway_v.Prelude.{
  ℕ, Bool, true, false, ◌&&◌, ◌||◌, List, [], ◌∷◌, ◌++◌, Option, none, some, ◌==◌, if◌then◌else◌,
  Text, codes, text_eq, thrown, Result, ok, err,
}
use via_solana_gateway_v.Prelude.Words.{includes}
use via_solana_gateway_v.Prelude.Actions.{Action, pure, throw, lift, gets, rescue, ◌>>=◌, ◌>>◌}
use via_solana_gateway_v.Network.Types.{entry, truthy}
use via_solana_gateway_v.Env.Types.{EnvironmentProfile, Shell}
use via_solana_gateway_v.Env.Profiles.{profiles}
use via_solana_gateway_v.Env.Files.{unlines, comment, config_lines, load_text}

abbrev known_profile : Text → Option EnvironmentProfile → Result EnvironmentProfile
known_profile name none = err (thrown (codes "Unknown profile: " ++ name))
known_profile name (some profile) = ok profile

-- `outputPath || this.envPath`
abbrev path_or : Text → Option Text → Text
path_or default none = default
path_or default (some path) = path

-- `text.replace("~", home)`
unfoldable pub replace_home : Text → Text → Text
replace_home home [] = []
replace_home home (c ∷ s) =
    let rest = replace_home home s in if c == 126 then home ++ s else c ∷ rest

abbrev pub is_set : Option Text → Bool
is_set none = false
is_set (some text) = true

-- Whether every required key has a value.
unfoldable pub all_set : List (Text × Text) → List Text → Bool
all_set env [] = true
all_set env (key ∷ keys) = is_set (truthy (entry key env)) && all_set env keys

-- The lines of the template for one profile.
abbrev config_comments : List (Text × Text) → List Text
config_comments [] = []
config_comments ((key, value) ∷ config) = comment (key ++ (61 ∷ value)) ∷ config_comments config

abbrev warning_comments : List Text → List Text
warning_comments [] = []
warning_comments (warning ∷ warnings) =
    comment (codes "  - " ++ warning) ∷ warning_comments warnings

abbrev warning_lines : Option (List Text) → List Text
warning_lines none = []
warning_lines (some warnings) =
    (comment (codes "WARNINGS:") ∷ warning_comments warnings) ++ ([] ∷ [])

abbrev rule : Text
rule = comment (codes "─────────────────────────────────────────────────────")

module _ {World : Type 0} (shell : Shell World) where
  unfoldable pub template_lines : List (Text × EnvironmentProfile) → List Text
  template_lines [] = []
  template_lines ((profile_name, profile) ∷ rest) =
      let later = template_lines rest in
      if text_eq profile_name (codes "custom")
      then later
      else (rule
          ∷ comment (shell.to_upper profile.name ++ codes " CONFIGURATION")
          ∷ comment profile.description
          ∷ rule
          ∷ [])
        ++ (warning_lines profile.warnings ++ (config_comments profile.config ++ ([] ∷ later)))

  unfoldable pub create_template : Action World (Unit {0})
  create_template = shell.write_file_sync shell.template_path (
      unlines (
        comment (codes "Via Labs V4 Environment Template")
        ∷ comment (codes "Copy this file to .env and configure for your environment")
        ∷ []
        ∷ template_lines profiles))

  abbrev timed : (World → Text × World) → Action World Text
  timed clock w = let (time, w') = clock w in (ok time, w')

  -- generateConfig for a profile that was found.
  unfoldable pub write_config : EnvironmentProfile → Text → Action World (Unit {0})
  write_config profile target_path = timed shell.iso_now >>= λ time.
      rescue (shell.write_file_sync target_path (unlines (config_lines profile time)))
        (λ e. throw (thrown (codes "Failed to write configuration: " ++ shell.show_error e)))

  unfoldable pub generate_config : Text → Option Text → Action World (Unit {0})
  generate_config profile_name output_path =
      lift (known_profile profile_name (entry profile_name profiles)) >>= λ profile.
      write_config profile (path_or shell.env_path (truthy output_path))

  unfoldable pub load_env_file : Text → Action World (List (Text × Text))
  load_env_file file_path = gets (shell.exists_sync file_path) >>= λ found.
      if found
      then (shell.read_file_sync file_path >>= λ content. pure (load_text content))
      else pure []

  abbrev file_is_there : Option Text → World → Bool
  file_is_there none w = true
  file_is_there (some path) w = shell.exists_sync path w

  abbrev wallet_is_there : Option Text → World → Bool
  wallet_is_there none w = true
  wallet_is_there (some path) w = shell.exists_sync (replace_home shell.homedir path) w

  unfoldable pub validate_profile : EnvironmentProfile → Action World Bool
  validate_profile profile = load_env_file shell.env_path >>= λ env.
      gets (file_is_there (truthy (entry (codes "PROGRAM_KEYPAIR") env))) >>= λ keypair.
      gets (wallet_is_there (truthy (entry (codes "ANCHOR_WALLET") env))) >>= λ wallet.
      pure (all_set env profile.required && keypair && wallet)

  -- `network && this.profiles[network]`
  abbrev profile_of : Option Text → Option EnvironmentProfile
  profile_of none = none
  profile_of (some network) = entry network profiles

  unfoldable pub detect_profile : Action World (Option EnvironmentProfile)
  detect_profile = gets (shell.exists_sync shell.env_path) >>= λ found.
      if found
      then (load_env_file shell.env_path >>= λ env.
          pure (profile_of (truthy (entry (codes "NETWORK") env))))
      else pure none

  abbrev validate_found : Option EnvironmentProfile → Action World Bool
  validate_found none = pure false
  validate_found (some profile) = validate_profile profile

  abbrev validate_named : Option Text → Action World Bool
  validate_named none = detect_profile >>= validate_found
  validate_named (some name) = lift (known_profile name (entry name profiles)) >>= validate_profile

  unfoldable pub validate_config : Option Text → Action World Bool
  validate_config profile_name = validate_named (truthy profile_name)

  unfoldable pub back_up : Action World (Unit {0})
  back_up = gets (shell.exists_sync shell.env_path) >>= λ found.
      if found
      then (timed shell.show_now >>= λ now.
          shell.copy_file_sync shell.env_path (codes ".env.backup." ++ now))
      else pure tt

  unfoldable pub switch_profile : Text → Action World (Unit {0})
  switch_profile profile_name = back_up >> generate_config profile_name none

  abbrev with_profile : Option Text → (Text → Action World (Unit {0})) → Action World (Unit {0})
  with_profile none run = throw (thrown (codes "Profile name required"))
  with_profile (some profile) run = run profile

  unfoldable pub execute_command : Text → Option Text → Action World (Unit {0})
  execute_command command profile =
      if text_eq command (codes "list")
      then pure tt
      else if text_eq command (codes "generate")
      then with_profile (truthy profile) (λ name. generate_config name none)
      else if text_eq command (codes "validate")
      then (validate_config profile >>= λ valid. pure tt)
      else if text_eq command (codes "switch")
      then with_profile (truthy profile) switch_profile
      else if text_eq command (codes "template")
      then create_template
      else throw (thrown (codes "Unknown command: " ++ command))

  abbrev first : List Text → Option Text
  first [] = none
  first (a ∷ args) = some a

  abbrev status : Result (Unit {0}) → ℕ
  status (ok u) = 0
  status (err e) = 1

  -- The exit status of the process, for `process.argv.slice(2)`.
  unfoldable pub main : List Text → World → ℕ × World
  main [] w = (0, w)
  main (command ∷ rest) w =
      if includes (codes "--help") (command ∷ rest) || includes (codes "-h") (command ∷ rest)
      then (0, w)
      else let (r, w') = execute_command command (first rest) w in (status r, w')
