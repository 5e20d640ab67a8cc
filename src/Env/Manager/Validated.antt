-- ===== src/Env/Manager/Validated.antt =====
-- What validateConfig of scripts/deployment/env-manager.ts says of a file that generateConfig wrote.
use mathlib.Core.List.{Memᴰ}
use mathlib.Core.List.Memᴰ.{head, tail}
use via_solana_gateway_v.Prelude.{
  ◌≡◌, refl, ap, subst, ◌∙◌, inl, Bool, true, false, ◌&&◌, List, [], ◌∷◌, some, Text, ok,
}
use via_solana_gateway_v.Prelude.Actions.{◌>>=◌}
use via_solana_gateway_v.Network.Types.{entry, truthy}
use via_solana_gateway_v.Env.Types.{EnvironmentProfile, Shell}
use via_solana_gateway_v.Env.Files.{unlines, value_of, config_lines, load_text}
use via_solana_gateway_v.Env.Files.Generated.{Plain, load_text-config_lines}
use via_solana_gateway_v.Env.Manager.{all_set, is_set, load_env_file, validate_profile}

all_set_missing :
    (env : List (Text × Text)) (key : Text) (keys : List Text)
    → Memᴰ key keys
    → entry key env ≡ some []
    → all_set env keys ≡ false
unfolding all_set
all_set_missing env key [] m e = elim m [ ]
all_set_missing env key (k ∷ keys) (head same) e =
    rw (subst (λ j. entry j env ≡ some []) same e) refl
all_set_missing env key (k ∷ keys) (tail m) e =
    rw (all_set_missing env key keys m e) (and_false (is_set (truthy (entry k env))))
  where
    and_false : (b : Bool) → (b && false) ≡ false
    and_false true = refl
    and_false false = refl

-- Where the environment file has the text that generateConfig writes for a plain profile, and the
-- profile requires a key for which it has no value, validating the profile returns false.
pub validate_profile_missing :
    {World : Type 0} (shell : Shell World) (profile : EnvironmentProfile) (time key : Text)
    (w : World)
    → Plain profile time
    → Memᴰ key profile.required
    → value_of profile.config key ≡ []
    → shell.exists_sync shell.env_path w ≡ true
    → (shell.read_file_sync shell.env_path w).0 ≡ ok (unlines (config_lines profile time))
    → (validate_profile shell profile w).0 ≡ ok false
unfolding validate_profile load_env_file ◌>>=◌
validate_profile_missing shell profile time key w plain m no_value there content =
    let missing =
      all_set_missing (load_text (unlines (config_lines profile time))) key profile.required m
        (load_text-config_lines profile time key plain (inl m) ∙ ap some no_value) in
    rw (there, content, missing) refl
