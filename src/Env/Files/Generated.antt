-- ===== src/Env/Files/Generated.antt =====
-- What loadEnvFile finds in the file that generateConfig of scripts/deployment/env-manager.ts writes
-- for a profile.
use mathlib.Core.List.{Memᴰ}
use mathlib.Core.List.Memᴰ.{head, tail}
use via_solana_gateway_v.Prelude.{
  ◌≡◌, refl, sym, ap, subst, ◌⊎◌, inl, inr, Bool, true, false, List, [], ◌∷◌, ◌++◌, Option, none,
  some, All, ◌&◌, if◌then◌else◌, Text, codes, text_eq,
}
use via_solana_gateway_v.Prelude.Words.{includes, Lacks, Lacks-lacks, append-Lacks, IsWord}
use via_solana_gateway_v.Network.Types.{entry}
use via_solana_gateway_v.Env.Types.{EnvironmentProfile}
use via_solana_gateway_v.Env.Files.{
  unlines, value_of, assignment, assignments, other_entries, entry_lines, headed, described, dashed,
  warned, or_empty, config_lines, load_text,
}
use via_solana_gateway_v.Env.Files.RoundTrip.{
  IsKey, Agrees, Good, comment-Good, blank-Good, assignment-Good, parse_line-assignment,
  load_lines-assigned, split-unlines, All-append, mem_left, mem_right,
}

-- An entry of a configuration: a key once, and a value without white space.
abbrev pub IsEntry : List (Text × Text) → Text × Text → Type 0
IsEntry config (key, value) = IsKey key × IsWord value × (entry key config ≡ some value)

abbrev or_nil : Option (List Text) → List Text
or_nil none = []
or_nil (some texts) = texts

-- A profile whose texts are on one line, and whose keys and values can be read back.
pub record Plain (profile : EnvironmentProfile) (time : Text) : Type 0 where
  pub name_line : Lacks 10 profile.name
  pub description_line : Lacks 10 profile.description
  pub time_line : Lacks 10 time
  pub warning_lines : All (Lacks 10) (or_nil profile.warnings)
  pub required_keys : All IsKey profile.required
  pub optional_keys : All IsKey profile.optional
  pub entries : All (IsEntry profile.config) profile.config

value_of-IsWord :
    (config entries : List (Text × Text)) (key : Text)
    → All (IsEntry config) entries
    → IsWord (value_of entries key)
unfolding value_of entry
value_of-IsWord config [] key h = tt
value_of-IsWord config ((k, v) ∷ entries) key (h, hs) =
    go (text_eq k key) (value_of-IsWord config entries key hs)
  where
    go :
        (b : Bool)
        → IsWord (value_of entries key)
        → IsWord (or_empty (if b then some v else entry key entries))
    go true ih = h.1
    go false ih = ih

value_of-entry :
    (config : List (Text × Text)) (key value : Text)
    → entry key config ≡ some value
    → value_of config key ≡ value
unfolding value_of
value_of-entry config key value e = rw e refl

module _ (config : List (Text × Text)) (entries : All (IsEntry config) config) where
  assignments-Good :
      (keys : List Text) → All IsKey keys → All (Good config) (assignments config keys)
  unfolding assignments
  assignments-Good [] h = tt
  assignments-Good (key ∷ keys) (h, hs) = (
    assignment-Good config key h (value_of-IsWord config config key entries),
    assignments-Good keys hs,
  )

  other-Good :
      (documented : List Text) (others : List (Text × Text))
      → All (IsEntry config) others
      → All (Good config) (entry_lines (other_entries documented others))
  unfolding entry_lines other_entries
  other-Good documented [] h = tt
  other-Good documented ((key, value) ∷ others) (h, hs) =
      go (includes key documented) (other-Good documented others hs)
    where
      line : Good config (assignment key value)
      line =
          subst (λ v. Good config (assignment key v)) (value_of-entry config key value h.2)
            (assignment-Good config key h.0 (value_of-IsWord config config key entries))

      go :
          (b : Bool)
          → All (Good config) (entry_lines (other_entries documented others))
          → All (Good config) (
              entry_lines (
                if b
                then other_entries documented others
                else (key, value) ∷ other_entries documented others))
      go true ih = ih
      go false ih = (line, ih)

  headed-Good :
      (heading : Text) (lines : List Text)
      → Lacks 10 heading
      → All (Good config) lines
      → All (Good config) (headed heading lines)
  unfolding headed
  headed-Good heading [] l h = tt
  headed-Good heading (line ∷ lines) l h = (blank-Good config, (comment-Good config heading l, h))

  described-Good :
      (description : Text) → Lacks 10 description → All (Good config) (described description)
  described-Good [] l = tt
  described-Good (c ∷ description) l =
      comment-Good config (c ∷ description) l & blank-Good config & tt

  dashed-Good :
      (warnings : List Text) → All (Lacks 10) warnings → All (Good config) (dashed warnings)
  unfolding dashed
  dashed-Good [] l = tt
  dashed-Good (warning ∷ warnings) (l, ls) =
      (comment-Good config (codes "- " ++ warning) (refl, (refl, l)), dashed-Good warnings ls)

  warned-Good :
      (warnings : Option (List Text))
      → All (Lacks 10) (or_nil warnings)
      → All (Good config) (warned warnings)
  warned-Good none l = tt
  warned-Good (some []) l = tt
  warned-Good (some (w ∷ ws)) l = (
    comment-Good config (9888 ∷ 65039 ∷ codes "  WARNINGS:")
        (Lacks-lacks 10 (9888 ∷ 65039 ∷ codes "  WARNINGS:") refl),
    All-append (Good config) (dashed (w ∷ ws)) ([] ∷ []) (dashed-Good (w ∷ ws) l)
        (blank-Good config, tt),
  )

config_lines-Good :
    (profile : EnvironmentProfile) (time : Text)
    → Plain profile time
    → All (Good profile.config) (config_lines profile time)
unfolding config_lines
config_lines-Good profile time p =
    let c = profile.config in
    comment-Good c (codes "Via Labs V4 Environment Configuration")
      (Lacks-lacks 10 (codes "Via Labs V4 Environment Configuration") refl)
    & comment-Good c (codes "Profile: " ++ profile.name) (
        append-Lacks 10 (codes "Profile: ") profile.name (Lacks-lacks 10 (codes "Profile: ") refl)
          p.name_line)
    & comment-Good c (codes "Generated: " ++ time) (
        append-Lacks 10 (codes "Generated: ") time (Lacks-lacks 10 (codes "Generated: ") refl)
          p.time_line)
    & blank-Good c
    & All-append (Good c) (described profile.description) _
        (described-Good c p.entries profile.description p.description_line)
        (All-append (Good c) (warned profile.warnings) _
          (warned-Good c p.entries profile.warnings p.warning_lines)
          (
            comment-Good c (codes "Required Configuration")
                (Lacks-lacks 10 (codes "Required Configuration") refl),
            All-append (Good c) (assignments c profile.required) _
                (assignments-Good c p.entries profile.required p.required_keys)
                (All-append (Good c)
                  (headed (codes "Optional Configuration") (assignments c profile.optional)) _
                  (headed-Good c p.entries (codes "Optional Configuration") _
                    (Lacks-lacks 10 (codes "Optional Configuration") refl)
                    (assignments-Good c p.entries profile.optional p.optional_keys))
                  (headed-Good c p.entries (codes "Additional Configuration") _
                    (Lacks-lacks 10 (codes "Additional Configuration") refl)
                    (other-Good c p.entries (profile.required ++ profile.optional) c p.entries))),
          ))

mem-assignments :
    (config : List (Text × Text)) (key : Text) (keys : List Text)
    → Memᴰ key keys
    → Memᴰ (assignment key (value_of config key)) (assignments config keys)
unfolding assignments
mem-assignments config key [] m = elim m [ ]
mem-assignments config key (k ∷ keys) (head e) = head (ap (λ j. assignment j (value_of config j)) e)
mem-assignments config key (k ∷ keys) (tail m) = tail (mem-assignments config key keys m)

mem-headed :
    (heading line : Text) (lines : List Text) → Memᴰ line lines → Memᴰ line (headed heading lines)
unfolding headed
mem-headed heading line [] m = elim m [ ]
mem-headed heading line (l ∷ lines) m = tail (tail m)

mem_of_All : {A : Type 0} (P : A → Type 0) {x : A} (xs : List A) → Memᴰ x xs → All P xs → P x
mem_of_All P [] m h = elim m [ ]
mem_of_All P (y ∷ xs) (head e) (h, hs) = subst P (sym e) h
mem_of_All P (y ∷ xs) (tail m) (h, hs) = mem_of_All P xs m hs

map_All :
    {A : Type 0} (P Q : A → Type 0) (xs : List A) → ((x : A) → P x → Q x) → All P xs → All Q xs
map_All P Q [] f h = tt
map_All P Q (x ∷ xs) f (h, hs) = (f x h, map_All P Q xs f hs)

documented-IsKey :
    (profile : EnvironmentProfile) (time key : Text)
    → Plain profile time
    → Memᴰ key profile.required ⊎ Memᴰ key profile.optional
    → IsKey key
documented-IsKey profile time key p (inl m) = mem_of_All IsKey profile.required m p.required_keys
documented-IsKey profile time key p (inr m) = mem_of_All IsKey profile.optional m p.optional_keys

mem-config_lines :
    (profile : EnvironmentProfile) (time key : Text)
    → Memᴰ key profile.required ⊎ Memᴰ key profile.optional
    → Memᴰ (assignment key (value_of profile.config key)) (config_lines profile time)
unfolding config_lines
mem-config_lines profile time key (inl m) = tail (
    tail (
      tail (
        tail (
          mem_right (described profile.description) _ (
            mem_right (warned profile.warnings) _ (
              tail (
                mem_left (assignments profile.config profile.required) _
                  (mem-assignments profile.config key profile.required m))))))))
mem-config_lines profile time key (inr m) = tail (
    tail (
      tail (
        tail (
          mem_right (described profile.description) _ (
            mem_right (warned profile.warnings) _ (
              tail (
                mem_right (assignments profile.config profile.required) _ (
                  mem_left
                    (headed (codes "Optional Configuration")
                      (assignments profile.config profile.optional))
                    _
                    (mem-headed _ _ (assignments profile.config profile.optional)
                      (mem-assignments profile.config key profile.optional m))))))))))

-- loadEnvFile finds, in the text that generateConfig writes for a plain profile, every key that the
-- profile requires or that is optional, with its value in the profile's configuration, or with the
-- empty text if it has none there.
pub load_text-config_lines :
    (profile : EnvironmentProfile) (time key : Text)
    → Plain profile time
    → Memᴰ key profile.required ⊎ Memᴰ key profile.optional
    → entry key (load_text (unlines (config_lines profile time)))
      ≡ some (value_of profile.config key)
unfolding load_text
load_text-config_lines profile time key p m =
    let c = profile.config in
    let lines = config_lines profile time in
    let good = config_lines-Good profile time p in
    rw (split-unlines lines (map_All (Good c) (Lacks 10) lines (λ line g. g.1) good)) (
      load_lines-assigned (value_of c) key (assignment key (value_of c key)) (lines ++ [] ∷ []) []
        (mem_left lines ([] ∷ []) (mem-config_lines profile time key m))
        (parse_line-assignment key (value_of c key) (documented-IsKey profile time key p m)
          (value_of-IsWord c c key p.entries))
        (All-append (Agrees (value_of c)) lines ([] ∷ [])
          (map_All (Good c) (Agrees (value_of c)) lines (λ line g. g.0) good)
          ((blank-Good c).0, tt)))
