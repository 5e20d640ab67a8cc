-- ===== src/Env/Files.antt =====
-- The text that generateConfig of scripts/deployment/env-manager.ts writes, and what loadEnvFile
-- reads of such a text.
pub mod RoundTrip
pub mod Generated
use via_solana_gateway_v.Prelude.{
  Bool, true, false, ◌||◌, List, [], ◌∷◌, ◌++◌, Option, none, some, if◌then◌else◌, Text, codes,
  text_eq,
}
use via_solana_gateway_v.Prelude.Words.{includes, trim, starts_with, split, join}
use via_solana_gateway_v.Network.Types.{entry}
use via_solana_gateway_v.Env.Types.{EnvironmentProfile}

-- Text that is put together line by line, each ended by a line break.
unfoldable pub unlines : List Text → Text
unlines [] = []
unlines (line ∷ lines) = line ++ (10 ∷ unlines lines)

abbrev pub or_empty : Option Text → Text
or_empty none = []
or_empty (some text) = text

-- `profile.config[key] || ""`
unfoldable pub value_of : List (Text × Text) → Text → Text
value_of config key = or_empty (entry key config)

-- `${key}=${value}`
unfoldable pub assignment : Text → Text → Text
assignment key value = key ++ (61 ∷ value)

-- `# ${text}`
unfoldable pub comment : Text → Text
comment text = 35 ∷ 32 ∷ text

unfoldable pub assignments : List (Text × Text) → List Text → List Text
assignments config [] = []
assignments config (key ∷ keys) = assignment key (value_of config key) ∷ assignments config keys

unfoldable pub other_entries : List Text → List (Text × Text) → List (Text × Text)
other_entries documented [] = []
other_entries documented ((key, value) ∷ config) =
    let rest = other_entries documented config in
    if includes key documented then rest else (key, value) ∷ rest

unfoldable pub entry_lines : List (Text × Text) → List Text
entry_lines [] = []
entry_lines ((key, value) ∷ entries) = assignment key value ∷ entry_lines entries

-- A heading in front of lines, if there are any.
unfoldable pub headed : Text → List Text → List Text
headed heading [] = []
headed heading (line ∷ lines) = [] ∷ comment heading ∷ line ∷ lines

abbrev pub described : Text → List Text
described [] = []
described (c ∷ description) = comment (c ∷ description) ∷ [] ∷ []

unfoldable pub dashed : List Text → List Text
dashed [] = []
dashed (warning ∷ warnings) = comment (codes "- " ++ warning) ∷ dashed warnings

abbrev pub warned : Option (List Text) → List Text
warned none = []
warned (some []) = []
warned (some (w ∷ ws)) =
    (comment (9888 ∷ 65039 ∷ codes "  WARNINGS:") ∷ dashed (w ∷ ws)) ++ ([] ∷ [])

-- The lines of the file for a profile, generated at a time.
unfoldable pub config_lines : EnvironmentProfile → Text → List Text
config_lines profile time =
    (comment (codes "Via Labs V4 Environment Configuration")
      ∷ comment (codes "Profile: " ++ profile.name)
      ∷ comment (codes "Generated: " ++ time)
      ∷ []
      ∷ [])
    ++ (described profile.description
        ++ (warned profile.warnings
            ++ (comment (codes "Required Configuration")
                ∷ (assignments profile.config profile.required
                    ++ (headed (codes "Optional Configuration")
                          (assignments profile.config profile.optional)
                        ++ headed (codes "Additional Configuration") (
                            entry_lines (
                              other_entries (profile.required ++ profile.optional)
                                profile.config)))))))

-- `env[key] = value`
unfoldable pub put_entry : Text → Text → List (Text × Text) → List (Text × Text)
put_entry key value [] = (key, value) ∷ []
put_entry key value ((k, v) ∷ env) =
    let rest = put_entry key value env in if text_eq k key then (k, value) ∷ env else (k, v) ∷ rest

-- The parts of a line at `=`: a key, and a value if there is a second part.
unfoldable pub from_parts : List Text → Option (Text × Text)
from_parts [] = none
from_parts (key ∷ []) = none
from_parts ([] ∷ part ∷ parts) = none
from_parts ((c ∷ key) ∷ part ∷ parts) = some (trim (c ∷ key), trim (join 61 (part ∷ parts)))

abbrev is_blank : Text → Bool
is_blank [] = true
is_blank (c ∷ s) = false

unfoldable pub parse_trimmed : Text → Option (Text × Text)
parse_trimmed trimmed =
    if is_blank trimmed || starts_with (codes "#") trimmed
    then none
    else from_parts (split 61 trimmed)

unfoldable pub parse_line : Text → Option (Text × Text)
parse_line line = parse_trimmed (trim line)

abbrev pub put_if : Option (Text × Text) → List (Text × Text) → List (Text × Text)
put_if none env = env
put_if (some (key, value)) env = put_entry key value env

unfoldable pub load_lines : List Text → List (Text × Text) → List (Text × Text)
load_lines [] env = env
load_lines (line ∷ lines) env = load_lines lines (put_if (parse_line line) env)

-- What loadEnvFile makes of the text of a file.
unfoldable pub load_text : Text → List (Text × Text)
load_text content = load_lines (split 10 content) []
