-- ===== src/Network/Toml.antt =====
-- The lines of Anchor.toml as updateAnchorToml of scripts/deployment/network-manager.ts edits them.
pub mod Reference
pub mod Indices
pub mod Programs
use via_solana_gateway_v.Prelude.{
  ℕ, zero, suc, ◌-◌, Bool, true, false, ◌&&◌, List, [], ◌∷◌, ◌++◌, Option, none, some, length,
  get_elem?, ltb, if◌then◌else◌, Text, codes, text_eq,
}
use via_solana_gateway_v.Prelude.Words.{trim, starts_with, ends_with}

-- `[programs.${net}]`
unfoldable pub section_header : Text → Text
section_header net = codes "[programs." ++ net ++ codes "]"

-- `message_gateway_v4 = "${programId}"`
unfoldable pub program_line : Text → Text
program_line program_id = codes "message_gateway_v4 = \"" ++ program_id ++ codes "\""

-- `lines.findIndex((line, idx) => p)`, where `none` stands for -1 and the count starts at `i`.
unfoldable pub find_index : (ℕ → Text → Bool) → ℕ → List Text → Option ℕ
find_index p i [] = none
find_index p i (line ∷ lines) =
    let rest = find_index p (suc i) lines in if p i line then some i else rest

-- `line.trim() === sectionHeader`
unfoldable pub is_header : Text → Text → Bool
is_header header line = text_eq (trim line) header

-- `line.startsWith("[") && line.endsWith("]")`
unfoldable pub opens_section : Text → Bool
opens_section line = starts_with (codes "[") line && ends_with 93 line

-- `line.trim().startsWith("message_gateway_v4")`
unfoldable pub is_program : Text → Bool
is_program line = starts_with (codes "message_gateway_v4") (trim line)

abbrev pub holds_at : Option Text → Bool
holds_at none = false
holds_at (some line) = is_program line

-- The search from line `i` on, with the lines that are left before `endIndex`.
unfoldable pub program_index : ℕ → ℕ → List Text → Option ℕ
program_index zero i lines = none
program_index (suc left) i lines =
    let rest = program_index left (suc i) lines in
    if holds_at (get_elem? lines i) then some i else rest

-- `lines[i] = line`
unfoldable pub set_line : ℕ → Text → List Text → List Text
set_line i line [] = []
set_line zero line (l ∷ lines) = line ∷ lines
set_line (suc i) line (l ∷ lines) = l ∷ set_line i line lines

-- `lines.splice(i, 0, line)`
unfoldable pub insert_line : ℕ → Text → List Text → List Text
insert_line zero line lines = line ∷ lines
insert_line (suc i) line [] = line ∷ []
insert_line (suc i) line (l ∷ lines) = l ∷ insert_line i line lines

abbrev pub or_length : List Text → Option ℕ → ℕ
or_length lines none = length lines
or_length lines (some i) = i

-- `endIndex`: the next line that opens a section, or the end.
unfoldable pub end_index : ℕ → List Text → ℕ
end_index section lines =
    or_length lines (find_index (λ idx line. ltb section idx && opens_section line) 0 lines)

abbrev pub write_line : ℕ → Text → List Text → Option ℕ → List Text
write_line section line lines none = insert_line (suc section) line lines
write_line section line lines (some i) = set_line i line lines

-- The branch that found the section.
unfoldable pub update_section : ℕ → Text → List Text → List Text
update_section section line lines =
    write_line section line lines
      (program_index (end_index section lines - suc section) (suc section) lines)

abbrev pub at_section : Text → Text → List Text → Option ℕ → List Text
at_section header line lines none = lines ++ ([] ∷ header ∷ line ∷ [])
at_section header line lines (some section) = update_section section line lines

-- For the header and the program's line of a network.
unfoldable pub update_lines : Text → Text → List Text → List Text
update_lines header line lines =
    at_section header line lines (find_index (λ idx. is_header header) 0 lines)

-- The body of the loop over the networks.
unfoldable pub update_program : Text → Text → List Text → List Text
update_program net program_id = update_lines (section_header net) (program_line program_id)
