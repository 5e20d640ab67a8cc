-- ===== src/Network/Toml/Programs.antt =====
-- What a reader of Anchor.toml finds in it: for a section, the line that names its program.
use via_solana_gateway_v.Prelude.{
  ◌≡◌, refl, sym, ap, ◌∙◌, true, false, List, [], ◌∷◌, ◌++◌, Option, none, some, All, if◌then◌else◌,
  inl, inr, Bool-cases, ◌≢◌, subst, arith, Text, codes, text_eq, eq_of_text_eq, text_eq_refl,
}
use mathlib.Core.Bool.{true≢false}
use via_solana_gateway_v.Prelude.Words.{
  trim, trim_start, trim_end, is_space, starts_with, trim_between, ends_with-append,
}
use via_solana_gateway_v.Network.Toml.{
  section_header, program_line, is_header, opens_section, is_program,
}
use via_solana_gateway_v.Network.Toml.Reference.{
  set_program-All, replace_program, put_program, has_program, set_program,
}

-- The section's program line, behind its header.
unfoldable pub program_in : List Text → Option Text
program_in [] = none
program_in (l ∷ ls) =
    let rest = program_in ls in
    if opens_section l then none else if is_program l then some l else rest

unfoldable pub program_of : Text → List Text → Option Text
program_of header [] = none
program_of header (l ∷ ls) =
    let rest = program_of header ls in if is_header header l then program_in ls else rest

-- A line that is a section's header but for white space around it has none around it.
abbrev pub Tidy : List Text → Type 0
Tidy = All (λ l. opens_section (trim l) ≡ true → opens_section l ≡ true)

-- A header, and a line for a program.
abbrev pub IsHeader : Text → Type 0
IsHeader header = (trim header ≡ header) × (opens_section header ≡ true)

abbrev pub IsProgramLine : Text → Type 0
IsProgramLine line = (trim line ≡ line) × (opens_section line ≡ false) × (is_program line ≡ true)

pub section_header-IsHeader : (net : Text) → IsHeader (section_header net)
unfolding section_header opens_section starts_with is_space
section_header-IsHeader net = (
  trim_between 91 93 (codes "programs." ++ net) refl refl,
  ends_with-append 93 (codes "[programs." ++ net),
)

pub program_line-IsProgramLine : (program_id : Text) → IsProgramLine (program_line program_id)
unfolding program_line opens_section is_program starts_with is_space
program_line-IsProgramLine program_id =
    let same = trim_between 109 34 (codes "essage_gateway_v4 = \"" ++ program_id) refl refl in
    (same, refl, ap (starts_with (codes "message_gateway_v4")) same)

is_header_self : (header : Text) → IsHeader header → is_header header header ≡ true
unfolding is_header
is_header_self header (t, o) = rw t (text_eq_refl header)

is_header_nil : (header : Text) → IsHeader header → is_header header [] ≡ false
unfolding is_header opens_section starts_with trim trim_start trim_end text_eq
is_header_nil [] (t, o) = sym o
is_header_nil (c ∷ s) h = refl

module _ (line : Text) (line_ok : IsProgramLine line) where
  program_in-replace_program :
      (ls : List Text) → has_program ls ≡ true → program_in (replace_program line ls) ≡ some line
  unfolding has_program replace_program program_in
  program_in-replace_program [] h = cc
  program_in-replace_program (l ∷ ls) h = grind (arith, program_in-replace_program ls, line_ok)

  program_in-put_program : (ls : List Text) → program_in (put_program line ls) ≡ some line
  unfolding put_program program_in
  program_in-put_program ls = grind (arith, program_in-replace_program ls, line_ok)

  -- The edited section has the program's line.
  pub program_of-set_program :
      (header : Text) (ls : List Text)
      → IsHeader header
      → program_of header (set_program line header ls) ≡ some line
  unfolding program_of set_program program_in
  program_of-set_program header [] h =
      rw (is_header_nil header h, is_header_self header h, line_ok.1, line_ok.2) refl
  program_of-set_program header (l ∷ ls) h =
      grind (arith, program_of-set_program header ls h, program_in-put_program ls)

eq_of_is_header : (header l : Text) → is_header header l ≡ true → trim l ≡ header
unfolding is_header
eq_of_is_header header l e = eq_of_text_eq (trim l) header e

-- Neither the header of a section nor the line of a program is a header of another section.
is_header_other : (b a : Text) → IsHeader a → b ≢ a → is_header b a ≡ false
is_header_other b a h n = elim (Bool-cases (is_header b a)) [
  | inl e ↦ absurd (n (sym (eq_of_is_header b a e) ∙ h.0))
  | inr e ↦ e
]

is_header_tidy :
    (header l : Text)
    → IsHeader header
    → (opens_section (trim l) ≡ true → opens_section l ≡ true)
    → opens_section l ≡ false
    → is_header header l ≡ false
is_header_tidy header l h tidy closed = elim (Bool-cases (is_header header l)) [
  | inl e ↦ absurd (
      true≢false (
        sym (tidy (subst (λ t. opens_section t ≡ true) (sym (eq_of_is_header header l e)) h.1))
        ∙ closed))
  | inr e ↦ e
]

module _ (line header : Text) (line_ok : IsProgramLine line) (header_ok : IsHeader header) where
  is_header_line : is_header header line ≡ false
  is_header_line =
      is_header_tidy header line header_ok (λ o. subst (λ t. opens_section t ≡ true) line_ok.0 o)
        line_ok.1

  program_of-replace_program :
      (ls : List Text)
      → Tidy ls
      → program_of header (replace_program line ls) ≡ program_of header ls
  unfolding replace_program program_of
  program_of-replace_program [] t = refl
  program_of-replace_program (l ∷ ls) (t, ts) =
      grind (
        arith,
        program_of-replace_program ls ts,
        is_header_line,
        is_header_tidy header l header_ok t,
      )

  program_of-put_program :
      (ls : List Text) → Tidy ls → program_of header (put_program line ls) ≡ program_of header ls
  unfolding put_program program_of
  program_of-put_program ls t = grind (arith, program_of-replace_program ls t, is_header_line)

  program_in_new_section : program_in ([] ∷ header ∷ line ∷ []) ≡ none
  unfolding program_in opens_section is_program starts_with trim trim_start trim_end
  program_in_new_section = rw header_ok.1 refl

  program_in-set_program :
      (ls : List Text) → Tidy ls → program_in (set_program line header ls) ≡ program_in ls
  unfolding set_program program_in
  program_in-set_program [] t = program_in_new_section
  program_in-set_program (l ∷ ls) (t, ts) =
      grind (arith, program_in-set_program ls ts, is_header_tidy header l header_ok t)

module _ (line edited other : Text) (line_ok : IsProgramLine line) (edited_ok : IsHeader edited)
    (other_ok : IsHeader other) (distinct : other ≢ edited) where
  is_header_distinct : (l : Text) → is_header edited l ≡ true → is_header other l ≡ false
  is_header_distinct l e = elim (Bool-cases (is_header other l)) [
    | inl e' ↦ absurd (distinct (sym (eq_of_is_header other l e') ∙ eq_of_is_header edited l e))
    | inr e' ↦ e'
  ]

  pub program_of-set_program_other :
      (ls : List Text)
      → Tidy ls
      → program_of other (set_program line edited ls) ≡ program_of other ls
  unfolding set_program program_of
  program_of-set_program_other [] t =
      rw
        (
          is_header_nil other other_ok,
          is_header_other other edited edited_ok distinct,
          is_header_line line other line_ok other_ok,
        )
        refl
  program_of-set_program_other (l ∷ ls) (t, ts) = grind (
    arith,
    program_of-set_program_other ls ts,
    program_in-set_program line edited line_ok edited_ok ls ts,
    program_of-put_program line other line_ok other_ok ls ts,
    is_header_distinct l,
  )

pub set_program-Tidy :
    (line header : Text) (ls : List Text)
    → IsProgramLine line
    → IsHeader header
    → Tidy ls
    → Tidy (set_program line header ls)
unfolding opens_section starts_with trim trim_start trim_end
set_program-Tidy line header ls line_ok header_ok t =
    set_program-All line (λ l. opens_section (trim l) ≡ true → opens_section l ≡ true) header
      (λ o. o) (λ o. header_ok.1) (λ o. subst (λ u. opens_section u ≡ true) line_ok.0 o) ls t

module _ (line header : Text) (line_ok : IsProgramLine line) (header_ok : IsHeader header) where
  has_program-replaced : (ls : List Text) → has_program (replace_program line ls) ≡ has_program ls
  unfolding has_program replace_program
  has_program-replaced [] = refl
  has_program-replaced (l ∷ ls) = grind (arith, has_program-replaced ls, line_ok)

  replace_program_twice :
      (ls : List Text) → replace_program line (replace_program line ls) ≡ replace_program line ls
  unfolding replace_program
  replace_program_twice [] = refl
  replace_program_twice (l ∷ ls) = grind (arith, replace_program_twice ls, line_ok)

  put_program_twice :
      (ls : List Text) → put_program line (put_program line ls) ≡ put_program line ls
  unfolding put_program has_program replace_program
  put_program_twice ls = grind (arith, has_program-replaced ls, replace_program_twice ls, line_ok)

  pub set_program_twice :
      (ls : List Text)
      → set_program line header (set_program line header ls) ≡ set_program line header ls
  unfolding set_program put_program has_program replace_program
  set_program_twice [] =
      rw (is_header_nil header header_ok, is_header_self header header_ok, line_ok.1, line_ok.2)
        refl
  set_program_twice (l ∷ ls) = grind (arith, set_program_twice ls, put_program_twice ls)
