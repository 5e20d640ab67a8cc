-- ===== src/Network/Toml/Indices.antt =====
-- The edit of Anchor.toml's lines by indices, as updateAnchorToml of
-- scripts/deployment/network-manager.ts makes it, is the edit in one pass.
use via_solana_gateway_v.Prelude.{
  ℕ, zero, suc, ◌-◌, ◌≡◌, refl, ap, ◌∙◌, Bool, true, false, ◌&&◌, List, [], ◌∷◌, Option, none, some,
  ltb, le→ltb, lt→ltb, if◌then◌else◌, arith, Text,
}
use via_solana_gateway_v.Network.Toml.{
  is_header, opens_section, is_program, find_index, program_index, or_length, write_line,
  at_section, set_line, insert_line, end_index, update_section, update_lines,
}
use via_solana_gateway_v.Network.Toml.Reference.{
  has_program, replace_program, put_program, set_program,
}

abbrev next : Option ℕ → Option ℕ
next none = none
next (some i) = some (suc i)

if_next :
    (b : Bool) (i : ℕ) (rest : Option ℕ)
    → (if b then some (suc i) else next rest) ≡ next (if b then some i else rest)
if_next true i rest = refl
if_next false i rest = refl

find_index-suc :
    (p q : ℕ → Text → Bool) (i : ℕ) (lines : List Text)
    → ((j : ℕ) (l : Text) → p (suc j) l ≡ q j l)
    → find_index p (suc i) lines ≡ next (find_index q i lines)
unfolding find_index
find_index-suc p q i [] h = refl
find_index-suc p q i (l ∷ ls) h = rw (h i l) (rw (find_index-suc p q (suc i) ls h) (if_next _ _ _))

program_index-suc :
    (left i : ℕ) (l : Text) (lines : List Text)
    → program_index left (suc i) (l ∷ lines) ≡ next (program_index left i lines)
unfolding program_index
program_index-suc zero i l lines = refl
program_index-suc (suc left) i l lines = rw (program_index-suc left (suc i) l lines) (if_next _ _ _)

or_length-next :
    (l : Text) (ls : List Text) (o : Option ℕ) → or_length (l ∷ ls) (next o) ≡ suc (or_length ls o)
or_length-next l ls none = refl
or_length-next l ls (some i) = refl

ltb-suc : (a b : ℕ) → ltb (suc a) (suc b) ≡ ltb a b
ltb-suc a b = ground arith

minus-suc : (a b : ℕ) → suc a - suc b ≡ a - b
minus-suc a b = omega arith

minus_one : (a : ℕ) → suc a - 1 ≡ a
minus_one a = omega arith

end_index-suc :
    (section : ℕ) (l : Text) (ls : List Text)
    → end_index (suc section) (l ∷ ls) ≡ suc (end_index section ls)
unfolding end_index find_index
end_index-suc section l ls = rw (le→ltb (suc section) 0 (omega arith)) (
    rw
      (find_index-suc (λ idx line. ltb (suc section) idx && opens_section line)
        (λ idx line. ltb section idx && opens_section line) 0 ls
        (λ j k. ap (λ b. b && opens_section k) (ltb-suc section j)))
      (or_length-next l ls (find_index (λ idx line. ltb section idx && opens_section line) 0 ls)))

-- The end of a section whose header is the line before.
unfoldable first_end : List Text → ℕ
first_end ls = or_length ls (find_index (λ idx. opens_section) 0 ls)

end_index_zero : (l : Text) (ls : List Text) → end_index 0 (l ∷ ls) ≡ suc (first_end ls)
unfolding end_index find_index first_end
end_index_zero l ls =
    rw
      (find_index-suc (λ idx line. ltb 0 idx && opens_section line) (λ idx. opens_section) 0 ls
        (λ j k. ap (λ b. b && opens_section k) (lt→ltb 0 (suc j) (omega arith))))
      (or_length-next l ls (find_index (λ idx. opens_section) 0 ls))

first_end_cons :
    (l : Text) (ls : List Text)
    → first_end (l ∷ ls) ≡ (if opens_section l then 0 else suc (first_end ls))
unfolding first_end find_index
first_end_cons l ls =
    rw (find_index-suc (λ idx. opens_section) (λ idx. opens_section) 0 ls (λ j k. refl))
      (go (opens_section l))
  where
    go :
        (b : Bool)
        → or_length (l ∷ ls) (if b then some 0 else next (find_index (λ idx. opens_section) 0 ls))
          ≡ (if b then 0 else suc (or_length ls (find_index (λ idx. opens_section) 0 ls)))
    go true = refl
    go false = or_length-next l ls (find_index (λ idx. opens_section) 0 ls)

abbrev is_index : Option ℕ → Bool
is_index none = false
is_index (some i) = true

is_index-next : (o : Option ℕ) → is_index (next o) ≡ is_index o
is_index-next none = refl
is_index-next (some i) = refl

program_index-has : (ls : List Text) → is_index (program_index (first_end ls) 0 ls) ≡ has_program ls
unfolding has_program program_index first_end find_index
program_index-has [] = refl
program_index-has (l ∷ ls) =
    rw (first_end_cons l ls) (go (program_index-has ls) (opens_section l) (is_program l) refl)
  where
    go :
        is_index (program_index (first_end ls) 0 ls) ≡ has_program ls
        → (o p : Bool) → is_program l ≡ p
        → is_index (program_index (if o then 0 else suc (first_end ls)) 0 (l ∷ ls))
          ≡ (if o then false else if p then true else has_program ls)
    go ih true p e = refl
    go ih false true e = rw e refl
    go ih false false e = rw e (rw (program_index-suc (first_end ls) 0 l ls) (is_index-next _ ∙ ih))

module _ (line : Text) where
  abbrev replaced_at : List Text → Option ℕ → List Text
  replaced_at ls none = line ∷ ls
  replaced_at ls (some i) = set_line i line ls

  replaced_at-next :
      (l : Text) (ls : List Text) (o : Option ℕ) (has : Bool)
      → replaced_at ls o ≡ (if has then replace_program line ls else line ∷ ls)
      → is_index o ≡ has
      → replaced_at (l ∷ ls) (next o) ≡ (if has then l ∷ replace_program line ls else line ∷ l ∷ ls)
  unfolding set_line
  replaced_at-next l ls none true h e = cc
  replaced_at-next l ls none false h e = refl
  replaced_at-next l ls (some i) true h e = ap (λ r. l ∷ r) h
  replaced_at-next l ls (some i) false h e = cc

  put_program_lem :
      (ls : List Text) → replaced_at ls (program_index (first_end ls) 0 ls) ≡ put_program line ls
  unfolding put_program has_program replace_program program_index set_line first_end find_index
  put_program_lem [] = refl
  put_program_lem (l ∷ ls) =
      rw (first_end_cons l ls)
        (go (put_program_lem ls) (program_index-has ls) (opens_section l) (is_program l) refl)
    where
      go :
          replaced_at ls (program_index (first_end ls) 0 ls) ≡ put_program line ls
          → is_index (program_index (first_end ls) 0 ls) ≡ has_program ls
          → (o p : Bool) → is_program l ≡ p
          → replaced_at (l ∷ ls) (program_index (if o then 0 else suc (first_end ls)) 0 (l ∷ ls))
            ≡ (if (if o then false else if p then true else has_program ls)
                then (if o then l ∷ ls else if p then line ∷ ls else l ∷ replace_program line ls)
                else line ∷ l ∷ ls)
      go ih has true p e = refl
      go ih has false true e = rw e refl
      go ih has false false e = rw e (
          rw (program_index-suc (first_end ls) 0 l ls)
            (replaced_at-next l ls (program_index (first_end ls) 0 ls) (has_program ls) ih has))

  write_line-next :
      (section : ℕ) (l : Text) (ls : List Text) (o : Option ℕ)
      → write_line (suc section) line (l ∷ ls) (next o) ≡ l ∷ write_line section line ls o
  unfolding set_line insert_line
  write_line-next section l ls none = refl
  write_line-next section l ls (some i) = refl

  write_line_first :
      (l : Text) (ls : List Text) (o : Option ℕ)
      → write_line 0 line (l ∷ ls) (next o) ≡ l ∷ replaced_at ls o
  unfolding set_line insert_line
  write_line_first l ls none = refl
  write_line_first l ls (some i) = refl

  update_section_first :
      (l : Text) (ls : List Text) → update_section 0 line (l ∷ ls) ≡ l ∷ put_program line ls
  unfolding update_section put_program
  update_section_first l ls = rw (end_index_zero l ls) (
      rw (minus_one (first_end ls)) (
        rw (program_index-suc (first_end ls) 0 l ls) (
          write_line_first l ls (program_index (first_end ls) 0 ls)
          ∙ ap (λ ls'. l ∷ ls') (put_program_lem ls))))

  update_section-suc :
      (section : ℕ) (l : Text) (ls : List Text)
      → update_section (suc section) line (l ∷ ls) ≡ l ∷ update_section section line ls
  unfolding update_section
  update_section-suc section l ls = rw (end_index-suc section l ls) (
      rw (minus-suc (end_index section ls) (suc section)) (
        rw (program_index-suc (end_index section ls - suc section) (suc section) l ls) (
          write_line-next section l ls
            (program_index (end_index section ls - suc section) (suc section) ls))))

  at_section-next :
      (header l : Text) (ls : List Text) (o : Option ℕ)
      → at_section header line (l ∷ ls) (next o) ≡ l ∷ at_section header line ls o
  at_section-next header l ls none = refl
  at_section-next header l ls (some s) = update_section-suc s l ls

  -- The edit of the lines by indices gives the same lines as the edit in one pass: behind the first
  -- header, the first program line before the next section is replaced, or the line is inserted; and
  -- without the header, a new section is put at the end.
  pub update_lines-set_program :
      (header : Text) (lines : List Text)
      → update_lines header line lines ≡ set_program line header lines
  unfolding update_lines find_index set_program
  update_lines-set_program header [] = refl
  update_lines-set_program header (l ∷ ls) =
      rw (find_index-suc (λ idx. is_header header) (λ idx. is_header header) 0 ls (λ j k. refl))
        (go (update_lines-set_program header ls) (is_header header l))
    where
      go :
          update_lines header line ls ≡ set_program line header ls
          → (b : Bool)
          → at_section header line
              (l ∷ ls)
              (if b then some 0 else next (find_index (λ idx. is_header header) 0 ls))
            ≡ (if b then l ∷ put_program line ls else l ∷ set_program line header ls)
      go ih true = update_section_first l ls
      go ih false =
          at_section-next header l ls (find_index (λ idx. is_header header) 0 ls)
          ∙ ap (λ ls'. l ∷ ls') ih
