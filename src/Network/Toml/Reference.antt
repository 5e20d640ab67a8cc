-- ===== src/Network/Toml/Reference.antt =====
-- What updateAnchorToml does to the lines, without an index: one pass over the lines.
use via_solana_gateway_v.Prelude.{
  Bool, true, false, List, [], ◌∷◌, All, ◌&◌, if◌then◌else◌, arith, Text,
}
use via_solana_gateway_v.Network.Toml.{is_header, opens_section, is_program}

-- Whether there is a program line before the next section.
unfoldable pub has_program : List Text → Bool
has_program [] = false
has_program (l ∷ ls) =
    let rest = has_program ls in
    if opens_section l then false else if is_program l then true else rest

module _ (line : Text) where
  -- The lines with that line replaced.
  unfoldable pub replace_program : List Text → List Text
  replace_program [] = []
  replace_program (l ∷ ls) =
      let rest = replace_program ls in
      if opens_section l then l ∷ ls else if is_program l then line ∷ ls else l ∷ rest

  -- The lines behind a section's header.
  unfoldable pub put_program : List Text → List Text
  put_program ls = if has_program ls then replace_program ls else line ∷ ls

  -- The whole file.
  unfoldable pub set_program : Text → List Text → List Text
  set_program header [] = [] ∷ header ∷ line ∷ []
  set_program header (l ∷ ls) =
      let rest = set_program header ls in
      if is_header header l then l ∷ put_program ls else l ∷ rest

module _ (line : Text) where
  module _ (P : Text → Type 0) where
    replace_program-All : P line → (ls : List Text) → All P ls → All P (replace_program line ls)
    unfolding replace_program
    replace_program-All p [] h = tt
    replace_program-All p (l ∷ ls) (h, hs) = grind (arith, replace_program-All p ls hs)

    put_program-All : P line → (ls : List Text) → All P ls → All P (put_program line ls)
    unfolding put_program
    put_program-All p ls h =
        elim (has_program ls) as (λ b. All P (if b then replace_program line ls else line ∷ ls)) [
          | true ↦ replace_program-All p ls h
          | false ↦ (p, h)
        ]

    -- What holds of the lines and of the new ones holds of the edited lines.
    pub set_program-All :
        (header : Text)
        → P []
        → P header
        → P line
        → (ls : List Text) → All P ls
        → All P (set_program line header ls)
    unfolding set_program
    set_program-All header e h p [] t = e & h & p & tt
    set_program-All header e h p (l ∷ ls) (t, ts) =
        elim (is_header header l)
          as (λ b. All P (if b then l ∷ put_program line ls else l ∷ set_program line header ls)) [
            | true ↦ (t, put_program-All p ls ts)
            | false ↦ (t, set_program-All header e h p ls ts)
          ]
