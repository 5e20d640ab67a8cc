-- ===== src/Network/Anchor/Programs.antt =====
-- What a reader of Anchor.toml finds after updateAnchorToml of
-- scripts/deployment/network-manager.ts: an abstract view of the file, and that the edit of its
-- text implements the assignments to that view.
use mathlib.Core.List.{append_cancel_left, append_cancel_right}
use mathlib.Core.Bool.{true≢false}
use mathlib.Core.Path.{fun_ext}
use via_solana_gateway_v.Prelude.{
  ◌≡◌, ◌≢◌, refl, sym, ap, subst, ◌∙◌, inl, inr, Bool, true, false, List, [], ◌∷◌, Option, none,
  some, All, Bool-cases, if◌then◌else◌, arith, Text, codes, text_eq, text_eq_refl, eq_of_text_eq,
  ok,
}
use via_solana_gateway_v.Prelude.Words.{
  Lacks, append-Lacks, split, join, split-join, split-Lacks, split_ne_nil, Lacks-lacks, Lacks-lacks,
}
use via_solana_gateway_v.Network.Types.{Network, NetworkConfig, entry, truthy}
use via_solana_gateway_v.Network.Toml.{is_header, section_header, program_line, update_program}
use via_solana_gateway_v.Network.Toml.Reference.{set_program, set_program-All}
use via_solana_gateway_v.Network.Toml.Indices.{update_lines-set_program}
use via_solana_gateway_v.Network.Toml.Programs.{
  Tidy, program_of, section_header-IsHeader, program_line-IsProgramLine, program_of-set_program,
  program_of-set_program_other, set_program-Tidy, set_program_twice,
}
use via_solana_gateway_v.Network.Anchor.{update_one, update_networks, update_toml}

-- The program that the file names for a network.
unfoldable pub programs : List Text → Text → Option Text
programs lines net = program_of (section_header net) lines

-- The file as a map from networks to program lines, with a program ID assigned to a network, or
-- left as it is.
unfoldable pub assign : Text → Option Text → (Text → Option Text) → Text → Option Text
assign net none view = view
assign net (some program_id) view =
    λ n. if text_eq n net then some (program_line program_id) else view n

abbrev id_of : Option Network → Option Text
id_of none = none
id_of (some network) = truthy network.program_id

-- The assignments that the configuration asks for, in order.
unfoldable pub assign_all :
    List (Text × Network) → List Text → (Text → Option Text) → Text → Option Text
assign_all networks [] view = view
assign_all networks (net ∷ nets) view =
    assign_all networks nets (assign net (id_of (entry net networks)) view)

section_header_inj : (a b : Text) → section_header a ≡ section_header b → a ≡ b
unfolding section_header
section_header_inj a b e =
    append_cancel_right a b (codes "]") (append_cancel_left (codes "[programs.") _ _ e)

update_program-set_program :
    (net program_id : Text) (lines : List Text)
    → update_program net program_id lines
      ≡ set_program (program_line program_id) (section_header net) lines
unfolding update_program
update_program-set_program net program_id lines =
    update_lines-set_program (program_line program_id) (section_header net) lines

-- Updating the lines of Anchor.toml for a network a second time, with the same program ID, changes
-- nothing.
pub update_program_twice :
    (net program_id : Text) (lines : List Text)
    → update_program net program_id (update_program net program_id lines)
      ≡ update_program net program_id lines
update_program_twice net program_id lines =
    rw
      (
        update_program-set_program net program_id lines,
        update_program-set_program net program_id
            (set_program (program_line program_id) (section_header net) lines),
      )
      (set_program_twice (program_line program_id) (section_header net)
        (program_line-IsProgramLine program_id) (section_header-IsHeader net) lines)

programs-update_program :
    (net program_id : Text) (lines : List Text)
    → Tidy lines
    → (n : Text)
    → programs (update_program net program_id lines) n
      ≡ assign net (some program_id) (programs lines) n
unfolding programs assign
programs-update_program net program_id lines t n =
    rw (update_program-set_program net program_id lines) (go (text_eq n net) refl)
  where
    go :
        (b : Bool)
        → text_eq n net ≡ b
        → program_of
            (section_header n)
            (set_program (program_line program_id) (section_header net) lines)
          ≡ (if b then some (program_line program_id) else program_of (section_header n) lines)
    go true e = rw (eq_of_text_eq n net e) (
        program_of-set_program (program_line program_id) (program_line-IsProgramLine program_id)
          (section_header net) lines (section_header-IsHeader net))
    go false e =
        program_of-set_program_other (program_line program_id) (section_header net)
          (section_header n) (program_line-IsProgramLine program_id) (section_header-IsHeader net)
          (section_header-IsHeader n)
          (λ same. absurd (
            true≢false (
              sym (subst (λ m. text_eq n m ≡ true) (section_header_inj n net same) (text_eq_refl n))
              ∙ e)))
          lines t

update_one-programs :
    (net : Text) (o : Option Text) (lines : List Text)
    → Tidy lines
    → programs (update_one net o lines) ≡ assign net o (programs lines)
unfolding assign
update_one-programs net none lines t = refl
update_one-programs net (some program_id) lines t =
    fun_ext (λ n. programs-update_program net program_id lines t n)

update_one-Tidy :
    (net : Text) (o : Option Text) (lines : List Text) → Tidy lines → Tidy (update_one net o lines)
update_one-Tidy net none lines t = t
update_one-Tidy net (some program_id) lines t =
    rw (update_program-set_program net program_id lines) (
      set_program-Tidy (program_line program_id) (section_header net) lines
        (program_line-IsProgramLine program_id) (section_header-IsHeader net) t)

abbrev IdLacks : Option Text → Type 0
IdLacks none = Unit
IdLacks (some program_id) = Lacks 10 program_id

-- The networks are in the configuration, and what is written for them is on one line.
abbrev pub Writable : List (Text × Network) → List Text → Type 0
Writable networks = All (λ net.
    Lacks 10 net
    × ((network : Network) × (entry net networks ≡ some network)
        × IdLacks (truthy network.program_id)))

-- Lines that a split gives.
abbrev IsSplit : List Text → Type 0
IsSplit lines = All (Lacks 10) lines × (lines ≢ [])

split-IsSplit : (s : Text) → IsSplit (split 10 s)
split-IsSplit s = (split-Lacks 10 s, split_ne_nil 10 s)

split-join_lines : (lines : List Text) → IsSplit lines → split 10 (join 10 lines) ≡ lines
split-join_lines [] (h, n) = absurd (n refl)
split-join_lines (l ∷ lines) (h, n) = split-join 10 l lines h

set_program-cons : (line header : Text) (lines : List Text) → set_program line header lines ≢ []
unfolding set_program
set_program-cons line header [] e = cc
set_program-cons line header (l ∷ lines) e = elim (Bool-cases (is_header header l)) [
  | inl h ↦ ground (arith, h, e)
  | inr h ↦ ground (arith, h, e)
]

update_one-IsSplit :
    (net : Text) (o : Option Text) (lines : List Text)
    → Lacks 10 net
    → IdLacks o
    → IsSplit lines
    → IsSplit (update_one net o lines)
unfolding section_header program_line
update_one-IsSplit net none lines k i h = h
update_one-IsSplit net (some program_id) lines k i (h, n) =
    rw (update_program-set_program net program_id lines) (
      set_program-All (program_line program_id) (Lacks 10) (section_header net) tt
          (append-Lacks 10 (codes "[programs.") _ (Lacks-lacks 10 (codes "[programs.") refl)
            (append-Lacks 10 net (codes "]") k (Lacks-lacks 10 (codes "]") refl)))
          (append-Lacks 10 (codes "message_gateway_v4 = \"") _
            (Lacks-lacks 10 (codes "message_gateway_v4 = \"") refl)
            (append-Lacks 10 program_id (codes "\"") i (Lacks-lacks 10 (codes "\"") refl)))
          lines h,
      set_program-cons _ _ lines,
    )

update_networks_lem :
    (networks : List (Text × Network)) (nets lines : List Text)
    → Writable networks nets
    → Tidy lines
    → IsSplit lines
    → (edited : List Text) × (update_networks networks nets lines ≡ ok edited)
      × (programs edited ≡ assign_all networks nets (programs lines))
      × IsSplit edited
unfolding update_networks assign_all
update_networks_lem networks [] lines w t s = (lines, refl, refl, s)
update_networks_lem networks (net ∷ nets) lines ((k, (network, e, i)), w) t s =
    let o = truthy network.program_id in
    let (edited, done, view, s') =
      update_networks_lem networks nets (update_one net o lines) w (update_one-Tidy net o lines t)
        (update_one-IsSplit net o lines k i s) in
    (
      edited,
      rw e done,
      rw e (view ∙ ap (assign_all networks nets) (update_one-programs net o lines t)),
      s',
    )

-- Updating Anchor.toml for networks of the configuration succeeds, and afterwards the file names, for
-- every network, the program that the assignments of the configured IDs to the old file give, if no
-- name or ID has a line break and no header of the file has white space around it.
pub update_toml-programs :
    (config : NetworkConfig) (nets : List Text) (text : Text)
    → Writable config.networks nets
    → Tidy (split 10 text)
    → (edited : Text) × (update_toml config nets text ≡ ok edited)
      × (programs (split 10 edited) ≡ assign_all config.networks nets (programs (split 10 text)))
unfolding update_toml
update_toml-programs config nets text w t =
    let (edited, done, view, s) =
      update_networks_lem config.networks nets (split 10 text) w t (split-IsSplit text) in
    (join 10 edited, rw done refl, rw (split-join_lines edited s) view)
