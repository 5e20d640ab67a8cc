-- ===== src/Deploy/Output.antt =====
-- extractProgramId and extractTxSignature of scripts/deployment/deploy.ts: the regular expressions
-- that look for a label, white space and a word of letters and digits.
use via_solana_gateway_v.Prelude.{
  ℕ, ◌+◌, Bool, ◌&&◌, ◌||◌, [], ◌∷◌, Option, none, some, length, take, leb, if◌then◌else◌, Text,
  codes,
}
use via_solana_gateway_v.Prelude.Words.{trim_start, starts_with}

-- The class `[A-Za-z0-9]`.
unfoldable pub is_alphanumeric : ℕ → Bool
is_alphanumeric c = (leb 65 c && leb c 90) || (leb 97 c && leb c 122) || (leb 48 c && leb c 57)

-- The longest run of the class at the start.
unfoldable pub word : Text → Text
word [] = []
word (c ∷ s) = let rest = word s in if is_alphanumeric c then c ∷ rest else []

-- `([A-Za-z0-9]{low,high})` at the start.
unfoldable pub bounded_word : ℕ → ℕ → Text → Option Text
bounded_word low high s = if leb low (length (word s)) then some (take high (word s)) else none

abbrev or_later : Option Text → Option Text → Option Text
or_later none later = later
or_later (some found) later = some found

-- The first place where the pattern matches.
unfoldable pub search_text : (Text → Option Text) → Text → Option Text
search_text at_place [] = at_place []
search_text at_place (c ∷ s) = or_later (at_place (c ∷ s)) (search_text at_place s)

abbrev drop_prefix : Text → Text → Text
drop_prefix [] s = s
drop_prefix (c ∷ p) [] = []
drop_prefix (c ∷ p) (d ∷ s) = drop_prefix p s

unfoldable pub after_label : Text → (Text → Option Text) → Text → Option Text
after_label label rest s = if starts_with label s then rest (drop_prefix label s) else none

-- A capital letter as a small one, as the flag `i` compares them.
unfoldable pub fold_case : Text → Text
fold_case [] = []
fold_case (c ∷ s) = (if leb 65 c && leb c 90 then c + 32 else c) ∷ fold_case s

unfoldable pub after_label_i : Text → (Text → Option Text) → Text → Option Text
after_label_i label rest s =
    if starts_with label (fold_case s) then rest (drop_prefix label s) else none

unfoldable pub extract_program_id : Text → Option Text
extract_program_id output =
    or_later
      (search_text (after_label (codes "Program Id:") (λ s. bounded_word 32 44 (trim_start s)))
        output)
      (search_text (after_label (codes "Program ID:") (λ s. bounded_word 32 44 (trim_start s)))
        output)

unfoldable pub extract_tx_signature : Text → Option Text
extract_tx_signature output =
    or_later (search_text (after_label (codes "Signature: ") (bounded_word 87 88)) output)
      (search_text (after_label_i (codes "signature: ") (bounded_word 87 88)) output)

-- `text.includes(part)`
unfoldable pub contains : Text → Text → Bool
contains part [] = starts_with part []
contains part (c ∷ s) = starts_with part (c ∷ s) || contains part s
