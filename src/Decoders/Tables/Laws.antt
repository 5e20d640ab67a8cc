-- ===== src/Decoders/Tables/Laws.antt =====
-- What the reverse tables hold: exactly the discriminators of the entries.
use via_solana_gateway_v.Prelude.{
  ◌≡◌, refl, subst, inl, inr, Bool, true, false, ◌||◌, List, [], ◌∷◌, Option, none, some,
  Bool-cases, if◌then◌else◌, All, arith, Text, text_eq, text_eq_iff, eq_of_text_eq,
}
use via_solana_gateway_v.Decoders.Tables.{lookup, put, reverse_table, values_include}

abbrev pub is_some {ℓ} : {A : Type ℓ} → Option A → Bool
is_some none = false
is_some (some a) = true

pub lookup-put :
    (j k v : Text) (table : List (Text × Text))
    → lookup j (put k v table) ≡ (if text_eq k j then some v else lookup j table)
unfolding lookup put
lookup-put j k v [] = refl
lookup-put j k v ((i, w) ∷ table) =
    ground (arith, lookup-put j k v table, text_eq_iff i k, text_eq_iff i j, text_eq_iff k j)

-- A reverse table has an entry for a key exactly where the key is a value of the entries.
pub is_some-lookup-reverse_table :
    (key : Text) (table entries : List (Text × Text))
    → is_some (lookup key (reverse_table table entries))
      ≡ (is_some (lookup key table) || values_include entries key)
unfolding reverse_table values_include
is_some-lookup-reverse_table key table [] = ground arith
is_some-lookup-reverse_table key table ((name, disc) ∷ entries) = ground (
  arith,
  is_some-lookup-reverse_table key (put disc name table) entries,
  lookup-put key disc name table,
)

-- What holds of every entry holds of an entry that is found.
pub lookup-All :
    (P : Text → Text → Type 0) (key value : Text) (table : List (Text × Text))
    → All (λ entry. P entry.0 entry.1) table
    → lookup key table ≡ some value
    → P key value
unfolding lookup
lookup-All P key value [] h e = cc
lookup-All P key value ((k, v) ∷ table) (p, h) e = elim (Bool-cases (text_eq k key)) [
  | inl same ↦
      let found : v ≡ value = ground arith in
      subst (λ t. P t value) (eq_of_text_eq k key same) (subst (P k) found p)
  | inr other ↦ lookup-All P key value table h (ground arith)
]
