-- ===== src/Decoders/Tables.antt =====
-- The objects that decoders/instructions.ts and decoders/events.ts use as maps from text to text,
-- and the reverse tables that they fill from `Object.entries`.
pub mod Laws
use via_solana_gateway_v.Prelude.{
  Bool, false, ◌||◌, List, [], ◌∷◌, Option, none, some, if◌then◌else◌, Text, text_eq,
}

-- `table[key]`, undefined where the key is missing.
unfoldable pub lookup : Text → List (Text × Text) → Option Text
lookup key [] = none
lookup key ((k, v) ∷ table) = if text_eq k key then some v else lookup key table

-- `table[key] = value`
unfoldable pub put : Text → Text → List (Text × Text) → List (Text × Text)
put key value [] = (key, value) ∷ []
put key value ((k, v) ∷ table) =
    if text_eq k key then (k, value) ∷ table else (k, v) ∷ put key value table

-- for (const [name, disc] of Object.entries(entries)) table[disc] = name
unfoldable pub reverse_table : List (Text × Text) → List (Text × Text) → List (Text × Text)
reverse_table table [] = table
reverse_table table ((name, disc) ∷ entries) = reverse_table (put disc name table) entries

-- `Object.values(entries).includes(key)`
unfoldable pub values_include : List (Text × Text) → Text → Bool
values_include [] key = false
values_include ((name, disc) ∷ entries) key = text_eq disc key || values_include entries key
