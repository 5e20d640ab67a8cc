-- ===== src/Network/Types.antt =====
-- The data of scripts/deployment/network-manager.ts.
use via_solana_gateway_v.Prelude.{List, [], ◌∷◌, Option, none, some, if◌then◌else◌, Text, text_eq}

pub record Network : Type 0 where
  pub url : Text
  pub program_id : Option Text
  pub keypair_path : Text
  pub commitment : Text
  pub cost : Text
  pub description : Text

pub record Requirement : Type 0 where
  pub min_balance : Text
  pub validation : List Text

-- The two objects as `Object.entries` lists them.
pub record NetworkConfig : Type 0 where
  pub networks : List (Text × Network)
  pub requirements : List (Text × Requirement)

-- What JSON.parse finds in the configuration file under the two names.
pub record ParsedConfig : Type 0 where
  pub networks : Option (List (Text × Network))
  pub requirements : Option (List (Text × Requirement))

-- The files that the manager reads and writes, and the root of the project.
pub record Paths : Type 0 where
  pub config_path : Text
  pub anchor_toml_path : Text
  pub project_root : Text

module _ {A : Type 0} where
  -- `object[key]`, where `none` is `undefined`.
  unfoldable pub entry : Text → List (Text × A) → Option A
  entry key [] = none
  entry key ((k, a) ∷ entries) =
      let rest = entry key entries in if text_eq k key then some a else rest

  -- `object[key] = f(object[key])` for a key that is there.
  unfoldable pub change_entry : Text → (A → A) → List (Text × A) → List (Text × A)
  change_entry key f [] = []
  change_entry key f ((k, a) ∷ entries) =
      let rest = change_entry key f entries in
      if text_eq k key then (k, f a) ∷ entries else (k, a) ∷ rest

  -- `Object.keys(object)`
  unfoldable pub keys : List (Text × A) → List Text
  keys [] = []
  keys ((k, a) ∷ entries) = k ∷ keys entries

-- A string that is there and not empty, as `if (text)` asks.
abbrev pub truthy : Option Text → Option Text
truthy none = none
truthy (some []) = none
truthy (some (c ∷ s)) = some (c ∷ s)
