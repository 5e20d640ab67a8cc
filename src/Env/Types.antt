-- ===== src/Env/Types.antt =====
-- The data of scripts/deployment/env-manager.ts, and what it takes from Node.
use via_solana_gateway_v.Prelude.{Bool, List, Option, Text, Error}
use via_solana_gateway_v.Prelude.Actions.{Action}

-- `config` as `Object.entries` lists it.
pub record EnvironmentProfile : Type 0 where
  pub name : Text
  pub description : Text
  pub config : List (Text × Text)
  pub required : List Text
  pub optional : List Text
  pub warnings : Option (List Text)

pub record Shell (World : Type 0) : Type 0 where
  -- `fs.existsSync`
  pub exists_sync : Text → World → Bool
  -- `fs.readFileSync(path, "utf8")`
  pub read_file_sync : Text → Action World Text
  -- `fs.writeFileSync(path, text)`
  pub write_file_sync : Text → Text → Action World (Unit {0})
  -- `fs.copyFileSync(from, to)`
  pub copy_file_sync : Text → Text → Action World (Unit {0})
  -- `new Date().toISOString()`, and `${Date.now()}`
  pub iso_now : World → Text × World
  pub show_now : World → Text × World
  -- `path.resolve(".env")` and `path.resolve(".env.template")`
  pub env_path : Text
  pub template_path : Text
  -- `os.homedir()`, which holds no `$`
  pub homedir : Text
  -- `text.toUpperCase()`
  pub to_upper : Text → Text
  -- `${error}`
  pub show_error : Error → Text
