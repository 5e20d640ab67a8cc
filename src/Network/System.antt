-- ===== src/Network/System.antt =====
-- What the deployment scripts take from Node: files, paths, commands and JSON. A command may leave
-- the file system and everything else in any state.
use via_solana_gateway_v.Prelude.{ℕ, Bool, Option, Text, Error, Result}
use via_solana_gateway_v.Network.Types.{NetworkConfig, ParsedConfig}

pub record System (World : Type 0) : Type 0 where
  -- `fs.existsSync`
  pub exists_sync : Text → World → Bool
  -- `fs.readFileSync(path, "utf8")`
  pub read_file_sync : Text → World → Result Text
  -- `fs.writeFileSync(path, text)`
  pub write_file_sync : Text → Text → World → Result (Unit {0}) × World
  -- `fs.mkdirSync(path, { recursive: true })`
  pub mkdir_sync : Text → World → Result (Unit {0}) × World
  -- `fs.unlinkSync`
  pub unlink_sync : Text → World → Result (Unit {0}) × World
  -- `fs.statSync(path).size`
  pub stat_size : Text → World → Result ℕ
  -- `execSync(command, { cwd })`, which throws if the command fails
  pub exec_sync : Option Text → Text → World → Result Text × World
  -- `Date.now()`
  pub now : World → ℕ × World
  -- `path.resolve` and `path.dirname`
  pub resolve : Text → Text
  pub dirname : Text → Text
  -- `error.message`, and `${error}`
  pub error_message : Error → Text
  pub show_error : Error → Text
  -- JSON.parse and JSON.stringify of the configuration
  pub parse_config : Text → Result ParsedConfig
  pub print_config : NetworkConfig → Text
