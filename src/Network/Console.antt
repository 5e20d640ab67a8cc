-- ===== src/Network/Console.antt =====
-- The state that a run of the network manager of scripts/deployment/network-manager.ts changes, and
-- the calls of Node that change it.
use via_solana_gateway_v.Prelude.{
  if◌then◌else◌, Error, thrown, ◌++◌, Bool, List, ◌∷◌, Option, none, Text, Result, ok,
}
use via_solana_gateway_v.Prelude.Actions.{Action, pure, throw, rescue, ◌>>=◌}
use via_solana_gateway_v.Network.Types.{NetworkConfig}
use via_solana_gateway_v.Network.System.{System}

-- What a run asked of the operating system.
pub data Effect : Type 0 where
  executed : Text → Effect
  written : Text → Text → Effect
  made_directory : Text → Effect
  unlinked : Text → Effect

-- The outside world, `this.config`, and what was asked for, the latest first.
pub record Console (World : Type 0) : Type 0 where
  pub world : World
  pub config : NetworkConfig
  pub effects : List Effect

module _ {World : Type 0} where
  abbrev pub asks : {A : Type 0} → Effect → (World → Result A × World) → Action (Console World) A
  asks effect call s =
      let (r, w) = call s.world in
      (r, record { world = w; config = s.config; effects = effect ∷ s.effects })

  abbrev pub set_config : NetworkConfig → Action (Console World) (Unit {0})
  set_config config s = (ok tt, record s { config = config })

module _ {World : Type 0} where
  -- `if (!condition) throw new Error(message)`
  abbrev pub require : Bool → Text → Action (Console World) (Unit {0})
  require condition message = if condition then pure tt else throw (thrown message)

module _ {World : Type 0} (system : System World) where
  abbrev pub exec_in : Option Text → Text → Action (Console World) Text
  exec_in cwd command = asks (executed command) (system.exec_sync cwd command)

  abbrev pub exec : Text → Action (Console World) Text
  exec = exec_in none

  abbrev pub write : Text → Text → Action (Console World) Unit
  write path text = asks (written path text) (system.write_file_sync path text)

  abbrev pub mkdir : Text → Action (Console World) Unit
  mkdir path = asks (made_directory path) (system.mkdir_sync path)

  abbrev pub unlink : Text → Action (Console World) Unit
  unlink path = asks (unlinked path) (system.unlink_sync path)

  abbrev pub exists : Text → Action (Console World) Bool
  exists path s = (ok (system.exists_sync path s.world), s)

  abbrev pub read : Text → Action (Console World) Text
  read path s = (system.read_file_sync path s.world, s)

  -- `throw new Error(prefix + error.message)` in a catch block, and with `${error}`
  abbrev pub rethrow_message : {A : Type 0} → Text → Error → Action (Console World) A
  rethrow_message prefix e = throw (thrown (prefix ++ system.error_message e))

  abbrev pub rethrow : {A : Type 0} → Text → Error → Action (Console World) A
  rethrow prefix e = throw (thrown (prefix ++ system.show_error e))

  -- `try { execSync(command) } catch { throw new Error(message) }`
  unfoldable pub require_command : Text → Text → Action (Console World) (Unit {0})
  require_command command message =
      rescue (exec command >>= λ output. pure tt) (λ e. throw (thrown message))
