-- ===== src/Setup/Session.antt =====
-- The methods of scripts/deployment/setup.ts as actions: each takes the state of a run and gives
-- what it returns or throws, with the state it leaves. What was recorded before an exception stays.
pub mod Keeps
use via_solana_gateway_v.Prelude.{List, ◌∷◌, Error, Result, ok, err}
use via_solana_gateway_v.Prelude.Actions.{Action}
use via_solana_gateway_v.Setup.Types.{SetupResult, TransactionInstruction}

-- The cluster, the result that the methods fill, and the instructions handed to `sendAndConfirm`,
-- the latest first.
pub record Session (World : Type 0) : Type 0 where
  pub world : World
  pub result : SetupResult
  pub sent : List TransactionInstruction

module _ {World A : Type 0} where
  -- A call over the network.
  abbrev pub remote : (World → Result A × World) → Action (Session World) A
  remote call s =
      let (r, w) = call s.world in (r, record { world = w; result = s.result; sent = s.sent })

module _ {World : Type 0} where
  abbrev pub modify : (SetupResult → SetupResult) → Action (Session World) Unit
  modify f s = (ok tt, record { world = s.world; result = f s.result; sent = s.sent })

  abbrev pub log_sent : TransactionInstruction → Action (Session World) Unit
  log_sent ix s = (ok tt, record { world = s.world; result = s.result; sent = ix ∷ s.sent })

module _ {World : Type 0} where
  abbrev pub handle :
      Result (Unit {0}) → (Error → Session World → Session World) → Session World → Session World
  handle (ok u) h s = s
  handle (err e) h s = h e s

  -- `try { m } catch (error) { handler }`, where the handler records a message.
  unfoldable pub catching :
      (Error → SetupResult → SetupResult)
      → Action (Session World) Unit
      → Session World
      → Session World
  catching h m s =
      let (r, s') = m s in
      handle r (λ e s1. record { world = s1.world; result = h e s1.result; sent = s1.sent }) s'
