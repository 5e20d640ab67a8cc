-- ===== src/Setup/Session/Keeps.antt =====
-- Invariants of the steps of the setup: a step that catches its exceptions keeps what its body and
-- its handler keep.
use via_solana_gateway_v.Prelude.{Error, Result, ok, err}
use via_solana_gateway_v.Prelude.Actions.{Action}
use via_solana_gateway_v.Prelude.Actions.Keeps.{Keeps}
use via_solana_gateway_v.Setup.Types.{SetupResult}
use via_solana_gateway_v.Setup.Session.{Session, modify, handle, catching}

module _ {World : Type 0} (P : Session World → Type 0) where
  pub Keeps-catching :
      (h : Error → SetupResult → SetupResult) (m : Action (Session World) (Unit {0}))
      → Keeps P m
      → ((e : Error) → Keeps P (modify (h e)))
      → (s : Session World) → P s
      → P (catching h m s)
  unfolding catching
  Keeps-catching h m km kh s p = either (m s).0 (m s).1 (km s p)
    where
      either :
          (r : Result (Unit {0})) (s' : Session World)
          → P s'
          → P (handle r (λ e s1. (modify (h e) s1).1) s')
      either (ok u) s' p' = p'
      either (err e) s' p' = kh e s' p'
