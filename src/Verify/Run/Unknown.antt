-- ===== src/Verify/Run/Unknown.antt =====
-- A verification of scripts/deployment/verify.ts whose categories are all misspelt.
use mathlib.Core.List.{Memᴰ}
use mathlib.Core.List.Memᴰ.{head, tail}
use via_solana_gateway_v.Prelude.{
  ◌≡◌, refl, true, false, List, [], ◌∷◌, All, Text, codes, text_eq, text_eq_comm, ◌∙◌, arith,
}
use via_solana_gateway_v.Prelude.Words.{includes}
use via_solana_gateway_v.Verify.Types.{DeploymentVerifier, Rpc}
use via_solana_gateway_v.Verify.Run.{should_run_category, run_checks, verify, calculate_summary}

-- The categories that `verify` asks for.
abbrev categories : List Text
categories =
    codes "program" ∷ codes "network" ∷ codes "account" ∷ codes "security" ∷ codes "functional" ∷ []

abbrev pub NotKnown : Text → Type 0
NotKnown category = includes category categories ≡ false

absent-ne :
    (word k : Text) (ks : List Text) → includes word ks ≡ false → Memᴰ k ks → text_eq k word ≡ false
unfolding includes
absent-ne word k [] absent m = elim m [ ]
absent-ne word k (x ∷ ks) absent (head e) = rw e (ground arith)
absent-ne word k (x ∷ ks) absent (tail m) = absent-ne word k ks (ground arith) m

includes_unknown :
    (category : Text) (asked : List Text)
    → Memᴰ category categories
    → All NotKnown asked
    → includes category asked ≡ false
unfolding includes
includes_unknown category [] m h = refl
includes_unknown category (a ∷ asked) m (u, h) =
    rw (text_eq_comm a category ∙ absent-ne a category categories u m)
      (includes_unknown category asked m h)

module _ {World : Type 0} (rpc : Rpc World) (this : DeploymentVerifier) where
  not_run :
      (category first : Text) (others : List Text)
      → this.check_categories ≡ first ∷ others
      → All NotKnown (first ∷ others)
      → Memᴰ category categories
      → should_run_category this category ≡ false
  unfolding should_run_category
  not_run category first others e h m = rw e (includes_unknown category (first ∷ others) m h)

  -- If the configuration selects categories, and none of them is one of the five that `verify` knows,
  -- it makes no check and no call to the cluster, and reports a success.
  pub verify_unknown_category :
      (w : World) (first : Text) (others : List Text)
      → this.check_categories ≡ first ∷ others
      → All NotKnown (first ∷ others)
      → ((verify rpc this w).result.checks ≡ [])
        × ((verify rpc this w).world ≡ w)
        × ((verify rpc this w).result.success ≡ true)
  unfolding verify run_checks calculate_summary
  verify_unknown_category w first others e h =
      rw
        (
          not_run (codes "program") first others e h (head refl),
          not_run (codes "network") first others e h (tail (head refl)),
          not_run (codes "account") first others e h (tail (tail (head refl))),
          not_run (codes "security") first others e h (tail (tail (tail (head refl)))),
          not_run (codes "functional") first others e h (tail (tail (tail (tail (head refl))))),
        )
        (refl, refl, refl)
