-- ===== src/RootTxn/Unbegun.antt =====
-- An `apply` that ends before its first state.
use rill_xray_agent.Prelude.{ℕ, ◌≤◌, String, ◌≡◌, Option, none}
use rill_xray_agent.RootTxn.World.{World}
use rill_xray_agent.RootTxn.Safe.{IsUntouched}

module _ {H : Type 0} (orig : Option String) (old : ℕ) where
  abbrev N : World H → Type 0
  N = IsUntouched orig old

  -- untouched, with so many writes left at most
  abbrev Short : ℕ → World H → Type 0
  Short n w = N w × (w.life ≤ n)

  -- with the backup that the managed file asks for
  abbrev Bare : World H → Type 0
  Bare w = Short 2 w × (w.work.backup ≡ none)
