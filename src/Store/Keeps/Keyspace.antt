-- ===== src/Store/Keeps/Keyspace.antt =====
-- RENAME, the sweep and the loss of everything.
use redix.Prelude.{ℕ, Bool, Bytes}
use redix.Store.Value.{DataMap}
use redix.Store.Keyspace.{rename}
use redix.Store.Keeps.{Closed, if_end_rule, find_live_mut-keeps, find_live_mut-valid}

module _ {κ} {src dst : Bytes} {I : DataMap → Type κ} (c : Closed src I) (c' : Closed dst I) where
  pub rename-keeps : (now : ℕ) (d : DataMap) → I d → I (rename now src dst d).1
  unfolding rename
  rename-keeps now d h =
      let kept = find_live_mut-keeps c now d h in
      if_end_rule (λ (r : Bool × DataMap). I r.1) _ _ _ kept
        λ e q. c'.written _ _ (find_live_mut-valid c now d e h q) (c.erased _ kept)
