-- ===== src/Command/Dispatch/Invariant.antt =====
-- What the commands keep, read off the dispatch table.
use redix.Prelude.{ℕ, ◌≡◌, ◌≢◌, refl, false, Option, none, some, List, ◌∷◌, Bytes}
use redix.FlatMap.{text_order, find}
use redix.Store.Value.{DataMap, Clock}
use redix.Store.Live.{find_live}
use redix.Store.Invariant.{IsValid, IsValid-Closed, Untouched, Untouched-Closed}
use redix.Command.Parse.{Command}
use redix.Command.Reply.{Handler}
use redix.Command.Dispatch.{dispatch_table, run_handler, dispatch, contains, is_write_command}
use redix.Command.Dispatch.Writers.{KeepsAll}
use redix.Command.Dispatch.Tables.{
  handler-rule, IsReader, dispatch_table-IsReader, dispatch_table-KeepsAll, several_keys, IsLocal,
  dispatch_table-IsLocal,
}

-- `P` of the new data, from `P` of the old data and of what each handler makes of it.
dispatch-rule {κ} :
    (P : DataMap → Type κ) (clock : Clock) (cmd : Command) (d : DataMap)
    → P d
    → ((handler : Handler)
        → find cmd.name dispatch_table ≡ some handler
        → P (handler clock cmd.args d).1)
    → P (dispatch clock cmd d).1
unfolding dispatch
dispatch-rule P clock cmd d h k = by_handler (find cmd.name dispatch_table) refl
  where
    by_handler :
        (o : Option Handler) → find cmd.name dispatch_table ≡ o → P (run_handler o clock cmd d).1
    by_handler none q = h
    by_handler (some handler) q = k handler q

-- A command that `is_write_command` does not name leaves the data exactly as it is, whatever its
-- arguments and the clock: no change of the data is missing from the list of commands to log.
pub dispatch-ReadOnly :
    (clock : Clock) (cmd : Command) (d : DataMap)
    → is_write_command cmd ≡ false
    → (dispatch clock cmd d).1 ≡ d
unfolding is_write_command
dispatch-ReadOnly clock cmd d h =
    dispatch-rule (λ d'. d' ≡ d) clock cmd d refl
      λ handler q.
        handler-rule IsReader dispatch_table-IsReader cmd.name handler q h clock cmd.args d

-- Every command, whatever its arguments and whether it succeeds, keeps the keyspace well-formed:
-- its keys sorted without duplicates, its hashes and sets too, and no stored list, hash or set empty.
pub dispatch-IsValid :
    (clock : Clock) (cmd : Command) (d : DataMap) → IsValid d → IsValid (dispatch clock cmd d).1
dispatch-IsValid clock cmd d h = dispatch-rule IsValid clock cmd d h λ handler q.
    handler-rule (λ name f. KeepsAll f) dispatch_table-KeepsAll cmd.name handler q IsValid
      IsValid-Closed (tt, tt) clock cmd.args d h

-- On a well-formed keyspace, a command other than DEL, MSET, FLUSHDB and RENAME changes nothing that
-- a client can see, at any time, under a key that is not its first argument.
pub dispatch-frame :
    (clock : Clock) (name key : Bytes) (rest : List Bytes) (d : DataMap) (j : Bytes) (t : ℕ)
    → IsValid d
    → contains name several_keys ≡ false
    → key ≢ j
    → find_live t j (dispatch clock (record { name = name; args = key ∷ rest }) d).1
      ≡ find_live t j d
dispatch-frame clock name key rest d j t h local ne =
    (dispatch-rule (Untouched j d) clock (record { name = name; args = key ∷ rest }) d
        (h, λ s. refl)
        λ handler q.
          handler-rule IsLocal dispatch_table-IsLocal name handler q local (Untouched j d) clock
            (key ∷ rest) d (Untouched-Closed j key d ne) (h, λ s. refl)).1
      t
