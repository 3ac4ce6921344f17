-- ===== src/Store/Expiry/Deadline.antt =====
-- PEXPIRE sets the time up to which a client finds the entry.
use redix.Prelude.{
  ℕ, ◌+◌, ◌%◌, ◌≡◌, ◌≤◌, ◌<◌, refl, sym, ap, ◌∙◌, Bool, true, false, Option, none, some, arith,
  if◌then◌else◌, leb, Bytes,
}
use redix.FlatMap.{text_order, IsSorted}
use redix.FlatMap.Laws.{same_iff}
use redix.Store.Value.{Entry, DataMap, Clock, if_end}
use redix.Store.Live.{is_expired, find_live, find_live_mut}
use redix.Store.View.{
  find_live-insert, find_live_mut-eq-find_live, find_live-find_live_mut, find_live_later,
}
use redix.Store.Expiry.{u64_mod, write_expiry, pexpire}

-- What a client finds at the time `t`, of an entry that lives up to `deadline`.
abbrev pub until : ℕ → ℕ → Option Entry → Option Entry
until deadline t none = none
until deadline t (some e) =
    if leb deadline t then none else some (record e { expires_at_ms = deadline })

abbrev pub is_some : Option Entry → Bool
is_some none = false
is_some (some e) = true

module _ (key : Bytes) (n t : ℕ) (positive : 0 < n) (small : n < u64_mod) where
  abbrev branches : Option Entry → DataMap → Bool × DataMap
  branches it d = if_end it (false, d) λ e. (true, write_expiry key e (n % u64_mod) d)

  branches_lem :
      (it : Option Entry) (d : DataMap)
      → (it ≡ none → find_live t key d ≡ none)
      → ((branches it d).0 ≡ is_some it) × (find_live t key (branches it d).1 ≡ until n t it)
  unfolding if_end is_expired
  branches_lem none d h = (refl, h refl)
  branches_lem (some e) d h = (
    refl,
    ground (
      arith,
      find_live-insert t key key (record e { expires_at_ms = n % u64_mod }) d,
      (same_iff key key).1 refl,
    ),
  )

-- PEXPIRE on a sorted keyspace, with a deadline that is representable and not 0. It succeeds exactly
-- if the key has a live entry; from then on that entry is found until the deadline and never after,
-- with its value; a key without one stays without one.
pub pexpire_lem :
    (clock : Clock) (key : Bytes) (ms : ℕ) (d : DataMap) (t : ℕ)
    → IsSorted d
    → clock 0 ≤ t
    → 0 < clock 1 + ms
    → clock 1 + ms < u64_mod
    → ((pexpire clock key ms d).0 ≡ is_some (find_live (clock 0) key d))
      × (find_live t key (pexpire clock key ms d).1
          ≡ until (clock 1 + ms) t (find_live (clock 0) key d))
unfolding pexpire if_end
pexpire_lem clock key ms d t s h positive small =
    let it = (find_live_mut (clock 0) key d).0 in
    let same_it : it ≡ find_live (clock 0) key d = find_live_mut-eq-find_live (clock 0) key d in
    let b =
      branches_lem key (clock 1 + ms) t positive small it (find_live_mut (clock 0) key d).1 λ q.
        find_live-find_live_mut (clock 0) t key key d s h
        ∙ find_live_later (clock 0) t key d h (sym same_it ∙ q) in
    (b.0 ∙ ap is_some same_it, b.1 ∙ ap (until (clock 1 + ms) t) same_it)
