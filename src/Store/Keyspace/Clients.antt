-- ===== src/Store/Keyspace/Clients.antt =====
-- RENAME and the sweep as a client sees them.
use redix.Prelude.{
  ℕ, zero, suc, ◌≡◌, ◌≤◌, refl, ap, ◌∙◌, Bool, true, false, Option, none, some, [], ◌∷◌, arith,
  if◌then◌else◌, Bytes,
}
use redix.FlatMap.{text_order, find, insert, erase, IsSorted, Above}
use redix.FlatMap.Laws.{same, find-Above, find_below}
use redix.Store.Value.{Entry, DataMap, Clock, later, if_end}
use redix.Store.Live.{is_expired, unless_expired, find_live, find_live_mut}
use redix.Store.View.{
  find_live-insert, find_live-erase, find_live_mut-eq-find_live, find_live-find_live_mut,
  IsSorted-find_live_mut, is_expired_later,
}
use redix.Store.Keyspace.{rename, sweep, sweep_expired}

-- What a client finds at the time `t` under `j`, after the live entry of `src`, if it has one, is
-- moved to `dst`.
abbrev pub moved : ℕ → Bytes → Bytes → Bytes → Option Entry → Option Entry → Option Entry
moved t src dst j none other = other
moved t src dst j (some e) other =
    if same dst j then unless_expired t (some e) else if same src j then none else other

abbrev pub is_some : Option Entry → Bool
is_some none = false
is_some (some e) = true

rename_branches :
    (t : ℕ) (src dst j : Bytes) (it : Option Entry) (d : DataMap)
    → IsSorted d
    → (let r : Bool × DataMap = if_end it (false, d) λ e. (true, insert dst e (erase src d)) in
        (r.0 ≡ is_some it) × (find_live t j r.1 ≡ moved t src dst j it (find_live t j d)))
unfolding if_end
rename_branches t src dst j none d s = (refl, refl)
rename_branches t src dst j (some e) d s =
    (refl, ground (arith, find_live-insert t j dst e (erase src d), find_live-erase t j src d s))

-- RENAME on a sorted keyspace succeeds exactly if its source has a live entry. Then the entry is
-- found, with its value and its expiry, under the new name, and no longer under the old one, unless
-- they are the same; every other key is as before. Without a live entry no key changes.
pub rename_lem :
    (now t : ℕ) (src dst j : Bytes) (d : DataMap)
    → IsSorted d
    → now ≤ t
    → ((rename now src dst d).0 ≡ is_some (find_live now src d))
      × (find_live t j (rename now src dst d).1
          ≡ moved t src dst j (find_live now src d) (find_live t j d))
unfolding rename
rename_lem now t src dst j d s h =
    let same_it = find_live_mut-eq-find_live now src d in
    let b =
      rename_branches t src dst j (find_live_mut now src d).0 (find_live_mut now src d).1
        (IsSorted-find_live_mut now src d s) in
    (
      b.0 ∙ ap is_some same_it,
      b.1
          ∙ ap (λ o. moved t src dst j o (find_live t j (find_live_mut now src d).1)) same_it
          ∙ ap (moved t src dst j (find_live now src d))
              (find_live-find_live_mut now t j src d s h),
    )

-- The removal of an expired head does not show.
head_hidden :
    (now t : ℕ) (j k : Bytes) (e : Entry) (d : DataMap)
    → Above k d
    → now ≤ t
    → is_expired now e ≡ true
    → find_live t j d ≡ find_live t j ((k, e) ∷ d)
unfolding find find_live
head_hidden now t j k e d s h q = ground (
  arith,
  find-Above k d s,
  find_below j k d,
  text_order.less_connex k j,
  is_expired_later now t e h q,
)

-- A change behind the head shows only if it shows in the rest.
tail_shown :
    (t : ℕ) (j k : Bytes) (e : Entry) (d d' : DataMap)
    → find_live t j d' ≡ find_live t j d
    → find_live t j ((k, e) ∷ d') ≡ find_live t j ((k, e) ∷ d)
unfolding find find_live
tail_shown t j k e d d' q = ground arith

sweep_lem :
    (visits t : ℕ) (clock : Clock) (j : Bytes) (d : DataMap)
    → IsSorted d
    → ((i : ℕ) → clock i ≤ t)
    → find_live t j (sweep visits clock d) ≡ find_live t j d
unfolding sweep
sweep_lem zero t clock j d s h = refl
sweep_lem (suc visits) t clock j [] s h = refl
sweep_lem (suc visits) t clock j ((k, e) ∷ d) (s, ss) h =
    let rest = sweep_lem visits t (later clock) j d ss (λ i. h (suc i)) in
    ground (
      arith,
      rest,
      tail_shown t j k e d (sweep visits (later clock) d) rest,
      head_hidden (clock 0) t j k e d s (h 0),
    )

-- The periodic sweep, on a sorted keyspace: from the time of its last reading of the clock on, no
-- client sees a change under any key.
pub sweep_expired_lem :
    (clock : Clock) (t : ℕ) (j : Bytes) (d : DataMap)
    → IsSorted d
    → ((i : ℕ) → clock i ≤ t)
    → find_live t j (sweep_expired clock d) ≡ find_live t j d
unfolding sweep_expired
sweep_expired_lem clock t j d s h = sweep_lem 20 t clock j d s h
