-- ===== src/Store/Strings/Deleted.antt =====
-- SET and DEL as a client sees them.
use redix.Prelude.{
  ℕ, suc, ◌≡◌, ◌≤◌, refl, sym, ◌∙◌, Bool, false, Option, none, some, List, [], ◌∷◌, ◌||◌, arith,
  if◌then◌else◌, Bytes,
}
use redix.FlatMap.{text_order, erase, IsSorted}
use redix.FlatMap.Laws.{same, same_iff, IsSorted-erase}
use redix.Store.Value.{Entry, DataMap, Clock, later, if_end}
use redix.Store.Live.{find_live, find_live_mut}
use redix.Store.View.{
  find_live-erase, find_live_mut-eq-find_live, find_live-find_live_mut, IsSorted-find_live_mut,
  find_live_later,
}
use redix.Store.Strings.{del, del_loop}

abbrev pub is_listed : Bytes → List Bytes → Bool
is_listed j [] = false
is_listed j (k ∷ keys) = same k j || is_listed j keys

-- One round of the loop.
del_round :
    (t : ℕ) (key j : Bytes) (it : Option Entry) (d : DataMap) (removed : ℕ)
    → IsSorted d
    → (it ≡ none → find_live t key d ≡ none)
    → (let r : ℕ × DataMap = if_end it (removed, d) λ e. (suc removed, erase key d) in
        IsSorted r.1 × (find_live t j r.1 ≡ (if same key j then none else find_live t j d)))
unfolding if_end
del_round t key j none d removed s h = (s, ground (arith, h refl, (same_iff key j).0))
del_round t key j (some e) d removed s h = (IsSorted-erase key d s, find_live-erase t j key d s)

del_loop_lem :
    (clock : Clock) (keys : List Bytes) (removed t : ℕ) (j : Bytes) (d : DataMap)
    → IsSorted d
    → ((i : ℕ) → clock i ≤ t)
    → find_live t j (del_loop clock keys removed d).1
      ≡ (if is_listed j keys then none else find_live t j d)
unfolding del_loop
del_loop_lem clock [] removed t j d s h = refl
del_loop_lem clock (key ∷ keys) removed t j d s h =
    let now = clock 0 in
    let it = (find_live_mut now key d).0 in
    let d' = (find_live_mut now key d).1 in
    let round = del_round t key j it d' removed (IsSorted-find_live_mut now key d s) λ q.
      find_live-find_live_mut now t key key d s (h 0)
      ∙ find_live_later now t key d (h 0) (sym (find_live_mut-eq-find_live now key d) ∙ q) in
    del_loop_lem (later clock) keys _ t j _ round.0 (λ i. h (suc i))
    ∙ ground (arith, round.1, find_live-find_live_mut now t j key d s (h 0))

-- DEL on a sorted keyspace: from the time of its last reading of the clock on, no client finds any
-- of its keys, and each other key is as before.
pub del_lem :
    (clock : Clock) (keys : List Bytes) (t : ℕ) (j : Bytes) (d : DataMap)
    → IsSorted d
    → ((i : ℕ) → clock i ≤ t)
    → find_live t j (del clock keys d).1 ≡ (if is_listed j keys then none else find_live t j d)
unfolding del
del_lem clock keys t j d s h = del_loop_lem clock keys 0 t j d s h
