-- ===== src/Store/View.antt =====
-- What a client can see of the keyspace: at each time the live entry of each key. Expired entries
-- that are still stored, and their removal, do not show.
use redix.Prelude.{
  ℕ, ◌+◌, ◌≡◌, ◌≤◌, refl, true, false, Option, none, some, arith, if◌then◌else◌, Bytes,
}
use redix.FlatMap.{text_order, find, insert, erase, IsSorted}
use redix.FlatMap.Laws.{same, same_iff, IsSorted-erase, find-insert, find-erase}
use redix.Store.Value.{Entry, DataMap}
use redix.Store.Live.{is_expired, unless_expired, find_live, drop_expired, find_live_mut}

pub find_live-insert :
    (now : ℕ) (j k : Bytes) (e : Entry) (d : DataMap)
    → find_live now j (insert k e d)
      ≡ (if same k j then unless_expired now (some e) else find_live now j d)
unfolding find_live
find_live-insert now j k e d = rw (find-insert j k e d) (ground arith)

-- What is written is found under its key.
pub find_live-written :
    (now : ℕ) (k : Bytes) (e : Entry) (d : DataMap)
    → find_live now k (insert k e d) ≡ unless_expired now (some e)
find_live-written now k e d =
    rw (find_live-insert now k k e d) (ground (arith, (same_iff k k).1 refl))

pub find_live-erase :
    (now : ℕ) (j k : Bytes) (d : DataMap)
    → IsSorted d
    → find_live now j (erase k d) ≡ (if same k j then none else find_live now j d)
unfolding find_live
find_live-erase now j k d h = rw (find-erase j k d h) (ground arith)

-- What is erased is not found under its key.
pub find_live-erased :
    (now : ℕ) (k : Bytes) (d : DataMap) → IsSorted d → find_live now k (erase k d) ≡ none
find_live-erased now k d h =
    rw (find_live-erase now k k d h) (ground (arith, (same_iff k k).1 refl))

-- The iterator of the one that may erase is that of the one that does not.
pub find_live_mut-eq-find_live :
    (now : ℕ) (k : Bytes) (d : DataMap) → (find_live_mut now k d).0 ≡ find_live now k d
unfolding find_live find_live_mut
find_live_mut-eq-find_live now k d = ground arith

-- What has expired stays expired.
pub is_expired_later :
    (now t : ℕ) (e : Entry) → now ≤ t → is_expired now e ≡ true → is_expired t e ≡ true
unfolding is_expired
is_expired_later now t e h k = ground arith

drop_expired-hides :
    (now t : ℕ) (j k : Bytes) (d : DataMap) (o : Option Entry)
    → IsSorted d
    → now ≤ t
    → find_live t k d ≡ unless_expired t o
    → find_live t j (drop_expired now k d o).1 ≡ find_live t j d
drop_expired-hides now t j k d none s h q = refl
drop_expired-hides now t j k d (some e) s h q =
    ground (arith, find_live-erase t j k d s, (same_iff k j).0, is_expired_later now t e h)

-- The erasure of an expired entry does not show, then or later.
pub find_live-find_live_mut :
    (now t : ℕ) (j k : Bytes) (d : DataMap)
    → IsSorted d
    → now ≤ t
    → find_live t j (find_live_mut now k d).1 ≡ find_live t j d
unfolding find_live find_live_mut
find_live-find_live_mut now t j k d s h = drop_expired-hides now t j k d (find k d) s h refl

-- A key without a live entry stays without one.
pub find_live_later :
    (now t : ℕ) (k : Bytes) (d : DataMap)
    → now ≤ t
    → find_live now k d ≡ none
    → find_live t k d ≡ none
unfolding find_live
find_live_later now t k d h q = unless_later (find k d) q
  where
    unless_later : (o : Option Entry) → unless_expired now o ≡ none → unless_expired t o ≡ none
    unless_later none q = refl
    unless_later (some e) q = ground (arith, is_expired_later now t e h)

-- The iterator stands on a live entry.
pub find_live_mut-IsLive :
    (now : ℕ) (key : Bytes) (d : DataMap)
    → unless_expired now (find_live_mut now key d).0 ≡ (find_live_mut now key d).0
unfolding find_live
find_live_mut-IsLive now key d =
    rw (find_live_mut-eq-find_live now key d) (unless_idem (find key d))
  where
    unless_idem :
        (o : Option Entry) → unless_expired now (unless_expired now o) ≡ unless_expired now o
    unless_idem o = ground arith

pub IsSorted-find_live_mut :
    (now : ℕ) (key : Bytes) (d : DataMap) → IsSorted d → IsSorted (find_live_mut now key d).1
unfolding find_live_mut
IsSorted-find_live_mut now key d s = sorted_drop (find key d)
  where
    sorted_drop : (o : Option Entry) → IsSorted (drop_expired now key d o).1
    sorted_drop none = s
    sorted_drop (some e) =
        elim (is_expired now e)
          as (λ b.
            IsSorted
              (if◌then◌else◌ {A = Option Entry × DataMap} b (none, erase key d) (some e, d)).1) [
                | true ↦ IsSorted-erase key d s
                | false ↦ s
              ]

-- A command that has no `C` to work on changes nothing that a client can see, then or later.
abbrev pub IsUntouched : {C : Type 0} → Option C → ℕ → DataMap → DataMap → Type 0
IsUntouched none now before after =
    (k : ℕ) (j : Bytes) → find_live (now + k) j after ≡ find_live (now + k) j before
IsUntouched (some c) now before after = Unit
