-- ===== src/Store/Sets/Removed.antt =====
-- SREM as an operation on the set of members of a key.
use mathlib.Core.Path.{subst}
use redix.Prelude.{
  ℕ, ◌+◌, ◌-◌, ◌≡◌, refl, sym, ap, ◌∙◌, true, false, Option, none, some, List, [], ◌∷◌, length,
  arith, Bytes, if◌then◌else◌,
}
use redix.Prelude.Int.{ℤ, pos, negsuc}
use redix.FlatMap.{text_order, find, erase, IsSorted}
use redix.FlatMap.Laws.{find-erase, length-erase, IsSorted-erase}
use redix.FlatMap.Values.{All-find}
use redix.Store.Value.{
  FlatSet, RedisValue, string_value, list_value, hash_value, set_value, Entry, DataMap, if_set,
  if_end,
}
use redix.Store.Live.{is_expired, unless_expired, find_live}
use redix.Store.View.{IsUntouched, find_live-erased}
use redix.Store.Keeps.{IsValidValue}
use redix.Store.Invariant.{IsValid}
use redix.Store.Collection.{updated, held, observe, collection-written, update_lem, untouched_lem}
use redix.Store.Strings.Deleted.{is_listed}
use redix.Store.Hashes.{found_count}
use redix.Store.Sets.{erase_members, keep_set, srem}
use redix.Store.Sets.Added.{set_of, set_kind, members, counted}

abbrev srem_branches : Bytes → List Bytes → Option Entry → DataMap → ℤ × DataMap
srem_branches key ms it d =
    if_end it (pos 0, d)
      λ e.
        if_set e.value (negsuc 0, d)
          λ h. let (removed, set) = erase_members ms 0 h in (pos removed, keep_set key e set d)

erase_members-nil : (ms : List Bytes) (n : ℕ) → erase_members ms n [] ≡ (n, [])
unfolding erase_members find erase
erase_members-nil [] n = refl
erase_members-nil (f ∷ ms) n = erase_members-nil ms (n + 0) ∙ ap (λ m. (m, [])) (omega arith)

module _ (now : ℕ) (key : Bytes) (ms : List Bytes) where
  srem_other :
      (v : RedisValue) (x : ℕ) (d : DataMap)
      → set_of v ≡ none
      → srem_branches key ms (some (record { value = v; expires_at_ms = x })) d ≡ (negsuc 0, d)
  unfolding if_end if_set
  srem_other (set_value h) x d q = absurd (cc)
  srem_other (string_value t) x d q = refl
  srem_other (list_value l) x d q = refl
  srem_other (hash_value t) x d q = refl

  members-keep_set :
      (x : ℕ) (h set : FlatSet) (d : DataMap)
      → (let e : Entry = record { value = set_value h; expires_at_ms = x } in
          unless_expired now (some e) ≡ some e
          → IsSorted d
          → members now key (keep_set key e set d) ≡ some set)
  members-keep_set x h [] d live s = ap (held set_kind) (find_live-erased now key d s)
  members-keep_set x h (p ∷ set) d live s =
      collection-written set_kind now key (p ∷ set) (set_value h) x d live

  srem-updated :
      (d : DataMap)
      → IsSorted d
      → observe set_kind now key (srem now key ms d)
        ≡ updated (λ h. counted (erase_members ms 0 h)) (members now key d)
  unfolding srem if_end if_set
  srem-updated d s =
      update_lem set_kind (λ h. counted (erase_members ms 0 h)) now key (srem_branches key ms)
        (λ d' q.
          ap (λ r. (pos 0, r)) q
          ∙ ap (λ (r : ℕ × FlatSet). (pos r.0, some r.1)) (sym (erase_members-nil ms 0)))
        (λ x h d' live s'.
          ap (λ r. (pos (erase_members ms 0 h).0, r))
            (members-keep_set x h (erase_members ms 0 h).1 d' live s'))
        srem_other d s

  srem-IsUntouched :
      (d : DataMap) → IsSorted d → IsUntouched (members now key d) now d (srem now key ms d).1
  unfolding srem
  srem-IsUntouched d s = untouched_lem set_kind now key (srem_branches key ms) srem_other d s

find-erase_members :
    (m : Bytes) (ms : List Bytes) (n : ℕ) (h : FlatSet)
    → IsSorted h
    → find m (erase_members ms n h).1 ≡ (if is_listed m ms then none else find m h)
unfolding erase_members
find-erase_members m [] n h s = refl
find-erase_members m (f ∷ ms) n h s = ground (
  arith,
  find-erase_members m ms (n + found_count (find f h)) (erase f h) (IsSorted-erase f h s),
  find-erase m f h s,
)

length-erase_members :
    (ms : List Bytes) (n : ℕ) (h : FlatSet)
    → (erase_members ms n h).0 + length (erase_members ms n h).1 ≡ n + length h
unfolding erase_members
length-erase_members [] n h = refl
length-erase_members (f ∷ ms) n h =
    let rest = length-erase_members ms (n + found_count (find f h)) (erase f h) in
    ground (arith, rest, length-erase f h)

-- SREM, from the members before to the reply and the members after: the reply is the number of members
-- lost, and the listed members are gone, the others as they were.
abbrev pub IsRemoved : List Bytes → Option (FlatSet) → ℤ × Option (FlatSet) → Type 0
IsRemoved ms none (r, h') = (r ≡ negsuc 0) × (h' ≡ none)
IsRemoved ms (some h) (r, none) = ⊥
IsRemoved ms (some h) (r, some h') =
    (r ≡ pos (length h - length h'))
    × ((m : Bytes) → find m h' ≡ (if is_listed m ms then none else find m h))

-- The members of a well-formed keyspace are in order.
AreSorted : Option (FlatSet) → Type 0
AreSorted none = Unit
AreSorted (some h) = IsSorted h

held-AreSorted : (v : RedisValue) → IsValidValue v → AreSorted (set_of v)
unfolding AreSorted
held-AreSorted (set_value h) w = w.1
held-AreSorted (string_value s) w = tt
held-AreSorted (list_value l) w = tt
held-AreSorted (hash_value s) w = tt

members-AreSorted :
    (now : ℕ) (key : Bytes) (d : DataMap) → IsValid d → AreSorted (members now key d)
unfolding find_live AreSorted
members-AreSorted now key d w =
    by_entry (find key d) (λ e q. All-find (λ p. IsValidValue p.1.value) key d w.1 e q)
  where
    by_entry :
        (o : Option Entry)
        → ((e : Entry) → o ≡ some e → IsValidValue e.value)
        → AreSorted (held set_kind (unless_expired now o))
    by_entry none k = tt
    by_entry (some e) k =
        elim (is_expired now e)
          as (λ b. AreSorted (held set_kind (if◌then◌else◌ {A = Option Entry} b none (some e)))) [
            | true ↦ tt
            | false ↦ held-AreSorted e.value (k e refl)
          ]

erase_members-IsRemoved :
    (ms : List Bytes) (o : Option (FlatSet))
    → AreSorted o
    → IsRemoved ms o (updated (λ h. counted (erase_members ms 0 h)) o)
unfolding AreSorted
erase_members-IsRemoved ms none w = (refl, refl)
erase_members-IsRemoved ms (some h) w =
    (ap pos (ground (arith, length-erase_members ms 0 h)), λ m. find-erase_members m ms 0 h w)

-- SREM on a well-formed keyspace: the listed members are gone, every other member is as it was, and
-- the reply is the number of members lost. A missing key gives 0; for a key of another type
-- the reply is -1, and no client sees a change of any key, then or later.
pub srem_lem :
    (now : ℕ) (key : Bytes) (ms : List Bytes) (d : DataMap)
    → IsValid d
    → IsRemoved ms
        (members now key d)
        ((srem now key ms d).0, members now key (srem now key ms d).1)
      × IsUntouched (members now key d) now d (srem now key ms d).1
srem_lem now key ms d w = (
  subst (IsRemoved ms (members now key d)) (sym (srem-updated now key ms d w.0))
      (erase_members-IsRemoved ms (members now key d) (members-AreSorted now key d w)),
  srem-IsUntouched now key ms d w.0,
)
