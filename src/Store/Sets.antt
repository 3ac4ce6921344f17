-- ===== src/Store/Sets.antt =====
-- The operations on set values.
pub mod Added
pub mod Removed
pub mod Union
pub mod Intersection
use redix.Prelude.{ℕ, ◌+◌, Bool, Option, none, some, List, [], ◌∷◌, map, length, Bytes}
use redix.Prelude.Int.{ℤ, pos, negsuc}
use redix.FlatMap.{text_order, find, insert, erase}
use redix.Store.Value.{
  FlatSet, Entry, fresh, DataMap, set_value, key_not_found, wrong_type, Expected, ok, err, Clock,
  later, if_set, if_end,
}
use redix.Store.Live.{find_live, find_live_mut}
use redix.Store.Hashes.{found_count, missing_count, is_found}

-- `set.data.begin()` to `set.data.end()`
abbrev pub members_of : FlatSet → List Bytes
members_of s = map (λ p. p.0) s

-- `insert` of each member, with the number that were new.
unfoldable pub insert_members : List Bytes → ℕ → FlatSet → ℕ × FlatSet
insert_members [] added set = (added, set)
insert_members (member ∷ members) added set =
    insert_members members (added + missing_count (find member set)) (insert member tt set)

abbrev pub write_set : Bytes → Entry → FlatSet → DataMap → DataMap
write_set key e s data_ = insert key (record e { value = set_value s }) data_

-- -1 stands for a key of another type, here and in `srem`.
unfoldable pub sadd : ℕ → Bytes → List Bytes → DataMap → ℤ × DataMap
unfolding insert_members
sadd now key members data_ =
    let (it, data') = find_live_mut now key data_ in
    if_end it
      (let (added, set) = insert_members members 0 [] in
        (pos added, insert key (fresh (set_value set)) data'))
      λ e.
        if_set e.value (negsuc 0, data')
          λ s.
            let (added, set) = insert_members members 0 s in (pos added, write_set key e set data')

-- `erase` of each member, with the number that were there.
unfoldable pub erase_members : List Bytes → ℕ → FlatSet → ℕ × FlatSet
erase_members [] removed set = (removed, set)
erase_members (member ∷ members) removed set =
    erase_members members (removed + found_count (find member set)) (erase member set)

-- An emptied set is erased with its key.
abbrev pub keep_set : Bytes → Entry → FlatSet → DataMap → DataMap
keep_set key e [] data_ = erase key data_
keep_set key e (x ∷ s) data_ = write_set key e (x ∷ s) data_

unfoldable pub srem : ℕ → Bytes → List Bytes → DataMap → ℤ × DataMap
unfolding erase_members
srem now key members data_ =
    let (it, data') = find_live_mut now key data_ in
    if_end it (pos 0, data')
      λ e.
        if_set e.value (negsuc 0, data')
          λ s.
            let (removed, set) = erase_members members 0 s in
            (pos removed, keep_set key e set data')

abbrev read_set {ℓ} : {A : Type ℓ} → ℕ → Bytes → DataMap → (FlatSet → A) → Expected A
read_set now key data_ f =
    if_end (find_live now key data_) (err key_not_found)
      λ e. if_set e.value (err wrong_type) λ s. ok (f s)

unfoldable pub smembers : ℕ → Bytes → DataMap → Expected (List Bytes)
smembers now key data_ = read_set now key data_ members_of

unfoldable pub sismember : ℕ → Bytes → Bytes → DataMap → Expected Bool
sismember now key member data_ = read_set now key data_ λ s. is_found (find member s)

unfoldable pub scard : ℕ → Bytes → DataMap → Expected ℤ
scard now key data_ = read_set now key data_ λ s. pos (length s)

-- `result.insert(first, last)`
unfoldable pub insert_all : FlatSet → FlatSet → FlatSet
insert_all [] result = result
insert_all ((member, u) ∷ s) result = insert_all s (insert member u result)

-- The loop of `sunion`: keys that are missing or of another type are passed over.
unfoldable pub union_loop : Clock → List Bytes → DataMap → FlatSet → FlatSet
unfolding insert_all
union_loop clock [] data_ result = result
union_loop clock (key ∷ keys) data_ result = union_loop (later clock) keys data_ (
    if_end (find_live (clock 0) key data_) result
      λ e. if_set e.value result λ s. insert_all s result)

unfoldable pub sunion : Clock → List Bytes → DataMap → List Bytes
unfolding union_loop
sunion clock keys data_ = members_of (union_loop clock keys data_ [])

-- `next.insert(member)` if the member was found.
abbrev pub keep_member : Bytes → Option (Unit {0}) → FlatSet → FlatSet
keep_member member none next = next
keep_member member (some _) next = insert member tt next

-- The members of `result` that are in `s` too, inserted one by one.
unfoldable pub common_members : FlatSet → FlatSet → FlatSet → FlatSet
common_members [] s next = next
common_members ((member, u) ∷ result) s next =
    common_members result s (keep_member member (find member s) next)

-- The rounds of the loop of `sinter` behind the first. An empty result ends it at once.
unfoldable pub inter_loop : Clock → List Bytes → DataMap → FlatSet → FlatSet
unfolding common_members
inter_loop clock [] data_ result = result
inter_loop clock (key ∷ keys) data_ result = if_end (find_live (clock 0) key data_) [] λ e.
    if_set e.value [] λ s. go_on (common_members result s []) (inter_loop (later clock) keys data_)
  where
    go_on : FlatSet → (FlatSet → FlatSet) → FlatSet
    go_on [] rest = []
    go_on (x ∷ next) rest = rest (x ∷ next)

unfoldable pub sinter : Clock → List Bytes → DataMap → List Bytes
unfolding inter_loop
sinter clock [] data_ = []
sinter clock (key ∷ keys) data_ = members_of (
    if_end (find_live (clock 0) key data_) []
      λ e. if_set e.value [] λ s. inter_loop (later clock) keys data_ s)
