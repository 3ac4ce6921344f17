-- ===== src/Store/Sets/Added.antt =====
-- SADD as an operation on the set of members of a key.
use mathlib.Core.Path.{subst}
use redix.Prelude.{
  ℕ, ◌+◌, ◌-◌, ◌≡◌, ◌⊎◌, inl, inr, refl, sym, ap, ◌||◌, Option, none, some, List, [], ◌∷◌, length,
  arith, Bytes,
}
use redix.Prelude.Int.{ℤ, pos, negsuc}
use redix.FlatMap.{text_order, find, insert, IsSorted}
use redix.FlatMap.Laws.{find-insert, length-insert}
use redix.Store.Value.{
  FlatSet, RedisValue, string_value, list_value, hash_value, set_value, Entry, fresh, DataMap,
  if_set, if_end,
}
use redix.Store.View.{IsUntouched}
use redix.Store.Collection.{
  Kind, updated, collection, observe, collection-written, collection-fresh, update_lem,
  untouched_lem,
}
use redix.Store.Strings.Deleted.{is_listed}
use redix.Store.Hashes.{missing_count, is_found}
use redix.Store.Sets.{insert_members, write_set, sadd}

abbrev pub set_of : RedisValue → Option FlatSet
set_of (set_value s) = some s
set_of (string_value s) = none
set_of (list_value l) = none
set_of (hash_value h) = none

pub set_cases : (v : RedisValue) → ((s : FlatSet) × (v ≡ set_value s)) ⊎ (set_of v ≡ none)
set_cases (set_value s) = inl (s, refl)
set_cases (string_value s) = inr refl
set_cases (list_value l) = inr refl
set_cases (hash_value h) = inr refl

abbrev pub set_kind : Kind FlatSet
set_kind = record {
  make = set_value;
  select = set_of;
  empty = [];
  select-make = λ s. refl;
  kind_cases = set_cases;
}

-- The members of a key: none at all for a missing key, and no answer for one of another type.
abbrev pub members : ℕ → Bytes → DataMap → Option FlatSet
members = collection set_kind

-- The reply is a count.
abbrev pub counted : ℕ × FlatSet → ℤ × FlatSet
counted (n, s) = (pos n, s)

abbrev sadd_branches : Bytes → List Bytes → Option Entry → DataMap → ℤ × DataMap
sadd_branches key ms it d =
    if_end it
      (let (added, set) = insert_members ms 0 [] in
        (pos added, insert key (fresh (set_value set)) d))
      λ e.
        if_set e.value (negsuc 0, d)
          λ s. let (added, set) = insert_members ms 0 s in (pos added, write_set key e set d)

module _ (now : ℕ) (key : Bytes) (ms : List Bytes) where
  sadd_other :
      (v : RedisValue) (x : ℕ) (d : DataMap)
      → set_of v ≡ none
      → sadd_branches key ms (some (record { value = v; expires_at_ms = x })) d ≡ (negsuc 0, d)
  unfolding if_end if_set
  sadd_other (set_value s) x d q = absurd (cc)
  sadd_other (string_value t) x d q = refl
  sadd_other (list_value l) x d q = refl
  sadd_other (hash_value t) x d q = refl

  sadd-updated :
      (d : DataMap)
      → IsSorted d
      → observe set_kind now key (sadd now key ms d)
        ≡ updated (λ s. counted (insert_members ms 0 s)) (members now key d)
  unfolding sadd if_end if_set
  sadd-updated d s =
      update_lem set_kind (λ c. counted (insert_members ms 0 c)) now key (sadd_branches key ms)
        (λ d' q.
          ap (λ r. (pos (insert_members ms 0 []).0, r))
            (collection-fresh set_kind now key (insert_members ms 0 []).1 d'))
        (λ x c d' live s'.
          ap (λ r. (pos (insert_members ms 0 c).0, r))
            (collection-written set_kind now key (insert_members ms 0 c).1 (set_value c) x d' live))
        sadd_other d s

  sadd-IsUntouched :
      (d : DataMap) → IsSorted d → IsUntouched (members now key d) now d (sadd now key ms d).1
  unfolding sadd
  sadd-IsUntouched d s = untouched_lem set_kind now key (sadd_branches key ms) sadd_other d s

is_found-insert_members :
    (m : Bytes) (ms : List Bytes) (n : ℕ) (s : FlatSet)
    → is_found (find m (insert_members ms n s).1) ≡ (is_listed m ms || is_found (find m s))
unfolding insert_members
is_found-insert_members m [] n s = refl
is_found-insert_members m (k ∷ ms) n s = ground (
  arith,
  is_found-insert_members m ms (n + missing_count (find k s)) (insert k tt s),
  find-insert m k tt s,
)

length-insert_members :
    (ms : List Bytes) (n : ℕ) (s : FlatSet)
    → (insert_members ms n s).0 + length s ≡ n + length (insert_members ms n s).1
unfolding insert_members
length-insert_members [] n s = refl
length-insert_members (k ∷ ms) n s =
    let rest = length-insert_members ms (n + missing_count (find k s)) (insert k tt s) in
    ground (arith, rest, length-insert k tt s)

-- SADD, from the members before to the reply and the members after: the reply is the number of
-- members gained, and the members are the old ones and the listed ones.
abbrev pub IsAdded : List Bytes → Option FlatSet → ℤ × Option FlatSet → Type 0
IsAdded ms none (r, s') = (r ≡ negsuc 0) × (s' ≡ none)
IsAdded ms (some s) (r, none) = ⊥
IsAdded ms (some s) (r, some s') =
    (r ≡ pos (length s' - length s))
    × ((m : Bytes) → is_found (find m s') ≡ (is_listed m ms || is_found (find m s)))

insert_members-IsAdded :
    (ms : List Bytes) (o : Option FlatSet)
    → IsAdded ms o (updated (λ s. counted (insert_members ms 0 s)) o)
insert_members-IsAdded ms none = (refl, refl)
insert_members-IsAdded ms (some s) =
    (ap pos (ground (arith, length-insert_members ms 0 s)), λ m. is_found-insert_members m ms 0 s)

-- SADD on a sorted keyspace: the members are then the old ones and the listed ones, and the reply is
-- the number of members gained. For a key of another type the reply is -1, and no
-- client sees a change of any key, then or later.
pub sadd_lem :
    (now : ℕ) (key : Bytes) (ms : List Bytes) (d : DataMap)
    → IsSorted d
    → IsAdded ms (members now key d) ((sadd now key ms d).0, members now key (sadd now key ms d).1)
      × IsUntouched (members now key d) now d (sadd now key ms d).1
sadd_lem now key ms d s = (
  subst (IsAdded ms (members now key d)) (sym (sadd-updated now key ms d s))
      (insert_members-IsAdded ms (members now key d)),
  sadd-IsUntouched now key ms d s,
)
