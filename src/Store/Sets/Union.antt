-- ===== src/Store/Sets/Union.antt =====
-- SUNION by its members.
use redix.Prelude.{
  ℕ, ◌≡◌, refl, ◌∙◌, Bool, true, false, ◌||◌, Option, none, some, List, [], ◌∷◌, arith, Bytes,
}
use redix.FlatMap.{text_order, find, insert, IsSorted}
use redix.FlatMap.Laws.{same_iff, find-insert, IsSorted-insert, find_below}
use redix.Store.Value.{
  FlatSet, RedisValue, string_value, list_value, hash_value, set_value, Entry, DataMap, Clock,
  later, if_set, if_end,
}
use redix.Store.Live.{find_live}
use redix.Store.Strings.Deleted.{is_listed}
use redix.Store.Hashes.{is_found}
use redix.Store.Sets.{members_of, insert_all, union_loop, sunion}

-- Whether the entry holds a set with the member.
abbrev pub has_member : Bytes → Option Entry → Bool
has_member m none = false
has_member m (some e) = elim e.value [
  | set_value s ↦ is_listed m (members_of s)
  | string_value s ↦ false
  | list_value l ↦ false
  | hash_value h ↦ false
]

-- Whether one of the keys holds the member, each read in its turn.
abbrev pub any_has_member : Clock → List Bytes → DataMap → Bytes → Bool
any_has_member clock [] d m = false
any_has_member clock (key ∷ keys) d m =
    has_member m (find_live (clock 0) key d) || any_has_member (later clock) keys d m

-- In a sorted set, the members are those that a lookup finds.
pub is_listed-members_of :
    (m : Bytes) (s : FlatSet) → IsSorted s → is_listed m (members_of s) ≡ is_found (find m s)
unfolding find
is_listed-members_of m [] h = refl
is_listed-members_of m ((j, u) ∷ s) (h, hs) =
    ground (arith, is_listed-members_of m s hs, find_below m j s, (same_iff j m).0)

insert_all_lem :
    (m : Bytes) (s result : FlatSet)
    → is_found (find m (insert_all s result))
      ≡ (is_listed m (members_of s) || is_found (find m result))
unfolding insert_all
insert_all_lem m [] result = refl
insert_all_lem m ((j, u) ∷ s) result =
    ground (arith, insert_all_lem m s (insert j u result), find-insert m j u result)

IsSorted-insert_all : (s result : FlatSet) → IsSorted result → IsSorted (insert_all s result)
unfolding insert_all
IsSorted-insert_all [] result h = h
IsSorted-insert_all ((j, u) ∷ s) result h =
    IsSorted-insert_all s (insert j u result) (IsSorted-insert j u result h)

-- One key's part of the union.
abbrev joined : Option Entry → FlatSet → FlatSet
joined it result = if_end it result λ e. if_set e.value result λ s. insert_all s result

joined-value :
    (m : Bytes) (v : RedisValue) (x : ℕ) (result : FlatSet)
    → (let e : Entry = record { value = v; expires_at_ms = x } in
        is_found (find m (joined (some e) result))
        ≡ (has_member m (some e) || is_found (find m result)))
unfolding if_end if_set
joined-value m (set_value s) x result = insert_all_lem m s result
joined-value m (string_value s) x result = refl
joined-value m (list_value s) x result = refl
joined-value m (hash_value s) x result = refl

joined_lem :
    (m : Bytes) (it : Option Entry) (result : FlatSet)
    → is_found (find m (joined it result)) ≡ (has_member m it || is_found (find m result))
unfolding if_end
joined_lem m none result = refl
joined_lem m (some e) result = joined-value m e.value e.expires_at_ms result

IsSorted-value :
    (v : RedisValue) (x : ℕ) (result : FlatSet)
    → IsSorted result
    → IsSorted (joined (some (record { value = v; expires_at_ms = x })) result)
unfolding if_end if_set
IsSorted-value (set_value s) x result h = IsSorted-insert_all s result h
IsSorted-value (string_value s) x result h = h
IsSorted-value (list_value s) x result h = h
IsSorted-value (hash_value s) x result h = h

IsSorted-joined :
    (it : Option Entry) (result : FlatSet) → IsSorted result → IsSorted (joined it result)
unfolding if_end
IsSorted-joined none result h = h
IsSorted-joined (some e) result h = IsSorted-value e.value e.expires_at_ms result h

union_loop_lem :
    (clock : Clock) (keys : List Bytes) (d : DataMap) (result : FlatSet) (m : Bytes)
    → IsSorted result
    → is_listed m (members_of (union_loop clock keys d result))
      ≡ (any_has_member clock keys d m || is_found (find m result))
unfolding union_loop
union_loop_lem clock [] d result m h = is_listed-members_of m result h
union_loop_lem clock (key ∷ keys) d result m h =
    let it = find_live (clock 0) key d in
    ground (
      arith,
      union_loop_lem (later clock) keys d (joined it result) m (IsSorted-joined it result h),
      joined_lem m it result,
    )

pub or_false : (b : Bool) → (b || false) ≡ b
or_false true = refl
or_false false = refl

-- SUNION lists a member exactly if one of its keys, read in its turn, holds a set with that member;
-- a key that is missing, expired or of another type counts as empty.
pub sunion_lem :
    (clock : Clock) (keys : List Bytes) (d : DataMap) (m : Bytes)
    → is_listed m (sunion clock keys d) ≡ any_has_member clock keys d m
unfolding sunion find
sunion_lem clock keys d m =
    union_loop_lem clock keys d [] m tt ∙ or_false (any_has_member clock keys d m)
