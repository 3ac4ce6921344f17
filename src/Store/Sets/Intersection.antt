-- ===== src/Store/Sets/Intersection.antt =====
-- SINTER by its members.
use redix.Prelude.{
  ℕ, ◌≡◌, refl, sym, ap, ◌∙◌, Bool, true, false, ◌||◌, ◌&&◌, Option, none, some, List, [], ◌∷◌,
  arith, Bytes,
}
use redix.FlatMap.{text_order, find, insert, IsSorted}
use redix.FlatMap.Laws.{same, same_iff, find-insert, IsSorted-insert}
use redix.Store.Value.{
  FlatSet, RedisValue, string_value, list_value, hash_value, set_value, Entry, DataMap, Clock,
  later, if_set, if_end,
}
use redix.Store.Live.{find_live}
use redix.Store.Strings.Deleted.{is_listed}
use redix.Store.Hashes.{is_found}
use redix.Store.Sets.{members_of, keep_member, common_members, inter_loop, sinter}
use redix.Store.Sets.Union.{is_listed-members_of, has_member, or_false}

-- Whether the entry holds a set that a lookup finds the member in.
abbrev pub contains_member : Bytes → Option Entry → Bool
contains_member m none = false
contains_member m (some e) = elim e.value [
  | set_value s ↦ is_found (find m s)
  | string_value s ↦ false
  | list_value l ↦ false
  | hash_value h ↦ false
]

-- Whether each of the keys holds the member, each read in its turn.
abbrev pub all_contain : Clock → List Bytes → DataMap → Bytes → Bool
all_contain clock [] d m = true
all_contain clock (key ∷ keys) d m =
    contains_member m (find_live (clock 0) key d) && all_contain (later clock) keys d m

and_true : (b : Bool) → (b && true) ≡ b
and_true true = refl
and_true false = refl

and_false : (b : Bool) → (b && false) ≡ false
and_false true = refl
and_false false = refl

and_assoc : (a b c : Bool) → ((a && b) && c) ≡ (a && (b && c))
and_assoc true b c = refl
and_assoc false b c = refl

keep_member_lem :
    (m j : Bytes) (o : Option (Unit {0})) (s next : FlatSet)
    → find j s ≡ o
    → is_found (find m (keep_member j o next))
      ≡ ((same j m && is_found (find m s)) || is_found (find m next))
keep_member_lem m j none s next q = ground (arith, q, (same_iff j m).0)
keep_member_lem m j (some w) s next q = ground (arith, q, find-insert m j tt next, (same_iff j m).0)

common_members_lem :
    (m : Bytes) (result s next : FlatSet)
    → is_found (find m (common_members result s next))
      ≡ ((is_listed m (members_of result) && is_found (find m s)) || is_found (find m next))
unfolding common_members
common_members_lem m [] s next = refl
common_members_lem m ((j, u) ∷ result) s next = ground (
  arith,
  common_members_lem m result s next,
  common_members_lem m result s (insert j tt next),
  keep_member_lem m j (find j s) s next refl,
  find-insert m j tt next,
  (same_iff j m).0,
)

IsSorted-keep_member :
    (j : Bytes) (o : Option (Unit {0})) (next : FlatSet)
    → IsSorted next
    → IsSorted (keep_member j o next)
IsSorted-keep_member j none next h = h
IsSorted-keep_member j (some w) next h = IsSorted-insert j tt next h

IsSorted-common_members :
    (result s next : FlatSet) → IsSorted next → IsSorted (common_members result s next)
unfolding common_members
IsSorted-common_members [] s next h = h
IsSorted-common_members ((j, u) ∷ result) s next h =
    IsSorted-common_members result s (keep_member j (find j s) next)
      (IsSorted-keep_member j (find j s) next h)

-- The empty result ends the loop.
abbrev unless_empty : FlatSet → (FlatSet → FlatSet) → FlatSet
unless_empty [] rest = []
unless_empty (x ∷ next) rest = rest (x ∷ next)

unless_empty_lem :
    (m : Bytes) (next : FlatSet) (rest : FlatSet → FlatSet) (b : Bool)
    → is_listed m (members_of (rest next)) ≡ (is_listed m (members_of next) && b)
    → is_listed m (members_of (unless_empty next rest)) ≡ (is_listed m (members_of next) && b)
unless_empty_lem m [] rest b h = refl
unless_empty_lem m (x ∷ next) rest b h = h

-- One key's part of the intersection, with the rounds behind it.
abbrev met : Option Entry → FlatSet → (FlatSet → FlatSet) → FlatSet
met it result rest =
    if_end it [] λ e. if_set e.value [] λ s. unless_empty (common_members result s []) rest

met-value :
    (m : Bytes) (v : RedisValue) (x : ℕ) (result : FlatSet) (rest : FlatSet → FlatSet) (b : Bool)
    → ((next : FlatSet)
        → is_listed m (members_of (rest next)) ≡ (is_listed m (members_of next) && b))
    → (let e : Entry = record { value = v; expires_at_ms = x } in
        is_listed m (members_of (met (some e) result rest))
        ≡ (is_listed m (members_of result) && (contains_member m (some e) && b)))
unfolding if_end if_set find
met-value m (set_value s) x result rest b h =
    let next = common_members result s [] in
    unless_empty_lem m next rest b (h next)
    ∙ ap (λ c. c && b)
        (is_listed-members_of m next (IsSorted-common_members result s [] tt)
          ∙ common_members_lem m result s []
          ∙ or_false (is_listed m (members_of result) && is_found (find m s)))
    ∙ and_assoc (is_listed m (members_of result)) (is_found (find m s)) b
met-value m (string_value s) x result rest b h = sym (and_false (is_listed m (members_of result)))
met-value m (list_value s) x result rest b h = sym (and_false (is_listed m (members_of result)))
met-value m (hash_value s) x result rest b h = sym (and_false (is_listed m (members_of result)))

met_lem :
    (m : Bytes) (it : Option Entry) (result : FlatSet) (rest : FlatSet → FlatSet) (b : Bool)
    → ((next : FlatSet)
        → is_listed m (members_of (rest next)) ≡ (is_listed m (members_of next) && b))
    → is_listed m (members_of (met it result rest))
      ≡ (is_listed m (members_of result) && (contains_member m it && b))
unfolding if_end
met_lem m none result rest b h = sym (and_false (is_listed m (members_of result)))
met_lem m (some e) result rest b h = met-value m e.value e.expires_at_ms result rest b h

inter_loop_lem :
    (clock : Clock) (keys : List Bytes) (d : DataMap) (result : FlatSet) (m : Bytes)
    → is_listed m (members_of (inter_loop clock keys d result))
      ≡ (is_listed m (members_of result) && all_contain clock keys d m)
unfolding inter_loop
inter_loop_lem clock [] d result m = sym (and_true (is_listed m (members_of result)))
inter_loop_lem clock (key ∷ keys) d result m =
    met_lem m (find_live (clock 0) key d) result (inter_loop (later clock) keys d)
      (all_contain (later clock) keys d m) (λ next. inter_loop_lem (later clock) keys d next m)

first-value :
    (m : Bytes) (v : RedisValue) (x : ℕ) (rest : FlatSet → FlatSet) (b : Bool)
    → ((next : FlatSet)
        → is_listed m (members_of (rest next)) ≡ (is_listed m (members_of next) && b))
    → (let e : Entry = record { value = v; expires_at_ms = x } in
        is_listed m (members_of (if_end (some e) [] λ e. if_set e.value [] rest))
        ≡ (has_member m (some e) && b))
unfolding if_end if_set
first-value m (set_value s) x rest b h = h s
first-value m (string_value s) x rest b h = refl
first-value m (list_value s) x rest b h = refl
first-value m (hash_value s) x rest b h = refl

first_lem :
    (m : Bytes) (it : Option Entry) (rest : FlatSet → FlatSet) (b : Bool)
    → ((next : FlatSet)
        → is_listed m (members_of (rest next)) ≡ (is_listed m (members_of next) && b))
    → is_listed m (members_of (if_end it [] λ e. if_set e.value [] rest)) ≡ (has_member m it && b)
unfolding if_end
first_lem m none rest b h = refl
first_lem m (some e) rest b h = first-value m e.value e.expires_at_ms rest b h

-- SINTER of one key or more lists a member exactly if the set of the first key lists it and a lookup
-- finds it in the set of every other key, each read in its turn; a key that is missing, expired or of
-- another type counts as empty.
pub sinter_lem :
    (clock : Clock) (key : Bytes) (keys : List Bytes) (d : DataMap) (m : Bytes)
    → is_listed m (sinter clock (key ∷ keys) d)
      ≡ (has_member m (find_live (clock 0) key d) && all_contain (later clock) keys d m)
unfolding sinter
sinter_lem clock key keys d m =
    first_lem m (find_live (clock 0) key d) (inter_loop (later clock) keys d)
      (all_contain (later clock) keys d m) (λ next. inter_loop_lem (later clock) keys d next m)
