-- ===== src/Store/Lists/Pops.antt =====
-- LPOP and RPOP take the two ends of the sequence of a key.
use mathlib.Core.List.{reverse, reverse-cons}
use redix.Prelude.{
  ℕ, ◌≡◌, refl, sym, ap, ◌∙◌, Option, none, some, List, [], ◌∷◌, ◌++◌, arith, Bytes,
}
use redix.FlatMap.{text_order, erase, IsSorted}
use redix.Store.Value.{
  RedisValue, string_value, list_value, hash_value, set_value, Entry, DataMap, key_not_found,
  wrong_type, Expected, ok, err, if_list, if_end,
}
use redix.Store.Live.{unless_expired, find_live_mut}
use redix.Store.View.{
  find_live-erased, find_live_mut-eq-find_live, find_live-find_live_mut, find_live_mut-IsLive,
  IsSorted-find_live_mut,
}
use redix.Store.Lists.{keep_list, take_front, lpop, back, pop_back, take_back, rpop}
use redix.Store.Lists.Sequence.{sequence_of, sequence, sequence-written}

-- The reply and the new sequence, of `take` on the non-empty ones.
abbrev pub popped :
    (Bytes → List Bytes → Bytes × List Bytes)
    → Option (List Bytes)
    → Expected Bytes × Option (List Bytes)
popped take none = (err wrong_type, none)
popped take (some []) = (err key_not_found, some [])
popped take (some (x ∷ l)) = (ok (take x l).0, some (take x l).1)

module _ (now : ℕ) (key : Bytes) (d : DataMap) (s : IsSorted d) where
  sequence-erased : sequence now key (erase key d) ≡ some []
  sequence-erased = ap sequence_of (find_live-erased now key d s)

  sequence-keep_list :
      (e : Entry) (l : List Bytes)
      → unless_expired now (some e) ≡ some e
      → sequence now key (keep_list key e l d) ≡ some l
  sequence-keep_list e [] live = sequence-erased
  sequence-keep_list e (x ∷ l) live = sequence-written now key (x ∷ l) e d live

  module _ (take : Bytes → List Bytes → Bytes × List Bytes)
      (step : Bytes → Entry → DataMap → List Bytes → Expected Bytes × DataMap)
      (step_nil : (e : Entry) → step key e d [] ≡ (err key_not_found, erase key d))
      (step_cons : (e : Entry) (x : Bytes) (l : List Bytes)
        → step key e d (x ∷ l) ≡ (ok (take x l).0, keep_list key e (take x l).1 d)) where
    abbrev pop_branches : Option Entry → Expected Bytes × DataMap
    pop_branches it =
        if_end it (err key_not_found, d)
          λ e. if_list e.value (err wrong_type, d) λ l. step key e d l

    step_lem :
        (e : Entry) (l : List Bytes)
        → unless_expired now (some e) ≡ some e
        → ((step key e d l).0, sequence now key (step key e d l).1) ≡ popped take (some l)
    step_lem e [] live = rw (step_nil e) (ap (λ r. (err key_not_found, r)) sequence-erased)
    step_lem e (x ∷ l) live =
        rw (step_cons e x l)
          (ap (λ r. (ok (take x l).0, r)) (sequence-keep_list e (take x l).1 live))

    pop_value_lem :
        (v : RedisValue) (x : ℕ)
        → (let e : Entry = record { value = v; expires_at_ms = x } in
            unless_expired now (some e) ≡ some e
            → sequence_of (some e) ≡ sequence now key d
            → ((pop_branches (some e)).0, sequence now key (pop_branches (some e)).1)
              ≡ popped take (sequence_of (some e)))
    unfolding if_end if_list
    pop_value_lem (string_value t) x live q = ap (λ r. (err wrong_type, r)) (sym q)
    pop_value_lem (list_value l) x live q =
        step_lem (record { value = list_value l; expires_at_ms = x }) l live
    pop_value_lem (hash_value t) x live q = ap (λ r. (err wrong_type, r)) (sym q)
    pop_value_lem (set_value t) x live q = ap (λ r. (err wrong_type, r)) (sym q)

    pop_branches_lem :
        (it : Option Entry)
        → unless_expired now it ≡ it
        → sequence_of it ≡ sequence now key d
        → ((pop_branches it).0, sequence now key (pop_branches it).1) ≡ popped take (sequence_of it)
    unfolding if_end
    pop_branches_lem none live q = ap (λ r. (err key_not_found, r)) (sym q)
    pop_branches_lem (some e) live q = pop_value_lem e.value e.expires_at_ms live q

module _ (now : ℕ) (key : Bytes) (d : DataMap) (s : IsSorted d) where
  abbrev sorted : IsSorted (find_live_mut now key d).1
  sorted = IsSorted-find_live_mut now key d s

  same_sequence :
      sequence_of (find_live_mut now key d).0 ≡ sequence now key (find_live_mut now key d).1
  same_sequence = ap sequence_of (
      find_live_mut-eq-find_live now key d
      ∙ sym (find_live-find_live_mut now now key key d s (omega arith)))

  lpop-sequence :
      ((lpop now key d).0, sequence now key (lpop now key d).1)
      ≡ popped (λ x l. (x, l)) (sequence now key d)
  unfolding lpop
  lpop-sequence =
      pop_branches_lem now key (find_live_mut now key d).1 sorted (λ x l. (x, l)) take_front
        (λ e. refl) (λ e x l. refl) (find_live_mut now key d).0 (find_live_mut-IsLive now key d)
        same_sequence
      ∙ ap (λ o. popped (λ x l. (x, l)) (sequence_of o)) (find_live_mut-eq-find_live now key d)

  rpop-sequence :
      ((rpop now key d).0, sequence now key (rpop now key d).1)
      ≡ popped (λ x l. (back x l, pop_back x l)) (sequence now key d)
  unfolding rpop
  rpop-sequence =
      pop_branches_lem now key (find_live_mut now key d).1 sorted (λ x l. (back x l, pop_back x l))
        take_back (λ e. refl) (λ e x l. refl) (find_live_mut now key d).0
        (find_live_mut-IsLive now key d) same_sequence
      ∙ ap (λ o. popped (λ x l. (back x l, pop_back x l)) (sequence_of o))
          (find_live_mut-eq-find_live now key d)

reverse-pop_back :
    (x : Bytes) (l : List Bytes) → reverse (x ∷ l) ≡ back x l ∷ reverse (pop_back x l)
reverse-pop_back x [] = refl
reverse-pop_back x (y ∷ l) =
    reverse-cons x (y ∷ l)
    ∙ ap (λ r. r ++ x ∷ []) (reverse-pop_back y l)
    ∙ ap (λ r. back y l ∷ r) (sym (reverse-cons x (pop_back y l)))

-- A sequence read from its back.
abbrev pub mirrored : Option (List Bytes) → Option (List Bytes)
mirrored none = none
mirrored (some l) = some (reverse l)

popped-mirrored :
    (o : Option (List Bytes))
    → (let r = popped (λ x l. (back x l, pop_back x l)) o in (r.0, mirrored r.1))
      ≡ popped (λ x l. (x, l)) (mirrored o)
popped-mirrored none = refl
popped-mirrored (some []) = refl
popped-mirrored (some (x ∷ l)) =
    ap (λ r. popped (λ x l. (x, l)) (some r)) (sym (reverse-pop_back x l))

-- RPOP on a sorted keyspace does to the sequence of the key, read from its back, what LPOP does to
-- it: it takes the last element off, and an empty sequence, a missing key and a key of another type
-- are errors.
pub rpop_lem :
    (now : ℕ) (key : Bytes) (d : DataMap)
    → IsSorted d
    → ((rpop now key d).0, mirrored (sequence now key (rpop now key d).1))
      ≡ popped (λ x l. (x, l)) (mirrored (sequence now key d))
rpop_lem now key d s =
    ap (λ r. (r.0, mirrored r.1)) (rpop-sequence now key d s) ∙ popped-mirrored (sequence now key d)

-- LPOP on a sorted keyspace takes the first element off the sequence of the key. An empty sequence,
-- a missing key and a key of another type are errors, and the sequence stays.
pub lpop_lem :
    (now : ℕ) (key : Bytes) (d : DataMap)
    → IsSorted d
    → ((lpop now key d).0, sequence now key (lpop now key d).1)
      ≡ popped (λ x l. (x, l)) (sequence now key d)
lpop_lem now key d s = lpop-sequence now key d s
