-- ===== src/Store/Lists/Sequence.antt =====
-- LPUSH, RPUSH, LPOP and RPOP as operations on one sequence for each key.
use mathlib.Core.List.{reverse, reverse_aux, reverse_aux-eq}
use mathlib.Core.Path.{subst}
use redix.Prelude.{
  ℕ, ◌+◌, ◌≡◌, refl, sym, ap, ◌∙◌, Option, none, some, List, [], ◌∷◌, ◌++◌, arith, length, Bytes,
  append-nil, append_assoc,
}
use redix.Prelude.Int.{ℤ, pos, negsuc}
use redix.FlatMap.{text_order, insert, IsSorted}
use redix.Store.Value.{
  RedisValue, string_value, list_value, hash_value, set_value, Entry, fresh, DataMap, if_list,
  if_end,
}
use redix.Store.Live.{is_expired, unless_expired, find_live, find_live_mut}
use redix.Store.View.{
  find_live_mut-IsLive, find_live-written, find_live_mut-eq-find_live, find_live-find_live_mut,
  IsUntouched,
}
use redix.Store.Lists.{write_list, push_front_all, push_back_all, push, lpush, rpush}

-- The sequence under a key: a missing key has the empty one, a value of another type has none.
abbrev pub sequence_of : Option Entry → Option (List Bytes)
sequence_of none = some []
sequence_of (some e) = elim e.value [
  | list_value l ↦ some l
  | string_value s ↦ none
  | hash_value h ↦ none
  | set_value s ↦ none
]

abbrev pub sequence : ℕ → Bytes → DataMap → Option (List Bytes)
sequence now key d = sequence_of (find_live now key d)

-- The list that is written under the key, with an expiry that has not come.
still_live :
    (now : ℕ) (l : List Bytes) (e : Entry)
    → unless_expired now (some e) ≡ some e
    → unless_expired now (some (record e { value = list_value l }))
      ≡ some (record e { value = list_value l })
unfolding is_expired
still_live now l e live = ground arith

pub sequence-written :
    (now : ℕ) (key : Bytes) (l : List Bytes) (e : Entry) (d : DataMap)
    → unless_expired now (some e) ≡ some e
    → sequence now key (write_list key e l d) ≡ some l
sequence-written now key l e d live =
    ap sequence_of
      (find_live-written now key (record e { value = list_value l }) d ∙ still_live now l e live)

-- The reply and the new sequence of a push of `values`, made in the order that `all` makes it.
abbrev pub pushed : (List Bytes → List Bytes) → Option (List Bytes) → ℤ × Option (List Bytes)
pushed all none = (negsuc 0, none)
pushed all (some l) = (pos (length (all l)), some (all l))

fresh_live : (now : ℕ) (v : RedisValue) → unless_expired now (some (fresh v)) ≡ some (fresh v)
unfolding is_expired
fresh_live now v = ground arith

module _ (all : List Bytes → List Bytes → List Bytes) (now : ℕ) (key : Bytes)
    (values : List Bytes) where
  abbrev branches : Option Entry → DataMap → ℤ × DataMap
  branches it d =
      if_end it (pos (length (all values [])), insert key (fresh (list_value (all values []))) d)
        λ e.
          if_list e.value (negsuc 0, d)
            λ l. (pos (length (all values l)), write_list key e (all values l) d)

  value_lem :
      (v : RedisValue) (x : ℕ) (d : DataMap)
      → (let e : Entry = record { value = v; expires_at_ms = x } in
          unless_expired now (some e) ≡ some e
          → sequence_of (some e) ≡ sequence now key d
          → ((branches (some e) d).0, sequence now key (branches (some e) d).1)
            ≡ pushed (all values) (sequence_of (some e)))
  unfolding if_end if_list is_expired
  value_lem (string_value s) x d live q = ap (λ r. (negsuc 0, r)) (sym q)
  value_lem (list_value l) x d live q =
      ap (λ r. (pos (length (all values l)), r))
        (sequence-written now key (all values l)
          (record { value = list_value l; expires_at_ms = x }) d live)
  value_lem (hash_value s) x d live q = ap (λ r. (negsuc 0, r)) (sym q)
  value_lem (set_value s) x d live q = ap (λ r. (negsuc 0, r)) (sym q)

  branches_lem :
      (it : Option Entry) (d : DataMap)
      → unless_expired now it ≡ it
      → sequence_of it ≡ sequence now key d
      → ((branches it d).0, sequence now key (branches it d).1)
        ≡ pushed (all values) (sequence_of it)
  unfolding if_end is_expired
  branches_lem none d live q =
      ap (λ r. (pos (length (all values [])), r))
        (sequence-written now key (all values []) (fresh (list_value (all values []))) d
          (fresh_live now _))
  branches_lem (some e) d live q = value_lem e.value e.expires_at_ms d live q

  -- A push makes what `all` makes of the sequence.
  push_lem :
      (d : DataMap)
      → IsSorted d
      → ((push all now key values d).0, sequence now key (push all now key values d).1)
        ≡ pushed (all values) (sequence now key d)
  push_lem d s =
      let same_it = find_live_mut-eq-find_live now key d in
      branches_lem (find_live_mut now key d).0 (find_live_mut now key d).1
        (find_live_mut-IsLive now key d)
        (ap sequence_of (same_it ∙ sym (find_live-find_live_mut now now key key d s (omega arith))))
      ∙ ap (λ o. pushed (all values) (sequence_of o)) same_it

  value-IsUntouched :
      (v : RedisValue) (x : ℕ) (d d' : DataMap)
      → ((m : ℕ) (j : Bytes) → find_live (now + m) j d' ≡ find_live (now + m) j d)
      → (let e : Entry = record { value = v; expires_at_ms = x } in
          IsUntouched (sequence_of (some e)) now d (branches (some e) d').1)
  unfolding if_end if_list
  value-IsUntouched (string_value s) x d d' h = h
  value-IsUntouched (list_value l) x d d' h = tt
  value-IsUntouched (hash_value s) x d d' h = h
  value-IsUntouched (set_value s) x d d' h = h

  branches-IsUntouched :
      (it : Option Entry) (d d' : DataMap)
      → ((m : ℕ) (j : Bytes) → find_live (now + m) j d' ≡ find_live (now + m) j d)
      → IsUntouched (sequence_of it) now d (branches it d').1
  branches-IsUntouched none d d' h = tt
  branches-IsUntouched (some e) d d' h = value-IsUntouched e.value e.expires_at_ms d d' h

  -- A push leaves a key of another type as it is.
  push-IsUntouched :
      (d : DataMap)
      → IsSorted d
      → IsUntouched (sequence now key d) now d (push all now key values d).1
  push-IsUntouched d s =
      let (it, d') = find_live_mut now key d in
      subst (λ o. IsUntouched (sequence_of o) now d (push all now key values d).1)
        (find_live_mut-eq-find_live now key d)
        (branches-IsUntouched it d d'
          (λ m j. find_live-find_live_mut now (now + m) j key d s (omega arith)))

push_front_all-reverse_aux :
    (values l : List Bytes) → push_front_all values l ≡ reverse_aux values l
unfolding push_front_all
push_front_all-reverse_aux [] l = refl
push_front_all-reverse_aux (v ∷ values) l = push_front_all-reverse_aux values (v ∷ l)

push_front_all_lem : (values l : List Bytes) → push_front_all values l ≡ reverse values ++ l
push_front_all_lem values l = push_front_all-reverse_aux values l ∙ reverse_aux-eq values l

push_back_all_lem : (values l : List Bytes) → push_back_all values l ≡ l ++ values
unfolding push_back_all
push_back_all_lem [] l = sym (append-nil l)
push_back_all_lem (v ∷ values) l =
    push_back_all_lem values (l ++ v ∷ []) ∙ append_assoc l (v ∷ []) values

pushed_eq :
    (f g : List Bytes → List Bytes)
    → ((l : List Bytes) → f l ≡ g l)
    → (o : Option (List Bytes)) → pushed f o ≡ pushed g o
pushed_eq f g h none = refl
pushed_eq f g h (some l) = ap (λ r. (pos (length r), some r)) (h l)

-- LPUSH on a sorted keyspace puts the values before the sequence of the key, the last one first, and
-- replies with the new length; for a key of another type it replies -1, and no client sees a change
-- of any key, then or later.
pub lpush_lem :
    (now : ℕ) (key : Bytes) (values : List Bytes) (d : DataMap)
    → IsSorted d
    → (((lpush now key values d).0, sequence now key (lpush now key values d).1)
        ≡ pushed (λ l. reverse values ++ l) (sequence now key d))
      × IsUntouched (sequence now key d) now d (lpush now key values d).1
unfolding lpush
lpush_lem now key values d s = (
  push_lem push_front_all now key values d s
      ∙ pushed_eq (push_front_all values) _ (push_front_all_lem values) (sequence now key d),
  push-IsUntouched push_front_all now key values d s,
)

-- RPUSH on a sorted keyspace puts the values behind the sequence of the key, in their order, and
-- replies with the new length; for a key of another type it replies -1, and no client sees a change
-- of any key, then or later.
pub rpush_lem :
    (now : ℕ) (key : Bytes) (values : List Bytes) (d : DataMap)
    → IsSorted d
    → (((rpush now key values d).0, sequence now key (rpush now key values d).1)
        ≡ pushed (λ l. l ++ values) (sequence now key d))
      × IsUntouched (sequence now key d) now d (rpush now key values d).1
unfolding rpush
rpush_lem now key values d s = (
  push_lem push_back_all now key values d s
      ∙ pushed_eq (push_back_all values) _ (push_back_all_lem values) (sequence now key d),
  push-IsUntouched push_back_all now key values d s,
)
