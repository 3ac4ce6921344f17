-- ===== src/Store/Keeps/Collections.antt =====
-- The operations on lists, hashes and sets.
use redix.Prelude.{ℕ, ◌≡◌, List, [], ◌∷◌, ◌++◌, arith, Bytes}
use redix.Prelude.Int.{ℤ}
use redix.FlatMap.{FlatMap, text_order, insert, IsSorted}
use redix.FlatMap.Laws.{IsSorted-insert, IsSorted-erase}
use redix.Store.Value.{
  Expected, FlatSet, RedisValue, list_value, hash_value, set_value, Entry, DataMap,
}
use redix.Store.Lists.{
  push_front_all, push_back_all, push, lpush, rpush, keep_list, take_front, lpop, take_back,
  pop_back, rpop,
}
use redix.Store.Hashes.{assign_fields, hset, erase_fields, keep_hash, hdel}
use redix.Store.Sets.{insert_members, sadd, erase_members, keep_set, srem}
use redix.Store.Keeps.{
  NonEmpty, IsValidValue, Closed, if_end_rule, if_list_rule, if_hash_rule, if_set_rule,
  find_live_mut-keeps, find_live_mut-valid,
}

push_front_all-NonEmpty : (values l : List Bytes) → NonEmpty l → NonEmpty (push_front_all values l)
unfolding push_front_all
push_front_all-NonEmpty [] l h = h
push_front_all-NonEmpty (v ∷ values) l h = push_front_all-NonEmpty values (v ∷ l) tt

NonEmpty-append : (l r : List Bytes) → NonEmpty r → NonEmpty (l ++ r)
NonEmpty-append [] r h = h
NonEmpty-append (x ∷ l) r h = tt

push_back_all-NonEmpty : (values l : List Bytes) → NonEmpty l → NonEmpty (push_back_all values l)
unfolding push_back_all
push_back_all-NonEmpty [] l h = h
push_back_all-NonEmpty (v ∷ values) l h =
    push_back_all-NonEmpty values (l ++ v ∷ []) (NonEmpty-append l (v ∷ []) tt)

module _ {V : Type 0} where
  insert-NonEmpty : (k : Bytes) (v : V) (m : FlatMap Bytes V) → NonEmpty (insert k v m)
  unfolding insert
  insert-NonEmpty k v [] = tt
  insert-NonEmpty k v ((j, w) ∷ m) = ground arith

assign_fields-valid :
    (fv_pairs : List (Bytes × Bytes)) (n : ℕ) (h : FlatMap Bytes Bytes)
    → NonEmpty h
    → IsSorted h
    → IsValidValue (hash_value (assign_fields fv_pairs n h).1)
unfolding assign_fields
assign_fields-valid [] n h p q = (p, q)
assign_fields-valid ((field, value) ∷ fv_pairs) n h p q =
    assign_fields-valid fv_pairs _ _ (insert-NonEmpty field value h)
      (IsSorted-insert field value h q)

-- From a map that may be empty, with at least one pair to assign.
assign_some-valid :
    (field value : Bytes) (fv_pairs : List (Bytes × Bytes)) (h : FlatMap Bytes Bytes)
    → IsSorted h
    → IsValidValue (hash_value (assign_fields ((field, value) ∷ fv_pairs) 0 h).1)
unfolding assign_fields
assign_some-valid field value fv_pairs h q =
    assign_fields-valid fv_pairs _ _ (insert-NonEmpty field value h)
      (IsSorted-insert field value h q)

erase_fields-IsSorted :
    (fields : List Bytes) (n : ℕ) (h : FlatMap Bytes Bytes)
    → IsSorted h
    → IsSorted (erase_fields fields n h).1
unfolding erase_fields
erase_fields-IsSorted [] n h q = q
erase_fields-IsSorted (field ∷ fields) n h q =
    erase_fields-IsSorted fields _ _ (IsSorted-erase field h q)

insert_members-valid :
    (members : List Bytes) (n : ℕ) (s : FlatSet)
    → NonEmpty s
    → IsSorted s
    → IsValidValue (set_value (insert_members members n s).1)
unfolding insert_members
insert_members-valid [] n s p q = (p, q)
insert_members-valid (member ∷ members) n s p q =
    insert_members-valid members _ _ (insert-NonEmpty member tt s) (IsSorted-insert member tt s q)

insert_some-valid :
    (member : Bytes) (members : List Bytes) (s : FlatSet)
    → IsSorted s
    → IsValidValue (set_value (insert_members (member ∷ members) 0 s).1)
unfolding insert_members
insert_some-valid member members s q =
    insert_members-valid members _ _ (insert-NonEmpty member tt s) (IsSorted-insert member tt s q)

erase_members-IsSorted :
    (members : List Bytes) (n : ℕ) (s : FlatSet)
    → IsSorted s
    → IsSorted (erase_members members n s).1
unfolding erase_members
erase_members-IsSorted [] n s q = q
erase_members-IsSorted (member ∷ members) n s q =
    erase_members-IsSorted members _ _ (IsSorted-erase member s q)

list-valid : (v : RedisValue) (l : List Bytes) → v ≡ list_value l → IsValidValue v → NonEmpty l
list-valid v l q h = rw q at h

hash-valid :
    (v : RedisValue) (m : FlatMap Bytes Bytes) → v ≡ hash_value m → IsValidValue v → IsSorted m
hash-valid v m q h = (rw q at h).1

set-valid : (v : RedisValue) (s : FlatSet) → v ≡ set_value s → IsValidValue v → IsSorted s
set-valid v s q h = (rw q at h).1

module _ {κ} {key : Bytes} {I : DataMap → Type κ} (c : Closed key I) where
  push-keeps :
      (all : List Bytes → List Bytes → List Bytes) (now : ℕ) (values : List Bytes) (d : DataMap)
      → NonEmpty (all values [])
      → ((l : List Bytes) → NonEmpty l → NonEmpty (all values l))
      → I d
      → I (push all now key values d).1
  push-keeps all now values d first more h =
      let kept = find_live_mut-keeps c now d h in
      if_end_rule (λ (r : ℤ × DataMap). I r.1) _ _ _ (c.written _ _ first kept)
        λ e q.
          if_list_rule (λ (r : ℤ × DataMap). I r.1) e.value _ _ kept
            λ l p.
              c.written _ _ (more l (list-valid e.value l p (find_live_mut-valid c now d e h q)))
                kept

  pub lpush-keeps :
      (now : ℕ) (v : Bytes) (values : List Bytes) (d : DataMap)
      → I d
      → I (lpush now key (v ∷ values) d).1
  unfolding lpush
  lpush-keeps now v values d =
      push-keeps push_front_all now (v ∷ values) d (push_front_all-NonEmpty values (v ∷ []) tt)
        (push_front_all-NonEmpty (v ∷ values))

  pub rpush-keeps :
      (now : ℕ) (v : Bytes) (values : List Bytes) (d : DataMap)
      → I d
      → I (rpush now key (v ∷ values) d).1
  unfolding rpush
  rpush-keeps now v values d =
      push-keeps push_back_all now (v ∷ values) d (push_back_all-NonEmpty values (v ∷ []) tt)
        (push_back_all-NonEmpty (v ∷ values))

  keep_list-keeps : (e : Entry) (l : List Bytes) (d : DataMap) → I d → I (keep_list key e l d)
  keep_list-keeps e [] d h = c.erased d h
  keep_list-keeps e (x ∷ l) d h = c.written d _ tt h

  take_front-keeps : (e : Entry) (l : List Bytes) (d : DataMap) → I d → I (take_front key e d l).1
  take_front-keeps e [] d h = c.erased d h
  take_front-keeps e (x ∷ l) d h = keep_list-keeps e l d h

  take_back-keeps : (e : Entry) (l : List Bytes) (d : DataMap) → I d → I (take_back key e d l).1
  take_back-keeps e [] d h = c.erased d h
  take_back-keeps e (x ∷ l) d h = keep_list-keeps e (pop_back x l) d h

  pub lpop-keeps : (now : ℕ) (d : DataMap) → I d → I (lpop now key d).1
  unfolding lpop
  lpop-keeps now d h =
      let kept = find_live_mut-keeps c now d h in
      if_end_rule (λ (r : Expected Bytes × DataMap). I r.1) _ _ _ kept
        λ e q.
          if_list_rule (λ (r : Expected Bytes × DataMap). I r.1) e.value _ _ kept
            λ l p. take_front-keeps e l _ kept

  pub rpop-keeps : (now : ℕ) (d : DataMap) → I d → I (rpop now key d).1
  unfolding rpop
  rpop-keeps now d h =
      let kept = find_live_mut-keeps c now d h in
      if_end_rule (λ (r : Expected Bytes × DataMap). I r.1) _ _ _ kept
        λ e q.
          if_list_rule (λ (r : Expected Bytes × DataMap). I r.1) e.value _ _ kept
            λ l p. take_back-keeps e l _ kept

  pub hset-keeps :
      (now : ℕ) (field value : Bytes) (fv_pairs : List (Bytes × Bytes)) (d : DataMap)
      → I d
      → I (hset now key ((field, value) ∷ fv_pairs) d).1
  unfolding hset
  hset-keeps now field value fv_pairs d h =
      let kept = find_live_mut-keeps c now d h in
      if_end_rule (λ (r : ℤ × DataMap). I r.1) _ _ _
        (c.written _ _ (assign_some-valid field value fv_pairs [] tt) kept)
        λ e q.
          if_hash_rule (λ (r : ℤ × DataMap). I r.1) e.value _ _ kept
            λ m p.
              let sorted = hash-valid e.value m p (find_live_mut-valid c now d e h q) in
              c.written _ _ (assign_some-valid field value fv_pairs m sorted) kept

  keep_hash-keeps :
      (e : Entry) (m : FlatMap Bytes Bytes) (d : DataMap)
      → IsSorted m
      → I d
      → I (keep_hash key e m d)
  keep_hash-keeps e [] d s h = c.erased d h
  keep_hash-keeps e (x ∷ m) d s h = c.written d _ (tt, s) h

  pub hdel-keeps : (now : ℕ) (fields : List Bytes) (d : DataMap) → I d → I (hdel now key fields d).1
  unfolding hdel
  hdel-keeps now fields d h =
      let kept = find_live_mut-keeps c now d h in
      if_end_rule (λ (r : ℤ × DataMap). I r.1) _ _ _ kept
        λ e q.
          if_hash_rule (λ (r : ℤ × DataMap). I r.1) e.value _ _ kept
            λ m p.
              let sorted = hash-valid e.value m p (find_live_mut-valid c now d e h q) in
              keep_hash-keeps e _ _ (erase_fields-IsSorted fields 0 m sorted) kept

  pub sadd-keeps :
      (now : ℕ) (member : Bytes) (members : List Bytes) (d : DataMap)
      → I d
      → I (sadd now key (member ∷ members) d).1
  unfolding sadd
  sadd-keeps now member members d h =
      let kept = find_live_mut-keeps c now d h in
      if_end_rule (λ (r : ℤ × DataMap). I r.1) _ _ _
        (c.written _ _ (insert_some-valid member members [] tt) kept)
        λ e q.
          if_set_rule (λ (r : ℤ × DataMap). I r.1) e.value _ _ kept
            λ s p.
              let sorted = set-valid e.value s p (find_live_mut-valid c now d e h q) in
              c.written _ _ (insert_some-valid member members s sorted) kept

  keep_set-keeps :
      (e : Entry) (s : FlatSet) (d : DataMap) → IsSorted s → I d → I (keep_set key e s d)
  keep_set-keeps e [] d q h = c.erased d h
  keep_set-keeps e (x ∷ s) d q h = c.written d _ (tt, q) h

  pub srem-keeps :
      (now : ℕ) (members : List Bytes) (d : DataMap) → I d → I (srem now key members d).1
  unfolding srem
  srem-keeps now members d h =
      let kept = find_live_mut-keeps c now d h in
      if_end_rule (λ (r : ℤ × DataMap). I r.1) _ _ _ kept
        λ e q.
          if_set_rule (λ (r : ℤ × DataMap). I r.1) e.value _ _ kept
            λ s p.
              let sorted = set-valid e.value s p (find_live_mut-valid c now d e h q) in
              keep_set-keeps e _ _ (erase_members-IsSorted members 0 s sorted) kept
