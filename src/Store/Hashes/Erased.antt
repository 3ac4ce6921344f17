-- ===== src/Store/Hashes/Erased.antt =====
-- HDEL as an operation on the map of fields of a key.
use mathlib.Core.Path.{subst}
use redix.Prelude.{
  ℕ, ◌+◌, ◌-◌, ◌≡◌, refl, sym, ap, ◌∙◌, true, false, Option, none, some, List, [], ◌∷◌, length,
  arith, Bytes, if◌then◌else◌,
}
use redix.Prelude.Int.{ℤ, pos, negsuc}
use redix.FlatMap.{FlatMap, text_order, find, erase, IsSorted}
use redix.FlatMap.Laws.{find-erase, length-erase, IsSorted-erase}
use redix.FlatMap.Values.{All-find}
use redix.Store.Value.{
  RedisValue, string_value, list_value, hash_value, set_value, Entry, DataMap, if_hash, if_end,
}
use redix.Store.Live.{is_expired, unless_expired, find_live}
use redix.Store.View.{IsUntouched, find_live-erased}
use redix.Store.Keeps.{IsValidValue}
use redix.Store.Invariant.{IsValid}
use redix.Store.Collection.{updated, held, observe, collection-written, update_lem, untouched_lem}
use redix.Store.Strings.Deleted.{is_listed}
use redix.Store.Hashes.{found_count, erase_fields, keep_hash, hdel}
use redix.Store.Hashes.Fields.{hash_of, hash_kind, fields, counted}

abbrev hdel_branches : Bytes → List Bytes → Option Entry → DataMap → ℤ × DataMap
hdel_branches key fs it d =
    if_end it (pos 0, d)
      λ e.
        if_hash e.value (negsuc 0, d)
          λ h. let (removed, hash) = erase_fields fs 0 h in (pos removed, keep_hash key e hash d)

erase_fields-nil : (fs : List Bytes) (n : ℕ) → erase_fields fs n [] ≡ (n, [])
unfolding erase_fields find erase
erase_fields-nil [] n = refl
erase_fields-nil (f ∷ fs) n = erase_fields-nil fs (n + 0) ∙ ap (λ m. (m, [])) (omega arith)

module _ (now : ℕ) (key : Bytes) (fs : List Bytes) where
  hdel_other :
      (v : RedisValue) (x : ℕ) (d : DataMap)
      → hash_of v ≡ none
      → hdel_branches key fs (some (record { value = v; expires_at_ms = x })) d ≡ (negsuc 0, d)
  unfolding if_end if_hash
  hdel_other (hash_value h) x d q = absurd (cc)
  hdel_other (string_value t) x d q = refl
  hdel_other (list_value l) x d q = refl
  hdel_other (set_value t) x d q = refl

  fields-keep_hash :
      (x : ℕ) (h hash : FlatMap Bytes Bytes) (d : DataMap)
      → (let e : Entry = record { value = hash_value h; expires_at_ms = x } in
          unless_expired now (some e) ≡ some e
          → IsSorted d
          → fields now key (keep_hash key e hash d) ≡ some hash)
  fields-keep_hash x h [] d live s = ap (held hash_kind) (find_live-erased now key d s)
  fields-keep_hash x h (p ∷ hash) d live s =
      collection-written hash_kind now key (p ∷ hash) (hash_value h) x d live

  hdel-updated :
      (d : DataMap)
      → IsSorted d
      → observe hash_kind now key (hdel now key fs d)
        ≡ updated (λ h. counted (erase_fields fs 0 h)) (fields now key d)
  unfolding hdel if_end if_hash
  hdel-updated d s =
      update_lem hash_kind (λ h. counted (erase_fields fs 0 h)) now key (hdel_branches key fs)
        (λ d' q.
          ap (λ r. (pos 0, r)) q
          ∙ ap (λ (r : ℕ × FlatMap Bytes Bytes). (pos r.0, some r.1)) (sym (erase_fields-nil fs 0)))
        (λ x h d' live s'.
          ap (λ r. (pos (erase_fields fs 0 h).0, r))
            (fields-keep_hash x h (erase_fields fs 0 h).1 d' live s'))
        hdel_other d s

  hdel-IsUntouched :
      (d : DataMap) → IsSorted d → IsUntouched (fields now key d) now d (hdel now key fs d).1
  unfolding hdel
  hdel-IsUntouched d s = untouched_lem hash_kind now key (hdel_branches key fs) hdel_other d s

find-erase_fields :
    (field : Bytes) (fs : List Bytes) (n : ℕ) (h : FlatMap Bytes Bytes)
    → IsSorted h
    → find field (erase_fields fs n h).1 ≡ (if is_listed field fs then none else find field h)
unfolding erase_fields
find-erase_fields field [] n h s = refl
find-erase_fields field (f ∷ fs) n h s = ground (
  arith,
  find-erase_fields field fs (n + found_count (find f h)) (erase f h) (IsSorted-erase f h s),
  find-erase field f h s,
)

length-erase_fields :
    (fs : List Bytes) (n : ℕ) (h : FlatMap Bytes Bytes)
    → (erase_fields fs n h).0 + length (erase_fields fs n h).1 ≡ n + length h
unfolding erase_fields
length-erase_fields [] n h = refl
length-erase_fields (f ∷ fs) n h =
    let rest = length-erase_fields fs (n + found_count (find f h)) (erase f h) in
    ground (arith, rest, length-erase f h)

-- HDEL, from the fields before to the reply and the fields after: the reply is the number of fields
-- lost, and the listed fields are gone, the others as they were.
abbrev pub IsErased :
    List Bytes → Option (FlatMap Bytes Bytes) → ℤ × Option (FlatMap Bytes Bytes) → Type 0
IsErased fs none (r, h') = (r ≡ negsuc 0) × (h' ≡ none)
IsErased fs (some h) (r, none) = ⊥
IsErased fs (some h) (r, some h') =
    (r ≡ pos (length h - length h'))
    × ((field : Bytes) → find field h' ≡ (if is_listed field fs then none else find field h))

-- The fields of a well-formed keyspace are in order.
AreSorted : Option (FlatMap Bytes Bytes) → Type 0
AreSorted none = Unit
AreSorted (some h) = IsSorted h

held-AreSorted : (v : RedisValue) → IsValidValue v → AreSorted (hash_of v)
unfolding AreSorted
held-AreSorted (hash_value h) w = w.1
held-AreSorted (string_value s) w = tt
held-AreSorted (list_value l) w = tt
held-AreSorted (set_value s) w = tt

fields-AreSorted : (now : ℕ) (key : Bytes) (d : DataMap) → IsValid d → AreSorted (fields now key d)
unfolding find_live AreSorted
fields-AreSorted now key d w =
    by_entry (find key d) (λ e q. All-find (λ p. IsValidValue p.1.value) key d w.1 e q)
  where
    by_entry :
        (o : Option Entry)
        → ((e : Entry) → o ≡ some e → IsValidValue e.value)
        → AreSorted (held hash_kind (unless_expired now o))
    by_entry none k = tt
    by_entry (some e) k =
        elim (is_expired now e)
          as (λ b. AreSorted (held hash_kind (if◌then◌else◌ {A = Option Entry} b none (some e)))) [
            | true ↦ tt
            | false ↦ held-AreSorted e.value (k e refl)
          ]

erase_fields-IsErased :
    (fs : List Bytes) (o : Option (FlatMap Bytes Bytes))
    → AreSorted o
    → IsErased fs o (updated (λ h. counted (erase_fields fs 0 h)) o)
unfolding AreSorted
erase_fields-IsErased fs none w = (refl, refl)
erase_fields-IsErased fs (some h) w =
    (ap pos (ground (arith, length-erase_fields fs 0 h)), λ field. find-erase_fields field fs 0 h w)

-- HDEL on a well-formed keyspace: the listed fields are gone, every other field is as it was, and
-- the reply is the number of fields lost. A missing key gives 0; for a key of another type
-- the reply is -1, and no client sees a change of any key, then or later.
pub hdel_lem :
    (now : ℕ) (key : Bytes) (fs : List Bytes) (d : DataMap)
    → IsValid d
    → IsErased fs (fields now key d) ((hdel now key fs d).0, fields now key (hdel now key fs d).1)
      × IsUntouched (fields now key d) now d (hdel now key fs d).1
hdel_lem now key fs d w = (
  subst (IsErased fs (fields now key d)) (sym (hdel-updated now key fs d w.0))
      (erase_fields-IsErased fs (fields now key d) (fields-AreSorted now key d w)),
  hdel-IsUntouched now key fs d w.0,
)
