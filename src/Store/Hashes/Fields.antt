-- ===== src/Store/Hashes/Fields.antt =====
-- HSET and HDEL as operations on the map of fields of a key.
use mathlib.Core.Path.{subst}
use redix.Prelude.{
  ◌-◌, ℕ, ◌+◌, ◌≡◌, ◌⊎◌, inl, inr, refl, sym, ap, ◌∙◌, Option, none, some, List, [], ◌∷◌, length,
  arith, Bytes, if◌then◌else◌,
}
use redix.Prelude.Int.{ℤ, pos, negsuc}
use redix.FlatMap.{FlatMap, text_order, find, insert, IsSorted}
use redix.FlatMap.Laws.{same, find-insert, length-insert}
use redix.Store.Value.{
  RedisValue, string_value, list_value, hash_value, set_value, Entry, fresh, DataMap, if_hash,
  if_end,
}
use redix.Store.View.{IsUntouched}
use redix.Store.Collection.{
  Kind, updated, collection, observe, collection-written, collection-fresh, update_lem,
  untouched_lem,
}
use redix.Store.Hashes.{missing_count, assign_fields, write_hash, hset}

abbrev pub hash_of : RedisValue → Option (FlatMap Bytes Bytes)
hash_of (hash_value h) = some h
hash_of (string_value s) = none
hash_of (list_value l) = none
hash_of (set_value s) = none

pub hash_cases :
    (v : RedisValue) → ((h : FlatMap Bytes Bytes) × (v ≡ hash_value h)) ⊎ (hash_of v ≡ none)
hash_cases (hash_value h) = inl (h, refl)
hash_cases (string_value s) = inr refl
hash_cases (list_value l) = inr refl
hash_cases (set_value s) = inr refl

abbrev pub hash_kind : Kind (FlatMap Bytes Bytes)
hash_kind = record {
  make = hash_value;
  select = hash_of;
  empty = [];
  select-make = λ h. refl;
  kind_cases = hash_cases;
}

-- The fields of a key: none at all for a missing key, and no answer for one of another type.
abbrev pub fields : ℕ → Bytes → DataMap → Option (FlatMap Bytes Bytes)
fields = collection hash_kind

-- The reply is a count.
abbrev pub counted : ℕ × FlatMap Bytes Bytes → ℤ × FlatMap Bytes Bytes
counted (n, h) = (pos n, h)

abbrev hset_branches : Bytes → List (Bytes × Bytes) → Option Entry → DataMap → ℤ × DataMap
hset_branches key fv_pairs it d =
    if_end it
      (let (added, hash) = assign_fields fv_pairs 0 [] in
        (pos added, insert key (fresh (hash_value hash)) d))
      λ e.
        if_hash e.value (negsuc 0, d)
          λ h.
            let (added, hash) = assign_fields fv_pairs 0 h in (pos added, write_hash key e hash d)

module _ (now : ℕ) (key : Bytes) (fv_pairs : List (Bytes × Bytes)) where
  hset_other :
      (v : RedisValue) (x : ℕ) (d : DataMap)
      → hash_of v ≡ none
      → hset_branches key fv_pairs (some (record { value = v; expires_at_ms = x })) d
        ≡ (negsuc 0, d)
  unfolding if_end if_hash
  hset_other (hash_value h) x d q = absurd (cc)
  hset_other (string_value t) x d q = refl
  hset_other (list_value l) x d q = refl
  hset_other (set_value t) x d q = refl

  hset-updated :
      (d : DataMap)
      → IsSorted d
      → observe hash_kind now key (hset now key fv_pairs d)
        ≡ updated (λ h. counted (assign_fields fv_pairs 0 h)) (fields now key d)
  unfolding hset if_end if_hash
  hset-updated d s =
      update_lem hash_kind (λ h. counted (assign_fields fv_pairs 0 h)) now key
        (hset_branches key fv_pairs)
        (λ d' q.
          ap (λ r. (pos (assign_fields fv_pairs 0 []).0, r))
            (collection-fresh hash_kind now key (assign_fields fv_pairs 0 []).1 d'))
        (λ x h d' live s'.
          ap (λ r. (pos (assign_fields fv_pairs 0 h).0, r))
            (collection-written hash_kind now key (assign_fields fv_pairs 0 h).1 (hash_value h) x d'
              live))
        hset_other d s

  hset-IsUntouched :
      (d : DataMap) → IsSorted d → IsUntouched (fields now key d) now d (hset now key fv_pairs d).1
  unfolding hset
  hset-IsUntouched d s = untouched_lem hash_kind now key (hset_branches key fv_pairs) hset_other d s

-- The value of a field after the pairs are assigned, the later ones on top.
abbrev pub assigned : Bytes → List (Bytes × Bytes) → Option Bytes → Option Bytes
assigned field [] o = o
assigned field ((f, v) ∷ fv_pairs) o = assigned field fv_pairs (if same f field then some v else o)

find-assign_fields :
    (field : Bytes) (fv_pairs : List (Bytes × Bytes)) (n : ℕ) (h : FlatMap Bytes Bytes)
    → find field (assign_fields fv_pairs n h).1 ≡ assigned field fv_pairs (find field h)
unfolding assign_fields
find-assign_fields field [] n h = refl
find-assign_fields field ((f, v) ∷ fv_pairs) n h =
    find-assign_fields field fv_pairs (n + missing_count (find f h)) (insert f v h)
    ∙ ap (assigned field fv_pairs) (find-insert field f v h)

length-assign_fields :
    (fv_pairs : List (Bytes × Bytes)) (n : ℕ) (h : FlatMap Bytes Bytes)
    → (assign_fields fv_pairs n h).0 + length h ≡ n + length (assign_fields fv_pairs n h).1
unfolding assign_fields
length-assign_fields [] n h = refl
length-assign_fields ((f, v) ∷ fv_pairs) n h =
    let rest = length-assign_fields fv_pairs (n + missing_count (find f h)) (insert f v h) in
    ground (arith, rest, length-insert f v h)

-- HSET, from the fields before to the reply and the fields after: the reply is the number of fields
-- gained, and each field has the last value assigned to it, or the one it had.
abbrev pub IsAssigned :
    List (Bytes × Bytes) → Option (FlatMap Bytes Bytes) → ℤ × Option (FlatMap Bytes Bytes) → Type 0
IsAssigned fv_pairs none (r, h') = (r ≡ negsuc 0) × (h' ≡ none)
IsAssigned fv_pairs (some h) (r, none) = ⊥
IsAssigned fv_pairs (some h) (r, some h') =
    (r ≡ pos (length h' - length h))
    × ((field : Bytes) → find field h' ≡ assigned field fv_pairs (find field h))

assign_fields-IsAssigned :
    (fv_pairs : List (Bytes × Bytes)) (o : Option (FlatMap Bytes Bytes))
    → IsAssigned fv_pairs o (updated (λ h. counted (assign_fields fv_pairs 0 h)) o)
assign_fields-IsAssigned fv_pairs none = (refl, refl)
assign_fields-IsAssigned fv_pairs (some h) = (
  ap pos (ground (arith, length-assign_fields fv_pairs 0 h)),
  λ field. find-assign_fields field fv_pairs 0 h,
)

-- HSET on a sorted keyspace: each field then has the last value that its pairs assign to it, or else
-- the value it had; the reply is the number of fields gained. For a key of another type
-- the reply is -1, and no client sees a change of any key, then or later.
pub hset_lem :
    (now : ℕ) (key : Bytes) (fv_pairs : List (Bytes × Bytes)) (d : DataMap)
    → IsSorted d
    → IsAssigned fv_pairs
        (fields now key d)
        ((hset now key fv_pairs d).0, fields now key (hset now key fv_pairs d).1)
      × IsUntouched (fields now key d) now d (hset now key fv_pairs d).1
hset_lem now key fv_pairs d s = (
  subst (IsAssigned fv_pairs (fields now key d)) (sym (hset-updated now key fv_pairs d s))
      (assign_fields-IsAssigned fv_pairs (fields now key d)),
  hset-IsUntouched now key fv_pairs d s,
)
