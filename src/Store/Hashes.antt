-- ===== src/Store/Hashes.antt =====
-- The operations on hash values.
pub mod Fields
pub mod Erased
use redix.Prelude.{ℕ, ◌+◌, Bool, true, false, Option, none, some, List, [], ◌∷◌, map, length, Bytes}
use redix.Prelude.Int.{ℤ, pos, negsuc}
use redix.FlatMap.{FlatMap, text_order, find, insert, erase}
use redix.Store.Value.{
  Entry, fresh, DataMap, hash_value, key_not_found, wrong_type, Expected, ok, err, if_hash, if_end,
}
use redix.Store.Live.{find_live, find_live_mut}

-- `it != m.end()`, as a count and as a test.
abbrev pub found_count {ℓ} : {A : Type ℓ} → Option A → ℕ
found_count none = 0
found_count (some _) = 1

abbrev pub missing_count {ℓ} : {A : Type ℓ} → Option A → ℕ
missing_count none = 1
missing_count (some _) = 0

abbrev pub is_found {ℓ} : {A : Type ℓ} → Option A → Bool
is_found none = false
is_found (some _) = true

-- `insert_or_assign` of each pair, with the number of fields that were new.
unfoldable pub assign_fields :
    List (Bytes × Bytes) → ℕ → FlatMap Bytes Bytes → ℕ × FlatMap Bytes Bytes
assign_fields [] added hash = (added, hash)
assign_fields ((field, value) ∷ fv_pairs) added hash =
    assign_fields fv_pairs (added + missing_count (find field hash)) (insert field value hash)

abbrev pub write_hash : Bytes → Entry → FlatMap Bytes Bytes → DataMap → DataMap
write_hash key e h data_ = insert key (record e { value = hash_value h }) data_

-- -1 stands for a key of another type, here and in `hdel`.
unfoldable pub hset : ℕ → Bytes → List (Bytes × Bytes) → DataMap → ℤ × DataMap
unfolding assign_fields
hset now key fv_pairs data_ =
    let (it, data') = find_live_mut now key data_ in
    if_end it
      (let (added, hash) = assign_fields fv_pairs 0 [] in
        (pos added, insert key (fresh (hash_value hash)) data'))
      λ e.
        if_hash e.value (negsuc 0, data')
          λ h.
            let (added, hash) = assign_fields fv_pairs 0 h in
            (pos added, write_hash key e hash data')

abbrev field_value : Option Bytes → Expected Bytes
field_value none = err key_not_found
field_value (some v) = ok v

unfoldable pub hget : ℕ → Bytes → Bytes → DataMap → Expected Bytes
hget now key field data_ =
    if_end (find_live now key data_) (err key_not_found)
      λ e. if_hash e.value (err wrong_type) λ h. field_value (find field h)

-- `erase` of each field, with the number that were there.
unfoldable pub erase_fields : List Bytes → ℕ → FlatMap Bytes Bytes → ℕ × FlatMap Bytes Bytes
erase_fields [] removed hash = (removed, hash)
erase_fields (field ∷ fields) removed hash =
    erase_fields fields (removed + found_count (find field hash)) (erase field hash)

-- An emptied hash is erased with its key.
abbrev pub keep_hash : Bytes → Entry → FlatMap Bytes Bytes → DataMap → DataMap
keep_hash key e [] data_ = erase key data_
keep_hash key e (x ∷ h) data_ = write_hash key e (x ∷ h) data_

unfoldable pub hdel : ℕ → Bytes → List Bytes → DataMap → ℤ × DataMap
unfolding erase_fields
hdel now key fields data_ =
    let (it, data') = find_live_mut now key data_ in
    if_end it (pos 0, data')
      λ e.
        if_hash e.value (negsuc 0, data')
          λ h.
            let (removed, hash) = erase_fields fields 0 h in
            (pos removed, keep_hash key e hash data')

abbrev pub flatten_pairs : FlatMap Bytes Bytes → List Bytes
flatten_pairs [] = []
flatten_pairs ((field, value) ∷ h) = field ∷ value ∷ flatten_pairs h

-- The readers of a whole hash.
abbrev read_hash {ℓ} : {A : Type ℓ} → ℕ → Bytes → DataMap → (FlatMap Bytes Bytes → A) → Expected A
read_hash now key data_ f =
    if_end (find_live now key data_) (err key_not_found)
      λ e. if_hash e.value (err wrong_type) λ h. ok (f h)

unfoldable pub hgetall : ℕ → Bytes → DataMap → Expected (List Bytes)
hgetall now key data_ = read_hash now key data_ flatten_pairs

unfoldable pub hexists : ℕ → Bytes → Bytes → DataMap → Expected Bool
hexists now key field data_ = read_hash now key data_ λ h. is_found (find field h)

unfoldable pub hlen : ℕ → Bytes → DataMap → Expected ℤ
hlen now key data_ = read_hash now key data_ λ h. pos (length h)

unfoldable pub hkeys : ℕ → Bytes → DataMap → Expected (List Bytes)
hkeys now key data_ = read_hash now key data_ λ h. map (λ p. p.0) h

unfoldable pub hvals : ℕ → Bytes → DataMap → Expected (List Bytes)
hvals now key data_ = read_hash now key data_ λ h. map (λ p. p.1) h
