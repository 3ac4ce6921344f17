-- ===== src/Store/Value.antt =====
-- The types of include/store.hpp, and the errors that src/store.cpp makes.
use redix.Prelude.{ℕ, suc, Option, none, some, List, Bytes, codes}
use redix.FlatMap.{FlatMap}

-- `std::flat_set` is a flat map with no payload.
abbrev pub FlatSet : Type 0
FlatSet = FlatMap Bytes (Unit {0})

-- `RedisValue`: the alternatives of the variant, each with its `data`.
pub data RedisValue : Type 0 where
  string_value : Bytes → RedisValue
  list_value : List Bytes → RedisValue
  hash_value : FlatMap Bytes Bytes → RedisValue
  set_value : FlatSet → RedisValue

-- `expires_at_ms` is 0 for an entry that does not expire.
pub record Entry : Type 0 where
  pub value : RedisValue
  pub expires_at_ms : ℕ

-- `Entry{value, 0}`
abbrev pub fresh : RedisValue → Entry
fresh v = record { value = v; expires_at_ms = 0 }

abbrev pub DataMap : Type 0
DataMap = FlatMap Bytes Entry

pub data StoreErrorKind : Type 0 where
  kind_key_not_found kind_wrong_type kind_not_an_integer kind_out_of_range : StoreErrorKind

pub record StoreError : Type 0 where
  pub kind : StoreErrorKind
  pub message : Bytes

abbrev pub key_not_found : StoreError
key_not_found = record { kind = kind_key_not_found; message = codes "ERR no such key" }

abbrev pub wrong_type : StoreError
wrong_type = record {
  kind = kind_wrong_type;
  message = codes "WRONGTYPE Operation against a key holding the wrong kind of value";
}

abbrev pub not_integer : StoreError
not_integer = record {
  kind = kind_not_an_integer;
  message = codes "ERR value is not an integer or out of range";
}

abbrev pub out_of_range : StoreError
out_of_range = record { kind = kind_out_of_range; message = codes "ERR index out of range" }

-- `std::expected<A, StoreError>`
pub data Expected {ℓ} (A : Type ℓ) : Type ℓ where
  ok : A → Expected A
  err : StoreError → Expected A

-- The successive readings of `now_ms()` during one call, the first at 0. An operation that may read
-- the clock several times takes all of them, so time may pass inside it.
abbrev pub Clock : Type 0
Clock = ℕ → ℕ

abbrev pub later : Clock → Clock
later clock i = clock (suc i)

-- `std::get_if` on each alternative: what to do with a null pointer, and with the data.
unfoldable pub if_string {ℓ} : {A : Type ℓ} → RedisValue → A → (Bytes → A) → A
if_string (string_value s) no_such this = this s
if_string _ no_such this = no_such

unfoldable pub if_list {ℓ} : {A : Type ℓ} → RedisValue → A → (List Bytes → A) → A
if_list (list_value l) no_such this = this l
if_list _ no_such this = no_such

unfoldable pub if_hash {ℓ} : {A : Type ℓ} → RedisValue → A → (FlatMap Bytes Bytes → A) → A
if_hash (hash_value h) no_such this = this h
if_hash _ no_such this = no_such

unfoldable pub if_set {ℓ} : {A : Type ℓ} → RedisValue → A → (FlatSet → A) → A
if_set (set_value s) no_such this = this s
if_set _ no_such this = no_such

-- `it == data_.end()`: what to do at the end, and with the entry.
unfoldable pub if_end {ℓ} : {A : Type ℓ} → Option Entry → A → (Entry → A) → A
if_end none at_end this = at_end
if_end (some e) at_end this = this e
