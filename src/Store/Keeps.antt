-- ===== src/Store/Keeps.antt =====
-- What keeps an invariant of the keyspace: an operation on `key` only reads, erases and writes the
-- entry of `key`, and writes well-formed values.
pub mod Strings
pub mod Collections
pub mod Keyspace
use redix.Prelude.{
  ℕ, ◌≡◌, refl, Bool, true, false, Option, none, some, List, [], ◌∷◌, if◌then◌else◌, arith, Bytes,
  All,
}
use redix.FlatMap.{FlatMap, text_order, find, insert, erase, IsSorted}
use redix.Store.Value.{
  FlatSet, RedisValue, string_value, list_value, hash_value, set_value, Entry, DataMap, if_string,
  if_list, if_hash, if_set, if_end,
}
use redix.Store.Live.{is_expired, drop_expired, find_live_mut}

abbrev pub NonEmpty {ℓ} : {A : Type ℓ} → List A → Type 0
NonEmpty [] = ⊥
NonEmpty (x ∷ l) = Unit

-- A stored collection is not empty, and the maps and sets are sorted without duplicates.
abbrev pub IsValidValue : RedisValue → Type 0
IsValidValue (string_value s) = Unit
IsValidValue (list_value l) = NonEmpty l
IsValidValue (hash_value h) = NonEmpty h × IsSorted h
IsValidValue (set_value s) = NonEmpty s × IsSorted s

-- `I` holds on after the entry of `key` is erased, or written with a well-formed value.
pub record Closed {κ} (key : Bytes) (I : DataMap → Type κ) : Type κ where
  pub found : (d : DataMap) (e : Entry) → I d → find key d ≡ some e → IsValidValue e.value
  pub erased : (d : DataMap) → I d → I (erase key d)
  pub written : (d : DataMap) (e : Entry) → IsValidValue e.value → I d → I (insert key e d)

-- `P` of a branch on an iterator, or on the type of a value, from `P` of its cases.
module _ {ℓ κ} {A : Type ℓ} (P : A → Type κ) where
  pub if_end_rule :
      (o : Option Entry) (x : A) (f : Entry → A)
      → P x
      → ((e : Entry) → o ≡ some e → P (f e))
      → P (if_end o x f)
  unfolding if_end
  if_end_rule none x f h k = h
  if_end_rule (some e) x f h k = k e refl

  pub if_string_rule :
      (v : RedisValue) (x : A) (f : Bytes → A) → P x → ((s : Bytes) → P (f s)) → P (if_string v x f)
  unfolding if_string
  if_string_rule (string_value s) x f h k = k s
  if_string_rule _ x f h k = h

  pub if_list_rule :
      (v : RedisValue) (x : A) (f : List Bytes → A)
      → P x
      → ((l : List Bytes) → v ≡ list_value l → P (f l))
      → P (if_list v x f)
  unfolding if_list
  if_list_rule (list_value l) x f h k = k l refl
  if_list_rule _ x f h k = h

  pub if_hash_rule :
      (v : RedisValue) (x : A) (f : FlatMap Bytes Bytes → A)
      → P x
      → ((h : FlatMap Bytes Bytes) → v ≡ hash_value h → P (f h))
      → P (if_hash v x f)
  unfolding if_hash
  if_hash_rule (hash_value m) x f h k = k m refl
  if_hash_rule _ x f h k = h

  pub if_set_rule :
      (v : RedisValue) (x : A) (f : FlatSet → A)
      → P x
      → ((s : FlatSet) → v ≡ set_value s → P (f s))
      → P (if_set v x f)
  unfolding if_set
  if_set_rule (set_value s) x f h k = k s refl
  if_set_rule _ x f h k = h

  pub if_rule : (b : Bool) (x y : A) → P x → P y → P (if b then x else y)
  if_rule true x y h k = h
  if_rule false x y h k = k

module _ {κ} {key : Bytes} {I : DataMap → Type κ} (c : Closed key I) (now : ℕ) where
  drop_expired-keeps : (d : DataMap) (o : Option Entry) → I d → I (drop_expired now key d o).1
  drop_expired-keeps d none h = h
  drop_expired-keeps d (some e) h = if-keeps (is_expired now e)
    where
      if-keeps :
          (b : Bool)
          → I (
              let r : Option Entry × DataMap = if b then (none, erase key d) else (some e, d) in
              r.1)
      if-keeps true = c.erased d h
      if-keeps false = h

  pub find_live_mut-keeps : (d : DataMap) → I d → I (find_live_mut now key d).1
  unfolding find_live_mut
  find_live_mut-keeps d h = drop_expired-keeps d (find key d) h

  drop_expired-valid :
      (d : DataMap) (o : Option Entry) (e : Entry)
      → ((e : Entry) → o ≡ some e → IsValidValue e.value)
      → (drop_expired now key d o).0 ≡ some e
      → IsValidValue e.value
  drop_expired-valid d none e v h = cc
  drop_expired-valid d (some e') e v h = v e (ground arith)

  -- The entry behind the iterator is well-formed.
  pub find_live_mut-valid :
      (d : DataMap) (e : Entry) → I d → (find_live_mut now key d).0 ≡ some e → IsValidValue e.value
  unfolding find_live_mut
  find_live_mut-valid d e h = drop_expired-valid d (find key d) e (λ e' q. c.found d e' h q)
