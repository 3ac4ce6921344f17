-- ===== src/Store/Invariant.antt =====
-- The well-formedness of the keyspace, and the view of the keys that an operation does not name,
-- are kept by whatever reads, erases and writes one key.
use redix.Prelude.{ℕ, ◌≡◌, ◌≢◌, arith, Bytes, All}
use redix.FlatMap.{text_order, IsSorted}
use redix.FlatMap.Values.{All-insert, All-erase, All-find}
use redix.FlatMap.Laws.{same_iff, IsSorted-insert, IsSorted-erase}
use redix.Store.Value.{DataMap}
use redix.Store.Live.{find_live}
use redix.Store.View.{find_live-insert, find_live-erase}
use redix.Store.Keeps.{IsValidValue, Closed}

-- The values of a keyspace are well-formed.
abbrev pub AllValid : DataMap → Type 0
AllValid = All (λ p. IsValidValue p.1.value)

-- The keys are in order without duplicates, and every value is well-formed.
abbrev pub IsValid : DataMap → Type 0
IsValid d = IsSorted d × AllValid d

-- Every operation on one key keeps the keyspace well-formed.
pub IsValid-Closed : (key : Bytes) → Closed key IsValid
IsValid-Closed key = record {
  found = λ d e h q. All-find (λ p. IsValidValue p.1.value) key d h.1 e q;
  erased = λ d h. (IsSorted-erase key d h.0, All-erase (λ p. IsValidValue p.1.value) key d h.1);
  written = λ d e v h. (
    IsSorted-insert key e d h.0,
    All-insert (λ p. IsValidValue p.1.value) key e d (λ j q. v) h.1,
  );
}

-- Beside that, what a client sees under the key `j` stays what it is in `d₀`.
abbrev pub Untouched : Bytes → DataMap → DataMap → Type 0
Untouched j d₀ d = IsValid d × ((t : ℕ) → find_live t j d ≡ find_live t j d₀)

-- An operation on another key changes nothing under `j`.
pub Untouched-Closed : (j key : Bytes) (d₀ : DataMap) → key ≢ j → Closed key (Untouched j d₀)
Untouched-Closed j key d₀ ne = record {
  found = λ d e h q. (IsValid-Closed key).found d e h.0 q;
  erased = λ d h. (
    (IsValid-Closed key).erased d h.0,
    λ t. ground (arith, find_live-erase t j key d h.0.0, (same_iff key j).0, h.1 t),
  );
  written = λ d e v h. (
    (IsValid-Closed key).written d e v h.0,
    λ t. ground (arith, find_live-insert t j key e d, (same_iff key j).0, h.1 t),
  );
}
