-- ===== src/FlatMap.antt =====
-- `std::flat_map` and `std::flat_set`: vectors sorted by the key, searched by the order alone.
pub mod Laws
pub mod Values
use redix.Prelude.{
  ℕ, suc, ◌+◌, ◌≡◌, refl, Bool, true, false, Option, none, some, List, [], ◌∷◌, arith,
  if◌then◌else◌, length, Bytes, text_less, text_less_irrefl, text_less_trans, text_less_connex,
}

-- `std::less` on a key type, a strict total order.
pub record Less {ℓ} (K : Type ℓ) : Type ℓ where
  pub less : K → K → Bool
  pub less_irrefl : (a : K) → less a a ≡ false
  pub less_trans : (a b c : K) → less a b ≡ true → less b c ≡ true → less a c ≡ true
  pub less_connex : (a b : K) → less a b ≡ false → less b a ≡ false → a ≡ b

instance abbrev pub text_order : Less Bytes
text_order = record {
  less = text_less;
  less_irrefl = text_less_irrefl;
  less_trans = text_less_trans;
  less_connex = text_less_connex;
}

abbrev pub FlatMap {ℓ} : Type ℓ → Type ℓ → Type ℓ
FlatMap K V = List (K × V)

module _ {ℓ} {K V : Type ℓ} ⦃o : Less K⦄ where
  -- `it = m.find(k)`, and `it->second` unless `it` is the end.
  unfoldable pub find : K → FlatMap K V → Option V
  find k [] = none
  find k ((j, v) ∷ m) = if o.less j k then find k m else if o.less k j then none else some v

  -- `m.insert_or_assign(k, v)` and `m[k] = v`; also `it->second = v` for `it = m.find(k)`.
  unfoldable pub insert : K → V → FlatMap K V → FlatMap K V
  insert k v [] = (k, v) ∷ []
  insert k v ((j, w) ∷ m) =
      if o.less j k
      then (j, w) ∷ insert k v m
      else if o.less k j
      then (k, v) ∷ (j, w) ∷ m
      else (j, v) ∷ m

  -- `m.erase(k)` and `m.erase(it)` for `it = m.find(k)`.
  unfoldable pub erase : K → FlatMap K V → FlatMap K V
  erase k [] = []
  erase k ((j, w) ∷ m) =
      if o.less j k then (j, w) ∷ erase k m else if o.less k j then (j, w) ∷ m else m

  -- Every key of the map lies above `k`.
  abbrev pub Above : K → FlatMap K V → Type ℓ
  Above k [] = Unit
  Above k ((j, v) ∷ m) = (o.less k j ≡ true) × Above k m

  abbrev pub IsSorted : FlatMap K V → Type ℓ
  IsSorted [] = Unit
  IsSorted ((j, v) ∷ m) = Above j m × IsSorted m
