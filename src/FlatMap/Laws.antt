-- ===== src/FlatMap/Laws.antt =====
-- Lookups after updates of a flat map, and the order of its keys.
use redix.Prelude.{
  ◌+◌, ◌≡◌, refl, ◌↔◌, Bool, true, false, not, none, some, [], ◌∷◌, arith, if◌then◌else◌, length,
}
use redix.FlatMap.{Less, FlatMap, find, insert, erase, Above, IsSorted}

module _ {ℓ} {K : Type ℓ} ⦃o : Less K⦄ where
  -- Keys are equivalent when neither is below the other.
  abbrev pub same : K → K → Bool
  same a b = if o.less a b then false else not (o.less b a)

  pub same_iff : (a b : K) → (same a b ≡ true) ↔ (a ≡ b)
  same_iff a b =
      (λ h. o.less_connex a b (ground arith) (ground arith), λ e. rw e (rw (o.less_irrefl b)))

module _ {ℓ} {K V : Type ℓ} ⦃o : Less K⦄ where
  pub find-insert :
      (j k : K) (v : V) (m : FlatMap K V)
      → find j (insert k v m) ≡ (if same k j then some v else find j m)
  unfolding find insert
  find-insert j k v [] = ground arith
  find-insert j k v ((i, w) ∷ m) = ground (
    arith,
    find-insert j k v m,
    o.less_connex i k,
    o.less_connex k j,
    o.less_trans j k i,
    o.less_trans i k j,
    o.less_trans i j k,
    o.less_trans k i j,
  )

  pub find-Above : (j : K) (m : FlatMap K V) → Above j m → find j m ≡ none
  unfolding find
  find-Above j [] h = refl
  find-Above j ((i, w) ∷ m) (h, hs) = ground (arith, o.less_trans i j i, o.less_irrefl i)

  pub find_below : (j k : K) (m : FlatMap K V) → o.less j k ≡ true → Above k m → find j m ≡ none
  unfolding find
  find_below j k [] l h = refl
  find_below j k ((i, w) ∷ m) l (h, hs) =
      ground (arith, o.less_trans j k i, o.less_trans i j i, o.less_irrefl i)

  pub find-erase :
      (j k : K) (m : FlatMap K V)
      → IsSorted m
      → find j (erase k m) ≡ (if same k j then none else find j m)
  unfolding find erase
  find-erase j k [] h = ground arith
  find-erase j k ((i, w) ∷ m) (h, hs) = ground (
    arith,
    find-erase j k m hs,
    find-Above i m h,
    find_below j i m,
    o.less_connex i k,
    o.less_connex k j,
    o.less_trans j k i,
    o.less_trans i k j,
    o.less_trans i j k,
    o.less_trans k i j,
  )

  Above-insert :
      (i k : K) (v : V) (m : FlatMap K V) → o.less i k ≡ true → Above i m → Above i (insert k v m)
  unfolding insert
  Above-insert i k v [] l h = (l, tt)
  Above-insert i k v ((j, w) ∷ m) l (h, hs) = ground (arith, Above-insert i k v m l hs)

  Above-trans : (i k : K) (m : FlatMap K V) → o.less i k ≡ true → Above k m → Above i m
  Above-trans i k [] l h = tt
  Above-trans i k ((j, w) ∷ m) l (h, hs) = (o.less_trans i k j l h, Above-trans i k m l hs)

  pub IsSorted-insert : (k : K) (v : V) (m : FlatMap K V) → IsSorted m → IsSorted (insert k v m)
  unfolding insert
  IsSorted-insert k v [] h = (tt, tt)
  IsSorted-insert k v ((j, w) ∷ m) (h, hs) =
      ground (arith, IsSorted-insert k v m hs, Above-insert j k v m, Above-trans k j m)

  Above-erase : (i k : K) (m : FlatMap K V) → Above i m → Above i (erase k m)
  unfolding erase
  Above-erase i k [] h = tt
  Above-erase i k ((j, w) ∷ m) (h, hs) = ground (arith, Above-erase i k m hs)

  pub IsSorted-erase : (k : K) (m : FlatMap K V) → IsSorted m → IsSorted (erase k m)
  unfolding erase
  IsSorted-erase k [] h = tt
  IsSorted-erase k ((j, w) ∷ m) (h, hs) = ground (arith, IsSorted-erase k m hs, Above-erase j k m h)

  -- The size grows exactly when the key is new.
  pub length-insert :
      (k : K) (v : V) (m : FlatMap K V)
      → length (insert k v m) ≡ length m + elim (find k m) [ none ↦ 1 | some _ ↦ 0 ]
  unfolding find insert
  length-insert k v [] = omega arith
  length-insert k v ((i, w) ∷ m) = ground (arith, length-insert k v m)

  pub length-erase :
      (k : K) (m : FlatMap K V)
      → length (erase k m) + elim (find k m) [ none ↦ 0 | some _ ↦ 1 ] ≡ length m
  unfolding find erase
  length-erase k [] = omega arith
  length-erase k ((i, w) ∷ m) = ground (arith, length-erase k m)

  -- An update that finds its key writes the value that it found.
  pub insert-find : (k : K) (v : V) (m : FlatMap K V) → find k m ≡ some v → insert k v m ≡ m
  unfolding find insert
  insert-find k v [] h = cc
  insert-find k v ((i, w) ∷ m) h = ground (arith, insert-find k v m)

  pub erase-find : (k : K) (m : FlatMap K V) → find k m ≡ none → erase k m ≡ m
  unfolding find erase
  erase-find k [] h = refl
  erase-find k ((i, w) ∷ m) h = ground (arith, erase-find k m)

  pub erase-insert :
      (k : K) (v : V) (m : FlatMap K V) → find k m ≡ none → erase k (insert k v m) ≡ m
  unfolding find insert erase
  erase-insert k v [] h = ground (arith, o.less_irrefl k)
  erase-insert k v ((i, w) ∷ m) h = ground (arith, erase-insert k v m, o.less_irrefl k)

  -- The first key of a sorted map is found, and it is the first to go.
  pub erase-first : (k : K) (v : V) (m : FlatMap K V) → erase k ((k, v) ∷ m) ≡ m
  unfolding erase
  erase-first k v m = rw (o.less_irrefl k) refl

  pub find-first : (k : K) (v : V) (m : FlatMap K V) → find k ((k, v) ∷ m) ≡ some v
  unfolding find
  find-first k v m = rw (o.less_irrefl k) refl
