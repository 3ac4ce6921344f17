-- ===== src/FlatMap/Values.antt =====
-- A predicate on the entries of a flat map.
use mathlib.Core.Path.{subst}
use redix.Prelude.{◌≡◌, refl, Bool, true, false, some, [], ◌∷◌, if◌then◌else◌, All}
use redix.FlatMap.{Less, FlatMap, find, insert, erase}

-- `P` of the first of three branches that applies.
three_way {ℓ κ} :
    {A : Type ℓ} (P : A → Type κ) (b c : Bool) (x y z : A)
    → (b ≡ true → P x)
    → (c ≡ true → P y)
    → (b ≡ false → c ≡ false → P z)
    → P (if b then x else if c then y else z)
three_way P true c x y z h k l = h refl
three_way P false true x y z h k l = k refl
three_way P false false x y z h k l = l refl refl

module _ {ℓ κ} {K V : Type ℓ} ⦃o : Less K⦄ (P : K × V → Type κ) where
  pub All-insert :
      (k : K) (v : V) (m : FlatMap K V)
      → ((j : K) → j ≡ k → P (j, v))
      → All P m
      → All P (insert k v m)
  unfolding insert
  All-insert k v [] h hs = (h k refl, tt)
  All-insert k v ((j, w) ∷ m) h (p, ps) =
      three_way (All P) (o.less j k) (o.less k j) _ _ _ (λ _. (p, All-insert k v m h ps))
        (λ _. (h k refl, (p, ps))) λ e e'. (h j (o.less_connex j k e e'), ps)

  pub All-erase : (k : K) (m : FlatMap K V) → All P m → All P (erase k m)
  unfolding erase
  All-erase k [] hs = tt
  All-erase k ((j, w) ∷ m) (p, ps) =
      three_way (All P) (o.less j k) (o.less k j) _ _ _ (λ _. (p, All-erase k m ps)) (λ _. (p, ps))
        λ _ _. ps

  pub All-find : (k : K) (m : FlatMap K V) → All P m → (v : V) → find k m ≡ some v → P (k, v)
  unfolding find
  All-find k [] hs v = λ q. absurd (cc)
  All-find k ((j, w) ∷ m) (p, ps) v =
      three_way (λ r. r ≡ some v → P (k, v)) (o.less j k) (o.less k j) _ _ _
        (λ _ q. All-find k m ps v q) (λ _ q. absurd (cc))
        λ e e' q. subst P (cc (o.less_connex j k e e')) p
