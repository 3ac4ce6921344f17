-- ===== src/Store/Glob/Total.antt =====
-- The fuel of the loop of `glob_match`, and the order of its tests.
use redix.Prelude.{
  ℕ, zero, suc, ◌+◌, ◌*◌, ◌≡◌, ◌≢◌, ◌≤◌, ◌<◌, refl, Bool, true, false, ◌||◌, Option, none, some, [],
  ◌∷◌, ◌==◌, if◌then◌else◌, length, Bytes, arith, codes,
}
use native.Mathlib.Nat.{mul-le-mul_right}
use redix.Store.Glob.{Star, Round, retry, glob_loop, or_false, glob_match}

-- The star's pattern is within `P`, the text from it on within `M`, and what is left of the text
-- is no more than that.
abbrev IsBounded : ℕ → ℕ → Bytes → Star → Type 0
IsBounded P M t none = length t ≤ M
IsBounded P M t (some (sp, m)) = (length sp ≤ P) × (length m ≤ M) × (length t ≤ length m)

-- One byte less of the text pays for a whole pattern.
room : (P n M : ℕ) → suc n ≤ M → n * (P + 1) + P < M * (P + 1)
room P n M h = let m : suc n * (P + 1) ≤ M * (P + 1) = mul-le-mul_right (P + 1) h in omega arith

if_enough :
    (a b : Bool) (x y z : Option Bool)
    → x ≢ none
    → y ≢ none
    → z ≢ none
    → (if a then x else if b then y else z) ≢ none
if_enough true b x y z hx hy hz = hx
if_enough false true x y z hx hy hz = hy
if_enough false false x y z hx hy hz = hz

-- A round is taken whenever the fuel is more than what its position needs.
abbrev IsEnough : ℕ → ℕ → Round → Type 0
IsEnough P f next =
    (M : ℕ) (p t : Bytes) (star : Star)
    → length p ≤ P
    → IsBounded P M t star
    → M * (P + 1) + length p < f
    → next p t star ≢ none

retry_enough :
    (P f M : ℕ) (t : Bytes) (star : Star) (next : Round)
    → IsEnough P f next
    → IsBounded P M t star
    → M * (P + 1) < suc f
    → retry star next ≢ none
retry_enough P f M t none next k hb hf = λ e. cc
retry_enough P f M t (some (sp, [])) next k hb hf = λ e. cc
retry_enough P f M t (some (sp, d ∷ m)) next k hb hf =
    k (length m) sp m (some (sp, m)) hb.0 (hb.0, omega arith, omega arith)
      (let r = room P (length m) M hb.1 in let h = hb.0 in omega arith)

within : (P M : ℕ) (t : Bytes) (star : Star) → IsBounded P M t star → length t ≤ M
within P M t none h = h
within P M t (some s) h = let (a, b, c) = h in omega arith

shorter : (P M c : ℕ) (t : Bytes) (star : Star) → IsBounded P M (c ∷ t) star → IsBounded P M t star
shorter P M c t none h = omega arith
shorter P M c t (some s) h = let b = h.2 in (h.0, h.1, omega arith)

glob_loop-IsEnough : (P f : ℕ) → IsEnough P f (glob_loop f)
unfolding glob_loop
glob_loop-IsEnough P zero M p t star hp hb hf = absurd (omega arith)
glob_loop-IsEnough P (suc f) M p [] star hp hb hf = λ e. cc
glob_loop-IsEnough P (suc f) M [] (c ∷ t) star hp hb hf =
    retry_enough P f M (c ∷ t) star (glob_loop f) (glob_loop-IsEnough P f) hb (omega arith)
glob_loop-IsEnough P (suc f) M (q ∷ p) (c ∷ t) star hp hb hf =
    if_enough (q == b'?' || q == c) (q == b'*') _ _ _
      (glob_loop-IsEnough P f M p t star (omega arith) (shorter P M c t star hb) (omega arith))
      (glob_loop-IsEnough P f M p (c ∷ t) (some (p, c ∷ t)) (omega arith)
        (omega arith, within P M (c ∷ t) star hb, omega arith) (omega arith))
      (retry_enough P f M (c ∷ t) star (glob_loop f) (glob_loop-IsEnough P f) hb (omega arith))

-- The loop of `glob_match` ends by itself: the fuel that the model gives it never runs out.
pub glob_loop-total :
    (pattern text : Bytes)
    → glob_loop (suc ((length text + 1) * (length pattern + 1))) pattern text none ≢ none
glob_loop-total pattern text =
    glob_loop-IsEnough (length pattern) _ (length text) pattern text none (omega arith)
      (omega arith)
      (let r = room (length pattern) (length text) (length text + 1) (omega arith) in omega arith)

no_pattern : (f c : ℕ) (text : Bytes) → or_false (glob_loop f [] (c ∷ text) none) ≡ false
unfolding glob_loop
no_pattern zero c text = refl
no_pattern (suc f) c text = refl

-- The comparison of bytes comes before the test for `*`: the pattern `*` does not match a text of
-- two bytes or more that starts with `*`.
pub glob_match-star : (c : ℕ) (text : Bytes) → glob_match (codes "*") (b'*' ∷ c ∷ text) ≡ false
unfolding glob_match
glob_match-star c text = no_pattern ((length (b'*' ∷ c ∷ text) + 1) * 2) c text
