-- ===== src/Store/Glob/Sound.antt =====
-- What a pattern of `glob_match` stands for, and what the loop finds of it.
use redix.Prelude.{
  ℕ, zero, suc, ◌+◌, ◌*◌, ◌≡◌, ◌⊎◌, inl, inr, refl, sym, ap, Bool, true, false, ◌||◌, Option, none,
  some, [], ◌∷◌, ◌==◌, if◌then◌else◌, length, Bytes, ==_iff, Bool-cases,
}
use mathlib.Core.Path.{subst}
use redix.Store.Glob.{Star, Round, retry, only_stars, glob_loop, or_false, glob_match}

-- What a pattern stands for: `?` for any byte, `*` for any bytes, every byte for itself.
pub data Matches : Bytes → Bytes → Type 0 where
  done : Matches [] []
  literal : (c : ℕ) (p t : Bytes) → Matches p t → Matches (c ∷ p) (c ∷ t)
  any : (c : ℕ) (p t : Bytes) → Matches p t → Matches (b'?' ∷ p) (c ∷ t)
  star_none : (p t : Bytes) → Matches p t → Matches (b'*' ∷ p) t
  star_more : (c : ℕ) (p t : Bytes) → Matches (b'*' ∷ p) t → Matches (b'*' ∷ p) (c ∷ t)

-- The pattern matches the text, or the remembered star takes more of it.
abbrev Found : Bytes → Bytes → Star → Type 0
Found p t none = Matches p t
Found p t (some (sp, m)) = Matches p t ⊎ Matches (b'*' ∷ sp) m

then_true : (b x : Bool) → (if b then x else false) ≡ true → (b ≡ true) × (x ≡ true)
then_true true x h = (refl, h)
then_true false x h = absurd (cc)

branch :
    (a b : Bool) (x y z : Option Bool)
    → (if a then x else if b then y else z) ≡ some true
    → ((a ≡ true) × (x ≡ some true)) ⊎ (((b ≡ true) × (y ≡ some true)) ⊎ (z ≡ some true))
branch true b x y z h = inl (refl, h)
branch false true x y z h = inr (inl (refl, h))
branch false false x y z h = inr (inr h)

some-inj : {b : Bool} → some b ≡ some true → b ≡ true
some-inj h = cc

or_false-some : (o : Option Bool) → or_false o ≡ true → o ≡ some true
or_false-some none h = absurd (cc)
or_false-some (some b) h = ap some h

-- The star at the front takes nothing, or something.
both : {p t : Bytes} → Matches p t ⊎ Matches (b'*' ∷ p) t → Matches (b'*' ∷ p) t
both (inl h) = star_none _ _ h
both (inr h) = h

step-Matches :
    (q c : ℕ) (p t : Bytes) → (q == b'?' || q == c) ≡ true → Matches p t → Matches (q ∷ p) (c ∷ t)
step-Matches q c p t e h = elim (Bool-cases (q == b'?')) [
  | inl k ↦ subst (λ x. Matches (x ∷ p) (c ∷ t)) (sym ((==_iff q b'?').0 k)) (any c p t h)
  | inr k ↦
      subst (λ x. Matches (x ∷ p) (c ∷ t)) (sym ((==_iff q c).0 (rw k at e))) (literal c p t h)
]

only_stars-Matches : (p : Bytes) → only_stars p ≡ true → Matches p []
unfolding only_stars
only_stars-Matches [] h = done
only_stars-Matches (q ∷ p) h =
    let (e, rest) = then_true (q == b'*') (only_stars p) h in
    subst (λ x. Matches (x ∷ p) []) (sym ((==_iff q b'*').0 e))
      (star_none p [] (only_stars-Matches p rest))

abbrev IsRound : Round → Type 0
IsRound next = (p t : Bytes) (star : Star) → next p t star ≡ some true → Found p t star

Found-here : (p t : Bytes) (star : Star) → Matches p t → Found p t star
Found-here p t none h = h
Found-here p t (some s) h = inl h

retry-Found :
    (next : Round) (p t : Bytes) (star : Star)
    → IsRound next
    → retry star next ≡ some true
    → Found p t star
retry-Found next p t none k h = absurd (cc)
retry-Found next p t (some (sp, [])) k h = absurd (cc)
retry-Found next p t (some (sp, c ∷ m)) k h =
    inr (star_more c sp m (both (k sp m (some (sp, m)) h)))

-- Both ends of the pattern's `q` and of the text's `c` are taken.
step-Found :
    (q c : ℕ) (p t : Bytes) (star : Star)
    → (q == b'?' || q == c) ≡ true
    → Found p t star
    → Found (q ∷ p) (c ∷ t) star
step-Found q c p t none e h = step-Matches q c p t e h
step-Found q c p t (some s) e (inl h) = inl (step-Matches q c p t e h)
step-Found q c p t (some s) e (inr h) = inr h

remember-Found :
    (q c : ℕ) (p t : Bytes) (star : Star)
    → (q == b'*') ≡ true
    → Found p (c ∷ t) (some (p, c ∷ t))
    → Found (q ∷ p) (c ∷ t) star
remember-Found q c p t star e h =
    Found-here (q ∷ p) (c ∷ t) star
      (subst (λ x. Matches (x ∷ p) (c ∷ t)) (sym ((==_iff q b'*').0 e)) (both h))

glob_loop-Found : (f : ℕ) → IsRound (glob_loop f)
unfolding glob_loop
glob_loop-Found zero p t star h = absurd (cc)
glob_loop-Found (suc f) p [] star h = Found-here p [] star (only_stars-Matches p (some-inj h))
glob_loop-Found (suc f) [] (c ∷ t) star h =
    retry-Found (glob_loop f) [] (c ∷ t) star (glob_loop-Found f) h
glob_loop-Found (suc f) (q ∷ p) (c ∷ t) star h =
    elim (branch (q == b'?' || q == c) (q == b'*') (glob_loop f p t star)
      (glob_loop f p (c ∷ t) (some (p, c ∷ t))) (retry star (glob_loop f)) h) [
        | inl (e, r) ↦ step-Found q c p t star e (glob_loop-Found f p t star r)
        | inr (inl (e, r)) ↦
            remember-Found q c p t star e (glob_loop-Found f p (c ∷ t) (some (p, c ∷ t)) r)
        | inr (inr r) ↦ retry-Found (glob_loop f) (q ∷ p) (c ∷ t) star (glob_loop-Found f) r
      ]

-- What `glob_match` accepts matches the pattern: each `?` stands for one byte, each `*` for any
-- bytes, every other byte for itself.
pub glob_match-Matches :
    (pattern text : Bytes) → glob_match pattern text ≡ true → Matches pattern text
unfolding glob_match
glob_match-Matches pattern text h =
    glob_loop-Found (suc ((length text + 1) * (length pattern + 1))) pattern text none
      (or_false-some _ h)
