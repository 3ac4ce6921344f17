-- ===== src/Store/Glob/Complete.antt =====
-- What the loop of `glob_match` refuses, for a text without `*`.
use redix.Prelude.{
  ℕ, zero, suc, ◌+◌, ◌*◌, ◌≡◌, ◌≢◌, ◌⊎◌, inl, inr, ◌↔◌, refl, Bool, true, false, ◌||◌, Option, none,
  some, [], ◌∷◌, ◌==◌, if◌then◌else◌, length, Bytes, ==_iff, Bool-cases, All, arith,
}
use mathlib.Core.Path.{subst}
use redix.Store.Glob.{Star, Round, retry, only_stars, glob_loop, or_false, glob_match}
use redix.Store.Glob.Sound.{Matches, done, literal, any, star_none, star_more, glob_match-Matches}
use redix.Store.Glob.Total.{glob_loop-total}

abbrev pub NoStar : Bytes → Type 0
NoStar = All (λ c. (c == b'*') ≡ false)

-- How a pattern can match, by its first byte and the text's.
abbrev View : Bytes → Bytes → Type 0
View [] [] = Unit
View [] (c ∷ t) = ⊥
View (q ∷ p) [] = (q ≡ b'*') × Matches p []
View (q ∷ p) (c ∷ t) =
    (((q == b'?' || q == c) ≡ true) × Matches p t)
    ⊎ ((q ≡ b'*') × (Matches p (c ∷ t) ⊎ Matches (b'*' ∷ p) t))

star_none-View : (p t : Bytes) → Matches p t → View (b'*' ∷ p) t
star_none-View p [] h = (refl, h)
star_none-View p (c ∷ t) h = inr (refl, inl h)

Matches-View : (p t : Bytes) → Matches p t → View p t
Matches-View _ _ done = tt
Matches-View _ _ (literal c p t h) = inl (ground arith, h)
Matches-View _ _ (any c p t h) = inl (refl, h)
Matches-View _ _ (star_none p t h) = star_none-View p t h
Matches-View _ _ (star_more c p t h) = inr (refl, inr h)

-- A first byte of the pattern that is no star takes the text's.
tail-Matches :
    (q c : ℕ) (p t : Bytes)
    → (q == b'*') ≡ false
    → Matches (q ∷ p) (c ∷ t)
    → ((q == b'?' || q == c) ≡ true) × Matches p t
tail-Matches q c p t n h = elim (Matches-View (q ∷ p) (c ∷ t) h) [
  | inl k ↦ k
  | inr k ↦ absurd (ground (arith, k.0))
]

-- Where a star stands before a pattern, the rest of the pattern matches some rest of the text.
skip-Matches :
    (q : ℕ) (p t : Bytes) → (q == b'*') ≡ false → Matches (b'*' ∷ (q ∷ p)) t → Matches (b'*' ∷ p) t
skip-Matches q p [] n h =
    absurd (ground (arith, (Matches-View (q ∷ p) [] (Matches-View (b'*' ∷ (q ∷ p)) [] h).1).0))
skip-Matches q p (c ∷ t) n h = elim (Matches-View (b'*' ∷ (q ∷ p)) (c ∷ t) h) [
  | inl k ↦ star_more c p t (skip-Matches q p t n (star_none (q ∷ p) t k.1))
  | inr k ↦ elim k.1 [
    | inl m ↦ star_more c p t (star_none p t (tail-Matches q c p t n m).1)
    | inr m ↦ star_more c p t (skip-Matches q p t n m)
  ]
]

-- Two stars stand for what one stands for.
star-Matches : (p t : Bytes) → Matches (b'*' ∷ (b'*' ∷ p)) t → Matches (b'*' ∷ p) t
star-Matches p [] h = (Matches-View (b'*' ∷ (b'*' ∷ p)) [] h).1
star-Matches p (c ∷ t) h = elim (Matches-View (b'*' ∷ (b'*' ∷ p)) (c ∷ t) h) [
  | inl k ↦ star_more c p t k.1
  | inr k ↦ elim k.1 [ inl m ↦ m | inr m ↦ star_more c p t (star-Matches p t m) ]
]

-- The pattern from the remembered star's place on, and the text from there on, against what is left
-- of both: what the first may match, the second may.
abbrev IsRest : Bytes → Bytes → Star → Type 0
IsRest p t none = Unit
IsRest p t (some (sp, m)) =
    NoStar m × (Matches sp m → Matches p t) × (Matches (b'*' ∷ sp) m → Matches (b'*' ∷ p) t)

-- What the loop has excluded when it returns false.
abbrev IsRefuted : Bytes → Bytes → Star → Type 0
IsRefuted p t none = ¬ Matches p t
IsRefuted p t (some (sp, m)) = ¬ Matches (b'*' ∷ sp) m

abbrev Refutes : Round → Type 0
Refutes next =
    (p t : Bytes) (star : Star)
    → NoStar t
    → IsRest p t star
    → next p t star ≡ some false
    → IsRefuted p t star

retry-Refuted :
    (next : Round) (p t : Bytes) (star : Star)
    → Refutes next
    → ¬ Matches p t
    → IsRest p t star
    → retry star next ≡ some false
    → IsRefuted p t star
retry-Refuted next p t none k no_match r e = no_match
retry-Refuted next p t (some (sp, [])) k no_match r e =
    λ h. no_match (r.1 (Matches-View (b'*' ∷ sp) [] h).1)
retry-Refuted next p t (some (sp, c ∷ m)) k no_match r e =
    let refuted = k sp m (some (sp, m)) r.0.1 (r.0.1, (λ h. h), λ h. h) e in
    λ h. elim (Matches-View (b'*' ∷ sp) (c ∷ m) h) [
      | inl l ↦ absurd (ground (arith, l.0, r.0.0))
      | inr l ↦ elim l.1 [ inl n ↦ no_match (r.1 n) | inr n ↦ refuted n ]
    ]

step-IsRest :
    (q c : ℕ) (p t : Bytes) (star : Star)
    → (q == b'*') ≡ false
    → IsRest (q ∷ p) (c ∷ t) star
    → IsRest p t star
step-IsRest q c p t none n r = tt
step-IsRest q c p t (some (sp, m)) n r = (
  r.0,
  (λ h. (tail-Matches q c p t n (r.1 h)).1),
  λ h. elim (Matches-View (b'*' ∷ (q ∷ p)) (c ∷ t) (r.2 h)) [
    | inl k ↦ skip-Matches q p t n (star_none (q ∷ p) t k.1)
    | inr k ↦ elim k.1 [
      | inl l ↦ star_none p t (tail-Matches q c p t n l).1
      | inr l ↦ skip-Matches q p t n l
    ]
  ],
)

only_stars_complete : (p : Bytes) → Matches p [] → only_stars p ≡ true
unfolding only_stars
only_stars_complete [] h = refl
only_stars_complete (q ∷ p) h =
    let v = Matches-View (q ∷ p) [] h in ground (arith, v.0, only_stars_complete p v.1)

end-IsRefuted : (p : Bytes) (star : Star) → ¬ Matches p [] → IsRest p [] star → IsRefuted p [] star
end-IsRefuted p none n r = n
end-IsRefuted p (some (sp, m)) n r = λ h. n (Matches-View (b'*' ∷ p) [] (r.2 h)).1

step-IsRefuted :
    (q c : ℕ) (p t : Bytes) (star : Star)
    → (q == b'*') ≡ false
    → IsRefuted p t star
    → IsRefuted (q ∷ p) (c ∷ t) star
step-IsRefuted q c p t none n r = λ h. r (tail-Matches q c p t n h).1
step-IsRefuted q c p t (some s) n r = r

remember-IsRefuted :
    (q : ℕ) (p t : Bytes) (star : Star)
    → q ≡ b'*'
    → IsRest (q ∷ p) t star
    → ¬ Matches (b'*' ∷ p) t
    → IsRefuted (q ∷ p) t star
remember-IsRefuted q p t none e r n = λ h. n (subst (λ x. Matches (x ∷ p) t) e h)
remember-IsRefuted q p t (some (sp, m)) e r n =
    λ h. n (star-Matches p t (subst (λ x. Matches (b'*' ∷ (x ∷ p)) t) e (r.2 h)))

if_true :
    (x y : Option Bool) (b : Bool) → b ≡ true → (if b then x else y) ≡ some false → x ≡ some false
if_true x y true e h = h
if_true x y false e h = absurd (cc)

if_false :
    (x y : Option Bool) (b : Bool) → b ≡ false → (if b then x else y) ≡ some false → y ≡ some false
if_false x y true e h = absurd (cc)
if_false x y false e h = h

glob_loop-Refutes : (f : ℕ) → Refutes (glob_loop f)
unfolding glob_loop
glob_loop-Refutes zero p t star n r h = absurd (cc)
glob_loop-Refutes (suc f) p [] star n r h =
    end-IsRefuted p star (λ m. absurd (cc (only_stars_complete p m))) r
glob_loop-Refutes (suc f) [] (c ∷ t) star n r h =
    retry-Refuted (glob_loop f) [] (c ∷ t) star (glob_loop-Refutes f) (Matches-View [] (c ∷ t)) r h
glob_loop-Refutes (suc f) (q ∷ p) (c ∷ t) star n r h =
    let same = q == b'?' || q == c in
    elim (Bool-cases same) [
      | inl e ↦
          let plain : (q == b'*') ≡ false = ground (arith, e, n.0) in
          step-IsRefuted q c p t star plain (
            glob_loop-Refutes f p t star n.1 (step-IsRest q c p t star plain r)
              (if_true _ _ same e h))
      | inr e ↦ elim (Bool-cases (q == b'*')) [
        | inl k ↦ remember-IsRefuted q p (c ∷ t) star ((==_iff q b'*').0 k) r (
            glob_loop-Refutes f p (c ∷ t) (some (p, c ∷ t)) n (n, (λ m. m), λ m. m)
              (if_true _ _ (q == b'*') k (if_false _ _ same e h)))
        | inr k ↦
            retry-Refuted (glob_loop f) (q ∷ p) (c ∷ t) star (glob_loop-Refutes f)
              (λ m. absurd (cc (tail-Matches q c p t k m).0)) r
              (if_false _ _ (q == b'*') k (if_false _ _ same e h))
      ]
    ]

-- On a text without `*`, `glob_match` accepts exactly what matches the pattern: each `?` stands for
-- one byte, each `*` for any bytes, every other byte for itself.
pub glob_match_iff :
    (pattern text : Bytes) → NoStar text → (glob_match pattern text ≡ true) ↔ Matches pattern text
unfolding glob_match
glob_match_iff pattern text n =
    let fuel = suc ((length text + 1) * (length pattern + 1)) in
    (
      glob_match-Matches pattern text,
      λ h.
          by_result (glob_loop fuel pattern text none) (glob_loop-total pattern text)
            (λ e. glob_loop-Refutes fuel pattern text none n tt e h),
    )
  where
    by_result : (o : Option Bool) → o ≢ none → ¬ (o ≡ some false) → or_false o ≡ true
    by_result none t f = absurd (t refl)
    by_result (some true) t f = refl
    by_result (some false) t f = absurd (f refl)
