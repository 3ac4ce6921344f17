-- ===== src/Store/Glob.antt =====
-- `glob_match`. The positions `p`, `t`, `star + 1` and `match` are the texts from there on.
pub mod Sound
pub mod Total
pub mod Complete
use redix.Prelude.{
  ℕ, zero, suc, ◌+◌, ◌*◌, Bool, true, false, ◌||◌, Option, none, some, [], ◌∷◌, ◌==◌, if◌then◌else◌,
  length, Bytes,
}

-- `star + 1` and `match`, unless `star` is `npos`.
abbrev pub Star : Type 0
Star = Option (Bytes × Bytes)

abbrev pub Round : Type 0
Round = Bytes → Bytes → Star → Option Bool

-- `p = star + 1; t = ++match`, or the mismatch.
abbrev pub retry : Star → Round → Option Bool
retry none next = some false
retry (some (p, [])) next = some false
retry (some (p, c ∷ t)) next = next p t (some (p, t))

-- The second loop and the final test.
unfoldable pub only_stars : Bytes → Bool
only_stars [] = true
only_stars (q ∷ p) = if q == b'*' then only_stars p else false

-- One round for each unit of fuel; `none` means that it ran out.
unfoldable pub glob_loop : ℕ → Round
unfolding only_stars
glob_loop zero p t star = none
glob_loop (suc f) p [] star = some (only_stars p)
glob_loop (suc f) [] (c ∷ t) star = retry star (glob_loop f)
glob_loop (suc f) (q ∷ p) (c ∷ t) star =
    let step = glob_loop f p t star in
    let remember = glob_loop f p (c ∷ t) (some (p, c ∷ t)) in
    if q == b'?' || q == c then step else if q == b'*' then remember else retry star (glob_loop f)

abbrev pub or_false : Option Bool → Bool
or_false none = false
or_false (some b) = b

unfoldable pub glob_match : Bytes → Bytes → Bool
unfolding glob_loop
glob_match pattern text =
    or_false (glob_loop (suc ((length text + 1) * (length pattern + 1))) pattern text none)
