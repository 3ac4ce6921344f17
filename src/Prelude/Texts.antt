-- ===== src/Prelude/Texts.antt =====
-- `std::string` and byte buffers: lists of byte values. Comparison is byte by byte, unsigned.
use Prim.Native.Nat.{ℕ}
use Prim.Native.Char.{code}
use Prim.Native.String.{String}
use mathlib.Core.Path.{◌≡◌, refl}
use mathlib.Core.Logic.{◌↔◌}
use mathlib.Core.Bool.{Bool, true, false, ◌&&◌}
use mathlib.Core.List.{List, [], ◌∷◌}
use native.Mathlib.Omega.{arith}
use redix.Prelude.Tests.{ltb, ◌==◌, if◌then◌else◌}

abbrev pub Bytes : Type 0
Bytes = List ℕ

-- The code points of a literal: its bytes, where the text is ASCII.
abbrev pub codes : String → Bytes
codes String.[] = []
codes (String.◌∷◌ c s) = code c ∷ codes s

-- `a == b` on strings.
unfoldable pub same_text : Bytes → Bytes → Bool
same_text [] [] = true
same_text (a ∷ s) (b ∷ t) = a == b && same_text s t
same_text _ _ = false

pub same_text_iff : (s t : Bytes) → (same_text s t ≡ true) ↔ (s ≡ t)
unfolding same_text
same_text_iff [] [] = ground arith
same_text_iff (a ∷ s) (b ∷ t) = ground (arith, same_text_iff s t)
same_text_iff [] (b ∷ t) = ground arith
same_text_iff (a ∷ s) [] = ground arith

-- `a < b` on strings.
unfoldable pub text_less : Bytes → Bytes → Bool
text_less [] [] = false
text_less [] (b ∷ t) = true
text_less (a ∷ s) [] = false
text_less (a ∷ s) (b ∷ t) = if ltb a b then true else if ltb b a then false else text_less s t

pub text_less_irrefl : (s : Bytes) → text_less s s ≡ false
unfolding text_less
text_less_irrefl [] = refl
text_less_irrefl (a ∷ s) = ground (arith, text_less_irrefl s)

pub text_less_trans :
    (s t u : Bytes) → text_less s t ≡ true → text_less t u ≡ true → text_less s u ≡ true
unfolding text_less
text_less_trans [] [] u h k = cc
text_less_trans [] (b ∷ t) [] h k = cc
text_less_trans [] (b ∷ t) (c ∷ u) h k = refl
text_less_trans (a ∷ s) [] u h k = cc
text_less_trans (a ∷ s) (b ∷ t) [] h k = cc
text_less_trans (a ∷ s) (b ∷ t) (c ∷ u) h k = ground (arith, text_less_trans s t u)

pub text_less_connex : (s t : Bytes) → text_less s t ≡ false → text_less t s ≡ false → s ≡ t
unfolding text_less
text_less_connex [] [] h k = refl
text_less_connex [] (b ∷ t) h k = cc
text_less_connex (a ∷ s) [] h k = cc
text_less_connex (a ∷ s) (b ∷ t) h k = ground (arith, text_less_connex s t)
