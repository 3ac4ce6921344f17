-- ===== src/Decimal/RoundTrip.antt =====
-- What is printed in decimal is read back.
use redix.Prelude.{
  Bool, ℕ, zero, suc, ◌+◌, ◌/◌, ◌%◌, ◌^◌, ◌<◌, ◌≡◌, refl, true, false, some, [], ◌∷◌, arith, ◌==◌,
  Bytes, All,
}
use redix.Prelude.Int.{ℤ, pos, negsuc, fits_i64, IsInt64, IsInt64→fits_i64}
use redix.Decimal.{
  is_digit, write_digits, to_string_unsigned, to_string, read_digits, from_digits, from_chars,
  whole, parse_i64, parse_u64,
}

read-write_digits :
    (f n : ℕ) (out : Bytes) → n < f → read_digits (write_digits f n out) 0 ≡ read_digits out n
unfolding write_digits read_digits
read-write_digits zero n out h = absurd (omega arith)
read-write_digits (suc f) n out h =
    ground (arith, read-write_digits f (n / 10) ((b'0' + n % 10) ∷ out))

abbrev StartsDigit : Bytes → Type 0
StartsDigit [] = ⊥
StartsDigit (c ∷ s) = is_digit c ≡ true

write_digits-StartsDigit : (f n : ℕ) (out : Bytes) → n < f → StartsDigit (write_digits f n out)
unfolding write_digits
write_digits-StartsDigit zero n out h = absurd (omega arith)
write_digits-StartsDigit (suc f) n out h =
    ground (arith, write_digits-StartsDigit f (n / 10) ((b'0' + n % 10) ∷ out))

from_digits-read : (s : Bytes) → StartsDigit s → from_digits s ≡ some (read_digits s 0)
unfolding from_digits
from_digits-read [] h = absurd h
from_digits-read (c ∷ s) h = rw h

from_digits-to_string : (n : ℕ) → from_digits (to_string_unsigned n) ≡ some (n, [])
unfolding to_string_unsigned
from_digits-to_string n =
    rw
      (
        from_digits-read _ (write_digits-StartsDigit (suc n) n [] (omega arith)),
        read-write_digits (suc n) n [] (omega arith),
      )
      (unfold read_digits in refl)

-- A text that starts with a digit has no sign.
parse_i64_digit : (s : Bytes) → StartsDigit s → parse_i64 s ≡ whole (from_chars fits_i64 s)
unfolding parse_i64
parse_i64_digit [] h = absurd h
parse_i64_digit (c ∷ s) h = refl

from_chars_digit :
    (fits : ℤ → Bool) (s : Bytes) (n : ℕ)
    → StartsDigit s
    → from_digits s ≡ some (n, [])
    → fits (pos n) ≡ true
    → from_chars fits s ≡ some (pos n, [])
unfolding from_chars
from_chars_digit fits [] n h e r = absurd h
from_chars_digit fits (c ∷ s) n h e r = ground arith

pub from_chars-to_string :
    (fits : ℤ → Bool) (n : ℕ)
    → fits (pos n) ≡ true
    → from_chars fits (to_string_unsigned n) ≡ some (pos n, [])
unfolding to_string_unsigned
from_chars-to_string fits n h =
    from_chars_digit fits (to_string_unsigned n) n
      (write_digits-StartsDigit (suc n) n [] (omega arith)) (from_digits-to_string n) h

-- Every `std::int64_t` is read back from its decimal print.
pub parse_i64-to_string : (z : ℤ) → IsInt64 z → parse_i64 (to_string z) ≡ some z
unfolding to_string
parse_i64-to_string (pos n) h =
    let digits = write_digits-StartsDigit (suc n) n [] (omega arith) in
    rw (
      parse_i64_digit (to_string_unsigned n) digits,
      from_chars-to_string fits_i64 n (IsInt64→fits_i64 (pos n) h),
    )
parse_i64-to_string (negsuc n) h =
    unfold parse_i64 in rw (from_digits-to_string (suc n)) (ground arith)

parse_u64_digit :
    (s : Bytes) (n : ℕ)
    → StartsDigit s
    → from_digits s ≡ some (n, [])
    → n < 2 ^ 64
    → parse_u64 s ≡ some n
unfolding parse_u64
parse_u64_digit [] n h e r = absurd h
parse_u64_digit (c ∷ s) n h e r = ground arith

-- Every `std::uint64_t` is read back from its decimal print.
pub parse_u64-to_string : (n : ℕ) → n < 2 ^ 64 → parse_u64 (to_string_unsigned n) ≡ some n
unfolding to_string_unsigned
parse_u64-to_string n h =
    parse_u64_digit (to_string_unsigned n) n (write_digits-StartsDigit (suc n) n [] (omega arith))
      (from_digits-to_string n) h

-- What is accepted is in range.
pub parse_i64-IsInt64 : (s : Bytes) (z : ℤ) → parse_i64 s ≡ some z → IsInt64 z
unfolding parse_i64
parse_i64-IsInt64 [] z h = cc
parse_i64-IsInt64 (c ∷ s) (pos n) h = ground arith
parse_i64-IsInt64 (c ∷ s) (negsuc n) h = ground arith

pub parse_u64-lt : (s : Bytes) (n : ℕ) → parse_u64 s ≡ some n → n < 2 ^ 64
unfolding parse_u64
parse_u64-lt [] n h = cc
parse_u64-lt (c ∷ s) n h = ground arith

-- No byte of a printed number is a carriage return.
abbrev pub NoReturn : Bytes → Type 0
NoReturn = All (λ c. (c == b'\r') ≡ false)

write_digits-NoReturn : (f n : ℕ) (out : Bytes) → NoReturn out → NoReturn (write_digits f n out)
unfolding write_digits
write_digits-NoReturn zero n out h = h
write_digits-NoReturn (suc f) n out h =
    ground (arith, write_digits-NoReturn f (n / 10) ((b'0' + n % 10) ∷ out))

pub to_string-NoReturn : (z : ℤ) → NoReturn (to_string z)
unfolding to_string
to_string-NoReturn (pos n) = write_digits-NoReturn (suc n) n [] tt
to_string-NoReturn (negsuc n) = (refl, write_digits-NoReturn (suc (suc n)) (suc n) [] tt)
