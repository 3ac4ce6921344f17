-- ===== src/Decimal.antt =====
-- Decimal text: `std::to_string` and `std::from_chars` as the program uses them, and the wrappers
-- `parse_i64` and `parse_u64` of src/resp.cpp, src/store.cpp and src/command.cpp.
pub mod RoundTrip
use redix.Prelude.{
  ℕ, zero, suc, ◌+◌, ◌-◌, ◌*◌, ◌/◌, ◌%◌, ◌^◌, Bool, ◌&&◌, Option, none, some, [], ◌∷◌, ltb, leb,
  ◌==◌, if◌then◌else◌, Bytes,
}
use redix.Prelude.Int.{ℤ, pos, negsuc, fits_i64}

abbrev pub is_digit : ℕ → Bool
is_digit c = leb b'0' c && leb c b'9'

-- The digits of `n` in front of `out`. Fuel above `n` is enough.
unfoldable pub write_digits : ℕ → ℕ → Bytes → Bytes
write_digits zero n out = out
write_digits (suc f) n out =
    let rest = write_digits f (n / 10) ((b'0' + n % 10) ∷ out) in
    if ltb n 10 then (b'0' + n) ∷ out else rest

-- `std::to_string` of an unsigned number.
unfoldable pub to_string_unsigned : ℕ → Bytes
unfolding write_digits
to_string_unsigned n = write_digits (suc n) n []

-- `std::to_string` of a signed number.
unfoldable pub to_string : ℤ → Bytes
unfolding to_string_unsigned
to_string (pos n) = to_string_unsigned n
to_string (negsuc n) = b'-' ∷ to_string_unsigned (suc n)

-- The longest run of digits, and what follows it.
unfoldable pub read_digits : Bytes → ℕ → ℕ × Bytes
read_digits [] n = (n, [])
read_digits (c ∷ s) n = if is_digit c then read_digits s (n * 10 + (c - b'0')) else (n, c ∷ s)

unfoldable pub from_digits : Bytes → Option (ℕ × Bytes)
unfolding read_digits
from_digits [] = none
from_digits (c ∷ s) = if is_digit c then some (read_digits (c ∷ s) 0) else none

abbrev pub negate : ℕ → ℤ
negate zero = pos zero
negate (suc n) = negsuc n

-- A number of which `fits` holds; any other is `std::errc::result_out_of_range`.
abbrev in_range : (ℤ → Bool) → (ℕ → ℤ) → Option (ℕ × Bytes) → Option (ℤ × Bytes)
in_range fits sign none = none
in_range fits sign (some (n, rest)) = if fits (sign n) then some (sign n, rest) else none

-- `std::from_chars` into a signed type: the value and the text from `ptr` on, `none` for an `ec`.
unfoldable pub from_chars : (ℤ → Bool) → Bytes → Option (ℤ × Bytes)
unfolding from_digits
from_chars fits [] = none
from_chars fits (c ∷ s) =
    if c == b'-'
    then in_range fits negate (from_digits s)
    else in_range fits pos (from_digits (c ∷ s))

-- `ec == std::errc{} && ptr == last`.
abbrev pub whole {ℓ} : {A : Type ℓ} → Option (A × Bytes) → Option A
whole (some (n, [])) = some n
whole _ = none

unfoldable pub parse_i64 : Bytes → Option ℤ
unfolding from_chars
parse_i64 [] = none
parse_i64 (c ∷ s) = whole (from_chars fits_i64 (c ∷ s))

abbrev u64_range : Option (ℕ × Bytes) → Option (ℕ × Bytes)
u64_range none = none
u64_range (some (n, rest)) = if ltb n (2 ^ 64) then some (n, rest) else none

-- `std::from_chars` into `std::uint64_t` takes no sign.
unfoldable pub parse_u64 : Bytes → Option ℕ
unfolding from_digits
parse_u64 [] = none
parse_u64 (c ∷ s) = if c == b'-' then none else whole (u64_range (from_digits (c ∷ s)))
