-- ===== src/Resp/Parser/Total.antt =====
-- Every parse ends within its fuel, and a complete one consumes bytes that the buffer holds.
use redix.Prelude.{
  ℕ, zero, suc, ◌+◌, ◌≤◌, ◌<◌, ◌≡◌, refl, Bool, true, false, Option, none, some, [], ◌∷◌, arith,
  ltb, if◌then◌else◌, length, take, drop, length-drop, Bytes,
}
use redix.Prelude.Int.{ℤ}
use redix.Resp.Value.{
  RespValue, Array, Parsed, ParseResult, complete, length_error, out_of_fuel, bind,
}
use redix.Resp.Parser.{
  find_crlf, on_line, with_line, integer_of, bulk_of, array_of, parse_simple, parse_error,
  parse_integer, Header, invalid, absent, sized, parse_bulk_data, parse_bulk, parse_array, Kind,
  kind, simple_kind, error_kind, integer_kind, bulk_kind, array_kind, other_kind, parse_kind,
  parse_at, parse_elems,
}

-- The parse kept within its fuel, and `P` holds of the value and the count of a complete one.
abbrev pub Ends {ℓ} : {A : Type ℓ} → (A → ℕ → Type 0) → Parsed A → Type 0
Ends P (complete a n) = P a n
Ends P out_of_fuel = ⊥
Ends P _ = Unit

pub Ends-bind {ℓ κ} :
    {A : Type ℓ} {B : Type κ} (P : A → ℕ → Type 0) (Q : B → ℕ → Type 0) (r : Parsed A)
    (f : A → ℕ → Parsed B)
    → Ends P r
    → ((a : A) (n : ℕ) → P a n → Ends Q (f a n))
    → Ends Q (bind r f)
Ends-bind P Q (complete a n) f h k = k a n h
Ends-bind P Q out_of_fuel f h k = h
Ends-bind P Q _ f h k = tt

-- A line and its end lie in the buffer.
pub find_crlf-le : (s : Bytes) (i : ℕ) → find_crlf s ≡ some i → i + 2 ≤ length s
unfolding find_crlf
find_crlf-le [] i h = cc
find_crlf-le (a ∷ []) i h = cc
find_crlf-le (a ∷ b ∷ s) zero h = omega arith
find_crlf-le (a ∷ b ∷ s) (suc i) h = ground (arith, find_crlf-le (b ∷ s) i)

-- A complete parse of `s` consumes from one to all of its bytes.
abbrev pub Within : Bytes → RespValue → ℕ → Type 0
Within s v n = (1 ≤ n) × (n ≤ length s)

on_line-Ends :
    (o : Option ℕ) (type : ℕ) (payload : Bytes) (k : ℕ → Bytes → ParseResult)
    → ((i : ℕ) → o ≡ some i → i + 2 ≤ length payload)
    → ((i : ℕ) → i + 2 ≤ length payload → Ends (Within (type ∷ payload)) (k i (take i payload)))
    → Ends (Within (type ∷ payload)) (on_line o payload k)
on_line-Ends none type payload k b h = tt
on_line-Ends (some i) type payload k b h = h i (b i refl)

with_line-Ends :
    (type : ℕ) (payload : Bytes) (k : ℕ → Bytes → ParseResult)
    → ((i : ℕ) → i + 2 ≤ length payload → Ends (Within (type ∷ payload)) (k i (take i payload)))
    → Ends (Within (type ∷ payload)) (with_line payload k)
unfolding with_line
with_line-Ends type payload k =
    on_line-Ends (find_crlf payload) type payload k (find_crlf-le payload)

parse_simple-Ends :
    (type : ℕ) (payload : Bytes) → Ends (Within (type ∷ payload)) (parse_simple payload)
unfolding parse_simple
parse_simple-Ends type payload = with_line-Ends type payload _ λ i h. omega arith

parse_error-Ends :
    (type : ℕ) (payload : Bytes) → Ends (Within (type ∷ payload)) (parse_error payload)
unfolding parse_error
parse_error-Ends type payload = with_line-Ends type payload _ λ i h. omega arith

integer_of-Ends :
    (type : ℕ) (payload : Bytes) (i : ℕ) (n : Option ℤ)
    → i + 2 ≤ length payload
    → Ends (Within (type ∷ payload)) (integer_of i n)
integer_of-Ends type payload i none h = tt
integer_of-Ends type payload i (some n) h = omega arith

parse_integer-Ends :
    (type : ℕ) (payload : Bytes) → Ends (Within (type ∷ payload)) (parse_integer payload)
unfolding parse_integer
parse_integer-Ends type payload =
    with_line-Ends type payload _ λ i h. integer_of-Ends type payload i _ h

parse_bulk_data-Ends :
    (type : ℕ) (payload : Bytes) (i n : ℕ)
    → i + 2 ≤ length payload
    → Ends (Within (type ∷ payload)) (parse_bulk_data i n (drop (i + 2) payload))
unfolding parse_bulk_data
parse_bulk_data-Ends type payload i n h = ground (arith, length-drop {0} {A = ℕ} (i + 2) payload)

bulk_of-Ends :
    (type : ℕ) (payload : Bytes) (i : ℕ) (n : Header)
    → i + 2 ≤ length payload
    → Ends (Within (type ∷ payload)) (bulk_of i payload n)
bulk_of-Ends type payload i invalid h = tt
bulk_of-Ends type payload i absent h = omega arith
bulk_of-Ends type payload i (sized n) h = parse_bulk_data-Ends type payload i n h

parse_bulk-Ends : (type : ℕ) (payload : Bytes) → Ends (Within (type ∷ payload)) (parse_bulk payload)
unfolding parse_bulk
parse_bulk-Ends type payload = with_line-Ends type payload _ λ i h. bulk_of-Ends type payload i _ h

-- What is asked of the loop over the elements: it stays in the bytes that it is given.
abbrev ElemsEnd : ℕ → (ℕ → Bytes → Parsed Array) → Type 0
ElemsEnd bound elems =
    (n : ℕ) (s : Bytes) → length s + 2 ≤ bound → Ends (λ vs m. m ≤ length s) (elems n s)

array_of-Ends :
    (max_elems type : ℕ) (payload : Bytes) (i : ℕ) (n : Header) (elems : ℕ → Bytes → Parsed Array)
    → i + 2 ≤ length payload
    → ElemsEnd (length payload) elems
    → Ends (Within (type ∷ payload)) (array_of max_elems elems i payload n)
array_of-Ends max_elems type payload i invalid elems h e = tt
array_of-Ends max_elems type payload i absent elems h e = omega arith
array_of-Ends max_elems type payload i (sized n) elems h e = if-Ends (ltb max_elems n) _ (
    Ends-bind (λ vs m. m ≤ length (drop (i + 2) payload)) (Within (type ∷ payload)) _ _
      (e n (drop (i + 2) payload) (omega (arith, length-drop {0} {A = ℕ} (i + 2) payload)))
      λ vs m le. omega (arith, length-drop {0} {A = ℕ} (i + 2) payload))
  where
    if-Ends :
        (b : Bool) (r : ParseResult)
        → Ends (Within (type ∷ payload)) r
        → Ends (Within (type ∷ payload)) (if b then length_error else r)
    if-Ends true r k = tt
    if-Ends false r k = k

parse_kind-Ends :
    (max_elems type : ℕ) (payload : Bytes) (c : Kind) (elems : ℕ → Bytes → Parsed Array)
    → ElemsEnd (length payload) elems
    → Ends (Within (type ∷ payload)) (parse_kind max_elems elems c payload)
unfolding parse_kind parse_array
parse_kind-Ends max_elems type payload simple_kind elems e = parse_simple-Ends type payload
parse_kind-Ends max_elems type payload error_kind elems e = parse_error-Ends type payload
parse_kind-Ends max_elems type payload integer_kind elems e = parse_integer-Ends type payload
parse_kind-Ends max_elems type payload bulk_kind elems e = parse_bulk-Ends type payload
parse_kind-Ends max_elems type payload array_kind elems e =
    with_line-Ends type payload _ λ i h. array_of-Ends max_elems type payload i _ elems h e
parse_kind-Ends max_elems type payload other_kind elems e = tt

mutual
  unfolding parse_at

  pub parse_at-Ends :
      (max_elems f : ℕ) (s : Bytes) → length s < f → Ends (Within s) (parse_at max_elems f s)
  parse_at-Ends max_elems zero s h = absurd (omega arith)
  parse_at-Ends max_elems (suc f) [] h = tt
  parse_at-Ends max_elems (suc f) (type ∷ payload) h =
      parse_kind-Ends max_elems type payload (kind type) (parse_elems max_elems f)
        λ n s le. parse_elems-Ends max_elems f n s (omega arith)

  pub parse_elems-Ends :
      (max_elems f n : ℕ) (s : Bytes)
      → length s + 1 < f
      → Ends (λ vs m. m ≤ length s) (parse_elems max_elems f n s)
  parse_elems-Ends max_elems zero n s h = absurd (omega arith)
  parse_elems-Ends max_elems (suc f) zero s h = omega arith
  parse_elems-Ends max_elems (suc f) (suc n) s h =
      Ends-bind (Within s) (λ vs m. m ≤ length s) _ _ (parse_at-Ends max_elems f s (omega arith))
        λ v used within.
          Ends-bind (λ vs m. m ≤ length (drop used s)) (λ vs m. m ≤ length s) _ _
            (parse_elems-Ends max_elems f n (drop used s)
              (omega (arith, length-drop {0} {A = ℕ} used s)))
            λ vs more le. omega (arith, length-drop {0} {A = ℕ} used s)
