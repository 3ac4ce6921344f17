-- ===== src/Resp/RoundTrip.antt =====
-- A value that was encoded is parsed back, whatever follows it in the buffer.
use redix.Prelude.{
  ℕ, zero, suc, ◌+◌, ◌≤◌, ◌<◌, ◌≡◌, refl, false, ◌&&◌, some, [], ◌∷◌, ◌++◌, arith, ◌==◌, length,
  drop, length-append, append_assoc, take-length_append, drop-length_append, Bytes,
}
use redix.Prelude.Int.{ℤ, pos, i64_bound, IsInt64}
use redix.Decimal.{parse_i64, to_string, to_string_unsigned}
use redix.Decimal.RoundTrip.{parse_i64-to_string, NoReturn, to_string-NoReturn}
use redix.Resp.Value.{
  RespValue, Array, null, string, integer, error_message, array, no_elems, elem, size, ParseResult,
  complete,
}
use redix.Resp.Encoder.{crlf, resp_encode, encode_elems}
use redix.Resp.Parser.{
  find_crlf, with_line, parse_error, parse_integer, header, sized, parse_bulk_data, parse_bulk,
  parse_array, parse_kind, parse_at, parse_elems, try_parse,
}

-- A text with no line end in it.
abbrev pub NoCrlf : Bytes → Type 0
NoCrlf [] = Unit
NoCrlf (a ∷ []) = Unit
NoCrlf (a ∷ b ∷ s) = ((a == b'\r' && b == b'\n') ≡ false) × NoCrlf (b ∷ s)

pub NoReturn→NoCrlf : (s : Bytes) → NoReturn s → NoCrlf s
NoReturn→NoCrlf [] h = tt
NoReturn→NoCrlf (a ∷ []) h = tt
NoReturn→NoCrlf (a ∷ b ∷ s) (h, hs) = (rw h, NoReturn→NoCrlf (b ∷ s) hs)

find_crlf-line : (s rest : Bytes) → NoCrlf s → find_crlf (s ++ (crlf ++ rest)) ≡ some (length s)
unfolding find_crlf
find_crlf-line [] rest h = refl
find_crlf-line (a ∷ []) rest h = ground arith
find_crlf-line (a ∷ b ∷ s) rest (h, hs) = ground (arith, find_crlf-line (b ∷ s) rest hs)

with_line-line :
    (s rest : Bytes) (k : ℕ → Bytes → ParseResult)
    → NoCrlf s
    → with_line (s ++ (crlf ++ rest)) k ≡ k (length s) s
unfolding with_line
with_line-line s rest k h = rw (find_crlf-line s rest h) (rw (take-length_append s (crlf ++ rest)))

drop-line : (s rest : Bytes) → drop (length s + 2) (s ++ (crlf ++ rest)) ≡ rest
drop-line [] rest = refl
drop-line (a ∷ s) rest =
    let e : suc (length s) + 2 ≡ suc (length s + 2) = omega arith in rw e (drop-line s rest)

-- A value whose encoding the parser accepts: numbers and lengths are representable, the text of an
-- error is one line, and `reserve` succeeds.
unfoldable mutual
  pub IsEncodable : ℕ → RespValue → Type 0
  IsEncodable max_elems null = Unit
  IsEncodable max_elems (string s) = length s < i64_bound
  IsEncodable max_elems (integer n) = IsInt64 n
  IsEncodable max_elems (error_message s) = NoCrlf s
  IsEncodable max_elems (array vs) =
      (size vs ≤ max_elems) × (size vs < i64_bound) × AreEncodable max_elems vs

  pub AreEncodable : ℕ → Array → Type 0
  AreEncodable max_elems no_elems = Unit
  AreEncodable max_elems (elem v vs) = IsEncodable max_elems v × AreEncodable max_elems vs

number-NoCrlf : (z : ℤ) → NoCrlf (to_string z)
number-NoCrlf z = NoReturn→NoCrlf (to_string z) (to_string-NoReturn z)

to_string-pos : (n : ℕ) → to_string (pos n) ≡ to_string_unsigned n
unfolding to_string
to_string-pos n = refl

parse-header : (n : ℕ) → n < i64_bound → header (parse_i64 (to_string (pos n))) ≡ sized n
parse-header n h = rw (parse_i64-to_string (pos n) h)

parse_integer-encode :
    (z : ℤ) (rest : Bytes)
    → IsInt64 z
    → parse_integer (to_string z ++ (crlf ++ rest))
      ≡ complete (integer z) (length (to_string z) + 3)
unfolding parse_integer
parse_integer-encode z rest h =
    rw (with_line-line (to_string z) rest _ (number-NoCrlf z)) (rw (parse_i64-to_string z h))

parse_bulk_data-encode :
    (i : ℕ) (s rest : Bytes)
    → parse_bulk_data i (length s) (s ++ (crlf ++ rest))
      ≡ complete (string s) (i + 3 + length s + 2)
unfolding parse_bulk_data
parse_bulk_data-encode i s rest = ground (
  arith,
  length-append {0} {A = ℕ} s (crlf ++ rest),
  take-length_append {0} {A = ℕ} s (crlf ++ rest),
  drop-length_append {0} {A = ℕ} s (crlf ++ rest),
)

parse_bulk-encode :
    (s rest : Bytes)
    → length s < i64_bound
    → parse_bulk (to_string (pos (length s)) ++ (crlf ++ (s ++ (crlf ++ rest))))
      ≡ complete (string s) (length (to_string (pos (length s))) + 3 + length s + 2)
unfolding parse_bulk
parse_bulk-encode s rest h =
    let n = to_string (pos (length s)) in
    rw (with_line-line n (s ++ (crlf ++ rest)) _ (number-NoCrlf (pos (length s)))) (
      rw (parse-header (length s) h)
        (rw (drop-line n (s ++ (crlf ++ rest))) (parse_bulk_data-encode (length n) s rest)))

-- The parse of the encoding of `v` with `rest` behind it.
abbrev ReadsAs : ℕ → ℕ → RespValue → Bytes → Type 0
ReadsAs max_elems f v rest =
    parse_at max_elems f (resp_encode v ++ rest) ≡ complete v (length (resp_encode v))

parse_null : (max_elems f : ℕ) (rest : Bytes) → ReadsAs max_elems (suc f) null rest
unfolding parse_at parse_kind parse_bulk with_line find_crlf parse_i64 resp_encode
parse_null max_elems f rest = refl

parse_string :
    (max_elems f : ℕ) (s rest : Bytes)
    → length s < i64_bound
    → ReadsAs max_elems (suc f) (string s) rest
unfolding parse_at parse_kind resp_encode
parse_string max_elems f s rest h =
    let n = to_string (pos (length s)) in
    simp append_assoc (
      rw (← to_string-pos (length s)) (
        rw (parse_bulk-encode s rest h) (
          ground (
            arith,
            length-append {0} {A = ℕ} n (crlf ++ (s ++ crlf)),
            length-append {0} {A = ℕ} s crlf,
          ))))

parse_int :
    (max_elems f : ℕ) (n : ℤ) (rest : Bytes)
    → IsInt64 n
    → ReadsAs max_elems (suc f) (integer n) rest
unfolding parse_at parse_kind resp_encode
parse_int max_elems f n rest h = simp append_assoc (
    rw (parse_integer-encode n rest h)
      (ground (arith, length-append {0} {A = ℕ} (to_string n) crlf)))

parse_err :
    (max_elems f : ℕ) (s rest : Bytes) → NoCrlf s → ReadsAs max_elems (suc f) (error_message s) rest
unfolding parse_at parse_kind parse_error resp_encode
parse_err max_elems f s rest h =
    simp append_assoc
      (rw (with_line-line s rest _ h) (ground (arith, length-append {0} {A = ℕ} s crlf)))

parse_arr :
    (max_elems f : ℕ) (vs : Array) (rest : Bytes)
    → size vs ≤ max_elems
    → size vs < i64_bound
    → parse_elems max_elems f (size vs) (encode_elems vs ++ rest)
      ≡ complete vs (length (encode_elems vs))
    → ReadsAs max_elems (suc f) (array vs) rest
unfolding parse_at parse_kind parse_array resp_encode
parse_arr max_elems f vs rest fits short e =
    let n = to_string (pos (size vs)) in
    simp append_assoc (
      rw (← to_string-pos (size vs)) (
        rw (with_line-line n (encode_elems vs ++ rest) _ (number-NoCrlf (pos (size vs)))) (
          rw (parse-header (size vs) short) (
            rw (drop-line n (encode_elems vs ++ rest))
              (ground (arith, e, length-append {0} {A = ℕ} n (crlf ++ encode_elems vs)))))))

resp_encode_pos : (v : RespValue) → 1 ≤ length (resp_encode v)
unfolding resp_encode
resp_encode_pos null = omega arith
resp_encode_pos _ = omega arith

length-array : (vs : Array) → length (encode_elems vs) + 3 ≤ length (resp_encode (array vs))
unfolding resp_encode
length-array vs =
    let n = to_string_unsigned (size vs) in
    omega (arith, length-append {0} {A = ℕ} n (crlf ++ encode_elems vs))

IsEncodable-array :
    (max_elems : ℕ) (vs : Array)
    → IsEncodable max_elems (array vs)
    → (size vs ≤ max_elems) × (size vs < i64_bound) × AreEncodable max_elems vs
unfolding IsEncodable
IsEncodable-array max_elems vs h = h

mutual
  unfolding IsEncodable parse_elems encode_elems

  parse_at-Reads :
      (max_elems : ℕ) (v : RespValue)
      → IsEncodable max_elems v
      → (f : ℕ) (rest : Bytes) → length (resp_encode v) < f
      → ReadsAs max_elems f v rest
  parse_at-Reads max_elems null h zero rest k = absurd (omega arith)
  parse_at-Reads max_elems null h (suc f) rest k = parse_null max_elems f rest
  parse_at-Reads max_elems (string s) h zero rest k = absurd (omega arith)
  parse_at-Reads max_elems (string s) h (suc f) rest k = parse_string max_elems f s rest h
  parse_at-Reads max_elems (integer n) h zero rest k = absurd (omega arith)
  parse_at-Reads max_elems (integer n) h (suc f) rest k = parse_int max_elems f n rest h
  parse_at-Reads max_elems (error_message s) h zero rest k = absurd (omega arith)
  parse_at-Reads max_elems (error_message s) h (suc f) rest k = parse_err max_elems f s rest h
  parse_at-Reads max_elems (array vs) h zero rest k = absurd (omega arith)
  parse_at-Reads max_elems (array vs) (fits, short, all) (suc f) rest k =
      parse_arr max_elems f vs rest fits short
        (parse_elems-Reads max_elems vs all f rest (omega (arith, length-array vs)))

  parse_elems-Reads :
      (max_elems : ℕ) (vs : Array)
      → AreEncodable max_elems vs
      → (f : ℕ) (rest : Bytes) → length (encode_elems vs) + 1 < f
      → parse_elems max_elems f (size vs) (encode_elems vs ++ rest)
        ≡ complete vs (length (encode_elems vs))
  parse_elems-Reads max_elems no_elems h zero rest k = absurd (omega arith)
  parse_elems-Reads max_elems no_elems h (suc f) rest k = refl
  parse_elems-Reads max_elems (elem v vs) h zero rest k = absurd (omega arith)
  parse_elems-Reads max_elems (elem v vs) (h, hs) (suc f) rest k =
      let lengths = length-append {0} {A = ℕ} (resp_encode v) (encode_elems vs) in
      let first =
        parse_at-Reads max_elems v h f (encode_elems vs ++ rest) (omega (arith, lengths)) in
      let others =
        parse_elems-Reads max_elems vs hs f rest (omega (arith, lengths, resp_encode_pos v)) in
      simp append_assoc (
        rw first (
          rw (drop-length_append (resp_encode v) (encode_elems vs ++ rest)) (rw (others, lengths))))

-- Feeding the encoding of a value, and whatever follows, to an empty parser: the next parse is
-- complete with that value and leaves exactly what followed.
pub try_parse-resp_encode :
    (max_elems : ℕ) (v : RespValue) (rest : Bytes)
    → IsEncodable max_elems v
    → try_parse max_elems (resp_encode v ++ rest) ≡ (complete v (length (resp_encode v)), rest)
unfolding try_parse
try_parse-resp_encode max_elems v rest h =
    rw
      (parse_at-Reads max_elems v h (suc (length (resp_encode v ++ rest))) rest
        (omega (arith, length-append {0} {A = ℕ} (resp_encode v) rest)))
      (rw (drop-length_append (resp_encode v) rest))
