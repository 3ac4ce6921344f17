-- ===== src/Resp/Parser/Prefix.antt =====
-- What the parser has decided does not change when more bytes arrive, or with more fuel.
use redix.Prelude.{
  ℕ, zero, suc, ◌+◌, ◌≤◌, ◌<◌, ◌≡◌, refl, Bool, true, false, Option, none, some, [], ◌∷◌, ◌++◌,
  arith, ltb, if◌then◌else◌, length, take, drop, length-drop, length-append, take-append_le,
  drop-append_le, Bytes,
}
use redix.Resp.Value.{
  Array, Parsed, ParseResult, complete, incomplete, error, length_error, out_of_fuel, bind,
}
use redix.Resp.Parser.{
  find_crlf, on_line, with_line, bulk_of, array_of, parse_simple, parse_error, parse_integer,
  Header, starts_crlf, invalid, absent, sized, parse_bulk_data, parse_bulk, parse_array, Kind, kind,
  simple_kind, error_kind, integer_kind, bulk_kind, array_kind, other_kind, parse_kind, parse_at,
  parse_elems,
}
use redix.Resp.Parser.Total.{Ends, find_crlf-le, Within, parse_at-Ends, parse_elems-Ends}

-- If the first parse has an answer, the second has the same.
abbrev pub Stable {ℓ} : {A : Type ℓ} → Parsed A → Parsed A → Type ℓ
Stable (complete a n) r = r ≡ complete a n
Stable error r = r ≡ error
Stable length_error r = r ≡ length_error
Stable _ r = Unit

Stable-refl {ℓ} : {A : Type ℓ} (r : Parsed A) → Stable r r
Stable-refl (complete a n) = refl
Stable-refl error = refl
Stable-refl length_error = refl
Stable-refl incomplete = tt
Stable-refl out_of_fuel = tt

Stable-bind {ℓ κ} :
    {A : Type ℓ} {B : Type κ} (P : A → ℕ → Type 0) (r r' : Parsed A) (f g : A → ℕ → Parsed B)
    → Stable r r'
    → Ends P r
    → ((a : A) (n : ℕ) → P a n → Stable (f a n) (g a n))
    → Stable (bind r f) (bind r' g)
Stable-bind P (complete a n) r' f g e p h = rw e (h a n p)
Stable-bind P error r' f g e p h = rw e
Stable-bind P length_error r' f g e p h = rw e
Stable-bind P incomplete r' f g e p h = tt
Stable-bind P out_of_fuel r' f g e p h = tt

find_crlf-append : (s t : Bytes) (i : ℕ) → find_crlf s ≡ some i → find_crlf (s ++ t) ≡ some i
unfolding find_crlf
find_crlf-append [] t i h = cc
find_crlf-append (a ∷ []) t i h = cc
find_crlf-append (a ∷ b ∷ s) t zero h = ground (arith, find_crlf-append (b ∷ s) t zero)
find_crlf-append (a ∷ b ∷ s) t (suc i) h = ground (arith, find_crlf-append (b ∷ s) t i)

on_line-Stable :
    (o o' : Option ℕ) (s t : Bytes) (k k' : ℕ → Bytes → ParseResult)
    → ((i : ℕ) → o ≡ some i → o' ≡ some i)
    → ((i : ℕ) → o ≡ some i → i + 2 ≤ length s)
    → ((i : ℕ) → i + 2 ≤ length s → Stable (k i (take i s)) (k' i (take i s)))
    → Stable (on_line o s k) (on_line o' (s ++ t) k')
on_line-Stable none o' s t k k' same b h = tt
on_line-Stable (some i) o' s t k k' same b h =
    rw (same i refl, take-append_le i s t (omega (arith, b i refl))) (h i (b i refl))

with_line-Stable :
    (s t : Bytes) (k k' : ℕ → Bytes → ParseResult)
    → ((i : ℕ) → i + 2 ≤ length s → Stable (k i (take i s)) (k' i (take i s)))
    → Stable (with_line s k) (with_line (s ++ t) k')
unfolding with_line
with_line-Stable s t k k' =
    on_line-Stable (find_crlf s) (find_crlf (s ++ t)) s t k k' (find_crlf-append s t)
      (find_crlf-le s)

starts_crlf-append : (s t : Bytes) → 2 ≤ length s → starts_crlf (s ++ t) ≡ starts_crlf s
starts_crlf-append [] t h = absurd (omega arith)
starts_crlf-append (a ∷ []) t h = absurd (omega arith)
starts_crlf-append (a ∷ b ∷ s) t h = refl

parse_bulk_data-Stable :
    (i n : ℕ) (s t : Bytes) → Stable (parse_bulk_data i n s) (parse_bulk_data i n (s ++ t))
unfolding parse_bulk_data
parse_bulk_data-Stable i n s t = ground (
  arith,
  length-append {0} {A = ℕ} s t,
  length-drop {0} {A = ℕ} n s,
  drop-append_le {0} {A = ℕ} n s t,
  take-append_le {0} {A = ℕ} n s t,
  starts_crlf-append (drop n s) t,
)

bulk_of-Stable :
    (i : ℕ) (n : Header) (s t : Bytes)
    → i + 2 ≤ length s
    → Stable (bulk_of i s n) (bulk_of i (s ++ t) n)
bulk_of-Stable i invalid s t h = refl
bulk_of-Stable i absent s t h = refl
bulk_of-Stable i (sized n) s t h =
    rw (drop-append_le (i + 2) s t h) (parse_bulk_data-Stable i n (drop (i + 2) s) t)

-- The loops over the elements of two parses, the second with more bytes.
abbrev ElemsStable : ℕ → Bytes → (ℕ → Bytes → Parsed Array) → (ℕ → Bytes → Parsed Array) → Type 0
ElemsStable bound t elems elems' =
    (n : ℕ) (s : Bytes)
    → length s + 2 ≤ bound
    → Ends (λ vs m. m ≤ length s) (elems n s) × Stable (elems n s) (elems' n (s ++ t))

if-Stable :
    (b : Bool) (r r' : ParseResult)
    → Stable r r'
    → Stable (if b then length_error else r) (if b then length_error else r')
if-Stable true r r' h = refl
if-Stable false r r' h = h

array_of-Stable :
    (max_elems i : ℕ) (n : Header) (s t : Bytes) (elems elems' : ℕ → Bytes → Parsed Array)
    → i + 2 ≤ length s
    → ElemsStable (length s) t elems elems'
    → Stable (array_of max_elems elems i s n) (array_of max_elems elems' i (s ++ t) n)
array_of-Stable max_elems i invalid s t elems elems' h e = refl
array_of-Stable max_elems i absent s t elems elems' h e = refl
array_of-Stable max_elems i (sized n) s t elems elems' h e =
    let (ends, stable) = e n (drop (i + 2) s) (omega (arith, length-drop {0} {A = ℕ} (i + 2) s)) in
    rw (drop-append_le (i + 2) s t h) (
      if-Stable (ltb max_elems n) _ _
        (Stable-bind (λ vs m. m ≤ length (drop (i + 2) s)) _ _ _ _ stable ends (λ vs m le. refl)))

parse_kind-Stable :
    (max_elems : ℕ) (c : Kind) (s t : Bytes) (elems elems' : ℕ → Bytes → Parsed Array)
    → ElemsStable (length s) t elems elems'
    → Stable (parse_kind max_elems elems c s) (parse_kind max_elems elems' c (s ++ t))
unfolding parse_kind parse_simple parse_error parse_integer parse_bulk parse_array
parse_kind-Stable max_elems simple_kind s t elems elems' e = with_line-Stable s t _ _ λ i h. refl
parse_kind-Stable max_elems error_kind s t elems elems' e = with_line-Stable s t _ _ λ i h. refl
parse_kind-Stable max_elems integer_kind s t elems elems' e =
    with_line-Stable s t _ _ λ i h. Stable-refl _
parse_kind-Stable max_elems bulk_kind s t elems elems' e =
    with_line-Stable s t _ _ λ i h. bulk_of-Stable i _ s t h
parse_kind-Stable max_elems array_kind s t elems elems' e =
    with_line-Stable s t _ _ λ i h. array_of-Stable max_elems i _ s t elems elems' h e
parse_kind-Stable max_elems other_kind s t elems elems' e = refl

mutual
  unfolding parse_at

  pub parse_at-Stable :
      (max_elems f g : ℕ) (s t : Bytes)
      → length s < f
      → f ≤ g
      → Stable (parse_at max_elems f s) (parse_at max_elems g (s ++ t))
  parse_at-Stable max_elems zero g s t h k = tt
  parse_at-Stable max_elems (suc f) zero s t h k = absurd (omega arith)
  parse_at-Stable max_elems (suc f) (suc g) [] t h k = tt
  parse_at-Stable max_elems (suc f) (suc g) (type ∷ s) t h k =
      parse_kind-Stable max_elems (kind type) s t _ _ λ n u le. (
        parse_elems-Ends max_elems f n u (omega arith),
        parse_elems-Stable max_elems f g n u t (omega arith) (omega arith),
      )

  parse_elems-Stable :
      (max_elems f g n : ℕ) (s t : Bytes)
      → length s + 1 < f
      → f ≤ g
      → Stable (parse_elems max_elems f n s) (parse_elems max_elems g n (s ++ t))
  parse_elems-Stable max_elems zero g n s t h k = tt
  parse_elems-Stable max_elems (suc f) zero n s t h k = absurd (omega arith)
  parse_elems-Stable max_elems (suc f) (suc g) zero s t h k = refl
  parse_elems-Stable max_elems (suc f) (suc g) (suc n) s t h k =
      Stable-bind (Within s) _ _ _ _ (parse_at-Stable max_elems f g s t (omega arith) (omega arith))
        (parse_at-Ends max_elems f s (omega arith))
        λ v used within. rw (drop-append_le used s t within.1) (
          Stable-bind (λ vs m. m ≤ length (drop used s)) _ _ _ _
            (parse_elems-Stable max_elems f g n (drop used s) t
              (omega (arith, length-drop {0} {A = ℕ} used s)) (omega arith))
            (parse_elems-Ends max_elems f n (drop used s)
              (omega (arith, length-drop {0} {A = ℕ} used s)))
            (λ vs m le. refl))
