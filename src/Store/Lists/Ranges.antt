-- ===== src/Store/Lists/Ranges.antt =====
-- Ranges, single elements and pushes on the list itself.
use Prim.Native.Nat.{min}
use redix.Prelude.{
  ℕ, zero, suc, ◌⊎◌, inl, inr, ◌+◌, ◌-◌, ◌≡◌, ◌≤◌, refl, ap, Option, none, some, List, [], ◌∷◌,
  arith, length, get_elem?, take, drop, Bytes,
}
use redix.Prelude.Int.{ℤ, pos, negsuc}
use redix.FlatMap.{text_order}
use redix.Store.Value.{
  RedisValue, string_value, list_value, hash_value, set_value, Entry, DataMap, key_not_found,
  wrong_type, Expected, ok, err, if_list, if_end,
}
use redix.Store.Live.{find_live}
use redix.Store.Lists.{
  normalize_index, read_range, clamp_first, clamp_last, read_between, range_of, lrange,
}

-- The first position that an index names, and the position behind the last: from the front for an
-- index from 0 on, from the back for a negative one, never outside the list.
abbrev pub first_of_range : ℤ → ℕ → ℕ
first_of_range (pos n) size = n
first_of_range (negsuc n) size = size - suc n

abbrev pub end_of_range : ℤ → ℕ → ℕ
end_of_range (pos n) size = min (suc n) size
end_of_range (negsuc n) size = size - n

abbrev elem_then : Option Bytes → List Bytes → List Bytes
elem_then none t = []
elem_then (some x) t = x ∷ t

drop-get_elem? : (i : ℕ) (l : List Bytes) → drop i l ≡ elem_then (get_elem? l i) (drop (suc i) l)
drop-get_elem? zero [] = refl
drop-get_elem? zero (x ∷ l) = refl
drop-get_elem? (suc i) [] = refl
drop-get_elem? (suc i) (x ∷ l) = drop-get_elem? i l

-- The loop reads the elements from `i` on.
read_range_lem : (rounds i : ℕ) (l : List Bytes) → read_range rounds i l ≡ take rounds (drop i l)
unfolding read_range
read_range_lem zero i l = refl
read_range_lem (suc rounds) i l =
    let step : i + 1 ≡ suc i = omega arith in
    ground (arith, drop-get_elem? i l, step, rw step at (read_range_lem rounds (i + 1) l))

take-nil : (n : ℕ) → take {A = Bytes} n [] ≡ []
take-nil zero = refl
take-nil (suc n) = refl

drop-all : (n : ℕ) (l : List Bytes) → length l ≤ n → drop n l ≡ []
drop-all zero [] h = refl
drop-all zero (x ∷ l) h = absurd (omega arith)
drop-all (suc n) [] h = refl
drop-all (suc n) (x ∷ l) h = drop-all n l (omega arith)

slice-nil :
    (first end' : ℕ) (l : List Bytes)
    → (end' ≤ first) ⊎ (length l ≤ first)
    → take (end' - first) (drop first l) ≡ []
slice-nil first end' l (inl h) = let none_left : end' - first ≡ 0 = omega arith in rw none_left
slice-nil first end' l (inr h) = rw (drop-all first l h) (take-nil (end' - first))

-- The position behind `last`, from 0 on.
abbrev behind : ℤ → ℕ
behind (pos m) = suc m
behind (negsuc m) = 0

clamp_first_lem :
    (start : ℤ) (size : ℕ)
    → clamp_first (normalize_index start (pos size)) ≡ pos (first_of_range start size)
unfolding clamp_first normalize_index
clamp_first_lem (pos n) size = ground arith
clamp_first_lem (negsuc n) size = ground arith

clamp_last_lem :
    (stop : ℤ) (size : ℕ)
    → behind (clamp_last (pos size) (normalize_index stop (pos size))) ≡ end_of_range stop size
unfolding clamp_last normalize_index
clamp_last_lem (pos n) size = ground arith
clamp_last_lem (negsuc n) size = ground arith

read_between_lem :
    (first : ℕ) (last : ℤ) (l : List Bytes)
    → read_between (pos first) last l ≡ take (behind last - first) (drop first l)
unfolding read_between
read_between_lem first (negsuc m) l = ground (arith, slice-nil first 0 l (inl (omega arith)))
read_between_lem first (pos m) l =
    ground (arith, slice-nil first (suc m) l, read_range_lem (m - first + 1) first l)

-- The part of the list that starts at the first position that `start` names, and ends before the end
-- that `stop` names; an empty or reversed range gives nothing.
range_of_lem :
    (start stop : ℤ) (l : List Bytes)
    → range_of start stop l
      ≡ take
          (end_of_range stop (length l) - first_of_range start (length l))
          (drop (first_of_range start (length l)) l)
unfolding range_of
range_of_lem start stop l =
    rw (clamp_first_lem start (length l), read_between_lem, clamp_last_lem stop (length l)) refl

-- What LRANGE answers for the live entry of its key.
abbrev pub ranged_value : ℤ → ℤ → RedisValue → Expected (List Bytes)
ranged_value start stop (list_value l) = ok (
    take (end_of_range stop (length l) - first_of_range start (length l))
      (drop (first_of_range start (length l)) l))
ranged_value start stop (string_value s) = err wrong_type
ranged_value start stop (hash_value h) = err wrong_type
ranged_value start stop (set_value s) = err wrong_type

abbrev pub ranged : ℤ → ℤ → Option Entry → Expected (List Bytes)
ranged start stop none = err key_not_found
ranged start stop (some e) = ranged_value start stop e.value

value_lem :
    (start stop : ℤ) (v : RedisValue)
    → if_list v (err wrong_type) (λ l. ok (range_of start stop l)) ≡ ranged_value start stop v
unfolding if_list
value_lem start stop (list_value l) = ap (λ r. ok r) (range_of_lem start stop l)
value_lem start stop (string_value s) = refl
value_lem start stop (hash_value h) = refl
value_lem start stop (set_value s) = refl

entry_lem :
    (start stop : ℤ) (it : Option Entry)
    → if_end it
        (err key_not_found)
        (λ e. if_list e.value (err wrong_type) (λ l. ok (range_of start stop l)))
      ≡ ranged start stop it
unfolding if_end
entry_lem start stop none = refl
entry_lem start stop (some e) = value_lem start stop e.value

-- LRANGE answers with the part of the live list of its key that starts at the first position that its
-- start names and ends before the end that its stop names, negative ones counted from the back; an
-- empty or reversed range gives nothing. A missing key and a key of another type give their errors.
pub lrange_lem :
    (now : ℕ) (key : Bytes) (start stop : ℤ) (d : DataMap)
    → lrange now key start stop d ≡ ranged start stop (find_live now key d)
unfolding lrange
lrange_lem now key start stop d = entry_lem start stop (find_live now key d)
