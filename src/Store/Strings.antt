-- ===== src/Store/Strings.antt =====
-- The operations on string values, with `del` and `exists`.
pub mod Counter
pub mod Deleted
use redix.Prelude.{
  ℕ, suc, ◌+◌, ◌-◌, ◌||◌, Option, none, some, List, [], ◌∷◌, ◌++◌, if◌then◌else◌, length, Bytes,
}
use redix.Prelude.Int.{ℤ, pos, negsuc, ◌+ℤ◌, ◌-ℤ◌, ltb_ℤ, i64_bound}
use redix.Decimal.{to_string, parse_i64}
use redix.FlatMap.{text_order, insert, erase}
use redix.Store.Value.{
  Entry, fresh, DataMap, string_value, key_not_found, wrong_type, not_integer, Expected, ok, err,
  Clock, later, if_string, if_end,
}
use redix.Store.Live.{find_live, find_live_mut}

abbrev pub i64_max : ℤ
i64_max = pos (i64_bound - 1)

abbrev pub i64_min : ℤ
i64_min = negsuc (i64_bound - 1)

abbrev pub narrow : ℤ → Expected ℤ
narrow result = if ltb_ℤ i64_max result || ltb_ℤ result i64_min then err not_integer else ok result

unfoldable pub checked_add : ℤ → ℤ → Expected ℤ
unfolding ◌+ℤ◌
checked_add lhs rhs = narrow (lhs +ℤ rhs)

unfoldable pub checked_subtract : ℤ → ℤ → Expected ℤ
unfolding ◌-ℤ◌
checked_subtract lhs rhs = narrow (lhs -ℤ rhs)

unfoldable pub set : Bytes → Bytes → ℕ → DataMap → DataMap
set key value expires_at_ms data_ =
    insert key (record { value = string_value value; expires_at_ms = expires_at_ms }) data_

unfoldable pub get : ℕ → Bytes → DataMap → Expected Bytes
get now key data_ =
    if_end (find_live now key data_) (err key_not_found)
      λ e. if_string e.value (err wrong_type) λ s. ok s

-- The loop of `del`, with the count so far.
unfoldable pub del_loop : Clock → List Bytes → ℕ → DataMap → ℕ × DataMap
del_loop clock [] removed data_ = (removed, data_)
del_loop clock (key ∷ keys) removed data_ =
    let (it, data') = find_live_mut (clock 0) key data_ in
    let next : ℕ × DataMap = if_end it (removed, data') λ e. (suc removed, erase key data') in
    del_loop (later clock) keys next.0 next.1

unfoldable pub del : Clock → List Bytes → DataMap → ℤ × DataMap
unfolding del_loop
del clock keys data_ = let (removed, data') = del_loop clock keys 0 data_ in (pos removed, data')

unfoldable pub count_live : Clock → List Bytes → DataMap → ℕ
count_live clock [] data_ = 0
count_live clock (key ∷ keys) data_ =
    if_end (find_live (clock 0) key data_) 0 (λ e. 1) + count_live (later clock) keys data_

unfoldable pub exists : Clock → List Bytes → DataMap → ℤ
unfolding count_live
exists clock keys data_ = pos (count_live clock keys data_)

-- `value->data = s` through the iterator of `key`: the expiry stays.
abbrev pub write_string : Bytes → Entry → Bytes → DataMap → DataMap
write_string key e s data_ = insert key (record e { value = string_value s }) data_

abbrev pub write_next : Bytes → Entry → DataMap → Expected ℤ → Expected ℤ × DataMap
write_next key e data_ (ok next) = (ok next, write_string key e (to_string next) data_)
write_next key e data_ (err error) = (err error, data_)

abbrev pub apply_delta :
    (ℤ → ℤ → Expected ℤ) → Bytes → ℤ → Entry → DataMap → Option ℤ → Expected ℤ × DataMap
apply_delta op key delta e data_ none = (err not_integer, data_)
apply_delta op key delta e data_ (some current) = write_next key e data_ (op current delta)

unfoldable pub incrby : ℕ → Bytes → ℤ → DataMap → Expected ℤ × DataMap
incrby now key delta data_ =
    let (it, data') = find_live_mut now key data_ in
    if_end it (ok delta, insert key (fresh (string_value (to_string delta))) data')
      λ e.
        if_string e.value (err wrong_type, data')
          λ s. apply_delta checked_add key delta e data' (parse_i64 s)

unfoldable pub incr : ℕ → Bytes → DataMap → Expected ℤ × DataMap
unfolding incrby
incr now key data_ = incrby now key (pos 1) data_

abbrev pub write_initial : Bytes → DataMap → Expected ℤ → Expected ℤ × DataMap
write_initial key data_ (ok initial) =
    (ok initial, insert key (fresh (string_value (to_string initial))) data_)
write_initial key data_ (err error) = (err error, data_)

unfoldable pub decrby : ℕ → Bytes → ℤ → DataMap → Expected ℤ × DataMap
decrby now key delta data_ =
    let (it, data') = find_live_mut now key data_ in
    if_end it (write_initial key data' (checked_subtract (pos 0) delta)) λ e.
      if_string e.value (err wrong_type, data')
        λ s. apply_delta checked_subtract key delta e data' (parse_i64 s)

unfoldable pub decr : ℕ → Bytes → DataMap → Expected ℤ × DataMap
unfolding decrby
decr now key data_ = decrby now key (pos 1) data_

unfoldable pub append : ℕ → Bytes → Bytes → DataMap → Expected ℤ × DataMap
append now key suffix data_ =
    let (it, data') = find_live_mut now key data_ in
    if_end it (ok (pos (length suffix)), insert key (fresh (string_value suffix)) data')
      λ e.
        if_string e.value (err wrong_type, data')
          λ s. (ok (pos (length (s ++ suffix))), write_string key e (s ++ suffix) data')

unfoldable pub strlen : ℕ → Bytes → DataMap → Expected ℤ
strlen now key data_ =
    if_end (find_live now key data_) (ok (pos 0))
      λ e. if_string e.value (err wrong_type) λ s. ok (pos (length s))

unfoldable pub getset : ℕ → Bytes → Bytes → DataMap → Expected Bytes × DataMap
getset now key value data_ =
    let (it, data') = find_live_mut now key data_ in
    if_end it (err key_not_found, insert key (fresh (string_value value)) data')
      λ e.
        if_string e.value (err wrong_type, data')
          λ previous. (ok previous, insert key (fresh (string_value value)) data')

unfoldable pub mset : List (Bytes × Bytes) → DataMap → DataMap
mset [] data_ = data_
mset ((key, value) ∷ pairs) data_ = mset pairs (insert key (fresh (string_value value)) data_)

unfoldable pub mget : Clock → List Bytes → DataMap → List (Option Bytes)
mget clock [] data_ = []
mget clock (key ∷ keys) data_ =
    if_end (find_live (clock 0) key data_) none (λ e. if_string e.value none λ s. some s)
    ∷ mget (later clock) keys data_
