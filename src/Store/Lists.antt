-- ===== src/Store/Lists.antt =====
-- The operations on list values. A `std::deque` is a list, its front first.
pub mod Ranges
pub mod Sequence
pub mod Pops
use redix.Prelude.{
  ℕ, zero, suc, ◌+◌, ◌-◌, ◌||◌, Option, none, some, List, [], ◌∷◌, ◌++◌, if◌then◌else◌, length,
  get_elem?, Bytes,
}
use redix.Prelude.Int.{ℤ, pos, negsuc, pos_part, ◌+ℤ◌, ◌-ℤ◌, ltb_ℤ, leb_ℤ}
use redix.FlatMap.{text_order, insert, erase}
use redix.Store.Value.{
  Entry, fresh, DataMap, list_value, key_not_found, wrong_type, out_of_range, Expected, ok, err,
  if_list, if_end,
}
use redix.Store.Live.{find_live, find_live_mut}

-- The data of the list behind the iterator of `key` becomes `l`.
abbrev pub write_list : Bytes → Entry → List Bytes → DataMap → DataMap
write_list key e l data_ = insert key (record e { value = list_value l }) data_

-- `push_front` of each value in turn.
unfoldable pub push_front_all : List Bytes → List Bytes → List Bytes
push_front_all [] l = l
push_front_all (v ∷ values) l = push_front_all values (v ∷ l)

-- `push_back` of each value in turn.
unfoldable pub push_back_all : List Bytes → List Bytes → List Bytes
push_back_all [] l = l
push_back_all (v ∷ values) l = push_back_all values (l ++ v ∷ [])

abbrev pub push :
    (List Bytes → List Bytes → List Bytes) → ℕ → Bytes → List Bytes → DataMap → ℤ × DataMap
push all now key values data_ =
    let (it, data') = find_live_mut now key data_ in
    if_end it (pos (length (all values [])), insert key (fresh (list_value (all values []))) data')
      λ e.
        if_list e.value (negsuc 0, data')
          λ l. (pos (length (all values l)), write_list key e (all values l) data')

-- -1 stands for a key of another type.
unfoldable pub lpush : ℕ → Bytes → List Bytes → DataMap → ℤ × DataMap
unfolding push_front_all
lpush = push push_front_all

unfoldable pub rpush : ℕ → Bytes → List Bytes → DataMap → ℤ × DataMap
unfolding push_back_all
rpush = push push_back_all

-- An emptied list is erased with its key.
abbrev pub keep_list : Bytes → Entry → List Bytes → DataMap → DataMap
keep_list key e [] data_ = erase key data_
keep_list key e (x ∷ l) data_ = write_list key e (x ∷ l) data_

abbrev pub take_front : Bytes → Entry → DataMap → List Bytes → Expected Bytes × DataMap
take_front key e data_ [] = (err key_not_found, erase key data_)
take_front key e data_ (x ∷ l) = (ok x, keep_list key e l data_)

unfoldable pub lpop : ℕ → Bytes → DataMap → Expected Bytes × DataMap
lpop now key data_ =
    let (it, data') = find_live_mut now key data_ in
    if_end it (err key_not_found, data')
      λ e. if_list e.value (err wrong_type, data') λ l. take_front key e data' l

-- `back()` and what `pop_back()` leaves, of the list `x ∷ l`.
abbrev pub back : Bytes → List Bytes → Bytes
back x [] = x
back x (y ∷ l) = back y l

abbrev pub pop_back : Bytes → List Bytes → List Bytes
pop_back x [] = []
pop_back x (y ∷ l) = x ∷ pop_back y l

abbrev pub take_back : Bytes → Entry → DataMap → List Bytes → Expected Bytes × DataMap
take_back key e data_ [] = (err key_not_found, erase key data_)
take_back key e data_ (x ∷ l) = (ok (back x l), keep_list key e (pop_back x l) data_)

unfoldable pub rpop : ℕ → Bytes → DataMap → Expected Bytes × DataMap
rpop now key data_ =
    let (it, data') = find_live_mut now key data_ in
    if_end it (err key_not_found, data')
      λ e. if_list e.value (err wrong_type, data') λ l. take_back key e data' l

unfoldable pub normalize_index : ℤ → ℤ → ℤ
unfolding ◌+ℤ◌
normalize_index index size = if ltb_ℤ index (pos 0) then size +ℤ index else index

-- `for (i = first; i <= last; ++i) out.push_back(data[i])`, with the rounds left. An index out of
-- range, which would be undefined, ends the loop.
unfoldable pub read_range : ℕ → ℕ → List Bytes → List Bytes
read_range zero i l = []
read_range (suc rounds) i l = elim (get_elem? l i) [
  | none ↦ []
  | some x ↦ x ∷ read_range rounds (i + 1) l
]

-- The two corrections of the bounds.
unfoldable pub clamp_first : ℤ → ℤ
clamp_first first = if ltb_ℤ first (pos 0) then pos 0 else first

unfoldable pub clamp_last : ℤ → ℤ → ℤ
unfolding ◌-ℤ◌
clamp_last size last = if leb_ℤ size last then size -ℤ pos 1 else last

-- The elements between the corrected bounds.
unfoldable pub read_between : ℤ → ℤ → List Bytes → List Bytes
unfolding read_range
read_between first last l =
    let size = pos (length l) in
    if leb_ℤ size (pos 0) || ltb_ℤ last first || leb_ℤ size first || ltb_ℤ last (pos 0)
    then []
    else read_range (pos_part last - pos_part first + 1) (pos_part first) l

-- What `lrange` does with the list.
unfoldable pub range_of : ℤ → ℤ → List Bytes → List Bytes
unfolding normalize_index clamp_first clamp_last read_between
range_of start stop l =
    let size = pos (length l) in
    read_between (clamp_first (normalize_index start size))
      (clamp_last size (normalize_index stop size)) l

unfoldable pub lrange : ℕ → Bytes → ℤ → ℤ → DataMap → Expected (List Bytes)
unfolding range_of
lrange now key start stop data_ =
    if_end (find_live now key data_) (err key_not_found)
      λ e. if_list e.value (err wrong_type) λ l. ok (range_of start stop l)

unfoldable pub llen : ℕ → Bytes → DataMap → Expected ℤ
llen now key data_ =
    if_end (find_live now key data_) (err key_not_found)
      λ e. if_list e.value (err wrong_type) λ l. ok (pos (length l))

abbrev found_elem : Option Bytes → Expected Bytes
found_elem none = err out_of_range
found_elem (some x) = ok x

-- The element of `lindex` on the list itself.
unfoldable pub elem_of : ℤ → List Bytes → Expected Bytes
unfolding normalize_index
elem_of index l =
    let size = pos (length l) in
    let normalized = normalize_index index size in
    if ltb_ℤ normalized (pos 0) || leb_ℤ size normalized
    then err out_of_range
    else found_elem (get_elem? l (pos_part normalized))

unfoldable pub lindex : ℕ → Bytes → ℤ → DataMap → Expected Bytes
unfolding elem_of
lindex now key index data_ =
    if_end (find_live now key data_) (err key_not_found)
      λ e. if_list e.value (err wrong_type) λ l. elem_of index l
