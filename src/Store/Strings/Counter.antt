-- ===== src/Store/Strings/Counter.antt =====
-- INCR and its relatives: arithmetic on the number that a key's text stands for.
use mathlib.Core.Path.{subst}
use native.Mathlib.Decide.{dec_lt}
use redix.Prelude.{ℕ, ◌≡◌, ◌≤◌, ◌⊎◌, inl, inr, refl, sym, ap, ◌∙◌, Option, none, some, arith, Bytes}
use redix.Prelude.Int.{ℤ, pos, negsuc, IsInt64, i64_bound, ◌+ℤ◌, ◌-ℤ◌}
use redix.Decimal.{to_string, parse_i64}
use redix.FlatMap.{text_order, insert, IsSorted}
use redix.FlatMap.Laws.{same_iff}
use redix.Store.Value.{
  RedisValue, string_value, Entry, DataMap, wrong_type, not_integer, StoreError, Expected, ok, err,
  if_string, if_end,
}
use redix.Store.Live.{is_expired, find_live, find_live_mut, unless_expired}
use redix.Store.View.{
  find_live_mut-IsLive, find_live-insert, find_live_mut-eq-find_live, find_live-find_live_mut,
}
use redix.Store.Strings.{
  get, narrow, checked_add, checked_subtract, apply_delta, write_initial, incrby, decrby,
}

-- The number of a live entry: 0 for a missing key.
abbrev pub number_of : Option ℤ → Expected ℤ
number_of none = err not_integer
number_of (some n) = ok n

abbrev pub counter_value : RedisValue → Expected ℤ
counter_value (string_value s) = number_of (parse_i64 s)
counter_value _ = err wrong_type

abbrev pub counter : Option Entry → Expected ℤ
counter none = ok (pos 0)
counter (some e) = counter_value e.value

abbrev pub then_apply : Expected ℤ → (ℤ → Expected ℤ) → Expected ℤ
then_apply (ok n) f = f n
then_apply (err x) f = err x

narrow-IsInt64 : (z n : ℤ) → narrow z ≡ ok n → IsInt64 n
narrow-IsInt64 z (pos n) h = ground arith
narrow-IsInt64 z (negsuc n) h = ground arith

checked_add-zero : (b : ℤ) → IsInt64 b → checked_add (pos 0) b ≡ ok b
unfolding checked_add
checked_add-zero (pos b) h = ground arith
checked_add-zero (negsuc b) h = ground arith

-- The branches that INCRBY and DECRBY share. `it` is the iterator, and `initial` the number to store
-- if there is no entry.
abbrev branches :
    (ℤ → ℤ → Expected ℤ) → Bytes → ℤ → Expected ℤ → Option Entry → DataMap → Expected ℤ × DataMap
branches op key delta initial it d =
    if_end it (write_initial key d initial)
      λ e. if_string e.value (err wrong_type, d) λ s. apply_delta op key delta e d (parse_i64 s)

-- The entry that holds a number, and the expiry time that a write keeps.
abbrev numeral : ℕ → ℤ → Entry
numeral t n = record { value = string_value (to_string n); expires_at_ms = t }

abbrev expiry_of : Option Entry → ℕ
expiry_of none = 0
expiry_of (some e) = e.expires_at_ms

module _ (op : ℤ → ℤ → Expected ℤ) (key : Bytes) (delta : ℤ) (initial : Expected ℤ) where
  branches-result :
      (it : Option Entry) (d : DataMap)
      → op (pos 0) delta ≡ initial
      → (branches op key delta initial it d).0 ≡ then_apply (counter it) (λ n. op n delta)
  unfolding if_end if_string
  branches-result it d h = ground arith

  branches-refused :
      (it : Option Entry) (d : DataMap) (x : StoreError)
      → (branches op key delta initial it d).0 ≡ err x
      → (branches op key delta initial it d).1 ≡ d
  unfolding if_end if_string
  branches-refused it d x h = ground arith

  branches-written :
      (it : Option Entry) (d : DataMap) (n : ℤ)
      → (branches op key delta initial it d).0 ≡ ok n
      → (branches op key delta initial it d).1 ≡ insert key (numeral (expiry_of it) n) d
  unfolding if_end if_string
  branches-written none d n h = ground arith
  branches-written (some e) d n h = ground arith

-- After the entry is written, GET finds the number in decimal.
get-numeral :
    (now : ℕ) (key : Bytes) (it : Option Entry) (n : ℤ) (d : DataMap)
    → unless_expired now it ≡ it
    → get now key (insert key (numeral (expiry_of it) n) d) ≡ ok (to_string n)
unfolding get if_end if_string is_expired
get-numeral now key none n d live =
    ground (arith, find_live-insert now key key (numeral 0 n) d, (same_iff key key).1 refl)
get-numeral now key (some e) n d live =
    ground
      (arith, find_live-insert now key key (numeral e.expires_at_ms n) d, (same_iff key key).1 refl)

-- What a command on a number does, with `value` its result and `after` the new data: a number is
-- representable and is what GET then returns; an error changes nothing that a client can see.
abbrev pub Outcome : ℕ → Bytes → DataMap → Expected ℤ → DataMap → Type 0
Outcome now key before (ok n) after = IsInt64 n × (get now key after ≡ ok (to_string n))
Outcome now key before (err x) after =
    (t : ℕ) (j : Bytes) → now ≤ t → find_live t j after ≡ find_live t j before

then_apply-inv :
    (r : Expected ℤ) (f : ℤ → Expected ℤ) (n : ℤ) → then_apply r f ≡ ok n → (m : ℤ) × (f m ≡ ok n)
then_apply-inv (ok m) f n h = (m, h)
then_apply-inv (err x) f n h = cc

module _ (op : ℤ → ℤ → Expected ℤ) (in_range : (a b n : ℤ) → op a b ≡ ok n → IsInt64 n) (now : ℕ)
    (key : Bytes) (delta : ℤ) (initial : Expected ℤ) (first : op (pos 0) delta ≡ initial)
    (d : DataMap) (s : IsSorted d) where
  abbrev after : Expected ℤ × DataMap
  after = branches op key delta initial (find_live_mut now key d).0 (find_live_mut now key d).1

  result-eq : after.0 ≡ then_apply (counter (find_live now key d)) (λ n. op n delta)
  result-eq =
      branches-result op key delta initial (find_live_mut now key d).0 (find_live_mut now key d).1
        first
      ∙ ap (λ it. then_apply (counter it) (λ n. op n delta)) (find_live_mut-eq-find_live now key d)

  outcome : (r : Expected ℤ) → after.0 ≡ r → Outcome now key d r after.1
  outcome (ok n) h =
      let (m, e) =
        then_apply-inv (counter (find_live now key d)) (λ m. op m delta) n (sym result-eq ∙ h) in
      (
        in_range m delta n e,
        ap (get now key) (
              branches-written op key delta initial (find_live_mut now key d).0
                (find_live_mut now key d).1 n h)
            ∙ get-numeral now key (find_live_mut now key d).0 n (find_live_mut now key d).1
                (find_live_mut-IsLive now key d),
      )
  outcome (err x) h = λ t j le.
      ap (find_live t j) (
        branches-refused op key delta initial (find_live_mut now key d).0
          (find_live_mut now key d).1 x h)
      ∙ find_live-find_live_mut now t j key d s le

  branches_lem :
      (after.0 ≡ then_apply (counter (find_live now key d)) (λ n. op n delta))
      × Outcome now key d after.0 after.1
  branches_lem = (result-eq, outcome after.0 refl)

-- `r` is the sum of a number and `delta` where an `int64_t` holds it, and `not_integer` where it does
-- not; an error in place of the number is passed on.
abbrev pub IsSum : Expected ℤ → ℤ → Expected ℤ → Type 0
IsSum (err x) delta r = r ≡ err x
IsSum (ok n) delta r =
    (IsInt64 (n +ℤ delta) × (r ≡ ok (n +ℤ delta)))
    ⊎ ((¬ IsInt64 (n +ℤ delta)) × (r ≡ err not_integer))

-- The same for the difference.
abbrev pub IsDifference : Expected ℤ → ℤ → Expected ℤ → Type 0
IsDifference (err x) delta r = r ≡ err x
IsDifference (ok n) delta r =
    (IsInt64 (n -ℤ delta) × (r ≡ ok (n -ℤ delta)))
    ⊎ ((¬ IsInt64 (n -ℤ delta)) × (r ≡ err not_integer))

narrow_cases :
    (z : ℤ) → (IsInt64 z × (narrow z ≡ ok z)) ⊎ ((¬ IsInt64 z) × (narrow z ≡ err not_integer))
narrow_cases (pos n) = elim (dec_lt n i64_bound) [
  | yes lt ↦ inl (lt, ground arith)
  | no ge ↦ inr (ge, ground arith)
]
narrow_cases (negsuc n) = elim (dec_lt n i64_bound) [
  | yes lt ↦ inl (lt, ground arith)
  | no ge ↦ inr (ge, ground arith)
]

then_apply-IsSum :
    (r : Expected ℤ) (delta : ℤ) → IsSum r delta (then_apply r (λ n. checked_add n delta))
unfolding checked_add
then_apply-IsSum (ok n) delta = narrow_cases (n +ℤ delta)
then_apply-IsSum (err x) delta = refl

then_apply-IsDifference :
    (r : Expected ℤ) (delta : ℤ)
    → IsDifference r delta (then_apply r (λ n. checked_subtract n delta))
unfolding checked_subtract
then_apply-IsDifference (ok n) delta = narrow_cases (n -ℤ delta)
then_apply-IsDifference (err x) delta = refl

checked_add-IsInt64 : (a b n : ℤ) → checked_add a b ≡ ok n → IsInt64 n
unfolding checked_add
checked_add-IsInt64 a b n h = narrow-IsInt64 (a +ℤ b) n h

checked_subtract-IsInt64 : (a b n : ℤ) → checked_subtract a b ≡ ok n → IsInt64 n
unfolding checked_subtract
checked_subtract-IsInt64 a b n h = narrow-IsInt64 (a -ℤ b) n h

-- INCRBY by a representable number, on a sorted keyspace. Its result is the sum of the number that
-- the live text of the key stands for (0 without an entry) and that number where an `int64_t` holds
-- the sum, and the error `not_integer` where it does not; or the error of a text that is no number,
-- or of another type. Then: a number that was returned is
-- representable and is what GET returns; after an error no client sees a change, then or later.
pub incrby_lem :
    (now : ℕ) (key : Bytes) (delta : ℤ) (d : DataMap)
    → IsInt64 delta
    → IsSorted d
    → IsSum (counter (find_live now key d)) delta (incrby now key delta d).0
      × Outcome now key d (incrby now key delta d).0 (incrby now key delta d).1
unfolding incrby
incrby_lem now key delta d h s =
    let (result, outcome) =
      branches_lem checked_add checked_add-IsInt64 now key delta (ok delta)
        (checked_add-zero delta h) d s in
    (
      subst (IsSum (counter (find_live now key d)) delta) (sym result)
          (then_apply-IsSum (counter (find_live now key d)) delta),
      outcome,
    )

-- DECRBY on a sorted keyspace. Its result is the number that the live text of the key stands for (0
-- without an entry) minus the number where an `int64_t` holds the difference, and the error
-- `not_integer` where it does not; or the error of a text that is no number, or of another type. Then: a number that was returned is representable and is what GET
-- returns; after an error no client sees a change, then or later.
pub decrby_lem :
    (now : ℕ) (key : Bytes) (delta : ℤ) (d : DataMap)
    → IsSorted d
    → IsDifference (counter (find_live now key d)) delta (decrby now key delta d).0
      × Outcome now key d (decrby now key delta d).0 (decrby now key delta d).1
unfolding decrby
decrby_lem now key delta d s =
    let (result, outcome) =
      branches_lem checked_subtract checked_subtract-IsInt64 now key delta
        (checked_subtract (pos 0) delta) refl d s in
    (
      subst (IsDifference (counter (find_live now key d)) delta) (sym result)
          (then_apply-IsDifference (counter (find_live now key d)) delta),
      outcome,
    )
