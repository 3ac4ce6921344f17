-- ===== src/Store/Expiry.antt =====
-- Expiry times: `expire`, `pexpire`, `persist`, `ttl` and `pttl`. Times are `std::uint64_t`.
pub mod Deadline
use redix.Prelude.{
  ℕ, ◌+◌, ◌-◌, ◌*◌, ◌/◌, ◌%◌, ◌^◌, Bool, true, false, ltb, leb, ◌==◌, if◌then◌else◌, Bytes,
}
use redix.Prelude.Int.{ℤ, pos, negsuc, i64_bound}
use redix.FlatMap.{text_order, insert}
use redix.Store.Value.{Entry, DataMap, Clock, if_end}
use redix.Store.Live.{find_live, find_live_mut}

abbrev pub u64_mod : ℕ
u64_mod = 2 ^ 64

-- `it->second.expires_at_ms = t`
abbrev pub write_expiry : Bytes → Entry → ℕ → DataMap → DataMap
write_expiry key e t data_ = insert key (record e { expires_at_ms = t }) data_

-- The clock is read by `find_live_mut` and once more for the sum.
unfoldable pub pexpire : Clock → Bytes → ℕ → DataMap → Bool × DataMap
pexpire clock key ms data_ =
    let (it, data') = find_live_mut (clock 0) key data_ in
    if_end it (false, data') λ e. (true, write_expiry key e ((clock 1 + ms) % u64_mod) data')

unfoldable pub expire : Clock → Bytes → ℕ → DataMap → Bool × DataMap
unfolding pexpire
expire clock key seconds data_ = pexpire clock key ((seconds * 1000) % u64_mod) data_

unfoldable pub persist : ℕ → Bytes → DataMap → Bool × DataMap
persist now key data_ =
    let (it, data') = find_live_mut now key data_ in
    if_end it (false, data')
      λ e. if e.expires_at_ms == 0 then (false, data') else (true, write_expiry key e 0 data')

-- `static_cast<std::int64_t>` of an unsigned number.
abbrev pub to_i64 : ℕ → ℤ
to_i64 n = if ltb n i64_bound then pos n else negsuc (u64_mod - n - 1)

-- The second reading of the clock is the one that the result is counted from.
unfoldable pub pttl : Clock → Bytes → DataMap → ℤ
pttl clock key data_ = if_end (find_live (clock 0) key data_) (negsuc 1) λ e.
    if e.expires_at_ms == 0
    then negsuc 0
    else if leb e.expires_at_ms (clock 1)
    then negsuc 1
    else to_i64 (e.expires_at_ms - clock 1)

-- Seconds, rounded up. (The sum of the source is undefined past `INT64_MAX`.)
abbrev pub round_up : ℤ → ℤ
round_up (pos n) = pos ((n + 999) / 1000)
round_up (negsuc n) = negsuc n

unfoldable pub ttl : Clock → Bytes → DataMap → ℤ
unfolding pttl
ttl clock key data_ = round_up (pttl clock key data_)
