-- ===== src/Store/Keyspace.antt =====
-- The operations on the keyspace as a whole.
pub mod Clients
use redix.Prelude.{ℕ, zero, suc, ◌+◌, Bool, true, false, List, [], ◌∷◌, if◌then◌else◌, Bytes, codes}
use redix.FlatMap.{text_order, insert, erase}
use redix.Store.Value.{
  RedisValue, string_value, list_value, hash_value, set_value, DataMap, Clock, later, if_end,
}
use redix.Store.Live.{is_expired, find_live, find_live_mut}
use redix.Store.Glob.{glob_match}

unfoldable pub dbsize : Clock → DataMap → ℕ
dbsize clock [] = 0
dbsize clock ((key, e) ∷ data_) =
    (if is_expired (clock 0) e then 0 else 1) + dbsize (later clock) data_

unfoldable pub flushdb : DataMap → DataMap
flushdb data_ = []

unfoldable pub keys : Clock → Bytes → DataMap → List Bytes
unfolding glob_match
keys clock pattern [] = []
keys clock pattern ((key, e) ∷ data_) =
    let rest = keys (later clock) pattern data_ in
    if is_expired (clock 0) e then rest else if glob_match pattern key then key ∷ rest else rest

abbrev pub redis_type_name : RedisValue → Bytes
redis_type_name (string_value _) = codes "string"
redis_type_name (list_value _) = codes "list"
redis_type_name (hash_value _) = codes "hash"
redis_type_name (set_value _) = codes "set"

unfoldable pub type : ℕ → Bytes → DataMap → Bytes
type now key data_ = if_end (find_live now key data_) (codes "none") λ e. redis_type_name e.value

unfoldable pub rename : ℕ → Bytes → Bytes → DataMap → Bool × DataMap
rename now src dst data_ =
    let (it, data') = find_live_mut now src data_ in
    if_end it (false, data') λ entry. (true, insert dst entry (erase src data'))

-- The loop of `sweep_expired`, with the visits left.
unfoldable pub sweep : ℕ → Clock → DataMap → DataMap
sweep zero clock data_ = data_
sweep (suc visits) clock [] = []
sweep (suc visits) clock ((key, e) ∷ data_) =
    let rest = sweep visits (later clock) data_ in
    if is_expired (clock 0) e then rest else (key, e) ∷ rest

unfoldable pub sweep_expired : Clock → DataMap → DataMap
unfolding sweep
sweep_expired = sweep 20
