-- ===== src/Store/Live.antt =====
-- `Entry::is_expired`, `find_live` and `find_live_mut`.
use redix.Prelude.{ℕ, Bool, not, ◌&&◌, Option, none, some, leb, ◌==◌, if◌then◌else◌, Bytes}
use redix.FlatMap.{text_order, find, erase}
use redix.Store.Value.{Entry, DataMap}

unfoldable pub is_expired : ℕ → Entry → Bool
is_expired now e = not (e.expires_at_ms == 0) && leb e.expires_at_ms now

abbrev pub unless_expired : ℕ → Option Entry → Option Entry
unless_expired now none = none
unless_expired now (some e) = if is_expired now e then none else some e

-- The entry behind the iterator, `none` for `data.end()`.
unfoldable pub find_live : ℕ → Bytes → DataMap → Option Entry
find_live now key data_ = unless_expired now (find key data_)

abbrev pub drop_expired : ℕ → Bytes → DataMap → Option Entry → Option Entry × DataMap
drop_expired now key data_ none = (none, data_)
drop_expired now key data_ (some e) =
    if is_expired now e then (none, erase key data_) else (some e, data_)

-- An expired entry is erased.
unfoldable pub find_live_mut : ℕ → Bytes → DataMap → Option Entry × DataMap
find_live_mut now key data_ = drop_expired now key data_ (find key data_)
