-- ===== src/Command/Strings/Options.antt =====
-- SET with its options, as a client sees it.
use redix.Prelude.{
  ℕ, ◌≡◌, refl, Bool, true, false, not, ◌&&◌, ◌||◌, Option, none, some, List, [], ◌∷◌,
  if◌then◌else◌, arith, Bytes,
}
use redix.Prelude.Int.{ltb_ℤ, pos}
use redix.FlatMap.{text_order}
use redix.FlatMap.Laws.{same}
use redix.Resp.Encoder.{resp_ok, resp_null_bulk}
use redix.Store.Value.{Entry, DataMap, Clock, string_value, if_end}
use redix.Store.Live.{find_live, unless_expired}
use redix.Store.View.{find_live-insert}
use redix.Store.Strings
use redix.Command.Strings.{
  SetOptions, OptionsResult, options, refused, set_options, set_with, handle_set,
}

abbrev pub is_live : Option Entry → Bool
is_live none = false
is_live (some e) = true

-- Whether the options let the value be written, for a key that has a live entry or not.
abbrev pub is_allowed : SetOptions → Bool → Bool
is_allowed o true = not o.nx
is_allowed o false = not o.xx

abbrev pub no_options : SetOptions
no_options = record { expires_at = 0; nx = false; xx = false }

-- What SET does, from what the options come to.
abbrev pub IsAssignment : Bytes → Bytes → DataMap → OptionsResult → Bytes × DataMap → Type 0
IsAssignment key value d (refused reply) result = result ≡ (reply, d)
IsAssignment key value d (options o left) result =
    let written = is_allowed o (is_live (find_live (left 0) key d)) in
    (result.0 ≡ (if written then resp_ok else resp_null_bulk))
    × ((t : ℕ) (j : Bytes)
        → find_live t j result.1 ≡ (
            if written && same key j
            then unless_expired t
                (some (record { value = string_value value; expires_at_ms = o.expires_at }))
            else find_live t j d))

exists-is_live :
    (clock : Clock) (key : Bytes) (d : DataMap)
    → ltb_ℤ (pos 0) (Strings.exists clock (key ∷ []) d) ≡ is_live (find_live (clock 0) key d)
unfolding Strings.exists Strings.count_live if_end
exists-is_live clock key d = ground arith

is_allowed-tests : (o : SetOptions) (b : Bool) → not (o.nx && b || o.xx && not b) ≡ is_allowed o b
is_allowed-tests o true = ground arith
is_allowed-tests o false = ground arith

set_with-IsAssignment :
    (key value : Bytes) (d : DataMap) (r : OptionsResult)
    → IsAssignment key value d r (set_with key value d r)
unfolding set_with Strings.set
set_with-IsAssignment key value d (refused reply) = refl
set_with-IsAssignment key value d (options o left) =
    let b = is_live (find_live (left 0) key d) in
    let e : Entry = record { value = string_value value; expires_at_ms = o.expires_at } in
    rw (exists-is_live left key d) (
      ground (arith, is_allowed-tests o b),
      λ t j. ground (arith, is_allowed-tests o b, find_live-insert t j key e d),
    )

-- SET with a key and a value: when its options come to a reply, that is the reply, and nothing is
-- written. Otherwise the value is written, with the expiry of the options and OK as the reply, unless
-- NX is given and the key has a live entry, or XX and it has none: then the reply is a null. What a
-- client finds at any time under any key is what was written, under its key, until it expires, and
-- what was there under every other key, and under all keys where nothing is written.
pub handle_set_lem :
    (clock : Clock) (key value : Bytes) (rest : List Bytes) (d : DataMap)
    → IsAssignment key value d
        (set_options clock rest no_options)
        (handle_set clock (key ∷ value ∷ rest) d)
unfolding handle_set
handle_set_lem clock key value rest d =
    set_with-IsAssignment key value d (set_options clock rest no_options)
