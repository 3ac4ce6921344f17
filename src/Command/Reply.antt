-- ===== src/Command/Reply.antt =====
-- Replies, as the handlers write them.
use redix.Prelude.{
  Bool, true, false, Option, none, some, List, [], ◌∷◌, ◌++◌, map, if◌then◌else◌, Bytes, codes,
}
use redix.Prelude.Int.{ℤ, pos, ltb_ℤ}
use redix.Resp.Value.{RespValue, null, string, to_array}
use redix.Resp.Encoder.{crlf, resp_error, resp_integer, resp_bulk, resp_null_bulk, resp_array}
use redix.Store.Value.{
  kind_key_not_found, kind_out_of_range, StoreError, DataMap, Expected, ok, err, Clock, wrong_type,
}

-- A handler is given `cmd.args` (none of them reads the name or the context), and the readings of
-- the clock during the call. It returns the reply and the new data.
abbrev pub Handler : Type 0
Handler = Clock → List Bytes → DataMap → Bytes × DataMap

unfoldable pub wrong_arity : Bytes
unfolding resp_error
wrong_arity = resp_error (codes "wrong number of arguments")

unfoldable pub syntax_error : Bytes
unfolding resp_error
syntax_error = resp_error (codes "ERR syntax error")

unfoldable pub integer_error : Bytes
unfolding resp_error
integer_error = resp_error (codes "ERR value is not an integer or out of range")

unfoldable pub simple_string : Bytes → Bytes
simple_string value = b'+' ∷ (value ++ crlf)

unfoldable pub store_error : StoreError → Bytes
unfolding resp_error
store_error error = resp_error error.message

unfoldable pub wrong_type_error : Bytes
unfolding resp_error
wrong_type_error = resp_error wrong_type.message

unfoldable pub string_array : List Bytes → Bytes
unfolding resp_array
string_array values = resp_array (to_array (map string values))

abbrev optional_elem : Option Bytes → RespValue
optional_elem none = null
optional_elem (some s) = string s

unfoldable pub optional_string_array : List (Option Bytes) → Bytes
unfolding resp_array
optional_string_array values = resp_array (to_array (map optional_elem values))

abbrev pub is_key_not_found : StoreError → Bool
is_key_not_found error = elim error.kind [ kind_key_not_found ↦ true | _ ↦ false ]

abbrev pub is_out_of_range : StoreError → Bool
is_out_of_range error = elim error.kind [ kind_out_of_range ↦ true | _ ↦ false ]

-- `n ? resp_integer(*n) : store_error(n.error())`
unfoldable pub integer_reply : Expected ℤ → Bytes
unfolding resp_integer store_error
integer_reply (ok n) = resp_integer n
integer_reply (err error) = store_error error

-- A missing key is a null bulk string.
unfoldable pub bulk_reply : Expected Bytes → Bytes
unfolding resp_bulk resp_null_bulk store_error
bulk_reply (ok s) = resp_bulk s
bulk_reply (err error) = if is_key_not_found error then resp_null_bulk else store_error error

-- A missing key is an empty array.
unfoldable pub array_reply : Expected (List Bytes) → Bytes
unfolding string_array store_error
array_reply (ok values) = string_array values
array_reply (err error) = if is_key_not_found error then string_array [] else store_error error

-- A missing key counts as 0.
unfoldable pub count_reply : Expected ℤ → Bytes
unfolding resp_integer store_error
count_reply (ok n) = resp_integer n
count_reply (err error) = if is_key_not_found error then resp_integer (pos 0) else store_error error

abbrev pub flag : Bool → ℤ
flag true = pos 1
flag false = pos 0

unfoldable pub flag_reply : Expected Bool → Bytes
unfolding resp_integer store_error
flag_reply (ok b) = resp_integer (flag b)
flag_reply (err error) = if is_key_not_found error then resp_integer (pos 0) else store_error error

-- A negative count stands for a key of the wrong type.
unfoldable pub signed_reply : ℤ → Bytes
unfolding resp_integer wrong_type_error
signed_reply n = if ltb_ℤ n (pos 0) then wrong_type_error else resp_integer n
