-- ===== src/Resp/Parser.antt =====
-- `parse_at` and `RespParser`. A buffer and a position in it are the bytes from that position on, so
-- an index is counted from there. `max_elems` is the most elements for which `values.reserve`
-- succeeds, a parameter: it belongs to the allocator and the library.
pub mod Total
pub mod Prefix
pub mod Stream
use mathlib.Core.Option
use redix.Prelude.{
  ℕ, zero, suc, ◌+◌, Bool, true, false, ◌&&◌, Option, none, some, [], ◌∷◌, ◌++◌, ltb, ◌==◌,
  if◌then◌else◌, length, take, drop, Bytes,
}
use redix.Prelude.Int.{ℤ, pos, negsuc}
use redix.Decimal.{parse_i64}
use redix.Resp.Value.{
  RespValue, Array, null, string, integer, error_message, array, no_elems, elem, Parsed,
  ParseResult, complete, incomplete, error, length_error, out_of_fuel, bind,
}

unfoldable pub find_crlf : Bytes → Option ℕ
find_crlf [] = none
find_crlf (a ∷ []) = none
find_crlf (a ∷ b ∷ s) =
    if a == b'\r' && b == b'\n' then some 0 else Option.map suc (find_crlf (b ∷ s))

abbrev pub on_line : Option ℕ → Bytes → (ℕ → Bytes → ParseResult) → ParseResult
on_line none payload k = incomplete
on_line (some line_end) payload k = k line_end (take line_end payload)

-- `line_end` and the line, which starts behind the type byte; none yet is `Incomplete`.
unfoldable pub with_line : Bytes → (ℕ → Bytes → ParseResult) → ParseResult
with_line payload k = on_line (find_crlf payload) payload k

unfoldable pub parse_simple : Bytes → ParseResult
parse_simple payload = with_line payload λ line_end line. complete (string line) (line_end + 3)

unfoldable pub parse_error : Bytes → ParseResult
parse_error payload =
    with_line payload λ line_end line. complete (error_message line) (line_end + 3)

abbrev pub integer_of : ℕ → Option ℤ → ParseResult
integer_of line_end none = error
integer_of line_end (some n) = complete (integer n) (line_end + 3)

unfoldable pub parse_integer : Bytes → ParseResult
parse_integer payload = with_line payload λ line_end line. integer_of line_end (parse_i64 line)

-- The length in the header of a bulk string or an array: -1 stands for null, and anything below or
-- not a number is an error.
pub data Header : Type 0 where
  invalid absent : Header
  sized : ℕ → Header

abbrev pub header : Option ℤ → Header
header none = invalid
header (some (pos n)) = sized n
header (some (negsuc zero)) = absent
header (some (negsuc (suc n))) = invalid

abbrev pub starts_crlf : Bytes → Bool
starts_crlf (a ∷ b ∷ s) = a == b'\r' && b == b'\n'
starts_crlf _ = false

-- `bulk` holds the bytes from `data_start` on.
unfoldable pub parse_bulk_data : ℕ → ℕ → Bytes → ParseResult
parse_bulk_data line_end bulk_len bulk =
    if ltb (length bulk) (bulk_len + 2)
    then incomplete
    else if starts_crlf (drop bulk_len bulk)
    then complete (string (take bulk_len bulk)) (line_end + 3 + bulk_len + 2)
    else error

abbrev pub bulk_of : ℕ → Bytes → Header → ParseResult
bulk_of line_end payload invalid = error
bulk_of line_end payload absent = complete null (line_end + 3)
bulk_of line_end payload (sized bulk_len) =
    parse_bulk_data line_end bulk_len (drop (line_end + 2) payload)

unfoldable pub parse_bulk : Bytes → ParseResult
parse_bulk payload =
    with_line payload λ line_end line. bulk_of line_end payload (header (parse_i64 line))

-- `elems` is the loop over the elements.
abbrev pub array_of : ℕ → (ℕ → Bytes → Parsed Array) → ℕ → Bytes → Header → ParseResult
array_of max_elems elems line_end payload invalid = error
array_of max_elems elems line_end payload absent = complete null (line_end + 3)
array_of max_elems elems line_end payload (sized len) =
    if ltb max_elems len
    then length_error
    else bind (elems len (drop (line_end + 2) payload))
        λ values used. complete (array values) (line_end + 3 + used)

unfoldable pub parse_array : ℕ → (ℕ → Bytes → Parsed Array) → Bytes → ParseResult
parse_array max_elems elems payload =
    with_line payload
      λ line_end line. array_of max_elems elems line_end payload (header (parse_i64 line))

-- The cases of the `switch`.
pub data Kind : Type 0 where
  simple_kind error_kind integer_kind bulk_kind array_kind other_kind : Kind

abbrev pub kind : ℕ → Kind
kind type =
    if type == b'+'
    then simple_kind
    else if type == b'-'
    then error_kind
    else if type == b':'
    then integer_kind
    else if type == b'$'
    then bulk_kind
    else if type == b'*'
    then array_kind
    else other_kind

unfoldable pub parse_kind : ℕ → (ℕ → Bytes → Parsed Array) → Kind → Bytes → ParseResult
parse_kind max_elems elems simple_kind payload = parse_simple payload
parse_kind max_elems elems error_kind payload = parse_error payload
parse_kind max_elems elems integer_kind payload = parse_integer payload
parse_kind max_elems elems bulk_kind payload = parse_bulk payload
parse_kind max_elems elems array_kind payload = parse_array max_elems elems payload
parse_kind max_elems elems other_kind payload = error

unfoldable mutual
  pub parse_at : ℕ → ℕ → Bytes → ParseResult
  parse_at max_elems zero s = out_of_fuel
  parse_at max_elems (suc f) [] = incomplete
  parse_at max_elems (suc f) (type ∷ payload) =
      parse_kind max_elems (parse_elems max_elems f) (kind type) payload

  -- `for (i = 0; i < len; ++i)`, with the elements left to read and the bytes from `cursor` on.
  pub parse_elems : ℕ → ℕ → ℕ → Bytes → Parsed Array
  parse_elems max_elems zero n s = out_of_fuel
  parse_elems max_elems (suc f) zero s = complete no_elems 0
  parse_elems max_elems (suc f) (suc n) s = bind (parse_at max_elems f s) λ child consumed.
      bind (parse_elems max_elems f n (drop consumed s))
        λ values used. complete (elem child values) (consumed + used)

-- `RespParser`: its buffer.
unfoldable pub feed : Bytes → Bytes → Bytes
feed buf bytes = buf ++ bytes

-- What `erase` leaves of the buffer.
abbrev pub remaining : Bytes → ParseResult → Bytes
remaining buf (complete v n) = drop n buf
remaining buf _ = buf

-- One more unit of fuel than there are bytes is enough.
unfoldable pub try_parse : ℕ → Bytes → ParseResult × Bytes
try_parse max_elems buf =
    let result = parse_at max_elems (suc (length buf)) buf in (result, remaining buf result)

unfoldable pub reset : Bytes → Bytes
reset buf = []
