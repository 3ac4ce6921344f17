-- ===== src/Tests.antt =====
-- Concrete runs of the theorems, and tests of the definitions.
mod Connections
mod Servers
mod Stores
use redix.Prelude.{
  ◌≡◌, ◌≢◌, refl, ◌↔◌, false, [], ◌∷◌, ◌++◌, arith, Bytes, codes, length, same_text, text_less,
}
use redix.Prelude.Int.{pos}
use redix.Decimal.{parse_i64}
use redix.FlatMap.{IsSorted, text_order}
use redix.Resp.Value.{RespValue, string, integer, incomplete, array, no_elems, elem, complete}
use redix.Resp.Encoder.{resp_encode}
use redix.Resp.Parser.{try_parse, feed, parse_at, parse_kind, parse_integer, with_line, find_crlf}
use redix.Resp.Parser.Stream.{Outcome, try_parse_total, try_parse-feed}
use redix.Resp.RoundTrip.{IsEncodable, try_parse-resp_encode}
use redix.Store.Value.{Entry, fresh, DataMap, Clock, string_value, list_value}
use redix.Store.Live.{find_live}
use redix.Store.Invariant.{IsValid}
use redix.Store.Strings.Counter
use redix.Store.Keyspace.Clients
use redix.Command.Dispatch.Tables.{several_keys}
use redix.Command.Parse.{Command, command, parse_command}
use redix.Command.Parse.Request.{parse_command_iff, request, IsRequest}
use redix.Command.Dispatch.{dispatch, is_write_command, write_commands, contains}
use redix.Command.Dispatch.Invariant.{dispatch-IsValid, dispatch-ReadOnly, dispatch-frame}

-- Two keys: a list that does not expire, and a number that expires at 50.
abbrev list_entry : Entry
list_entry = fresh (list_value (codes "x" ∷ codes "y" ∷ []))

abbrev number_entry : Entry
number_entry = record { value = string_value (codes "41"); expires_at_ms = 50 }

abbrev keyspace : DataMap
keyspace = (codes "l", list_entry) ∷ (codes "n", number_entry) ∷ []

abbrev noon : Clock
noon i = 12

keyspace-IsSorted : IsSorted keyspace
unfolding text_less
keyspace-IsSorted = ((refl, tt), (tt, tt))

keyspace-IsValid : IsValid keyspace
keyspace-IsValid = (keyspace-IsSorted, (tt, (tt, tt)))

abbrev lpop_l : Command
lpop_l = record { name = codes "LPOP"; args = codes "l" ∷ [] }

abbrev get_n : Command
get_n = record { name = codes "GET"; args = codes "n" ∷ [] }

dispatch-IsValid_example : IsValid (dispatch noon lpop_l keyspace).1
dispatch-IsValid_example = dispatch-IsValid noon lpop_l keyspace keyspace-IsValid

get_n-reads : is_write_command get_n ≡ false
unfolding is_write_command write_commands contains same_text
get_n-reads = refl

dispatch-ReadOnly_example : (dispatch noon get_n keyspace).1 ≡ keyspace
dispatch-ReadOnly_example = dispatch-ReadOnly noon get_n keyspace get_n-reads

abbrev lpush_l : Bytes → Command
lpush_l v = record { name = codes "LPUSH"; args = codes "l" ∷ v ∷ [] }

lpush-IsLocal : contains (codes "LPUSH") several_keys ≡ false
unfolding contains same_text
lpush-IsLocal = refl

l≢n : codes "l" ≢ codes "n"
l≢n = λ e. ground arith

dispatch-frame_example :
    find_live 20 (codes "n") (dispatch noon (lpush_l (codes "z")) keyspace).1
    ≡ find_live 20 (codes "n") keyspace
dispatch-frame_example =
    dispatch-frame noon (codes "LPUSH") (codes "l") (codes "z" ∷ []) keyspace (codes "n") 20
      keyspace-IsValid lpush-IsLocal l≢n

-- A request of two bulk strings, and a null and an integer behind an error line.
abbrev get_request : RespValue
get_request = array (elem (string (codes "GET")) (elem (string (codes "n")) no_elems))

get_request-IsEncodable : IsEncodable 4 get_request
unfolding IsEncodable
get_request-IsEncodable = (omega arith, omega arith, (omega arith, (omega arith, tt)))

try_parse-resp_encode_example :
    try_parse 4 (resp_encode get_request ++ codes "*1")
    ≡ (complete get_request (length (resp_encode get_request)), codes "*1")
try_parse-resp_encode_example =
    try_parse-resp_encode 4 get_request (codes "*1") get_request-IsEncodable

seven-IsRead : (try_parse 4 (codes ":7\r\n")).0 ≡ complete (integer (pos 7)) 4
unfolding try_parse parse_at parse_kind parse_integer with_line find_crlf parse_i64
seven-IsRead = refl

seven-answered : (try_parse 4 (codes ":7\r\n")).0 ≢ incomplete
seven-answered = λ e. absurd (cc seven-IsRead)

try_parse-feed_example :
    try_parse 4 (feed (codes ":7\r\n") (codes "+OK"))
    ≡ ((try_parse 4 (codes ":7\r\n")).0, (try_parse 4 (codes ":7\r\n")).1 ++ codes "+OK")
try_parse-feed_example = try_parse-feed 4 (codes ":7\r\n") (codes "+OK") seven-answered

try_parse_total_example : Outcome (codes "$-1\r\n:") (try_parse 4 (codes "$-1\r\n:"))
try_parse_total_example = try_parse_total 4 (codes "$-1\r\n:")

parse_command_iff_example :
    (parse_command (request (codes "get") (codes "n" ∷ [])) ≡ command get_n)
    ↔ IsRequest (request (codes "get") (codes "n" ∷ [])) get_n
parse_command_iff_example = parse_command_iff (request (codes "get") (codes "n" ∷ [])) get_n
