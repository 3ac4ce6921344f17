-- ===== src/Command/Parse.antt =====
-- `uppercase`, `Command` and `parse_command`.
pub mod Request
use redix.Prelude.{ℕ, ◌-◌, ◌&&◌, List, [], ◌∷◌, map, leb, if◌then◌else◌, Bytes, codes}
use redix.Resp.Value.{RespValue, Array, string, array, no_elems, elem}
use redix.Resp.Encoder.{resp_error}

-- `std::toupper` in the C locale.
unfoldable pub to_upper : ℕ → ℕ
to_upper c = if leb b'a' c && leb c b'z' then c - 32 else c

unfoldable pub uppercase : Bytes → Bytes
unfolding to_upper
uppercase s = map to_upper s

pub record Command : Type 0 where
  pub name : Bytes
  pub args : List Bytes

-- `std::expected<Command, std::vector<std::byte>>`: an error is the reply to send.
pub data CommandResult : Type 0 where
  command : Command → CommandResult
  rejected : Bytes → CommandResult

unfoldable pub expected_bulk : Bytes
unfolding resp_error
expected_bulk = resp_error (codes "ERR Protocol error: expected bulk string")

-- The elements behind the first: each must be a bulk string.
pub data Args : Type 0 where
  args : List Bytes → Args
  not_bulk : Args

abbrev pub prepend : Bytes → Args → Args
prepend s (args rest) = args (s ∷ rest)
prepend s not_bulk = not_bulk

unfoldable pub collect_args : Array → Args
collect_args no_elems = args []
collect_args (elem (string s) vs) = prepend s (collect_args vs)
collect_args (elem _ vs) = not_bulk

unfoldable pub finish : Bytes → Args → CommandResult
unfolding expected_bulk resp_error
finish name not_bulk = rejected expected_bulk
finish [] (args rest) = rejected (resp_error (codes "ERR Protocol error: empty command"))
finish (c ∷ name) (args rest) = command (record { name = c ∷ name; args = rest })

unfoldable pub parse_command : RespValue → CommandResult
unfolding collect_args finish uppercase expected_bulk resp_error
parse_command (array no_elems) =
    rejected (resp_error (codes "ERR Protocol error: expected command"))
parse_command (array (elem (string text) vs)) = finish (uppercase text) (collect_args vs)
parse_command (array (elem _ vs)) = rejected expected_bulk
parse_command _ = rejected (resp_error (codes "ERR Protocol error: expected array"))
