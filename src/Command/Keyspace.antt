-- ===== src/Command/Keyspace.antt =====
-- The handlers of the commands on the keyspace and on the connection.
use redix.Prelude.{[], ◌∷◌, if◌then◌else◌, codes}
use redix.Prelude.Int.{pos}
use redix.Resp.Encoder.{resp_ok, resp_error, resp_integer, resp_bulk}
use redix.Store.Keyspace
use redix.Command.Reply.{Handler, wrong_arity, simple_string, string_array}

unfoldable pub handle_ping : Handler
unfolding simple_string resp_bulk wrong_arity
handle_ping clock [] data_ = (simple_string (codes "PONG"), data_)
handle_ping clock (text ∷ []) data_ = (resp_bulk text, data_)
handle_ping clock _ data_ = (wrong_arity, data_)

unfoldable pub handle_echo : Handler
unfolding resp_bulk wrong_arity
handle_echo clock (text ∷ []) data_ = (resp_bulk text, data_)
handle_echo clock _ data_ = (wrong_arity, data_)

unfoldable pub handle_dbsize : Handler
unfolding resp_integer wrong_arity
handle_dbsize clock [] data_ = (resp_integer (pos (Keyspace.dbsize clock data_)), data_)
handle_dbsize clock (a ∷ args) data_ = (wrong_arity, data_)

unfoldable pub handle_flushdb : Handler
unfolding resp_ok wrong_arity
handle_flushdb clock [] data_ = (resp_ok, Keyspace.flushdb data_)
handle_flushdb clock (a ∷ args) data_ = (wrong_arity, data_)

unfoldable pub handle_keys : Handler
unfolding string_array wrong_arity
handle_keys clock (pattern' ∷ []) data_ = (string_array (Keyspace.keys clock pattern' data_), data_)
handle_keys clock _ data_ = (wrong_arity, data_)

unfoldable pub handle_type : Handler
unfolding simple_string wrong_arity
handle_type clock (key ∷ []) data_ = (simple_string (Keyspace.type (clock 0) key data_), data_)
handle_type clock _ data_ = (wrong_arity, data_)

unfoldable pub handle_rename : Handler
unfolding resp_ok resp_error wrong_arity
handle_rename clock (src ∷ dst ∷ []) data_ =
    let (done, data') = Keyspace.rename (clock 0) src dst data_ in
    (if done then resp_ok else resp_error (codes "ERR no such key"), data')
handle_rename clock _ data_ = (wrong_arity, data_)
