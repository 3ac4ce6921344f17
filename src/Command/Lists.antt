-- ===== src/Command/Lists.antt =====
-- The handlers of the commands on lists.
use redix.Prelude.{Option, none, some, [], ◌∷◌, ◌||◌, if◌then◌else◌, Bytes}
use redix.Prelude.Int.{ℤ}
use redix.Decimal.{parse_i64}
use redix.Resp.Encoder.{resp_null_bulk, resp_bulk}
use redix.Store.Value.{DataMap, Clock, Expected, ok, err}
use redix.Store.Lists
use redix.Command.Reply.{
  Handler, wrong_arity, integer_error, store_error, is_key_not_found, is_out_of_range, bulk_reply,
  array_reply, count_reply, signed_reply,
}

unfoldable pub handle_lpush : Handler
unfolding signed_reply wrong_arity
handle_lpush clock (key ∷ value ∷ values) data_ =
    let (len, data') = Lists.lpush (clock 0) key (value ∷ values) data_ in (signed_reply len, data')
handle_lpush clock _ data_ = (wrong_arity, data_)

unfoldable pub handle_rpush : Handler
unfolding signed_reply wrong_arity
handle_rpush clock (key ∷ value ∷ values) data_ =
    let (len, data') = Lists.rpush (clock 0) key (value ∷ values) data_ in (signed_reply len, data')
handle_rpush clock _ data_ = (wrong_arity, data_)

unfoldable pub handle_lpop : Handler
unfolding bulk_reply wrong_arity
handle_lpop clock (key ∷ []) data_ =
    let (value, data') = Lists.lpop (clock 0) key data_ in (bulk_reply value, data')
handle_lpop clock _ data_ = (wrong_arity, data_)

unfoldable pub handle_rpop : Handler
unfolding bulk_reply wrong_arity
handle_rpop clock (key ∷ []) data_ =
    let (value, data') = Lists.rpop (clock 0) key data_ in (bulk_reply value, data')
handle_rpop clock _ data_ = (wrong_arity, data_)

abbrev lrange_with : Clock → Bytes → DataMap → Option ℤ → Option ℤ → Bytes
lrange_with clock key data_ (some start) (some stop) =
    array_reply (Lists.lrange (clock 0) key start stop data_)
lrange_with clock key data_ _ _ = integer_error

unfoldable pub handle_lrange : Handler
unfolding array_reply integer_error wrong_arity
handle_lrange clock (key ∷ start ∷ stop ∷ []) data_ =
    (lrange_with clock key data_ (parse_i64 start) (parse_i64 stop), data_)
handle_lrange clock _ data_ = (wrong_arity, data_)

unfoldable pub handle_llen : Handler
unfolding count_reply wrong_arity
handle_llen clock (key ∷ []) data_ = (count_reply (Lists.llen (clock 0) key data_), data_)
handle_llen clock _ data_ = (wrong_arity, data_)

abbrev elem_reply : Expected Bytes → Bytes
elem_reply (ok s) = resp_bulk s
elem_reply (err error) =
    if is_key_not_found error || is_out_of_range error then resp_null_bulk else store_error error

abbrev lindex_with : Clock → Bytes → DataMap → Option ℤ → Bytes
lindex_with clock key data_ none = integer_error
lindex_with clock key data_ (some index) = elem_reply (Lists.lindex (clock 0) key index data_)

unfoldable pub handle_lindex : Handler
unfolding resp_bulk resp_null_bulk store_error integer_error wrong_arity
handle_lindex clock (key ∷ text ∷ []) data_ = (lindex_with clock key data_ (parse_i64 text), data_)
handle_lindex clock _ data_ = (wrong_arity, data_)
