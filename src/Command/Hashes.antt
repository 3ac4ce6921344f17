-- ===== src/Command/Hashes.antt =====
-- The handlers of the commands on hashes.
use redix.Prelude.{Option, none, some, List, [], ◌∷◌, Bytes}
use redix.Store.Value.{DataMap, Clock}
use redix.Store.Hashes
use redix.Command.Strings.{pairs_of}
use redix.Command.Reply.{
  Handler, wrong_arity, bulk_reply, array_reply, count_reply, flag_reply, signed_reply,
}

abbrev pub hset_with : Clock → Bytes → DataMap → Option (List (Bytes × Bytes)) → Bytes × DataMap
hset_with clock key data_ none = (wrong_arity, data_)
hset_with clock key data_ (some pairs) =
    let (added, data') = Hashes.hset (clock 0) key pairs data_ in (signed_reply added, data')

unfoldable pub handle_hset : Handler
unfolding pairs_of signed_reply wrong_arity
handle_hset clock (key ∷ field ∷ rest) data_ = hset_with clock key data_ (pairs_of (field ∷ rest))
handle_hset clock _ data_ = (wrong_arity, data_)

unfoldable pub handle_hget : Handler
unfolding bulk_reply wrong_arity
handle_hget clock (key ∷ field ∷ []) data_ =
    (bulk_reply (Hashes.hget (clock 0) key field data_), data_)
handle_hget clock _ data_ = (wrong_arity, data_)

unfoldable pub handle_hdel : Handler
unfolding signed_reply wrong_arity
handle_hdel clock (key ∷ field ∷ fields) data_ =
    let (removed, data') = Hashes.hdel (clock 0) key (field ∷ fields) data_ in
    (signed_reply removed, data')
handle_hdel clock _ data_ = (wrong_arity, data_)

unfoldable pub handle_hgetall : Handler
unfolding array_reply wrong_arity
handle_hgetall clock (key ∷ []) data_ = (array_reply (Hashes.hgetall (clock 0) key data_), data_)
handle_hgetall clock _ data_ = (wrong_arity, data_)

unfoldable pub handle_hexists : Handler
unfolding flag_reply wrong_arity
handle_hexists clock (key ∷ field ∷ []) data_ =
    (flag_reply (Hashes.hexists (clock 0) key field data_), data_)
handle_hexists clock _ data_ = (wrong_arity, data_)

unfoldable pub handle_hlen : Handler
unfolding count_reply wrong_arity
handle_hlen clock (key ∷ []) data_ = (count_reply (Hashes.hlen (clock 0) key data_), data_)
handle_hlen clock _ data_ = (wrong_arity, data_)

unfoldable pub handle_hkeys : Handler
unfolding array_reply wrong_arity
handle_hkeys clock (key ∷ []) data_ = (array_reply (Hashes.hkeys (clock 0) key data_), data_)
handle_hkeys clock _ data_ = (wrong_arity, data_)

unfoldable pub handle_hvals : Handler
unfolding array_reply wrong_arity
handle_hvals clock (key ∷ []) data_ = (array_reply (Hashes.hvals (clock 0) key data_), data_)
handle_hvals clock _ data_ = (wrong_arity, data_)
