-- ===== src/Command/Sets.antt =====
-- The handlers of the commands on sets.
use redix.Prelude.{Bool, not, ◌&&◌, List, [], ◌∷◌, if◌then◌else◌, Bytes, codes, same_text}
use redix.Store.Value.{DataMap, Clock, later}
use redix.Store.Sets
use redix.Store.Keyspace.{type}
use redix.Command.Reply.{
  Handler, wrong_arity, wrong_type_error, string_array, array_reply, count_reply, flag_reply,
  signed_reply,
}

unfoldable pub handle_sadd : Handler
unfolding signed_reply wrong_arity
handle_sadd clock (key ∷ member ∷ members) data_ =
    let (added, data') = Sets.sadd (clock 0) key (member ∷ members) data_ in
    (signed_reply added, data')
handle_sadd clock _ data_ = (wrong_arity, data_)

unfoldable pub handle_srem : Handler
unfolding signed_reply wrong_arity
handle_srem clock (key ∷ member ∷ members) data_ =
    let (removed, data') = Sets.srem (clock 0) key (member ∷ members) data_ in
    (signed_reply removed, data')
handle_srem clock _ data_ = (wrong_arity, data_)

unfoldable pub handle_smembers : Handler
unfolding array_reply wrong_arity
handle_smembers clock (key ∷ []) data_ = (array_reply (Sets.smembers (clock 0) key data_), data_)
handle_smembers clock _ data_ = (wrong_arity, data_)

unfoldable pub handle_sismember : Handler
unfolding flag_reply wrong_arity
handle_sismember clock (key ∷ member ∷ []) data_ =
    (flag_reply (Sets.sismember (clock 0) key member data_), data_)
handle_sismember clock _ data_ = (wrong_arity, data_)

unfoldable pub handle_scard : Handler
unfolding count_reply wrong_arity
handle_scard clock (key ∷ []) data_ = (count_reply (Sets.scard (clock 0) key data_), data_)
handle_scard clock _ data_ = (wrong_arity, data_)

unfoldable pub key_is_wrong_type_for_set_op : Clock → Bytes → DataMap → Bool
key_is_wrong_type_for_set_op clock key data_ =
    let name = type (clock 0) key data_ in
    not (same_text name (codes "none")) && not (same_text name (codes "set"))

-- The loop that both handlers start with. Without an early return the rest runs, with the readings
-- of the clock that are left.
unfoldable pub check_set_keys : Clock → List Bytes → DataMap → (Clock → Bytes) → Bytes
unfolding key_is_wrong_type_for_set_op wrong_type_error
check_set_keys clock [] data_ rest = rest clock
check_set_keys clock (key ∷ keys) data_ rest =
    let next = check_set_keys (later clock) keys data_ rest in
    if key_is_wrong_type_for_set_op clock key data_ then wrong_type_error else next

unfoldable pub handle_sunion : Handler
unfolding check_set_keys string_array wrong_arity
handle_sunion clock (key ∷ keys) data_ = (
  check_set_keys clock (key ∷ keys) data_
      λ left. string_array (Sets.sunion left (key ∷ keys) data_),
  data_,
)
handle_sunion clock [] data_ = (wrong_arity, data_)

unfoldable pub handle_sinter : Handler
unfolding check_set_keys string_array wrong_arity
handle_sinter clock (key ∷ keys) data_ = (
  check_set_keys clock (key ∷ keys) data_
      λ left. string_array (Sets.sinter left (key ∷ keys) data_),
  data_,
)
handle_sinter clock [] data_ = (wrong_arity, data_)
