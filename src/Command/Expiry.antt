-- ===== src/Command/Expiry.antt =====
-- The handlers of the commands on expiry times.
use redix.Prelude.{ℕ, Bool, Option, none, some, [], ◌∷◌, Bytes}
use redix.Decimal.{parse_u64}
use redix.Resp.Encoder.{resp_integer}
use redix.Store.Value.{DataMap, Clock}
use redix.Store.Expiry
use redix.Command.Reply.{Handler, wrong_arity, integer_error, flag}

abbrev pub expire_with :
    (Clock → Bytes → ℕ → DataMap → Bool × DataMap)
    → Clock
    → Bytes
    → DataMap
    → Option ℕ
    → Bytes × DataMap
expire_with op clock key data_ none = (integer_error, data_)
expire_with op clock key data_ (some amount) =
    let (done, data') = op clock key amount data_ in (resp_integer (flag done), data')

unfoldable pub handle_expire : Handler
unfolding resp_integer integer_error wrong_arity
handle_expire clock (key ∷ text ∷ []) data_ =
    expire_with Expiry.expire clock key data_ (parse_u64 text)
handle_expire clock _ data_ = (wrong_arity, data_)

unfoldable pub handle_pexpire : Handler
unfolding resp_integer integer_error wrong_arity
handle_pexpire clock (key ∷ text ∷ []) data_ =
    expire_with Expiry.pexpire clock key data_ (parse_u64 text)
handle_pexpire clock _ data_ = (wrong_arity, data_)

unfoldable pub handle_ttl : Handler
unfolding resp_integer wrong_arity
handle_ttl clock (key ∷ []) data_ = (resp_integer (Expiry.ttl clock key data_), data_)
handle_ttl clock _ data_ = (wrong_arity, data_)

unfoldable pub handle_pttl : Handler
unfolding resp_integer wrong_arity
handle_pttl clock (key ∷ []) data_ = (resp_integer (Expiry.pttl clock key data_), data_)
handle_pttl clock _ data_ = (wrong_arity, data_)

unfoldable pub handle_persist : Handler
unfolding resp_integer wrong_arity
handle_persist clock (key ∷ []) data_ =
    let (done, data') = Expiry.persist (clock 0) key data_ in (resp_integer (flag done), data')
handle_persist clock _ data_ = (wrong_arity, data_)
