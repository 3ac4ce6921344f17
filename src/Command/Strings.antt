-- ===== src/Command/Strings.antt =====
-- The handlers of the commands on strings, with DEL and EXISTS.
pub mod Options
use mathlib.Core.Option
use redix.Prelude.{
  ℕ, ◌+◌, ◌*◌, ◌%◌, Bool, true, false, not, ◌&&◌, ◌||◌, Option, none, some, List, [], ◌∷◌, ◌==◌,
  if◌then◌else◌, Bytes, codes, same_text,
}
use redix.Prelude.Int.{ℤ, pos, ltb_ℤ}
use redix.Decimal.{parse_i64, parse_u64}
use redix.Resp.Encoder.{resp_ok, resp_integer, resp_null_bulk}
use redix.Store.Value.{DataMap, Clock, later, Expected}
use redix.Store.Expiry.{u64_mod}
use redix.Store.Strings
use redix.Command.Parse.{uppercase}
use redix.Command.Reply.{
  Handler, wrong_arity, syntax_error, integer_error, optional_string_array, integer_reply,
  bulk_reply,
}

-- The local variables of the loop over the options of SET.
pub record SetOptions : Type 0 where
  pub expires_at : ℕ
  pub nx : Bool
  pub xx : Bool

-- The loop ends with the options and the readings of the clock that are left, or with a reply.
pub data OptionsResult : Type 0 where
  options : SetOptions → Clock → OptionsResult
  refused : Bytes → OptionsResult

-- `!parse_u64(…, amount) || amount == 0`
abbrev pub amount_of : Option ℕ → Option ℕ
amount_of none = none
amount_of (some amount) = if amount == 0 then none else some amount

-- `now_ms() + (option == "EX" ? amount * 1000 : amount)`, in 64 bits.
abbrev pub deadline : ℕ → Bool → ℕ → ℕ
deadline now seconds amount =
    (now + (if seconds then (amount * 1000) % u64_mod else amount)) % u64_mod

unfoldable pub set_options : Clock → List Bytes → SetOptions → OptionsResult
unfolding uppercase syntax_error integer_error
set_options clock [] o = options o clock
set_options clock (arg ∷ []) o =
    let option = uppercase arg in
    if same_text option (codes "EX") || same_text option (codes "PX")
    then refused syntax_error
    else if same_text option (codes "NX")
    then if o.xx then refused syntax_error else options (record o { nx = true }) clock
    else if same_text option (codes "XX")
    then if o.nx then refused syntax_error else options (record o { xx = true }) clock
    else refused syntax_error
set_options clock (arg ∷ amount ∷ rest) o =
    let option = uppercase arg in
    let timed = λ (ms : ℕ).
      set_options (later clock) rest
        (record o { expires_at = deadline (clock 0) (same_text option (codes "EX")) ms }) in
    let exclusive = set_options clock (amount ∷ rest) (record o { nx = true }) in
    let existing = set_options clock (amount ∷ rest) (record o { xx = true }) in
    if same_text option (codes "EX") || same_text option (codes "PX")
    then elim (amount_of (parse_u64 amount)) [ none ↦ refused integer_error | some ms ↦ timed ms ]
    else if same_text option (codes "NX")
    then if o.xx then refused syntax_error else exclusive
    else if same_text option (codes "XX")
    then if o.nx then refused syntax_error else existing
    else refused syntax_error

-- What follows the loop.
unfoldable pub set_with : Bytes → Bytes → DataMap → OptionsResult → Bytes × DataMap
unfolding Strings.exists Strings.set resp_ok resp_null_bulk
set_with key value data_ (refused reply) = (reply, data_)
set_with key value data_ (options o clock) =
    let exists = ltb_ℤ (pos 0) (Strings.exists clock (key ∷ []) data_) in
    if o.nx && exists || o.xx && not exists
    then (resp_null_bulk, data_)
    else (resp_ok, Strings.set key value o.expires_at data_)

unfoldable pub handle_set : Handler
unfolding set_options set_with wrong_arity
handle_set clock (key ∷ value ∷ rest) data_ =
    set_with key value data_
      (set_options clock rest (record { expires_at = 0; nx = false; xx = false }))
handle_set clock _ data_ = (wrong_arity, data_)

unfoldable pub handle_get : Handler
unfolding bulk_reply wrong_arity
handle_get clock (key ∷ []) data_ = (bulk_reply (Strings.get (clock 0) key data_), data_)
handle_get clock _ data_ = (wrong_arity, data_)

unfoldable pub handle_del : Handler
unfolding resp_integer wrong_arity
handle_del clock (key ∷ keys) data_ =
    let (n, data') = Strings.del clock (key ∷ keys) data_ in (resp_integer n, data')
handle_del clock [] data_ = (wrong_arity, data_)

unfoldable pub handle_exists : Handler
unfolding resp_integer wrong_arity
handle_exists clock (key ∷ keys) data_ =
    (resp_integer (Strings.exists clock (key ∷ keys) data_), data_)
handle_exists clock [] data_ = (wrong_arity, data_)

unfoldable pub handle_incr : Handler
unfolding integer_reply wrong_arity
handle_incr clock (key ∷ []) data_ =
    let (n, data') = Strings.incr (clock 0) key data_ in (integer_reply n, data')
handle_incr clock _ data_ = (wrong_arity, data_)

abbrev pub delta_with :
    (ℕ → Bytes → ℤ → DataMap → Expected ℤ × DataMap)
    → Clock
    → Bytes
    → DataMap
    → Option ℤ
    → Bytes × DataMap
delta_with op clock key data_ none = (integer_error, data_)
delta_with op clock key data_ (some delta) =
    let (n, data') = op (clock 0) key delta data_ in (integer_reply n, data')

unfoldable pub handle_incrby : Handler
unfolding integer_reply integer_error wrong_arity
handle_incrby clock (key ∷ text ∷ []) data_ =
    delta_with Strings.incrby clock key data_ (parse_i64 text)
handle_incrby clock _ data_ = (wrong_arity, data_)

unfoldable pub handle_decr : Handler
unfolding integer_reply wrong_arity
handle_decr clock (key ∷ []) data_ =
    let (n, data') = Strings.decr (clock 0) key data_ in (integer_reply n, data')
handle_decr clock _ data_ = (wrong_arity, data_)

unfoldable pub handle_decrby : Handler
unfolding integer_reply integer_error wrong_arity
handle_decrby clock (key ∷ text ∷ []) data_ =
    delta_with Strings.decrby clock key data_ (parse_i64 text)
handle_decrby clock _ data_ = (wrong_arity, data_)

unfoldable pub handle_append : Handler
unfolding integer_reply wrong_arity
handle_append clock (key ∷ suffix ∷ []) data_ =
    let (n, data') = Strings.append (clock 0) key suffix data_ in (integer_reply n, data')
handle_append clock _ data_ = (wrong_arity, data_)

unfoldable pub handle_strlen : Handler
unfolding integer_reply wrong_arity
handle_strlen clock (key ∷ []) data_ = (integer_reply (Strings.strlen (clock 0) key data_), data_)
handle_strlen clock _ data_ = (wrong_arity, data_)

unfoldable pub handle_getset : Handler
unfolding bulk_reply wrong_arity
handle_getset clock (key ∷ value ∷ []) data_ =
    let (old, data') = Strings.getset (clock 0) key value data_ in (bulk_reply old, data')
handle_getset clock _ data_ = (wrong_arity, data_)

-- Two arguments at a time; `none` for an odd number of them.
unfoldable pub pairs_of : List Bytes → Option (List (Bytes × Bytes))
pairs_of [] = some []
pairs_of (a ∷ []) = none
pairs_of (a ∷ b ∷ rest) = Option.map (λ pairs. (a, b) ∷ pairs) (pairs_of rest)

abbrev pub mset_with : DataMap → Option (List (Bytes × Bytes)) → Bytes × DataMap
mset_with data_ none = (wrong_arity, data_)
mset_with data_ (some pairs) = (resp_ok, Strings.mset pairs data_)

unfoldable pub handle_mset : Handler
unfolding pairs_of wrong_arity resp_ok
handle_mset clock [] data_ = (wrong_arity, data_)
handle_mset clock (a ∷ args) data_ = mset_with data_ (pairs_of (a ∷ args))

unfoldable pub handle_mget : Handler
unfolding optional_string_array wrong_arity
handle_mget clock (key ∷ keys) data_ =
    (optional_string_array (Strings.mget clock (key ∷ keys) data_), data_)
handle_mget clock [] data_ = (wrong_arity, data_)
