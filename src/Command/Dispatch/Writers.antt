-- ===== src/Command/Dispatch/Writers.antt =====
-- The handlers of the commands that write: each keeps what is closed under its first argument, or
-- under all keys where it takes several.
use mathlib.Core.Option
use redix.Prelude.{ℕ, Bool, not, ◌&&◌, ◌||◌, Option, none, some, List, [], ◌∷◌, Bytes}
use redix.Prelude.Int.{ℤ, pos, ltb_ℤ}
use redix.Decimal.{parse_i64, parse_u64}
use redix.Store.Value.{DataMap, Clock, Expected}
use redix.Store.Strings
use redix.Store.Expiry
use redix.Store.Keyspace
use redix.Store.Keeps.{Closed, if_rule}
use redix.Store.Keeps.Strings.{
  set-keeps, incrby-keeps, incr-keeps, decrby-keeps, decr-keeps, append-keeps, getset-keeps,
  pexpire-keeps, expire-keeps, persist-keeps, del-keeps, mset-keeps,
}
use redix.Store.Keeps.Collections.{
  lpush-keeps, rpush-keeps, lpop-keeps, rpop-keeps, hset-keeps, hdel-keeps, sadd-keeps, srem-keeps,
}
use redix.Store.Keeps.Keyspace.{rename-keeps}
use redix.Command.Reply.{Handler}
use redix.Command.Strings.{
  OptionsResult, options, refused, set_options, set_with, handle_set, handle_del, handle_incr,
  delta_with, handle_incrby, handle_decr, handle_decrby, handle_append, handle_getset, pairs_of,
  mset_with, handle_mset,
}
use redix.Command.Expiry.{expire_with, handle_expire, handle_pexpire, handle_persist}
use redix.Command.Lists.{handle_lpush, handle_rpush, handle_lpop, handle_rpop}
use redix.Command.Hashes.{hset_with, handle_hset, handle_hdel}
use redix.Command.Sets.{handle_sadd, handle_srem}
use redix.Command.Keyspace.{handle_flushdb, handle_rename}

-- The invariant is closed under the first argument, if there is one.
abbrev pub HeadClosed : (DataMap → Type 0) → List Bytes → Type 0
HeadClosed I [] = Unit
HeadClosed I (key ∷ rest) = Closed key I

abbrev pub KeepsHead : Handler → Type 1
KeepsHead handler =
    (I : DataMap → Type 0) (clock : Clock) (args : List Bytes) (d : DataMap)
    → HeadClosed I args
    → I d
    → I (handler clock args d).1

abbrev pub KeepsAll : Handler → Type 1
KeepsAll handler =
    (I : DataMap → Type 0)
    → ((key : Bytes) → Closed key I)
    → I []
    → (clock : Clock) (args : List Bytes) (d : DataMap) → I d
    → I (handler clock args d).1

set_with-keeps :
    (I : DataMap → Type 0) (key value : Bytes) (d : DataMap) (r : OptionsResult)
    → Closed key I
    → I d
    → I (set_with key value d r).1
unfolding set_with
set_with-keeps I key value d (refused reply) c h = h
set_with-keeps I key value d (options o clock) c h =
    let exists = ltb_ℤ (pos 0) (Strings.exists clock (key ∷ []) d) in
    if_rule (λ (r : Bytes × DataMap). I r.1) (o.nx && exists || o.xx && not exists) _ _ h
      (set-keeps c value o.expires_at d h)

pub set-KeepsHead : KeepsHead handle_set
unfolding handle_set
set-KeepsHead I clock (key ∷ value ∷ rest) d c h =
    set_with-keeps I key value d (set_options clock rest _) c h
set-KeepsHead I clock _ d c h = h

pub incr-KeepsHead : KeepsHead handle_incr
unfolding handle_incr
incr-KeepsHead I clock (key ∷ []) d c h = incr-keeps c (clock 0) d h
incr-KeepsHead I clock _ d c h = h

pub decr-KeepsHead : KeepsHead handle_decr
unfolding handle_decr
decr-KeepsHead I clock (key ∷ []) d c h = decr-keeps c (clock 0) d h
decr-KeepsHead I clock _ d c h = h

delta_with-keeps :
    (I : DataMap → Type 0) (op : ℕ → Bytes → ℤ → DataMap → Expected ℤ × DataMap) (clock : Clock)
    (key : Bytes) (d : DataMap) (o : Option ℤ)
    → ((delta : ℤ) → I (op (clock 0) key delta d).1)
    → I d
    → I (delta_with op clock key d o).1
delta_with-keeps I op clock key d none k h = h
delta_with-keeps I op clock key d (some delta) k h = k delta

pub incrby-KeepsHead : KeepsHead handle_incrby
unfolding handle_incrby
incrby-KeepsHead I clock (key ∷ text ∷ []) d c h =
    delta_with-keeps I Strings.incrby clock key d (parse_i64 text)
      (λ delta. incrby-keeps c (clock 0) delta d h) h
incrby-KeepsHead I clock _ d c h = h

pub decrby-KeepsHead : KeepsHead handle_decrby
unfolding handle_decrby
decrby-KeepsHead I clock (key ∷ text ∷ []) d c h =
    delta_with-keeps I Strings.decrby clock key d (parse_i64 text)
      (λ delta. decrby-keeps c (clock 0) delta d h) h
decrby-KeepsHead I clock _ d c h = h

pub append-KeepsHead : KeepsHead handle_append
unfolding handle_append
append-KeepsHead I clock (key ∷ suffix ∷ []) d c h = append-keeps c (clock 0) suffix d h
append-KeepsHead I clock _ d c h = h

pub getset-KeepsHead : KeepsHead handle_getset
unfolding handle_getset
getset-KeepsHead I clock (key ∷ value ∷ []) d c h = getset-keeps c (clock 0) value d h
getset-KeepsHead I clock _ d c h = h

expire_with-keeps :
    (I : DataMap → Type 0) (op : Clock → Bytes → ℕ → DataMap → Bool × DataMap) (clock : Clock)
    (key : Bytes) (d : DataMap) (o : Option ℕ)
    → ((amount : ℕ) → I (op clock key amount d).1)
    → I d
    → I (expire_with op clock key d o).1
expire_with-keeps I op clock key d none k h = h
expire_with-keeps I op clock key d (some amount) k h = k amount

pub expire-KeepsHead : KeepsHead handle_expire
unfolding handle_expire
expire-KeepsHead I clock (key ∷ text ∷ []) d c h =
    expire_with-keeps I Expiry.expire clock key d (parse_u64 text)
      (λ amount. expire-keeps c clock amount d h) h
expire-KeepsHead I clock _ d c h = h

pub pexpire-KeepsHead : KeepsHead handle_pexpire
unfolding handle_pexpire
pexpire-KeepsHead I clock (key ∷ text ∷ []) d c h =
    expire_with-keeps I Expiry.pexpire clock key d (parse_u64 text)
      (λ amount. pexpire-keeps c clock amount d h) h
pexpire-KeepsHead I clock _ d c h = h

pub persist-KeepsHead : KeepsHead handle_persist
unfolding handle_persist
persist-KeepsHead I clock (key ∷ []) d c h = persist-keeps c (clock 0) d h
persist-KeepsHead I clock _ d c h = h

pub lpush-KeepsHead : KeepsHead handle_lpush
unfolding handle_lpush
lpush-KeepsHead I clock (key ∷ value ∷ values) d c h = lpush-keeps c (clock 0) value values d h
lpush-KeepsHead I clock _ d c h = h

pub rpush-KeepsHead : KeepsHead handle_rpush
unfolding handle_rpush
rpush-KeepsHead I clock (key ∷ value ∷ values) d c h = rpush-keeps c (clock 0) value values d h
rpush-KeepsHead I clock _ d c h = h

pub lpop-KeepsHead : KeepsHead handle_lpop
unfolding handle_lpop
lpop-KeepsHead I clock (key ∷ []) d c h = lpop-keeps c (clock 0) d h
lpop-KeepsHead I clock _ d c h = h

pub rpop-KeepsHead : KeepsHead handle_rpop
unfolding handle_rpop
rpop-KeepsHead I clock (key ∷ []) d c h = rpop-keeps c (clock 0) d h
rpop-KeepsHead I clock _ d c h = h

hset_with-keeps :
    (I : DataMap → Type 0) (clock : Clock) (key field : Bytes) (d : DataMap) (rest : List Bytes)
    → Closed key I
    → I d
    → I (hset_with clock key d (pairs_of (field ∷ rest))).1
unfolding pairs_of
hset_with-keeps I clock key field d [] c h = h
hset_with-keeps I clock key field d (value ∷ rest) c h = on_pairs (pairs_of rest)
  where
    on_pairs :
        (o : Option (List (Bytes × Bytes)))
        → I (hset_with clock key d (Option.map (λ pairs. (field, value) ∷ pairs) o)).1
    on_pairs none = h
    on_pairs (some pairs) = hset-keeps c (clock 0) field value pairs d h

pub hset-KeepsHead : KeepsHead handle_hset
unfolding handle_hset
hset-KeepsHead I clock (key ∷ field ∷ rest) d c h = hset_with-keeps I clock key field d rest c h
hset-KeepsHead I clock _ d c h = h

pub hdel-KeepsHead : KeepsHead handle_hdel
unfolding handle_hdel
hdel-KeepsHead I clock (key ∷ field ∷ fields) d c h = hdel-keeps c (clock 0) (field ∷ fields) d h
hdel-KeepsHead I clock _ d c h = h

pub sadd-KeepsHead : KeepsHead handle_sadd
unfolding handle_sadd
sadd-KeepsHead I clock (key ∷ member ∷ members) d c h = sadd-keeps c (clock 0) member members d h
sadd-KeepsHead I clock _ d c h = h

pub srem-KeepsHead : KeepsHead handle_srem
unfolding handle_srem
srem-KeepsHead I clock (key ∷ member ∷ members) d c h =
    srem-keeps c (clock 0) (member ∷ members) d h
srem-KeepsHead I clock _ d c h = h

pub del-KeepsAll : KeepsAll handle_del
unfolding handle_del
del-KeepsAll I c e clock [] d h = h
del-KeepsAll I c e clock (key ∷ keys) d h = del-keeps c clock (key ∷ keys) d h

mset_with-keeps :
    (I : DataMap → Type 0) (d : DataMap) (o : Option (List (Bytes × Bytes)))
    → ((key : Bytes) → Closed key I)
    → I d
    → I (mset_with d o).1
mset_with-keeps I d none c h = h
mset_with-keeps I d (some pairs) c h = mset-keeps c pairs d h

pub mset-KeepsAll : KeepsAll handle_mset
unfolding handle_mset
mset-KeepsAll I c e clock [] d h = h
mset-KeepsAll I c e clock (a ∷ args) d h = mset_with-keeps I d (pairs_of (a ∷ args)) c h

pub flushdb-KeepsAll : KeepsAll handle_flushdb
unfolding handle_flushdb Keyspace.flushdb
flushdb-KeepsAll I c e clock [] d h = e
flushdb-KeepsAll I c e clock (a ∷ args) d h = h

pub rename-KeepsAll : KeepsAll handle_rename
unfolding handle_rename
rename-KeepsAll I c e clock (src ∷ dst ∷ []) d h = rename-keeps (c src) (c dst) (clock 0) d h
rename-KeepsAll I c e clock _ d h = h
