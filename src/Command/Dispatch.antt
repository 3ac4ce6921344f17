-- ===== src/Command/Dispatch.antt =====
-- The dispatch table, `dispatch` and `is_write_command`.
pub mod ReadOnly
pub mod Writers
pub mod Tables
pub mod Invariant
use redix.Prelude.{
  Bool, true, false, ◌||◌, Option, none, some, List, [], ◌∷◌, ◌++◌, Bytes, codes, same_text,
}
use redix.FlatMap.{FlatMap, text_order, find}
use redix.Resp.Encoder.{resp_error}
use redix.Store.Value.{DataMap, Clock}
use redix.Command.Parse.{Command}
use redix.Command.Reply.{Handler}
use redix.Command.Strings.{
  handle_append, handle_decr, handle_decrby, handle_del, handle_exists, handle_get, handle_getset,
  handle_incr, handle_incrby, handle_mget, handle_mset, handle_set, handle_strlen,
}
use redix.Command.Expiry.{handle_expire, handle_persist, handle_pexpire, handle_pttl, handle_ttl}
use redix.Command.Lists.{
  handle_lindex, handle_llen, handle_lpop, handle_lpush, handle_lrange, handle_rpop, handle_rpush,
}
use redix.Command.Hashes.{
  handle_hdel, handle_hexists, handle_hget, handle_hgetall, handle_hkeys, handle_hlen, handle_hset,
  handle_hvals,
}
use redix.Command.Sets.{
  handle_sadd, handle_scard, handle_sinter, handle_sismember, handle_smembers, handle_srem,
  handle_sunion,
}
use redix.Command.Keyspace.{
  handle_dbsize, handle_echo, handle_flushdb, handle_keys, handle_ping, handle_rename, handle_type,
}

-- `DISPATCH_TABLE`: the names are emplaced in alphabetical order.
unfoldable pub dispatch_table : FlatMap Bytes Handler
dispatch_table =
    (codes "APPEND", handle_append)
    ∷ (codes "DBSIZE", handle_dbsize)
    ∷ (codes "DECR", handle_decr)
    ∷ (codes "DECRBY", handle_decrby)
    ∷ (codes "DEL", handle_del)
    ∷ (codes "ECHO", handle_echo)
    ∷ (codes "EXISTS", handle_exists)
    ∷ (codes "EXPIRE", handle_expire)
    ∷ (codes "FLUSHDB", handle_flushdb)
    ∷ (codes "GET", handle_get)
    ∷ (codes "GETSET", handle_getset)
    ∷ (codes "HDEL", handle_hdel)
    ∷ (codes "HEXISTS", handle_hexists)
    ∷ (codes "HGET", handle_hget)
    ∷ (codes "HGETALL", handle_hgetall)
    ∷ (codes "HKEYS", handle_hkeys)
    ∷ (codes "HLEN", handle_hlen)
    ∷ (codes "HSET", handle_hset)
    ∷ (codes "HVALS", handle_hvals)
    ∷ (codes "INCR", handle_incr)
    ∷ (codes "INCRBY", handle_incrby)
    ∷ (codes "KEYS", handle_keys)
    ∷ (codes "LINDEX", handle_lindex)
    ∷ (codes "LLEN", handle_llen)
    ∷ (codes "LPOP", handle_lpop)
    ∷ (codes "LPUSH", handle_lpush)
    ∷ (codes "LRANGE", handle_lrange)
    ∷ (codes "MGET", handle_mget)
    ∷ (codes "MSET", handle_mset)
    ∷ (codes "PERSIST", handle_persist)
    ∷ (codes "PEXPIRE", handle_pexpire)
    ∷ (codes "PING", handle_ping)
    ∷ (codes "PTTL", handle_pttl)
    ∷ (codes "RENAME", handle_rename)
    ∷ (codes "RPOP", handle_rpop)
    ∷ (codes "RPUSH", handle_rpush)
    ∷ (codes "SADD", handle_sadd)
    ∷ (codes "SCARD", handle_scard)
    ∷ (codes "SET", handle_set)
    ∷ (codes "SINTER", handle_sinter)
    ∷ (codes "SISMEMBER", handle_sismember)
    ∷ (codes "SMEMBERS", handle_smembers)
    ∷ (codes "SREM", handle_srem)
    ∷ (codes "STRLEN", handle_strlen)
    ∷ (codes "SUNION", handle_sunion)
    ∷ (codes "TTL", handle_ttl)
    ∷ (codes "TYPE", handle_type)
    ∷ []

unfoldable pub unknown_command : Bytes → Bytes
unfolding resp_error
unknown_command name = resp_error (codes "ERR unknown command '" ++ (name ++ codes "'"))

abbrev run_handler : Option Handler → Clock → Command → DataMap → Bytes × DataMap
run_handler none clock cmd data_ = (unknown_command cmd.name, data_)
run_handler (some handler) clock cmd data_ = handler clock cmd.args data_

unfoldable pub dispatch : Clock → Command → DataMap → Bytes × DataMap
unfolding unknown_command
dispatch clock cmd data_ = run_handler (find cmd.name dispatch_table) clock cmd data_

unfoldable pub write_commands : List Bytes
write_commands =
    codes "SET"
    ∷ codes "DEL"
    ∷ codes "INCR"
    ∷ codes "INCRBY"
    ∷ codes "DECR"
    ∷ codes "DECRBY"
    ∷ codes "APPEND"
    ∷ codes "GETSET"
    ∷ codes "MSET"
    ∷ codes "EXPIRE"
    ∷ codes "PEXPIRE"
    ∷ codes "PERSIST"
    ∷ codes "LPUSH"
    ∷ codes "RPUSH"
    ∷ codes "LPOP"
    ∷ codes "RPOP"
    ∷ codes "HSET"
    ∷ codes "HDEL"
    ∷ codes "SADD"
    ∷ codes "SREM"
    ∷ codes "FLUSHDB"
    ∷ codes "RENAME"
    ∷ []

-- `std::find(…) != end`
unfoldable pub contains : Bytes → List Bytes → Bool
contains name [] = false
contains name (n ∷ names) = same_text n name || contains name names

unfoldable pub is_write_command : Command → Bool
unfolding contains
is_write_command cmd = contains cmd.name write_commands
