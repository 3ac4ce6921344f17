-- ===== src/Command/Dispatch/Tables.antt =====
-- What each handler in the dispatch table keeps, row by row.
use mathlib.Core.Path.{subst}
use redix.Prelude.{◌≡◌, sym, false, some, List, [], ◌∷◌, Bytes, codes, All, same_text}
use redix.FlatMap.{text_order, find}
use redix.FlatMap.Values.{All-find}
use redix.Command.Reply.{Handler}
use redix.Command.Strings.{
  handle_set, handle_get, handle_exists, handle_incr, handle_incrby, handle_decr, handle_decrby,
  handle_append, handle_strlen, handle_getset, handle_mget,
}
use redix.Command.Expiry.{handle_expire, handle_pexpire, handle_ttl, handle_pttl, handle_persist}
use redix.Command.Lists.{
  handle_lpush, handle_rpush, handle_lpop, handle_rpop, handle_lrange, handle_llen, handle_lindex,
}
use redix.Command.Hashes.{
  handle_hset, handle_hget, handle_hdel, handle_hgetall, handle_hexists, handle_hlen, handle_hkeys,
  handle_hvals,
}
use redix.Command.Sets.{
  handle_sadd, handle_srem, handle_smembers, handle_sismember, handle_scard, handle_sunion,
  handle_sinter,
}
use redix.Command.Keyspace.{handle_ping, handle_echo, handle_dbsize, handle_keys, handle_type}
use redix.Command.Dispatch.{dispatch_table, write_commands, contains}
use redix.Command.Dispatch.ReadOnly.{
  ReadsOnly, dbsize-ReadsOnly, echo-ReadsOnly, exists-ReadsOnly, get-ReadsOnly, hexists-ReadsOnly,
  hget-ReadsOnly, hgetall-ReadsOnly, hkeys-ReadsOnly, hlen-ReadsOnly, hvals-ReadsOnly,
  keys-ReadsOnly, lindex-ReadsOnly, llen-ReadsOnly, lrange-ReadsOnly, mget-ReadsOnly,
  ping-ReadsOnly, pttl-ReadsOnly, scard-ReadsOnly, sinter-ReadsOnly, sismember-ReadsOnly,
  smembers-ReadsOnly, strlen-ReadsOnly, sunion-ReadsOnly, ttl-ReadsOnly, type-ReadsOnly,
}
use redix.Command.Dispatch.Writers.{
  KeepsHead, KeepsAll, append-KeepsHead, decr-KeepsHead, decrby-KeepsHead, expire-KeepsHead,
  getset-KeepsHead, hdel-KeepsHead, hset-KeepsHead, incr-KeepsHead, incrby-KeepsHead,
  lpop-KeepsHead, lpush-KeepsHead, persist-KeepsHead, pexpire-KeepsHead, rpop-KeepsHead,
  rpush-KeepsHead, sadd-KeepsHead, set-KeepsHead, srem-KeepsHead, del-KeepsAll, mset-KeepsAll,
  flushdb-KeepsAll, rename-KeepsAll,
}

infixr 20 ◌▹◌
abbrev ◌▹◌ {ℓ κ} : {A : Type ℓ} {B : Type κ} → A → B → A × B
a ▹ b = (a, b)

-- What holds of every handler in the table holds of the one that a name finds.
module _ {κ} (P : Bytes → Handler → Type κ) where
  pub handler-rule :
      All (λ p. P p.0 p.1) dispatch_table
      → (name : Bytes) (handler : Handler) → find name dispatch_table ≡ some handler
      → P name handler
  handler-rule all name handler = All-find (λ p. P p.0 p.1) name dispatch_table all handler

ReadsOnly→KeepsHead : (handler : Handler) → ReadsOnly handler → KeepsHead handler
ReadsOnly→KeepsHead handler r I clock args d c h = subst I (sym (r clock args d)) h

ReadsOnly→KeepsAll : (handler : Handler) → ReadsOnly handler → KeepsAll handler
ReadsOnly→KeepsAll handler r I c e clock args d h = subst I (sym (r clock args d)) h

KeepsHead→KeepsAll : (handler : Handler) → KeepsHead handler → KeepsAll handler
KeepsHead→KeepsAll handler k I c e clock [] d h = k I clock [] d tt h
KeepsHead→KeepsAll handler k I c e clock (key ∷ rest) d h = k I clock (key ∷ rest) d (c key) h

-- A command that is not on the list of write commands only reads.
abbrev pub IsReader : Bytes → Handler → Type 0
IsReader name handler = contains name write_commands ≡ false → ReadsOnly handler

pub dispatch_table-IsReader : All (λ p. IsReader p.0 p.1) dispatch_table
unfolding dispatch_table write_commands contains same_text
dispatch_table-IsReader =
    (λ w. absurd (cc))
    ▹ (λ _. dbsize-ReadsOnly)
    ▹ (λ w. absurd (cc))
    ▹ (λ w. absurd (cc))
    ▹ (λ w. absurd (cc))
    ▹ (λ _. echo-ReadsOnly)
    ▹ (λ _. exists-ReadsOnly)
    ▹ (λ w. absurd (cc))
    ▹ (λ w. absurd (cc))
    ▹ (λ _. get-ReadsOnly)
    ▹ (λ w. absurd (cc))
    ▹ (λ w. absurd (cc))
    ▹ (λ _. hexists-ReadsOnly)
    ▹ (λ _. hget-ReadsOnly)
    ▹ (λ _. hgetall-ReadsOnly)
    ▹ (λ _. hkeys-ReadsOnly)
    ▹ (λ _. hlen-ReadsOnly)
    ▹ (λ w. absurd (cc))
    ▹ (λ _. hvals-ReadsOnly)
    ▹ (λ w. absurd (cc))
    ▹ (λ w. absurd (cc))
    ▹ (λ _. keys-ReadsOnly)
    ▹ (λ _. lindex-ReadsOnly)
    ▹ (λ _. llen-ReadsOnly)
    ▹ (λ w. absurd (cc))
    ▹ (λ w. absurd (cc))
    ▹ (λ _. lrange-ReadsOnly)
    ▹ (λ _. mget-ReadsOnly)
    ▹ (λ w. absurd (cc))
    ▹ (λ w. absurd (cc))
    ▹ (λ w. absurd (cc))
    ▹ (λ _. ping-ReadsOnly)
    ▹ (λ _. pttl-ReadsOnly)
    ▹ (λ w. absurd (cc))
    ▹ (λ w. absurd (cc))
    ▹ (λ w. absurd (cc))
    ▹ (λ w. absurd (cc))
    ▹ (λ _. scard-ReadsOnly)
    ▹ (λ w. absurd (cc))
    ▹ (λ _. sinter-ReadsOnly)
    ▹ (λ _. sismember-ReadsOnly)
    ▹ (λ _. smembers-ReadsOnly)
    ▹ (λ w. absurd (cc))
    ▹ (λ _. strlen-ReadsOnly)
    ▹ (λ _. sunion-ReadsOnly)
    ▹ (λ _. ttl-ReadsOnly)
    ▹ (λ _. type-ReadsOnly)
    ▹ tt

pub dispatch_table-KeepsAll : All (λ p. KeepsAll p.1) dispatch_table
unfolding dispatch_table
dispatch_table-KeepsAll =
    KeepsHead→KeepsAll handle_append append-KeepsHead
    ▹ ReadsOnly→KeepsAll handle_dbsize dbsize-ReadsOnly
    ▹ KeepsHead→KeepsAll handle_decr decr-KeepsHead
    ▹ KeepsHead→KeepsAll handle_decrby decrby-KeepsHead
    ▹ del-KeepsAll
    ▹ ReadsOnly→KeepsAll handle_echo echo-ReadsOnly
    ▹ ReadsOnly→KeepsAll handle_exists exists-ReadsOnly
    ▹ KeepsHead→KeepsAll handle_expire expire-KeepsHead
    ▹ flushdb-KeepsAll
    ▹ ReadsOnly→KeepsAll handle_get get-ReadsOnly
    ▹ KeepsHead→KeepsAll handle_getset getset-KeepsHead
    ▹ KeepsHead→KeepsAll handle_hdel hdel-KeepsHead
    ▹ ReadsOnly→KeepsAll handle_hexists hexists-ReadsOnly
    ▹ ReadsOnly→KeepsAll handle_hget hget-ReadsOnly
    ▹ ReadsOnly→KeepsAll handle_hgetall hgetall-ReadsOnly
    ▹ ReadsOnly→KeepsAll handle_hkeys hkeys-ReadsOnly
    ▹ ReadsOnly→KeepsAll handle_hlen hlen-ReadsOnly
    ▹ KeepsHead→KeepsAll handle_hset hset-KeepsHead
    ▹ ReadsOnly→KeepsAll handle_hvals hvals-ReadsOnly
    ▹ KeepsHead→KeepsAll handle_incr incr-KeepsHead
    ▹ KeepsHead→KeepsAll handle_incrby incrby-KeepsHead
    ▹ ReadsOnly→KeepsAll handle_keys keys-ReadsOnly
    ▹ ReadsOnly→KeepsAll handle_lindex lindex-ReadsOnly
    ▹ ReadsOnly→KeepsAll handle_llen llen-ReadsOnly
    ▹ KeepsHead→KeepsAll handle_lpop lpop-KeepsHead
    ▹ KeepsHead→KeepsAll handle_lpush lpush-KeepsHead
    ▹ ReadsOnly→KeepsAll handle_lrange lrange-ReadsOnly
    ▹ ReadsOnly→KeepsAll handle_mget mget-ReadsOnly
    ▹ mset-KeepsAll
    ▹ KeepsHead→KeepsAll handle_persist persist-KeepsHead
    ▹ KeepsHead→KeepsAll handle_pexpire pexpire-KeepsHead
    ▹ ReadsOnly→KeepsAll handle_ping ping-ReadsOnly
    ▹ ReadsOnly→KeepsAll handle_pttl pttl-ReadsOnly
    ▹ rename-KeepsAll
    ▹ KeepsHead→KeepsAll handle_rpop rpop-KeepsHead
    ▹ KeepsHead→KeepsAll handle_rpush rpush-KeepsHead
    ▹ KeepsHead→KeepsAll handle_sadd sadd-KeepsHead
    ▹ ReadsOnly→KeepsAll handle_scard scard-ReadsOnly
    ▹ KeepsHead→KeepsAll handle_set set-KeepsHead
    ▹ ReadsOnly→KeepsAll handle_sinter sinter-ReadsOnly
    ▹ ReadsOnly→KeepsAll handle_sismember sismember-ReadsOnly
    ▹ ReadsOnly→KeepsAll handle_smembers smembers-ReadsOnly
    ▹ KeepsHead→KeepsAll handle_srem srem-KeepsHead
    ▹ ReadsOnly→KeepsAll handle_strlen strlen-ReadsOnly
    ▹ ReadsOnly→KeepsAll handle_sunion sunion-ReadsOnly
    ▹ ReadsOnly→KeepsAll handle_ttl ttl-ReadsOnly
    ▹ ReadsOnly→KeepsAll handle_type type-ReadsOnly
    ▹ tt

-- The commands that write under other keys than their first argument.
abbrev pub several_keys : List Bytes
several_keys = codes "DEL" ∷ codes "MSET" ∷ codes "FLUSHDB" ∷ codes "RENAME" ∷ []

abbrev pub IsLocal : Bytes → Handler → Type 1
IsLocal name handler = contains name several_keys ≡ false → KeepsHead handler

pub dispatch_table-IsLocal : All (λ p. IsLocal p.0 p.1) dispatch_table
unfolding dispatch_table contains same_text
dispatch_table-IsLocal =
    (λ _. append-KeepsHead)
    ▹ (λ _. ReadsOnly→KeepsHead handle_dbsize dbsize-ReadsOnly)
    ▹ (λ _. decr-KeepsHead)
    ▹ (λ _. decrby-KeepsHead)
    ▹ (λ w. absurd (cc))
    ▹ (λ _. ReadsOnly→KeepsHead handle_echo echo-ReadsOnly)
    ▹ (λ _. ReadsOnly→KeepsHead handle_exists exists-ReadsOnly)
    ▹ (λ _. expire-KeepsHead)
    ▹ (λ w. absurd (cc))
    ▹ (λ _. ReadsOnly→KeepsHead handle_get get-ReadsOnly)
    ▹ (λ _. getset-KeepsHead)
    ▹ (λ _. hdel-KeepsHead)
    ▹ (λ _. ReadsOnly→KeepsHead handle_hexists hexists-ReadsOnly)
    ▹ (λ _. ReadsOnly→KeepsHead handle_hget hget-ReadsOnly)
    ▹ (λ _. ReadsOnly→KeepsHead handle_hgetall hgetall-ReadsOnly)
    ▹ (λ _. ReadsOnly→KeepsHead handle_hkeys hkeys-ReadsOnly)
    ▹ (λ _. ReadsOnly→KeepsHead handle_hlen hlen-ReadsOnly)
    ▹ (λ _. hset-KeepsHead)
    ▹ (λ _. ReadsOnly→KeepsHead handle_hvals hvals-ReadsOnly)
    ▹ (λ _. incr-KeepsHead)
    ▹ (λ _. incrby-KeepsHead)
    ▹ (λ _. ReadsOnly→KeepsHead handle_keys keys-ReadsOnly)
    ▹ (λ _. ReadsOnly→KeepsHead handle_lindex lindex-ReadsOnly)
    ▹ (λ _. ReadsOnly→KeepsHead handle_llen llen-ReadsOnly)
    ▹ (λ _. lpop-KeepsHead)
    ▹ (λ _. lpush-KeepsHead)
    ▹ (λ _. ReadsOnly→KeepsHead handle_lrange lrange-ReadsOnly)
    ▹ (λ _. ReadsOnly→KeepsHead handle_mget mget-ReadsOnly)
    ▹ (λ w. absurd (cc))
    ▹ (λ _. persist-KeepsHead)
    ▹ (λ _. pexpire-KeepsHead)
    ▹ (λ _. ReadsOnly→KeepsHead handle_ping ping-ReadsOnly)
    ▹ (λ _. ReadsOnly→KeepsHead handle_pttl pttl-ReadsOnly)
    ▹ (λ w. absurd (cc))
    ▹ (λ _. rpop-KeepsHead)
    ▹ (λ _. rpush-KeepsHead)
    ▹ (λ _. sadd-KeepsHead)
    ▹ (λ _. ReadsOnly→KeepsHead handle_scard scard-ReadsOnly)
    ▹ (λ _. set-KeepsHead)
    ▹ (λ _. ReadsOnly→KeepsHead handle_sinter sinter-ReadsOnly)
    ▹ (λ _. ReadsOnly→KeepsHead handle_sismember sismember-ReadsOnly)
    ▹ (λ _. ReadsOnly→KeepsHead handle_smembers smembers-ReadsOnly)
    ▹ (λ _. srem-KeepsHead)
    ▹ (λ _. ReadsOnly→KeepsHead handle_strlen strlen-ReadsOnly)
    ▹ (λ _. ReadsOnly→KeepsHead handle_sunion sunion-ReadsOnly)
    ▹ (λ _. ReadsOnly→KeepsHead handle_ttl ttl-ReadsOnly)
    ▹ (λ _. ReadsOnly→KeepsHead handle_type type-ReadsOnly)
    ▹ tt
