-- ===== src/Command/Dispatch/ReadOnly.antt =====
-- The handlers of the commands that only read leave the data as it is.
use redix.Prelude.{◌≡◌, refl, List, [], ◌∷◌, Bytes}
use redix.Store.Value.{DataMap, Clock}
use redix.Command.Reply.{Handler}
use redix.Command.Strings.{handle_get, handle_exists, handle_strlen, handle_mget}
use redix.Command.Expiry.{handle_ttl, handle_pttl}
use redix.Command.Lists.{handle_lrange, handle_llen, handle_lindex}
use redix.Command.Hashes.{
  handle_hget, handle_hgetall, handle_hexists, handle_hlen, handle_hkeys, handle_hvals,
}
use redix.Command.Sets.{
  handle_smembers, handle_sismember, handle_scard, handle_sunion, handle_sinter,
}
use redix.Command.Keyspace.{handle_ping, handle_echo, handle_dbsize, handle_keys, handle_type}

abbrev pub ReadsOnly : Handler → Type 0
ReadsOnly handler = (clock : Clock) (args : List Bytes) (d : DataMap) → (handler clock args d).1 ≡ d

pub get-ReadsOnly : ReadsOnly handle_get
unfolding handle_get
get-ReadsOnly clock (a ∷ []) d = refl
get-ReadsOnly clock _ d = refl

pub exists-ReadsOnly : ReadsOnly handle_exists
unfolding handle_exists
exists-ReadsOnly clock [] d = refl
exists-ReadsOnly clock _ d = refl

pub strlen-ReadsOnly : ReadsOnly handle_strlen
unfolding handle_strlen
strlen-ReadsOnly clock (a ∷ []) d = refl
strlen-ReadsOnly clock _ d = refl

pub mget-ReadsOnly : ReadsOnly handle_mget
unfolding handle_mget
mget-ReadsOnly clock [] d = refl
mget-ReadsOnly clock _ d = refl

pub ttl-ReadsOnly : ReadsOnly handle_ttl
unfolding handle_ttl
ttl-ReadsOnly clock (a ∷ []) d = refl
ttl-ReadsOnly clock _ d = refl

pub pttl-ReadsOnly : ReadsOnly handle_pttl
unfolding handle_pttl
pttl-ReadsOnly clock (a ∷ []) d = refl
pttl-ReadsOnly clock _ d = refl

pub lrange-ReadsOnly : ReadsOnly handle_lrange
unfolding handle_lrange
lrange-ReadsOnly clock (a ∷ b ∷ c ∷ []) d = refl
lrange-ReadsOnly clock _ d = refl

pub llen-ReadsOnly : ReadsOnly handle_llen
unfolding handle_llen
llen-ReadsOnly clock (a ∷ []) d = refl
llen-ReadsOnly clock _ d = refl

pub lindex-ReadsOnly : ReadsOnly handle_lindex
unfolding handle_lindex
lindex-ReadsOnly clock (a ∷ b ∷ []) d = refl
lindex-ReadsOnly clock _ d = refl

pub hget-ReadsOnly : ReadsOnly handle_hget
unfolding handle_hget
hget-ReadsOnly clock (a ∷ b ∷ []) d = refl
hget-ReadsOnly clock _ d = refl

pub hgetall-ReadsOnly : ReadsOnly handle_hgetall
unfolding handle_hgetall
hgetall-ReadsOnly clock (a ∷ []) d = refl
hgetall-ReadsOnly clock _ d = refl

pub hexists-ReadsOnly : ReadsOnly handle_hexists
unfolding handle_hexists
hexists-ReadsOnly clock (a ∷ b ∷ []) d = refl
hexists-ReadsOnly clock _ d = refl

pub hlen-ReadsOnly : ReadsOnly handle_hlen
unfolding handle_hlen
hlen-ReadsOnly clock (a ∷ []) d = refl
hlen-ReadsOnly clock _ d = refl

pub hkeys-ReadsOnly : ReadsOnly handle_hkeys
unfolding handle_hkeys
hkeys-ReadsOnly clock (a ∷ []) d = refl
hkeys-ReadsOnly clock _ d = refl

pub hvals-ReadsOnly : ReadsOnly handle_hvals
unfolding handle_hvals
hvals-ReadsOnly clock (a ∷ []) d = refl
hvals-ReadsOnly clock _ d = refl

pub smembers-ReadsOnly : ReadsOnly handle_smembers
unfolding handle_smembers
smembers-ReadsOnly clock (a ∷ []) d = refl
smembers-ReadsOnly clock _ d = refl

pub sismember-ReadsOnly : ReadsOnly handle_sismember
unfolding handle_sismember
sismember-ReadsOnly clock (a ∷ b ∷ []) d = refl
sismember-ReadsOnly clock _ d = refl

pub scard-ReadsOnly : ReadsOnly handle_scard
unfolding handle_scard
scard-ReadsOnly clock (a ∷ []) d = refl
scard-ReadsOnly clock _ d = refl

pub sunion-ReadsOnly : ReadsOnly handle_sunion
unfolding handle_sunion
sunion-ReadsOnly clock [] d = refl
sunion-ReadsOnly clock _ d = refl

pub sinter-ReadsOnly : ReadsOnly handle_sinter
unfolding handle_sinter
sinter-ReadsOnly clock [] d = refl
sinter-ReadsOnly clock _ d = refl

pub ping-ReadsOnly : ReadsOnly handle_ping
unfolding handle_ping
ping-ReadsOnly clock [] d = refl
ping-ReadsOnly clock (a ∷ []) d = refl
ping-ReadsOnly clock _ d = refl

pub echo-ReadsOnly : ReadsOnly handle_echo
unfolding handle_echo
echo-ReadsOnly clock (a ∷ []) d = refl
echo-ReadsOnly clock _ d = refl

pub dbsize-ReadsOnly : ReadsOnly handle_dbsize
unfolding handle_dbsize
dbsize-ReadsOnly clock [] d = refl
dbsize-ReadsOnly clock _ d = refl

pub keys-ReadsOnly : ReadsOnly handle_keys
unfolding handle_keys
keys-ReadsOnly clock (a ∷ []) d = refl
keys-ReadsOnly clock _ d = refl

pub type-ReadsOnly : ReadsOnly handle_type
unfolding handle_type
type-ReadsOnly clock (a ∷ []) d = refl
type-ReadsOnly clock _ d = refl
