-- ===== src/Server/State.antt =====
-- src/server.cpp: the state of the server, the end of a connection, and the end of the server.
use redix.Prelude.{
  ℕ, ◌-◌, Bool, true, false, Option, none, some, List, [], ◌∷◌, ◌++◌, map, ltb, if◌then◌else◌,
  Bytes, codes,
}
use redix.Prelude.Int.{ℤ}
use redix.Decimal.{to_string_unsigned}
use redix.FlatMap.{FlatMap, find, erase}
use redix.Fd.{FileDescriptor, no_fd, is_open}
use redix.Aof
use redix.Aof.{Aof, new_aof}
use redix.Config.{Config}
use redix.Store.Value.{DataMap}
use redix.Client.{Client, Clocks, RecvEnd, SendEnd}
use redix.EventLoop
use redix.EventLoop.{EventLoop, new_loop, int_order, Changed, remove}

-- src/include/command.hpp
pub record ServerContext : Type 0 where
  pub bind_addr : Bytes
  pub port : ℕ
  pub aof_enabled : Bool
  pub db_file_prefix : Bytes
  pub started_at_ms : ℕ
  pub connected_clients : ℕ

-- `data_` is the map of `store_`.
pub record Server : Type 0 where
  pub cfg : Config
  pub data_ : DataMap
  pub aof : Aof
  pub loop : EventLoop
  pub listen_fd : FileDescriptor
  pub signal_fd : FileDescriptor
  pub clients_ : FlatMap ℤ Client
  pub ctx : ServerContext

unfoldable pub new_server : ℕ → Config → Server
new_server now cfg = record {
  cfg = cfg;
  data_ = [];
  aof = new_aof;
  loop = new_loop;
  listen_fd = no_fd;
  signal_fd = no_fd;
  clients_ = [];
  ctx = record {
    bind_addr = cfg.bind_addr;
    port = cfg.port;
    aof_enabled = cfg.aof_enabled;
    db_file_prefix = cfg.db_file_prefix;
    started_at_ms = now;
    connected_clients = 0;
  };
}

-- A peer's address, with the text of `inet_ntop`.
pub data Address : Type 0 where
  inet inet6 : Bytes → ℕ → Address
  other_family : Address

unfoldable pub remote_addr_string : Address → Bytes
unfolding to_string_unsigned
remote_addr_string (inet ip port) = ip ++ (b':' ∷ to_string_unsigned port)
remote_addr_string (inet6 ip port) = ip ++ (b':' ∷ to_string_unsigned port)
remote_addr_string other_family = codes "unknown"

-- A connection that `accept4` returns, and what `epoll_ctl` says to its descriptor.
pub record Accepted : Type 0 where
  pub descriptor : ℕ
  pub address : Address
  pub added : Option Bytes

-- What the kernel answers inside one callback: to `recv`, `send`, `epoll_ctl`, `accept4`, and, for
-- each `read` of the signal descriptor, whether the signal is `SIGINT` or `SIGTERM`.
pub record Answers : Type 0 where
  pub clocks : Clocks
  pub chunks : List Bytes
  pub recv_end : RecvEnd
  pub modified_in : Option Bytes
  pub counts : List ℕ
  pub send_end : SendEnd
  pub modified_out : Option Bytes
  pub accepts : List Accepted
  pub signals : List Bool

abbrev pub is_some {ℓ} : {A : Type ℓ} → Option A → Bool
is_some none = false
is_some (some a) = true

abbrev pub decremented : ServerContext → ServerContext
decremented ctx =
    if ltb 0 ctx.connected_clients
    then record ctx { connected_clients = ctx.connected_clients - 1 }
    else ctx

unfoldable pub close_client : ℤ → Server → Server
unfolding find erase remove
close_client fd s =
    if is_some (find fd s.clients_)
    then record s {
      loop = remove fd s.loop;
      clients_ = erase fd s.clients_;
      ctx = decremented s.ctx;
    }
    else s

-- What follows `loop_.add` or `loop_.modify`.
abbrev pub or_close : ℤ → Changed → Server → Server
or_close fd (none, loop) s = record s { loop = loop }
or_close fd (some e, loop) s = close_client fd (record s { loop = loop })

unfoldable pub close_all : List ℤ → Server → Server
unfolding close_client
close_all [] s = s
close_all (fd ∷ fds) s = close_all fds (close_client fd s)

unfoldable pub close_listen : Server → Server
unfolding is_open remove
close_listen s =
    if is_open s.listen_fd
    then record s { loop = remove s.listen_fd s.loop; listen_fd = no_fd }
    else s

unfoldable pub close_signal : Server → Server
unfolding is_open remove
close_signal s =
    if is_open s.signal_fd
    then record s { loop = remove s.signal_fd s.loop; signal_fd = no_fd }
    else s

abbrev pub stopped : Server → Server
stopped s = record s { loop = EventLoop.stop s.loop }

unfoldable pub shutdown : Server → Server
unfolding close_all close_listen close_signal Aof.close EventLoop.stop
shutdown s =
    let closed = record s { aof = (Aof.close s.aof).0 } in
    stopped (close_signal (close_listen (close_all (map (λ e. e.0) s.clients_) closed)))
