-- ===== src/Server.antt =====
-- src/server.cpp: the callbacks of the server. Each takes what the calls of the kernel return.
-- (`Server/State` has the state, `Server/Startup` the start.)
pub mod State
pub mod Startup
pub mod Tables
pub mod Armed
pub mod Invariant
pub mod Accepting
pub mod Shutdown
pub mod Callbacks
pub mod Run
pub mod Terminated
pub mod Answered
pub mod Started
use redix.Prelude.{
  ℕ, suc, ◌+◌, ◌-◌, Bool, true, false, not, ◌&&◌, ◌||◌, Option, none, some, List, [], ◌∷◌, ◌++◌,
  if◌then◌else◌, Bytes,
}
use redix.Prelude.Int.{ℤ, pos}
use redix.FlatMap.{FlatMap, find, insert}
use redix.Fd.{is_open}
use redix.Aof
use redix.Aof.{Aof}
use redix.Config.{Config}
use redix.Store.Value.{Clock}
use redix.Store.Keyspace.{sweep_expired}
use redix.Client.{
  Client, ClientState, reading, new_client, Session, Readable, returned, uncaught, no_fuel,
  is_writing, on_readable, on_writable,
}
use redix.EventLoop
use redix.EventLoop.{
  EventLoop, Events, EventCallback, listen_callback, signal_callback, client_callback, int_order,
  add, modify, and_then,
}
use redix.Server.State.{
  ServerContext, Server, Accepted, Answers, remote_addr_string, is_some, close_client, or_close,
  shutdown,
}

-- EPOLLIN
abbrev pub input_mask : Events
input_mask = record {
  readable = true;
  writable = false;
  failed = false;
  hung_up = false;
  peer_closed = false;
}

-- EPOLLIN | EPOLLRDHUP
abbrev pub reading_mask : Events
reading_mask = record {
  readable = true;
  writable = false;
  failed = false;
  hung_up = false;
  peer_closed = true;
}

-- EPOLLIN | EPOLLOUT | EPOLLRDHUP
abbrev pub writing_mask : Events
writing_mask = record {
  readable = true;
  writable = true;
  failed = false;
  hung_up = false;
  peer_closed = true;
}

abbrev pub counted : ServerContext → ServerContext
counted ctx = record ctx { connected_clients = suc ctx.connected_clients }

-- One round of the loop of `on_new_connection`.
unfoldable pub accept_client : Accepted → Server → Server
unfolding insert add new_client remote_addr_string close_client
accept_client a s =
    let fd = pos a.descriptor in
    let client = new_client fd (remote_addr_string a.address) in
    or_close fd (add fd input_mask (client_callback fd) a.added s.loop)
      (record s { clients_ = insert fd client s.clients_; ctx = counted s.ctx })

unfoldable pub on_new_connection : List Accepted → Server → Server
unfolding accept_client
on_new_connection [] s = s
on_new_connection (a ∷ accepts) s = on_new_connection accepts (accept_client a s)

abbrev pub is_reading : ClientState → Bool
is_reading reading = true
is_reading _ = false

-- The connection and the data as `on_readable` leaves them.
abbrev pub with_session : ℤ → Session → Server → Server
with_session fd t s = record s { data_ = t.data_; clients_ = insert fd t.client s.clients_ }

-- What `on_client_readable` does behind `on_readable`.
unfoldable pub after_read : ℤ → Option Bytes → Readable → Server → Option Server
unfolding insert modify close_client
after_read fd modified (returned alive t) s =
    let s' = with_session fd t s in
    some (
      if not alive
      then close_client fd s'
      else if is_writing t.client.state
      then or_close fd (modify fd writing_mask (client_callback fd) modified s'.loop) s'
      else s')
after_read fd modified uncaught s = none
after_read fd modified no_fuel s = none

-- What `on_client_writable` does behind `on_writable`.
unfoldable pub after_write : ℤ → Option Bytes → Bool → Client → Server → Server
unfolding insert modify close_client
after_write fd modified alive c s =
    let s' = record s { clients_ = insert fd c s.clients_ } in
    if not alive
    then close_client fd s'
    else if is_reading c.state
    then or_close fd (modify fd reading_mask (client_callback fd) modified s'.loop) s'
    else s'

abbrev pub write_found : ℤ → Answers → Option Client → Server → Server
unfolding after_write on_writable
write_found fd a none s = s
write_found fd a (some c) s =
    let (alive, c', bytes) = on_writable a.counts a.send_end c in
    after_write fd a.modified_out alive c' s

unfoldable pub on_client_writable : ℤ → Answers → Server → Server
unfolding find after_write on_writable
on_client_writable fd a s = write_found fd a (find fd s.clients_) s

unfoldable pub on_signal : List Bool → Server → Server
unfolding shutdown
on_signal [] s = s
on_signal (terminates ∷ signals) s =
    let rest = on_signal signals s in if terminates then shutdown s else rest

unfoldable pub tick_periodic_tasks : Clock → Server → Server
unfolding sweep_expired Aof.is_open Aof.flush
tick_periodic_tasks clock s =
    let swept = record s { data_ = sweep_expired clock s.data_ } in
    if Aof.is_open s.aof then record swept { aof = (Aof.flush s.aof).1 } else swept

abbrev pub loop_of : Server → EventLoop
loop_of s = s.loop

abbrev pub with_loop : EventLoop → Server → Server
with_loop l s = record s { loop = l }

-- `max_elems` is the bound of `std::vector` that the parser meets.
module _ (max_elems : ℕ) where
  abbrev pub read_found : ℤ → Answers → Option Client → Server → Option Server
  unfolding after_read on_readable
  read_found fd a none s = some s
  read_found fd a (some c) s =
      after_read fd a.modified_in
        (on_readable max_elems a.clocks s.aof a.chunks a.recv_end
          (record { client = c; data_ = s.data_; served = 0 }))
        s

  unfoldable pub on_client_readable : ℤ → Answers → Server → Option Server
  unfolding find after_read on_readable
  on_client_readable fd a s = read_found fd a (find fd s.clients_) s

  -- The second half of the lambda of a client.
  abbrev pub write_ready : ℤ → Events → Answers → Server → Option Server
  unfolding find on_client_writable
  write_ready fd events a s =
      some
        (if is_some (find fd s.clients_) && events.writable then on_client_writable fd a s else s)

  unfoldable pub call : EventCallback → Events → Answers → Server → Option Server
  unfolding shutdown on_new_connection on_signal close_client on_client_readable find
      on_client_writable
  call listen_callback events a s =
      some (if events.failed || events.hung_up then shutdown s else on_new_connection a.accepts s)
  call signal_callback events a s =
      some (if events.failed || events.hung_up then shutdown s else on_signal a.signals s)
  call (client_callback fd) events a s =
      if events.failed || events.hung_up || events.peer_closed
      then some (close_client fd s)
      else and_then (if events.readable then on_client_readable fd a s else some s)
          (write_ready fd events a)

  unfoldable pub run_once : EventLoop.Waited Answers → Server → Option (Bool × Server)
  unfolding call EventLoop.run_once
  run_once w s = EventLoop.run_once loop_of call w s

  unfoldable pub run : List (EventLoop.Waited Answers) → Server → Option (EventLoop.Ran Server)
  unfolding call EventLoop.run
  run ws s = EventLoop.run loop_of call with_loop ws s
