-- ===== src/Client.antt =====
-- src/client.cpp: one connection, from the bytes that arrive to the bytes that are sent.
pub mod Requests
pub mod Stream
pub mod Termination
pub mod Pipeline
pub mod Output
pub mod Rounds
pub mod Invariant
use redix.Prelude.{
  ℕ, suc, zero, ◌+◌, Bool, true, false, ◌&&◌, Option, none, some, List, [], ◌∷◌, ◌++◌, ltb,
  if◌then◌else◌, length, take, drop, Bytes,
}
use redix.Fd.{FileDescriptor}
use redix.Aof
use redix.Aof.{Aof}
use redix.Resp.Value.{
  RespValue, ParseResult, complete, incomplete, error, length_error, out_of_fuel,
}
use redix.Resp.Encoder.{resp_error}
use redix.Resp.Parser
use redix.Resp.Parser.{try_parse}
use redix.Store.Value.{DataMap, Clock}
use redix.Command.Parse.{Command, CommandResult, command, rejected, parse_command}
use redix.Command.Dispatch.{dispatch, is_write_command}

pub data ClientState : Type 0 where
  reading writing closing : ClientState

-- `parser` is the buffer of the `RespParser`.
pub record Client : Type 0 where
  pub fd : FileDescriptor
  pub remote_addr : Bytes
  pub state : ClientState
  pub parser : Bytes
  pub write_buf : Bytes
  pub write_offset : ℕ

abbrev pub is_writing : ClientState → Bool
is_writing writing = true
is_writing reading = false
is_writing closing = false

unfoldable pub new_client : FileDescriptor → Bytes → Client
new_client fd remote_addr = record {
  fd = fd;
  remote_addr = remote_addr;
  state = reading;
  parser = [];
  write_buf = [];
  write_offset = 0;
}

unfoldable pub enqueue_response : Bytes → Client → Client
enqueue_response bytes c = record c { write_buf = c.write_buf ++ bytes; state = writing }

-- The readings of the clock during the n-th command that the connection dispatches in a call.
abbrev pub Clocks : Type 0
Clocks = ℕ → Clock

-- What `on_readable` works on: the connection, the data of the store, and the number of commands
-- dispatched so far. (`dispatch` does not change the log or the context.)
pub record Session : Type 0 where
  pub client : Client
  pub data_ : DataMap
  pub served : ℕ

abbrev pub with_parser : Bytes → Session → Session
with_parser buf s = record s { client = record s.client { parser = buf } }

abbrev pub with_response : Bytes → Session → Session
with_response bytes s = record s { client = enqueue_response bytes s.client }

-- The `recv` that ends the loop: `EAGAIN`, the end of the stream, or another error.
pub data RecvEnd : Type 0 where
  recv_would_block recv_closed recv_failed : RecvEnd

-- How the inner loop ends. `ran_out` is the model's own; `threw` is the exception of `try_parse`.
pub data Drained : Type 0 where
  waiting protocol_error threw ran_out : Drained

-- What `on_readable` returns, unless it throws.
pub data Readable : Type 0 where
  returned : Bool → Session → Readable
  uncaught : Readable
  no_fuel : Readable

-- The error of `aof.append`, where it is called.
unfoldable pub append_error : Aof → Command → Option Bytes
unfolding Aof.is_open Aof.append is_write_command
append_error aof cmd =
    if Aof.is_open aof && is_write_command cmd then (Aof.append aof cmd).0 else none

abbrev pub or_error : Option Bytes → Bytes → Bytes
or_error none response = response
or_error (some e) response = resp_error e

abbrev pub stays_open : RecvEnd → Bool
stays_open recv_would_block = true
stays_open recv_closed = false
stays_open recv_failed = false

module _ (clocks : Clocks) (aof : Aof) where
  unfoldable pub run_command : Command → Session → Session
  unfolding append_error
  run_command cmd s =
      let (response, data_) = dispatch (clocks s.served) cmd s.data_ in
      with_response (or_error (append_error aof cmd) response)
        (record s { data_ = data_; served = suc s.served })

  abbrev pub answer : CommandResult → Session → Session
  answer (rejected e) s = with_response e s
  answer (command cmd) s = run_command cmd s

  -- The body of the inner loop behind a complete value.
  unfoldable pub handle_value : RespValue → Session → Session
  unfolding run_command
  handle_value value s = answer (parse_command value) s

-- One round of the inner loop, from what `try_parse` returns and leaves in the buffer.
abbrev pub round :
    (RespValue → Session → Session)
    → (Session → Drained × Session)
    → Session
    → ParseResult × Bytes
    → Drained × Session
round handle next s (complete value consumed, buf) = next (handle value (with_parser buf s))
round handle next s (incomplete, buf) = (waiting, with_parser buf s)
round handle next s (error, buf) = (protocol_error, with_parser (Parser.reset buf) s)
round handle next s (length_error, buf) = (threw, with_parser buf s)
round handle next s (out_of_fuel, buf) = (ran_out, with_parser buf s)

-- What the outer loop does behind the inner one.
abbrev pub settle : (Session → Readable) → Drained × Session → Readable
settle next (waiting, s) = next s
settle next (protocol_error, s) = returned false s
settle next (threw, s) = uncaught
settle next (ran_out, s) = no_fuel

module _ (max_elems : ℕ) (clocks : Clocks) (aof : Aof) where
  -- The inner loop, with one unit of fuel for each round.
  unfoldable pub drain : ℕ → Session → Drained × Session
  unfolding handle_value Parser.reset
  drain zero s = (ran_out, s)
  drain (suc f) s =
      round (handle_value clocks aof) (drain f) s (try_parse max_elems s.client.parser)

  -- The outer loop: what the successive calls of `recv` deliver, and how the last one ends it. That
  -- there is a last one is assumed: a peer that always has more to read would keep the real loop going.
  unfoldable pub on_readable : List Bytes → RecvEnd → Session → Readable
  unfolding drain Parser.feed
  on_readable [] last s = returned (stays_open last) s
  on_readable (bytes ∷ more) last s =
      let fed = with_parser (Parser.feed s.client.parser bytes) s in
      settle (on_readable more last) (drain (suc (length fed.client.parser)) fed)

-- The `send` that ends the loop before everything is sent: `EAGAIN`, or another error.
pub data SendEnd : Type 0 where
  send_would_block send_failed : SendEnd

abbrev pub survives : SendEnd → Bool
survives send_would_block = true
survives send_failed = false

-- The connection when everything is sent.
abbrev pub cleared : Client → Client
cleared c = record c { write_buf = []; write_offset = 0; state = reading }

-- `on_writable`, from what the successive calls of `send` return, 0 included, and the outcome of the
-- call behind them, if the loop comes to it. Returns whether the connection lives on, the
-- connection, and the bytes that were sent.
unfoldable pub on_writable : List ℕ → SendEnd → Client → Bool × Client × Bytes
on_writable [] last c =
    if ltb c.write_offset (length c.write_buf)
    then (survives last, c, [])
    else (true, cleared c, [])
on_writable (zero ∷ counts) last c =
    if ltb c.write_offset (length c.write_buf) then (true, c, []) else (true, cleared c, [])
on_writable (suc n ∷ counts) last c =
    let sent = take (suc n) (drop c.write_offset c.write_buf) in
    let (alive, c', bytes) =
      on_writable counts last (record c { write_offset = c.write_offset + suc n }) in
    if ltb c.write_offset (length c.write_buf)
    then (alive, c', sent ++ bytes)
    else (true, cleared c, [])
