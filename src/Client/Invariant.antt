-- ===== src/Client/Invariant.antt =====
-- What holds of a connection between the calls of `on_readable` and `on_writable`.
use redix.Prelude.{
  ℕ, suc, zero, ◌+◌, ◌≡◌, ◌≤◌, ◌<◌, refl, true, List, [], ◌∷◌, arith, length, length-append, Bytes,
}
use redix.Aof.{Aof}
use redix.Resp.Value.{
  RespValue, ParseResult, complete, incomplete, error, length_error, out_of_fuel,
}
use redix.Resp.Parser.{feed, try_parse}
use redix.Command.Parse.{CommandResult, command, rejected, parse_command}
use redix.Store.Invariant.{IsValid}
use redix.Command.Dispatch.Invariant.{dispatch-IsValid}
use redix.Client.{
  is_writing, Client, enqueue_response, Clocks, Session, with_parser, RecvEnd, Drained, waiting,
  protocol_error, threw, ran_out, Readable, returned, uncaught, no_fuel, run_command, answer,
  handle_value, round, settle, drain, on_readable, SendEnd, on_writable,
}

-- Where a reply is left to send, the state says so.
abbrev pub IsClient : Client → Type 0
IsClient c =
    (c.write_offset ≤ length c.write_buf)
    × (c.write_offset < length c.write_buf → is_writing c.state ≡ true)

-- A connection, and a well-formed keyspace.
abbrev pub IsSession : Session → Type 0
IsSession s = IsClient s.client × IsValid s.data_

-- Of what `on_readable` returns.
abbrev pub IsKept : Readable → Type 0
IsKept (returned alive s) = IsSession s
IsKept uncaught = Unit
IsKept no_fuel = Unit

enqueue_response-IsClient :
    (bytes : Bytes) (c : Client) → IsClient c → IsClient (enqueue_response bytes c)
unfolding enqueue_response
enqueue_response-IsClient bytes c h =
    (omega (arith, h.0, length-append c.write_buf bytes), λ _. refl)

module _ (max_elems : ℕ) (clocks : Clocks) (aof : Aof) where
  answer-IsSession :
      (r : CommandResult) (s : Session) → IsSession s → IsSession (answer clocks aof r s)
  unfolding run_command
  answer-IsSession (rejected e) s h = (enqueue_response-IsClient e s.client h.0, h.1)
  answer-IsSession (command cmd) s h =
      (enqueue_response-IsClient _ s.client h.0, dispatch-IsValid (clocks s.served) cmd s.data_ h.1)

  handle_value-IsSession :
      (v : RespValue) (s : Session) → IsSession s → IsSession (handle_value clocks aof v s)
  unfolding handle_value
  handle_value-IsSession v s h = answer-IsSession (parse_command v) s h

  round-IsSession :
      (f : ℕ) (r : ParseResult × Bytes) (s : Session)
      → ((t : Session) → IsSession t → IsSession (drain max_elems clocks aof f t).1)
      → IsSession s
      → IsSession (round (handle_value clocks aof) (drain max_elems clocks aof f) s r).1
  round-IsSession f (complete v n, buf) s ih h =
      ih (handle_value clocks aof v (with_parser buf s))
        (handle_value-IsSession v (with_parser buf s) h)
  round-IsSession f (incomplete, buf) s ih h = h
  round-IsSession f (error, buf) s ih h = h
  round-IsSession f (length_error, buf) s ih h = h
  round-IsSession f (out_of_fuel, buf) s ih h = h

  drain-IsSession :
      (f : ℕ) (s : Session) → IsSession s → IsSession (drain max_elems clocks aof f s).1
  unfolding drain
  drain-IsSession zero s h = h
  drain-IsSession (suc f) s h =
      round-IsSession f (try_parse max_elems s.client.parser) s (drain-IsSession f) h

  settle-IsKept :
      (more : List Bytes) (last : RecvEnd) (d : Drained × Session)
      → ((t : Session) → IsSession t → IsKept (on_readable max_elems clocks aof more last t))
      → IsSession d.1
      → IsKept (settle (on_readable max_elems clocks aof more last) d)
  settle-IsKept more last (waiting, s) ih h = ih s h
  settle-IsKept more last (protocol_error, s) ih h = h
  settle-IsKept more last (threw, s) ih h = tt
  settle-IsKept more last (ran_out, s) ih h = tt

  pub on_readable-IsKept :
      (chunks : List Bytes) (last : RecvEnd) (s : Session)
      → IsSession s
      → IsKept (on_readable max_elems clocks aof chunks last s)
  unfolding on_readable
  on_readable-IsKept [] last s h = h
  on_readable-IsKept (c ∷ more) last s h =
      let fed = with_parser (feed s.client.parser c) s in
      let fuel = suc (length fed.client.parser) in
      settle-IsKept more last (drain max_elems clocks aof fuel fed) (on_readable-IsKept more last)
        (drain-IsSession fuel fed h)

pub on_writable-IsClient :
    (counts : List ℕ) (last : SendEnd) (c : Client)
    → (c.write_offset < length c.write_buf → is_writing c.state ≡ true)
    → IsClient (on_writable counts last c).1
unfolding on_writable
on_writable-IsClient [] last c h = ground arith
on_writable-IsClient (zero ∷ ns) last c h = ground arith
on_writable-IsClient (suc n ∷ ns) last c h =
    ground
      (arith, on_writable-IsClient ns last (record c { write_offset = c.write_offset + suc n }))

-- The state is `reading` behind the call, or it is what it was.
pub on_writable-is_writing :
    (counts : List ℕ) (last : SendEnd) (c : Client)
    → is_writing (on_writable counts last c).1.state ≡ true
    → is_writing c.state ≡ true
unfolding on_writable
on_writable-is_writing [] last c h = ground arith
on_writable-is_writing (zero ∷ ns) last c h = ground arith
on_writable-is_writing (suc n ∷ ns) last c h =
    ground
      (arith, on_writable-is_writing ns last (record c { write_offset = c.write_offset + suc n }))
