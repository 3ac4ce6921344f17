-- ===== src/Server/Answered.antt =====
-- A callback of a connection answers the commands that have arrived.
use redix.Prelude.{
  ℕ, ◌≡◌, ◌≢◌, refl, sym, inl, inr, true, false, Option, none, some, List, [], ◌++◌, arith, map,
  Bool-cases, Bytes, All,
}
use redix.Prelude.Int.{ℤ}
use redix.FlatMap.{find, insert}
use redix.FlatMap.Laws.{same_iff, find-insert}
use redix.Aof
use redix.Store.Value.{DataMap}
use redix.Command.Parse.{Command}
use redix.EventLoop.{EventLoop, client_callback, int_order, modify}
use redix.Client.{
  Client, is_writing, Clocks, Session, recv_would_block, Readable, returned, uncaught, no_fuel,
  on_readable,
}
use redix.Client.Stream.{concat}
use redix.Client.Pipeline.{
  encode_all, IsSendable, asked, transcript, IsAnswered, on_readable-transcript,
}
use redix.Server.State.{Server, Answers}
use redix.Server.{input_mask, after_read, on_client_readable, write_ready, call}

-- The connection `fd` has the replies queued behind what was queued, the keyspace is `data'`, and
-- every other connection is as it was.
pub record IsReplied (fd : ℤ) (queued : Bytes) (data' : DataMap) (s s' : Server) : Type 0 where
  pub client : Client
  pub found : find fd s'.clients_ ≡ some client
  pub parsed : client.parser ≡ []
  pub replied : client.write_buf ≡ queued
  pub changed : s'.data_ ≡ data'
  pub others : (j : ℤ) → j ≢ fd → find j s'.clients_ ≡ find j s.clients_

-- The session of a connection.
abbrev pub session : Client → Server → Session
session c s = record { client = c; data_ = s.data_; served = 0 }

-- Nothing is written unless the event says so.
not-write_ready :
    (max_elems : ℕ) (fd : ℤ) (a : Answers) (s : Server)
    → write_ready max_elems fd input_mask a s ≡ some s
unfolding write_ready
not-write_ready max_elems fd a s = ground arith

module _ (fd : ℤ) (s : Server) where
  with_session-IsReplied :
      (t : Session) (loop : EventLoop)
      → t.client.parser ≡ []
      → IsReplied fd t.client.write_buf t.data_ s
          (record s { data_ = t.data_; clients_ = insert fd t.client s.clients_; loop = loop })
  with_session-IsReplied t loop e = record {
    client = t.client;
    found = ground (arith, find-insert fd fd t.client s.clients_, (same_iff fd fd).1 refl);
    parsed = e;
    replied = refl;
    changed = refl;
    others = λ j apart.
        ground (
          arith,
          find-insert j fd t.client s.clients_,
          (same_iff j fd).0,
          (same_iff fd j).0,
          apart,
        );
  }

  module _ (clocks : Clocks) (cmds : List Command) (c : Client) where
    abbrev pub IsDone : Option Server → Type 0
    IsDone o =
        (s' : Server) × (o ≡ some s')
        × IsReplied fd (c.write_buf ++ (transcript clocks 0 cmds s.data_).0)
            (transcript clocks 0 cmds s.data_).1 s s'

    after_read-IsReplied :
        (r : Readable) → IsAnswered clocks cmds (session c s) r → IsDone (after_read fd none r s)
    unfolding after_read modify
    after_read-IsReplied uncaught h = absurd h
    after_read-IsReplied no_fuel h = absurd h
    after_read-IsReplied (returned false t) (alive, p, w, d) = absurd (cc)
    after_read-IsReplied (returned true t) (alive, p, w, d) =
        elim (Bool-cases (is_writing t.client.state)) [
          | inl e ↦ rw e (_, refl, rw (sym w, sym d) (with_session-IsReplied t _ p))
          | inr e ↦ rw e (_, refl, rw (sym w, sym d) (with_session-IsReplied t s.loop p))
        ]

  -- When a connection with nothing left to parse becomes readable, the log is closed, and what
  -- arrives, in chunks cut anywhere until `recv` would block, is one sendable command behind the
  -- other, the callback runs each of them once, in order, on the keyspace that the one before left,
  -- and queues the replies in that order behind what was queued, if `epoll_ctl` succeeds; every
  -- other connection stays as it was.
  pub call-IsReplied :
      (max_elems : ℕ) (a : Answers) (cmds : List Command) (c : Client)
      → find fd s.clients_ ≡ some c
      → c.parser ≡ []
      → Aof.is_open s.aof ≡ false
      → All (IsSendable max_elems) cmds
      → concat a.chunks ≡ encode_all (map asked cmds)
      → a.recv_end ≡ recv_would_block
      → a.modified_in ≡ none
      → IsDone a.clocks cmds c (call max_elems (client_callback fd) input_mask a s)
  unfolding call on_client_readable
  call-IsReplied max_elems a cmds c f p quiet h e last m =
      let answered =
        on_readable-transcript max_elems a.clocks s.aof cmds a.chunks (session c s) quiet p h e in
      let (s', done, replied) =
        after_read-IsReplied a.clocks cmds c
          (on_readable max_elems a.clocks s.aof a.chunks recv_would_block (session c s)) answered in
      (
        s',
        rw (f, last, m)
            (rw done (
              not-write_ready max_elems fd
                (record a { recv_end = recv_would_block; modified_in = none }) s')),
        replied,
      )
