-- ===== src/Server/Shutdown.antt =====
-- `shutdown` closes every connection.
use redix.Prelude.{
  ◌≡◌, ◌≢◌, refl, ap, ◌∙◌, inl, inr, Bool, true, false, some, List, [], ◌∷◌, map, length,
  Bool-cases,
}
use mathlib.Core.Path.{subst}
use redix.Prelude.Int.{ℤ}
use redix.FlatMap.{FlatMap, find}
use redix.FlatMap.Laws.{erase-first, find-first}
use redix.EventLoop
use redix.EventLoop.{EventLoop, client_callback, int_order, remove}
use redix.Fd.{is_open}
use redix.Aof
use redix.Client.{Client}
use redix.Server.State.{
  Server, is_some, close_client, close_all, close_listen, close_signal, shutdown,
}
use redix.Server.Invariant.{IsConsistent, close_client-closed, close_any-IsConsistent}
use redix.Server.Accepting.{remove-IsConsistent}

close_all-IsConsistent :
    (fds : List ℤ) (s : Server) → IsConsistent s → IsConsistent (close_all fds s)
unfolding close_all
close_all-IsConsistent [] s h = h
close_all-IsConsistent (fd ∷ fds) s h =
    close_all-IsConsistent fds (close_client fd s) (close_any-IsConsistent fd s h)

-- The keys of the table, in its order.
abbrev keys : FlatMap ℤ Client → List ℤ
keys m = map (λ e. e.0) m

close_all-keys :
    (m : FlatMap ℤ Client) (s : Server) → s.clients_ ≡ m → (close_all (keys m) s).clients_ ≡ []
unfolding close_all
close_all-keys [] s e = e
close_all-keys ((fd, c) ∷ m) s e =
    let found : is_some (find fd s.clients_) ≡ true = rw (e, find-first fd c m) refl in
    let rest : (close_client fd s).clients_ ≡ m =
      rw (close_client-closed fd s found) (rw e (erase-first fd c m)) in
    close_all-keys m (close_client fd s) rest

pub running-IsConsistent :
    (b : Bool) (s : Server)
    → IsConsistent s
    → IsConsistent (record s { loop = record s.loop { running_ = b } })
running-IsConsistent b s (h, a, v) = (
  record {
    sorted_clients = h.sorted_clients;
    sorted_callbacks = h.sorted_callbacks;
    sorted_armed = h.sorted_armed;
    counted = h.counted;
    called = h.called;
    registered = h.registered;
    kept = h.kept;
  },
  a,
  v,
)

none-no_client : (j : ℤ) → is_some (find {V = Client} j []) ≡ false
unfolding find
none-no_client j = refl

close_listen-IsConsistent :
    (s : Server) → s.clients_ ≡ [] → IsConsistent s → IsConsistent (close_listen s)
unfolding close_listen
close_listen-IsConsistent s e h = elim (Bool-cases (is_open s.listen_fd)) [
  | inl o ↦ rw o (remove-IsConsistent s.listen_fd s (rw e (unfold find in refl)) h)
  | inr o ↦ rw o h
]

close_signal-IsConsistent :
    (s : Server) → s.clients_ ≡ [] → IsConsistent s → IsConsistent (close_signal s)
unfolding close_signal
close_signal-IsConsistent s e h = elim (Bool-cases (is_open s.signal_fd)) [
  | inl o ↦ rw o (remove-IsConsistent s.signal_fd s (rw e (unfold find in refl)) h)
  | inr o ↦ rw o h
]

close_listen-clients : (s : Server) → (close_listen s).clients_ ≡ s.clients_
unfolding close_listen
close_listen-clients s = elim (Bool-cases (is_open s.listen_fd)) [
  | inl o ↦ rw o refl
  | inr o ↦ rw o refl
]

close_signal-clients : (s : Server) → (close_signal s).clients_ ≡ s.clients_
unfolding close_signal
close_signal-clients s = elim (Bool-cases (is_open s.signal_fd)) [
  | inl o ↦ rw o refl
  | inr o ↦ rw o refl
]

close_listen-closed : (s : Server) → is_open (close_listen s).listen_fd ≡ false
unfolding close_listen
close_listen-closed s = elim (Bool-cases (is_open s.listen_fd)) [
  | inl o ↦ rw o (unfold is_open in refl)
  | inr o ↦ rw o o
]

close_signal-closed : (s : Server) → is_open (close_signal s).signal_fd ≡ false
unfolding close_signal
close_signal-closed s = elim (Bool-cases (is_open s.signal_fd)) [
  | inl o ↦ rw o (unfold is_open in refl)
  | inr o ↦ rw o o
]

close_signal-listen : (s : Server) → (close_signal s).listen_fd ≡ s.listen_fd
unfolding close_signal
close_signal-listen s = elim (Bool-cases (is_open s.signal_fd)) [
  | inl o ↦ rw o refl
  | inr o ↦ rw o refl
]

-- The state when the connections are closed.
abbrev all_closed : Server → Server
unfolding Aof.close
all_closed s = close_all (keys s.clients_) (record s { aof = (Aof.close s.aof).0 })

pub shutdown-clients : (s : Server) → (shutdown s).clients_ ≡ []
unfolding shutdown
shutdown-clients s =
    close_signal-clients (close_listen (all_closed s))
    ∙ close_listen-clients (all_closed s)
    ∙ close_all-keys s.clients_ (record s { aof = (Aof.close s.aof).0 }) refl

pub shutdown-IsConsistent : (s : Server) → IsConsistent s → IsConsistent (shutdown s)
unfolding shutdown EventLoop.stop
shutdown-IsConsistent s h =
    let logged = record s { aof = (Aof.close s.aof).0 } in
    let empty = close_all-keys s.clients_ logged refl in
    let listen =
      close_listen-IsConsistent (all_closed s) empty
        (close_all-IsConsistent (keys s.clients_) logged h) in
    let r =
      close_signal-IsConsistent (close_listen (all_closed s))
        (close_listen-clients (all_closed s) ∙ empty) listen in
    running-IsConsistent false (close_signal (close_listen (all_closed s))) r

-- What is left when the server is shut down.
pub record IsShut (s : Server) : Type 0 where
  pub no_clients : s.clients_ ≡ []
  pub none_counted : s.ctx.connected_clients ≡ 0
  pub no_callback : (j g : ℤ) → find j s.loop.callbacks_ ≢ some (client_callback g)
  pub listen_closed : is_open s.listen_fd ≡ false
  pub signal_closed : is_open s.signal_fd ≡ false
  pub not_running : s.loop.running_ ≡ false

-- From a consistent state, `shutdown` closes every connection, forgets their callbacks, counts none,
-- closes the listening and the signal descriptor, and stops the loop.
pub shutdown-IsShut : (s : Server) → IsConsistent s → IsShut (shutdown s)
unfolding shutdown EventLoop.stop
shutdown-IsShut s h =
    let empty = shutdown-clients s in
    let after = shutdown-IsConsistent s h in
    record {
      no_clients = empty;
      none_counted = after.0.counted ∙ ap length empty;
      no_callback = λ j g e.
          let found = subst (λ m. is_some (find j m) ≡ true) empty (after.0.called j g e).1 in
          absurd (cc (none-no_client j));
      listen_closed =
          rw (close_signal-listen (close_listen (all_closed s)))
            (close_listen-closed (all_closed s));
      signal_closed = close_signal-closed (close_listen (all_closed s));
      not_running = refl;
    }
