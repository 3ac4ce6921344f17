-- ===== src/Server/Started.antt =====
-- What `start` has set up when it comes to the loop.
use redix.Prelude.{
  ℕ, ◌≡◌, ◌≢◌, refl, sym, ap, ◌∙◌, true, false, Option, none, some, [], arith, Bytes, Bool-cases,
  inl, inr,
}
use redix.Prelude.Int.{ℤ}
use redix.FlatMap.{find, insert, IsSorted}
use redix.FlatMap.Laws.{same_iff, find-insert, IsSorted-insert}
use redix.Fd.{is_open}
use redix.Config.{Config}
use redix.EventLoop.{
  EventLoop, new_loop, EventCallback, client_callback, listen_callback, signal_callback, int_order,
  add,
}
use redix.Server.State.{Server, new_server}
use redix.Server.Tables.{with_callback}
use redix.Server.Invariant.{IsConsistent}
use redix.Server.{input_mask}
use redix.Server.Startup.{Startup, setup_signals, signal_registered, start_listening, start}

find-nil : (j : ℤ) → find {V = EventCallback} j [] ≡ none
unfolding find
find-nil j = refl

-- No connection is there yet.
empty-IsConsistent :
    (s : Server)
    → s.clients_ ≡ []
    → s.ctx.connected_clients ≡ 0
    → IsSorted s.loop.callbacks_
    → IsSorted s.loop.armed
    → ((j g : ℤ) → find j s.loop.callbacks_ ≢ some (client_callback g))
    → s.data_ ≡ []
    → IsConsistent s
unfolding find
empty-IsConsistent s e n sc sa none_called d = (
  record {
    sorted_clients = rw e tt;
    sorted_callbacks = sc;
    sorted_armed = sa;
    counted = rw (e, n) refl;
    called = λ j g f. absurd (none_called j g f);
    registered = λ j. rw e (λ p. absurd (cc));
    kept = λ j c. rw e (λ p. absurd (cc));
  },
  λ j c. rw e (λ p. absurd (cc)),
  rw d (tt, tt),
)

-- The server when it comes to the loop: both descriptors are open and have their callbacks.
pub record IsReady (s : Server) : Type 0 where
  pub consistent : IsConsistent s
  pub signal_open : is_open s.signal_fd ≡ true
  pub listen_open : is_open s.listen_fd ≡ true
  pub signal_called : find s.signal_fd s.loop.callbacks_ ≡ some signal_callback
  pub listen_called : find s.listen_fd s.loop.callbacks_ ≡ some listen_callback

-- The server with both descriptors.
abbrev ready_server : ℤ → ℤ → Server → Server
ready_server signalfd socket s = record s {
  signal_fd = signalfd;
  listen_fd = socket;
  loop =
      with_callback socket listen_callback input_mask
        (with_callback signalfd signal_callback input_mask s.loop);
}

module _ (now : ℕ) (cfg : Config) (signalfd socket : ℤ) (apart : signalfd ≢ socket) where
  ready_server-IsReady :
      is_open signalfd ≡ true
      → is_open socket ≡ true
      → IsReady (ready_server signalfd socket (new_server now cfg))
  unfolding new_server insert
  ready_server-IsReady p q =
      let l = with_callback signalfd signal_callback input_mask new_loop in
      let found = λ (j : ℤ). find-insert j socket listen_callback l.callbacks_ in
      let found' = λ (j : ℤ). find-insert j signalfd signal_callback [] in
      record {
        consistent =
            empty-IsConsistent (ready_server signalfd socket (new_server now cfg)) refl refl
              (IsSorted-insert socket listen_callback l.callbacks_ (tt, tt))
              (IsSorted-insert socket input_mask l.armed (tt, tt))
              (λ j g e. absurd (ground (arith, found j, found' j, find-nil j, e))) refl;
        signal_open = p;
        listen_open = q;
        signal_called = ground (
          arith,
          found signalfd,
          found' signalfd,
          (same_iff signalfd socket).0,
          (same_iff signalfd signalfd).1 refl,
          apart,
        );
        listen_called = ground (arith, found socket, (same_iff socket socket).1 refl);
      }

-- The server when the signals are set up.
abbrev with_signals : Startup → Server → Server
with_signals up s = record s {
  signal_fd = up.signalfd;
  loop = with_callback up.signalfd signal_callback input_mask s.loop;
}

signal_registered-open :
    (up : Startup) (added : Option Bytes) (s : Server)
    → is_open
        (signal_registered
          (add up.signalfd input_mask signal_callback added s.loop)
          (record s { signal_fd = up.signalfd })).signal_fd
      ≡ true
    → signal_registered
        (add up.signalfd input_mask signal_callback added s.loop)
        (record s { signal_fd = up.signalfd })
      ≡ with_signals up s
unfolding add is_open
signal_registered-open up none s e = refl
signal_registered-open up (some errno) s e = absurd (cc)

setup_signals-open :
    (up : Startup) (s : Server)
    → is_open s.signal_fd ≡ false
    → is_open (setup_signals up s).signal_fd ≡ true
    → (is_open up.signalfd ≡ true) × (setup_signals up s ≡ with_signals up s)
unfolding setup_signals
setup_signals-open up s n = elim (Bool-cases up.blocked) [
  | inr b ↦ rw b (λ o. absurd (cc n))
  | inl b ↦ elim (Bool-cases (is_open up.signalfd)) [
    | inl p ↦ rw (b, p) (λ o. (refl, signal_registered-open up up.signal_added s o))
    | inr p ↦ rw (b, p) (λ o. absurd (cc p))
  ]
]

add-none :
    (fd : ℤ) (cb : EventCallback) (added : Option Bytes) (loop : EventLoop)
    → (add fd input_mask cb added loop).0 ≡ none
    → (add fd input_mask cb added loop).1 ≡ with_callback fd cb input_mask loop
unfolding add
add-none fd cb none loop e = refl
add-none fd cb (some errno) loop e = absurd (cc)

start_listening-none :
    (up : Startup) (s : Server)
    → (start_listening up s).0 ≡ none
    → (start_listening up s).1 ≡ record s {
      listen_fd = up.socket;
      loop = with_callback up.socket listen_callback input_mask s.loop;
    }
unfolding start_listening
start_listening-none up s h =
    ap (λ l. record s { listen_fd = up.socket; loop = l })
      (add-none up.socket listen_callback up.listen_added s.loop h)

start-none :
    (up : Startup) (s : Server)
    → (start up s).0 ≡ none
    → (is_open (setup_signals up s).signal_fd ≡ true)
      × (is_open up.socket ≡ true)
      × (start up s ≡ start_listening up (setup_signals up s))
unfolding start
start-none up s h = ground arith

-- When `start`, on a new server, comes to the loop, and the signal and the listening descriptor are
-- not the same, both are open, each has its callback, and the state is consistent.
pub start-IsReady :
    (now : ℕ) (cfg : Config) (up : Startup)
    → up.signalfd ≢ up.socket
    → (start up (new_server now cfg)).0 ≡ none
    → IsReady (start up (new_server now cfg)).1
start-IsReady now cfg up apart h =
    let s = new_server now cfg in
    let (signals, socket, same_start) = start-none up s h in
    let (opened, same_setup) =
      setup_signals-open up s (unfold new_server is_open in refl) signals in
    let listened =
      start_listening-none up (setup_signals up s) (ap (λ r. r.0) (sym same_start) ∙ h) in
    let reached : (start up s).1 ≡ ready_server up.signalfd up.socket s =
      ap (λ r. r.1) same_start ∙ listened ∙ rw same_setup refl in
    rw reached (ready_server-IsReady now cfg up.signalfd up.socket apart opened socket)
