-- ===== src/Server/Run.antt =====
-- The loop of the server keeps its tables consistent.
use redix.Prelude.{ℕ, Bool, true, false, Option, none, some, List, [], ◌∷◌, if◌then◌else◌}
use redix.Prelude.Int.{ℤ}
use redix.FlatMap.{find}
use redix.EventLoop
use redix.EventLoop.{
  EventLoop, EventCallback, client_callback, listen_callback, signal_callback, Events, Waited,
  wait_failed, wait_interrupted, ready, int_order, and_then, call_found, deliver, rounds, stopped,
  Ran, left, still_running, state_of,
}
use redix.Server.State.{Server, Answers, close_client}
use redix.Server.Invariant.{IsConsistent, close_any-IsConsistent}
use redix.Server.Accepting.{AreFresh, on_new_connection-IsConsistent}
use redix.Server.Shutdown.{shutdown-IsConsistent, running-IsConsistent}
use redix.Server.Callbacks.{After, on_client_writable-IsConsistent, on_client_readable-IsConsistent}
use redix.Server.{on_signal, call, write_ready, run, run_once, loop_of, with_loop}

After-and_then {ℓ κ μ} :
    {A : Type ℓ} {B : Type κ} (o : Option A) (f : A → Option B) (P : A → Type μ) (Q : B → Type μ)
    → ((a : A) → P a → After (f a) Q)
    → After o P
    → After (and_then o f) Q
After-and_then none f P Q k h = tt
After-and_then (some a) f P Q k h = k a h

After-pair {ℓ κ μ} :
    {A : Type ℓ} (o : Option A) (P : A → Type κ) (Q : A → Type μ)
    → After o P
    → After o Q
    → After o (λ a. P a × Q a)
After-pair none P Q h k = tt
After-pair (some a) P Q h k = (h, k)

if-After {ℓ κ} :
    {A : Type ℓ} (b : Bool) (o o' : Option A) (P : A → Type κ)
    → After o P
    → After o' P
    → After (if b then o else o') P
if-After true o o' P h k = h
if-After false o o' P h k = k

on_signal-IsConsistent :
    (signals : List Bool) (s : Server) → IsConsistent s → IsConsistent (on_signal signals s)
unfolding on_signal
on_signal-IsConsistent [] s h = h
on_signal-IsConsistent (true ∷ signals) s h = shutdown-IsConsistent s h
on_signal-IsConsistent (false ∷ signals) s h = on_signal-IsConsistent signals s h

if-IsConsistent :
    (b : Bool) (s t : Server) → IsConsistent s → IsConsistent t → IsConsistent (if b then s else t)
if-IsConsistent true s t h k = h
if-IsConsistent false s t h k = k

-- `running_ = true`
abbrev pub running : Server → Server
running s = record s { loop = record s.loop { running_ = true } }

module _ (max_elems : ℕ) where
  write_ready-IsConsistent :
      (fd : ℤ) (events : Events) (a : Answers) (s : Server)
      → IsConsistent s
      → After (write_ready max_elems fd events a s) IsConsistent
  unfolding write_ready
  write_ready-IsConsistent fd events a s h =
      if-IsConsistent _ _ s (on_client_writable-IsConsistent fd a s h) h

  client-IsConsistent :
      (fd : ℤ) (events : Events) (a : Answers) (s : Server)
      → IsConsistent s
      → After (call max_elems (client_callback fd) events a s) IsConsistent
  unfolding call
  client-IsConsistent fd events a s h =
      if-After _ (some (close_client fd s)) _ IsConsistent (close_any-IsConsistent fd s h) (
        After-and_then _ (write_ready max_elems fd events a) IsConsistent IsConsistent
          (write_ready-IsConsistent fd events a)
          (if-After events.readable _ (some s) IsConsistent
            (on_client_readable-IsConsistent max_elems fd a s h) h))

  pub call-IsConsistent :
      (cb : EventCallback) (events : Events) (a : Answers) (s : Server)
      → AreFresh a.accepts s
      → IsConsistent s
      → After (call max_elems cb events a s) IsConsistent
  unfolding call
  call-IsConsistent listen_callback events a s f h =
      if-IsConsistent _ _ _ (shutdown-IsConsistent s h)
        (on_new_connection-IsConsistent a.accepts s f h)
  call-IsConsistent signal_callback events a s f h =
      if-IsConsistent _ _ _ (shutdown-IsConsistent s h) (on_signal-IsConsistent a.signals s h)
  call-IsConsistent (client_callback fd) events a s f h = client-IsConsistent fd events a s h

  -- In every callback, `accept4` returns no descriptor of a connection that is open then.
  abbrev pub FreshEvents : List (ℤ × Events × Answers) → Server → Type 0
  FreshEvents [] s = Unit
  FreshEvents ((fd, events, a) ∷ rest) s =
      AreFresh a.accepts s
      × After (call_found loop_of (call max_elems) (find fd s.loop.callbacks_) events a s)
          (FreshEvents rest)

  abbrev pub FreshWait : Waited Answers → Server → Type 0
  FreshWait wait_failed s = Unit
  FreshWait wait_interrupted s = Unit
  FreshWait (ready events) s = FreshEvents events s

  abbrev pub FreshRounds : List (Waited Answers) → Server → Type 0
  FreshRounds [] s = Unit
  FreshRounds (w ∷ ws) s =
      FreshWait w s
      × After (run_once max_elems w s)
          (λ r. FreshRounds ws (stopped loop_of (call max_elems) with_loop r))

  found-IsConsistent :
      (cb : Option EventCallback) (events : Events) (a : Answers) (s : Server)
      → AreFresh a.accepts s
      → IsConsistent s
      → After (call_found loop_of (call max_elems) cb events a s) IsConsistent
  found-IsConsistent none events a s f h = h
  found-IsConsistent (some cb) events a s f h = call-IsConsistent cb events a s f h

  deliver-IsConsistent :
      (events : List (ℤ × Events × Answers)) (s : Server)
      → FreshEvents events s
      → IsConsistent s
      → After (deliver loop_of (call max_elems) events s) IsConsistent
  unfolding deliver
  deliver-IsConsistent [] s f h = h
  deliver-IsConsistent ((fd, events, a) ∷ rest) s (f, fs) h =
      let o = call_found loop_of (call max_elems) (find fd s.loop.callbacks_) events a s in
      After-and_then o (deliver loop_of (call max_elems) rest)
        (λ t. FreshEvents rest t × IsConsistent t) IsConsistent
        (λ t k. deliver-IsConsistent rest t k.0 k.1)
        (After-pair o (FreshEvents rest) IsConsistent fs
          (found-IsConsistent (find fd s.loop.callbacks_) events a s f h))

  run_once-IsConsistent :
      (w : Waited Answers) (s : Server)
      → FreshWait w s
      → IsConsistent s
      → After (run_once max_elems w s) (λ r. IsConsistent r.1)
  unfolding run_once EventLoop.run_once
  run_once-IsConsistent wait_failed s f h = h
  run_once-IsConsistent wait_interrupted s f h = h
  run_once-IsConsistent (ready events) s f h =
      After-and_then (deliver loop_of (call max_elems) events s) _ IsConsistent
        (λ r. IsConsistent r.1) (λ t k. k) (deliver-IsConsistent events s f h)

  stopped-IsConsistent :
      (r : Bool × Server)
      → IsConsistent r.1
      → IsConsistent (stopped loop_of (call max_elems) with_loop r)
  unfolding EventLoop.stop
  stopped-IsConsistent (true, s) h = running-IsConsistent false s h
  stopped-IsConsistent (false, s) h = h

  ended-IsConsistent :
      (b : Bool) (s : Server)
      → IsConsistent s
      → IsConsistent (state_of (if b then still_running s else left s))
  ended-IsConsistent true s h = h
  ended-IsConsistent false s h = h

  rounds-IsConsistent :
      (ws : List (Waited Answers)) (s : Server)
      → FreshRounds ws s
      → IsConsistent s
      → After (rounds loop_of (call max_elems) with_loop ws s) (λ r. IsConsistent (state_of r))
  unfolding rounds run_once
  rounds-IsConsistent [] s f h = ended-IsConsistent s.loop.running_ s h
  rounds-IsConsistent (w ∷ ws) s (f, fs) h =
      let o = run_once max_elems w s in
      let after = stopped loop_of (call max_elems) with_loop in
      if-After s.loop.running_ _ (some (left s)) (λ r. IsConsistent (state_of r))
        (After-and_then o (λ r. rounds loop_of (call max_elems) with_loop ws (after r))
          (λ r. FreshRounds ws (after r) × IsConsistent r.1) (λ r. IsConsistent (state_of r))
          (λ r k. rounds-IsConsistent ws (after r) k.0 (stopped-IsConsistent r k.1))
          (After-pair o (λ r. FreshRounds ws (after r)) (λ r. IsConsistent r.1) fs
            (run_once-IsConsistent w s f h)))
        h

  -- From a consistent state, whatever the kernel reports and answers, unless `accept4` returns the
  -- descriptor of a connection that is open, the loop leaves a consistent state, whether it goes on or
  -- has returned, if no exception ends it: each connection has its callback and each callback of a connection its connection,
  -- `connected_clients` is their number, the kernel is asked to report that a connection can be
  -- written wherever its state is `writing`, as it is where a reply waits, and the keyspace is
  -- well-formed.
  pub run-IsConsistent :
      (ws : List (Waited Answers)) (s : Server)
      → FreshRounds ws (running s)
      → IsConsistent s
      → After (run max_elems ws s) (λ r. IsConsistent (state_of r))
  unfolding run EventLoop.run EventLoop.start_running
  run-IsConsistent ws s f h = rounds-IsConsistent ws (running s) f (running-IsConsistent true s h)
