-- ===== src/Server/Terminated.antt =====
-- `SIGINT` and `SIGTERM` end the loop.
use mathlib.Core.Path.{subst}
use redix.Prelude.{
  ℕ, ◌≡◌, ◌≢◌, refl, sym, ap, ◌∙◌, inl, inr, Bool, true, false, ◌||◌, Option, none, some, List, [],
  ◌∷◌, ◌++◌, if◌then◌else◌, Bool-cases,
}
use redix.FlatMap.{find}
use redix.EventLoop
use redix.EventLoop.{
  signal_callback, Events, Waited, ready, int_order, call_found, deliver, rounds, run_once, stopped,
  and_then, left, still_running, state_of,
}
use redix.Server.State.{Server, Answers, shutdown}
use redix.Server.Invariant.{IsConsistent}
use redix.Server.Shutdown.{IsShut, shutdown-IsShut}
use redix.Server.Callbacks.{After}
use redix.Server.Run.{running, FreshRounds, run-IsConsistent}
use redix.Server.{on_signal, call, run, loop_of, with_loop}

-- One of the signals that are read is `SIGINT` or `SIGTERM`.
abbrev pub IsTerminating : List Bool → Type 0
IsTerminating [] = ⊥
IsTerminating (true ∷ signals) = Unit
IsTerminating (false ∷ signals) = IsTerminating signals

on_signal-shutdown :
    (signals : List Bool) (s : Server) → IsTerminating signals → on_signal signals s ≡ shutdown s
unfolding on_signal
on_signal-shutdown [] s t = absurd t
on_signal-shutdown (true ∷ signals) s t = refl
on_signal-shutdown (false ∷ signals) s t = on_signal-shutdown signals s t

if-same {ℓ} : {A : Type ℓ} (b : Bool) (x : A) → (if b then x else x) ≡ x
if-same true x = refl
if-same false x = refl

still_running-inj : (s t : Server) → some (still_running s) ≡ some (still_running t) → s ≡ t
still_running-inj s t h = cc

left-ne-still_running : (s t : Server) → some (left s) ≢ some (still_running t)
left-ne-still_running s t = λ h. cc

if-true {ℓ} : {A : Type ℓ} (b : Bool) (x y : A) → b ≡ true → (if b then x else y) ≡ x
if-true true x y e = refl
if-true false x y e = absurd (cc)

if-false {ℓ} : {A : Type ℓ} (b : Bool) (x y : A) → b ≡ false → (if b then x else y) ≡ y
if-false true x y e = absurd (cc)
if-false false x y e = refl

module _ (max_elems : ℕ) where
  rounds_stopped :
      (ws : List (Waited Answers)) (s : Server)
      → s.loop.running_ ≡ false
      → rounds loop_of (call max_elems) with_loop ws s ≡ some (left s)
  unfolding rounds
  rounds_stopped [] s e = rw e refl
  rounds_stopped (w ∷ ws) s e = rw e refl

  -- A loop that goes on behind some rounds does the rounds that follow from the state it came to.
  rounds-append :
      (before ws : List (Waited Answers)) (s t : Server)
      → rounds loop_of (call max_elems) with_loop before s ≡ some (still_running t)
      → (rounds loop_of (call max_elems) with_loop (before ++ ws) s
          ≡ rounds loop_of (call max_elems) with_loop ws t)
        × (t.loop.running_ ≡ true)
  unfolding rounds
  rounds-append [] ws s t h = elim (Bool-cases s.loop.running_) [
    | inl e ↦
        let same : s ≡ t =
          still_running-inj s t
            (sym (ap (λ r. some r) (if-true s.loop.running_ (still_running s) (left s) e)) ∙ h) in
        (
          ap (rounds loop_of (call max_elems) with_loop ws) same,
          ap (λ u. u.loop.running_) (sym same) ∙ e,
        )
    | inr e ↦ absurd (
        left-ne-still_running s t
          (sym (ap (λ r. some r) (if-false s.loop.running_ (still_running s) (left s) e)) ∙ h))
  ]
  rounds-append (w ∷ before) ws s t h = elim (Bool-cases s.loop.running_) [
    | inl e ↦
        let (same, running) =
          by_result (run_once loop_of (call max_elems) w s) (λ u. rounds-append before ws u t)
            (sym (if-true s.loop.running_ _ _ e) ∙ h) in
        (if-true s.loop.running_ _ _ e ∙ same, running)
    | inr e ↦ absurd (left-ne-still_running s t (sym (if-false s.loop.running_ _ _ e) ∙ h))
  ]
    where
      by_result :
          (o : Option (Bool × Server))
          → ((u : Server)
              → rounds loop_of (call max_elems) with_loop before u ≡ some (still_running t)
              → (rounds loop_of (call max_elems) with_loop (before ++ ws) u
                  ≡ rounds loop_of (call max_elems) with_loop ws t)
                × (t.loop.running_ ≡ true))
          → and_then o (λ r.
            rounds loop_of
              (call max_elems)
              with_loop
              before
              (stopped loop_of (call max_elems) with_loop r))
            ≡ some (still_running t)
          → (and_then o (λ r.
                rounds loop_of
                  (call max_elems)
                  with_loop
                  (before ++ ws)
                  (stopped loop_of (call max_elems) with_loop r))
              ≡ rounds loop_of (call max_elems) with_loop ws t)
            × (t.loop.running_ ≡ true)
      by_result none ih k = absurd (cc)
      by_result (some r) ih k = ih (stopped loop_of (call max_elems) with_loop r) k

  -- The round in which the signal descriptor is ready.
  last_round :
      (events : Events) (a : Answers) (ws : List (Waited Answers)) (t : Server)
      → t.loop.running_ ≡ true
      → IsConsistent t
      → find t.signal_fd t.loop.callbacks_ ≡ some signal_callback
      → IsTerminating a.signals
      → rounds loop_of (call max_elems) with_loop (ready ((t.signal_fd, events, a) ∷ []) ∷ ws) t
        ≡ some (left (shutdown t))
  unfolding rounds run_once deliver call shutdown
  last_round events a ws t e h f i =
      if-true t.loop.running_ _ _ e
      ∙ rw
          (
            f,
            on_signal-shutdown a.signals t i,
            if-same (events.failed || events.hung_up) (shutdown t),
          )
          (rounds_stopped ws (shutdown t) (shutdown-IsShut t h).not_running)

  -- From a consistent state, whose loop has come through any rounds, without a descriptor of an open
  -- connection from `accept4`, to one in which the signal descriptor has its callback: where the next
  -- `epoll_wait` reports that descriptor and no other one, and one of the signals that are read is
  -- `SIGINT` or `SIGTERM`, `run` leaves its loop behind that round, whatever would come next, with
  -- the server shut down.
  pub run-IsShut :
      (before : List (Waited Answers)) (events : Events) (a : Answers) (ws : List (Waited Answers))
      (s t : Server)
      → IsConsistent s
      → FreshRounds max_elems before (running s)
      → run max_elems before s ≡ some (still_running t)
      → find t.signal_fd t.loop.callbacks_ ≡ some signal_callback
      → IsTerminating a.signals
      → (s' : Server) × (run max_elems (before ++ ready ((t.signal_fd, events, a) ∷ []) ∷ ws) s
          ≡ some (left s'))
        × IsShut s'
  unfolding run EventLoop.run EventLoop.start_running
  run-IsShut before events a ws s t h fresh ran f i =
      let consistent : IsConsistent t =
        subst (λ o. After o (λ r. IsConsistent (state_of r))) ran
          (run-IsConsistent max_elems before s fresh h) in
      let (goes_on, e) =
        rounds-append before (ready ((t.signal_fd, events, a) ∷ []) ∷ ws) (running s) t ran in
      (
        shutdown t,
        goes_on ∙ last_round events a ws t e consistent f i,
        shutdown-IsShut t consistent,
      )
