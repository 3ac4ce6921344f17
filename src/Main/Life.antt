-- ===== src/Main/Life.antt =====
-- The life of the process: from the command line to the signal that ends it.
use redix.Prelude.{ℕ, ◌≡◌, ◌≢◌, refl, Option, none, some, List, [], ◌∷◌, ◌++◌, Bytes}
use redix.Config.{Config}
use redix.Config.Options.{IsConfig, options, parse_config-options}
use redix.EventLoop.{int_order, signal_callback, Events, Waited, ready, left, still_running}
use redix.FlatMap.{find}
use redix.Server.{run}
use redix.Server.Run.{FreshRounds, running}
use redix.Server.State.{Server, Answers, new_server}
use redix.Server.Startup.{Startup, start}
use redix.Server.Started.{start-IsReady}
use redix.Server.Terminated.{IsTerminating, run-IsShut}
use redix.Main.{exited, started, serve, main}

module _ (max_elems now : ℕ) (up : Startup) where
  started-exited :
      (ws : List (Waited Answers)) (r : Option Bytes × Server) (s : Server)
      → r.0 ≡ none
      → run max_elems ws r.1 ≡ some (left s)
      → started max_elems now up ws r ≡ exited 0 []
  started-exited ws (none, t) s e f = rw f refl
  started-exited ws (some m, t) s e f = absurd (cc)

  -- For the options of a valid configuration and a start without an error, with distinct descriptors,
  -- where the loop has come through any rounds, without a descriptor of an open connection from
  -- `accept4`, to a state in which the signal descriptor has its callback: where the next
  -- `epoll_wait` reports the signal descriptor and no other one, and a `SIGINT` or `SIGTERM` is read
  -- from it, `run` returns behind that round, and the process exits with status 0 and prints nothing.
  pub main-exited :
      (name : Bytes) (cfg : Config) (before : List (Waited Answers)) (events : Events) (a : Answers)
      (ws : List (Waited Answers)) (t : Server)
      → IsConfig cfg
      → up.signalfd ≢ up.socket
      → (start up (new_server now cfg)).0 ≡ none
      → FreshRounds max_elems before (running (start up (new_server now cfg)).1)
      → run max_elems before (start up (new_server now cfg)).1 ≡ some (still_running t)
      → find t.signal_fd t.loop.callbacks_ ≡ some signal_callback
      → IsTerminating a.signals
      → main max_elems now up
          (before ++ ready ((t.signal_fd, events, a) ∷ []) ∷ ws)
          (name ∷ options cfg)
        ≡ exited 0 []
  unfolding main serve
  main-exited name cfg before events a ws t w apart h fresh ran f i =
      let s = (start up (new_server now cfg)).1 in
      let r = start-IsReady now cfg up apart h in
      let (s', left_loop, shut) =
        run-IsShut max_elems before events a ws s t r.consistent fresh ran f i in
      rw (parse_config-options name cfg w) (
        started-exited (before ++ ready ((t.signal_fd, events, a) ∷ []) ∷ ws)
          (start up (new_server now cfg)) s' h left_loop)
