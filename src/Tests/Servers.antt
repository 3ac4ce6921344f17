-- ===== src/Tests/Servers.antt =====
-- Concrete runs: the command line, the descriptors and the server.
use redix.Prelude.{
  ◌+◌, ◌≡◌, ◌≢◌, refl, inl, true, false, none, some, List, [], ◌∷◌, ◌++◌, arith, same_text, Bytes,
  codes,
}
use redix.Prelude.Int.{pos}
use redix.Decimal.{from_chars, from_digits, read_digits}
use redix.FlatMap.{find, insert}
use redix.Fd
use redix.Fd.Ownership.{
  Objects, Operation, construct, construct_from, assign_from, release_object, destroy_object,
  apply_all, places, made, apply_all-places,
}
use redix.Client.{recv_would_block, send_would_block}
use redix.Config.{
  Config, default_config, parsed, parse_port, flag, option, parse_args, parse_config,
}
use redix.Config.Options.{IsConfig, options, parse_config-IsConfig, parse_config-options}
use redix.EventLoop
use redix.EventLoop.{
  int_order, Events, Waited, left, still_running, state_of, ready, wait_interrupted,
  signal_callback, add, deliver,
}
use redix.Server.State.{Server, Answers, inet, new_server}
use redix.Server.Startup.{Startup, setup_signals, start_listening, start}
use redix.Server.Started.{IsReady, start-IsReady}
use redix.Server.Invariant.{IsConsistent}
use redix.Server.Callbacks.{After}
use redix.Server.Run.{FreshRounds, running, run-IsConsistent}
use redix.Server.Shutdown.{IsShut}
use redix.Server.Terminated.{run-IsShut}
use redix.Server.{input_mask, run, run_once, call, accept_client, on_new_connection}
use redix.Main.{exited, main}
use redix.Main.Life.{main-exited}
use redix.Tests.{noon}

abbrev cfg : Config
cfg = record default_config { port = 7000; aof_enabled = true; loglevel = codes "debug" }

cfg-IsConfig : IsConfig cfg
cfg-IsConfig = (omega arith, omega arith, inl refl)

parse_config-options_example : parse_config (codes "redix" ∷ options cfg) ≡ parsed cfg
parse_config-options_example = parse_config-options (codes "redix") cfg cfg-IsConfig

abbrev argv : List Bytes
argv = codes "redix" ∷ codes "--no-rdb" ∷ codes "-p" ∷ codes "65535" ∷ []

argv-parsed :
    parse_config argv ≡ parsed (record default_config { port = 65535; rdb_enabled = false })
unfolding parse_config parse_args flag option same_text parse_port from_chars from_digits
    read_digits
argv-parsed = refl

parse_config-IsConfig_example :
    IsConfig (record default_config { port = 65535; rdb_enabled = false })
parse_config-IsConfig_example =
    parse_config-IsConfig argv (record default_config { port = 65535; rdb_enabled = false })
      argv-parsed

-- Two descriptors: one moves into the object of the other and is released.
abbrev operations : List Operation
operations =
    construct (pos 3)
    ∷ construct (pos 4)
    ∷ assign_from 0 1
    ∷ construct_from 0
    ∷ release_object 2
    ∷ destroy_object 2
    ∷ []

abbrev no_objects : Objects
no_objects = record { objects = []; closed = []; released = [] }

apply_all-places_example :
    places 3 (apply_all operations no_objects) ≡ places 3 no_objects + made 3 operations
apply_all-places_example = apply_all-places 3 operations no_objects

abbrev up : Startup
up = record {
  blocked = true;
  signalfd = pos 4;
  signal_added = none;
  socket = pos 5;
  reused = true;
  address_valid = true;
  bound = true;
  listening = true;
  listen_added = none;
  errno = [];
}

4≢5 : pos 4 ≢ pos 5
4≢5 = λ e. ground arith

up-started : (start up (new_server 0 cfg)).0 ≡ none
unfolding new_server start setup_signals start_listening add Fd.is_open
up-started = refl

start-IsReady_example : IsReady (start up (new_server 0 cfg)).1
start-IsReady_example = start-IsReady 0 cfg up 4≢5 up-started

abbrev live : Server
live = (start up (new_server 0 cfg)).1

-- Two connections arrive; for the second, `epoll_ctl` fails.
abbrev answers : Answers
answers = record {
  clocks = λ n. noon;
  chunks = [];
  recv_end = recv_would_block;
  modified_in = none;
  counts = [];
  send_end = send_would_block;
  modified_out = none;
  accepts =
      record { descriptor = 7; address = inet (codes "10.0.0.1") 999; added = none }
      ∷ record { descriptor = 8; address = inet (codes "10.0.0.2") 998; added = some [] }
      ∷ [];
  signals = false ∷ true ∷ [];
}

abbrev waits : List (Waited Answers)
waits = ready ((pos 5, input_mask, answers) ∷ []) ∷ wait_interrupted ∷ []

waits-fresh : FreshRounds 4 waits (running live)
unfolding new_server start setup_signals start_listening add Fd.is_open find insert run_once
    EventLoop.run_once deliver call on_new_connection accept_client
waits-fresh = (((refl, (refl, tt)), tt), (tt, tt))

run-IsConsistent_example : After (run 4 waits live) (λ r. IsConsistent (state_of r))
run-IsConsistent_example =
    run-IsConsistent 4 waits live waits-fresh start-IsReady_example.consistent

-- The server with the first of the two connections.
abbrev joined : Server
joined = on_new_connection answers.accepts (running live)

joined_lem : run 4 waits live ≡ some (still_running joined)
unfolding new_server start setup_signals start_listening add Fd.is_open find insert run
    EventLoop.run EventLoop.rounds EventLoop.start_running EventLoop.run_once deliver call
    on_new_connection accept_client
joined_lem = refl

joined-signal_called : find joined.signal_fd joined.loop.callbacks_ ≡ some signal_callback
unfolding new_server start setup_signals start_listening add Fd.is_open find insert
    on_new_connection accept_client
joined-signal_called = refl

run-IsShut_example :
    (s : Server) × (run 4
        (waits ++ ready ((joined.signal_fd, input_mask, answers) ∷ []) ∷ waits)
        live
      ≡ some (left s))
    × IsShut s
run-IsShut_example =
    run-IsShut 4 waits input_mask answers waits live joined start-IsReady_example.consistent
      waits-fresh joined_lem joined-signal_called tt

main-exited_example :
    main 4 0 up
      (waits ++ ready ((joined.signal_fd, input_mask, answers) ∷ []) ∷ waits)
      (codes "redix" ∷ options cfg)
    ≡ exited 0 []
main-exited_example =
    main-exited 4 0 up (codes "redix") cfg waits input_mask answers waits joined cfg-IsConfig 4≢5
      up-started waits-fresh joined_lem joined-signal_called tt
