-- ===== src/Main.antt =====
-- src/main.cpp: the entry point.
pub mod Life
use redix.Prelude.{
  ℕ, Option, none, some, List, [], ◌∷◌, ◌++◌, if◌then◌else◌, same_text, Bytes, codes,
}
use redix.Config.{Config, Parsed, parsed, unexpected, parse_config}
use redix.EventLoop.{Waited, Ran, left, still_running}
use redix.Server.{run}
use redix.Server.State.{Server, Answers, new_server}
use redix.Server.Startup.{Startup, start}

-- `std::println`
abbrev pub println : Bytes → Bytes
println s = s ++ (b'\n' ∷ [])

abbrev pub line : Bytes → Bytes → Bytes
line s rest = s ++ (b'\n' ∷ rest)

unfoldable pub print_usage : Bytes
print_usage = line (codes "Usage: ./bin/redix [options]") (
    line (codes "Options:") (
      line (codes "  -h                  Print this help message") (
        line (codes "  -p port             TCP port to listen on. Default: 6379") (
          line (codes "  -b bind_addr        Address to bind to. Default: 127.0.0.1") (
            line (codes "  -d db_file          Path prefix for RDB/AOF files. Default: ./redix") (
              line (codes "  --aof               Enable AOF logging. Default: disabled") (
                line (codes "  --no-rdb            Disable RDB loading on startup") (
                  println (
                    codes
                      "  --loglevel level    Log level: debug | info | warn | error. Default: info")))))))))

-- The exit status and what was printed on `stderr`, the exception that ends the process, or none of
-- these yet: the server waits for the next event.
pub data Exit : Type 0 where
  exited : ℕ → Bytes → Exit
  aborted : Exit
  not_ended : Exit

abbrev pub served : Option (Ran Server) → Exit
served none = aborted
served (some (left s)) = exited 0 []
served (some (still_running s)) = not_ended

-- What the kernel does for the server: the clock, the calls of `start`, and the rounds of the loop.
module _ (max_elems now : ℕ) (up : Startup) (ws : List (Waited Answers)) where
  abbrev pub started : Option Bytes × Server → Exit
  started (some e, s) = exited 1 (println (codes "error: " ++ e))
  started (none, s) = served (run max_elems ws s)

  unfoldable pub serve : Parsed → Exit
  unfolding print_usage same_text start new_server run
  serve (unexpected e) =
      if same_text e (codes "help")
      then exited 0 print_usage
      else exited 1 (print_usage ++ println (codes "error: " ++ e))
  serve (parsed cfg) = started (start up (new_server now cfg))

  unfoldable pub main : List Bytes → Exit
  unfolding parse_config serve
  main argv = serve (parse_config argv)
