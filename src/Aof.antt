-- ===== src/Aof.antt =====
-- src/aof.cpp: the append-only file. In this version no operation writes anything, and `open` keeps
-- the descriptor closed. `none` is the success of an operation, a text its error.
use redix.Prelude.{Bool, Option, none, [], List, Bytes}
use redix.Prelude.Int.{ℤ}
use redix.Fd
use redix.Fd.{FileDescriptor, no_fd, move_assign}
use redix.Store.Value.{DataMap}
use redix.Command.Parse.{Command}

pub record Aof : Type 0 where
  pub fd : FileDescriptor
  pub buf : Bytes

-- A default-constructed log.
abbrev pub new_aof : Aof
new_aof = record { fd = no_fd; buf = [] }

unfoldable pub open_log : Aof → Bytes → Option Bytes × Aof
open_log aof path = (none, aof)

-- The log, and what is closed.
unfoldable pub close : Aof → Aof × List ℤ
unfolding move_assign
close aof =
    let (fd, other, closed) = move_assign aof.fd no_fd in (record { fd = fd; buf = [] }, closed)

unfoldable pub append : Aof → Command → Option Bytes × Aof
append aof cmd = (none, aof)

unfoldable pub flush : Aof → Option Bytes × Aof
flush aof = (none, record aof { buf = [] })

unfoldable pub replay : DataMap → Bytes → Option Bytes × DataMap
replay store path = (none, store)

unfoldable pub is_open : Aof → Bool
unfolding Fd.is_open
is_open aof = Fd.is_open aof.fd
