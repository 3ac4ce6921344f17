-- ===== src/Server/Startup.antt =====
-- src/server.cpp: `setup_signals` and `start`.
use redix.Prelude.{Bool, not, Option, none, some, ◌++◌, if◌then◌else◌, Bytes, codes}
use redix.Prelude.Int.{ℤ}
use redix.Fd.{is_open, no_fd}
use redix.EventLoop.{listen_callback, signal_callback, int_order, add, Changed}
use redix.Server.State.{Server}
use redix.Server.{input_mask}

-- What the calls return, in their order; `errno` is the text of a failure of any but `epoll_ctl`.
pub record Startup : Type 0 where
  pub blocked : Bool
  pub signalfd : ℤ
  pub signal_added : Option Bytes
  pub socket : ℤ
  pub reused : Bool
  pub address_valid : Bool
  pub bound : Bool
  pub listening : Bool
  pub listen_added : Option Bytes
  pub errno : Bytes

abbrev pub signal_registered : Changed → Server → Server
signal_registered (none, loop) s = record s { loop = loop }
signal_registered (some e, loop) s = record s { loop = loop; signal_fd = no_fd }

unfoldable pub setup_signals : Startup → Server → Server
unfolding is_open add
setup_signals up s =
    let owned = record s { signal_fd = up.signalfd } in
    let added = add up.signalfd input_mask signal_callback up.signal_added s.loop in
    if not up.blocked
    then s
    else if is_open up.signalfd
    then signal_registered added owned
    else owned

abbrev pub listen_registered : Changed → Server → Option Bytes × Server
listen_registered (e, loop) s = (e, record s { loop = loop })

-- From `listen_fd_ = std::move(fd)` on, up to `loop_.run()`.
unfoldable pub start_listening : Startup → Server → Option Bytes × Server
unfolding add
start_listening up s =
    listen_registered (add up.socket input_mask listen_callback up.listen_added s.loop)
      (record s { listen_fd = up.socket })

-- The error, unless `start` comes to `loop_.run()`.
unfoldable pub start : Startup → Server → Option Bytes × Server
unfolding setup_signals start_listening is_open
start up s =
    let s' = setup_signals up s in
    if not (is_open s'.signal_fd)
    then (some (codes "failed to set up signal handling"), s')
    else if not (is_open up.socket)
    then (some (codes "socket: " ++ up.errno), s')
    else if not up.reused
    then (some (codes "setsockopt(SO_REUSEADDR): " ++ up.errno), s')
    else if not up.address_valid
    then (some (codes "invalid bind address: " ++ s.cfg.bind_addr), s')
    else if not up.bound
    then (some (codes "bind: " ++ up.errno), s')
    else if not up.listening
    then (some (codes "listen: " ++ up.errno), s')
    else start_listening up s'
