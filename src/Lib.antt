-- ===== src/Lib.antt =====
-- redix, a key-value server that speaks RESP, the protocol of Redis. A client's bytes go through
-- the parser (src/resp.cpp) to a value, through `parse_command` to a command, and through `dispatch`
-- (both src/command.cpp) to a handler, which calls operations of the store (src/store.cpp) and
-- encodes a reply. The connection (src/client.cpp) feeds the parser and queues the reply; the server
-- (src/server.cpp) has the table of connections and the callbacks that the event loop
-- (src/event_loop.cpp) calls. This library models all of it, from the command line to the replies.
--
-- Prelude: Boolean tests, lists and integers over the native numbers, texts as lists of bytes with
--   the order of `std::string`.
-- FlatMap: `std::flat_map` and `std::flat_set` as association lists that are searched by the order
--   of their keys alone (FlatMap/Laws, FlatMap/Values: what lookups find after updates).
-- Decimal: `std::to_string` and `std::from_chars`, for `parse_i64` and `parse_u64`.
-- Resp: `RespValue` and `ParseResult` (Resp/Value), `resp_encode` and the reply builders
--   (Resp/Encoder), `parse_at`, `feed` and `try_parse` (Resp/Parser). Positions in the buffer are the
--   bytes from there on. Proofs in Resp/Parser/Total, Prefix, Stream, and Resp/RoundTrip.
-- Store: the data of `Store` is a `DataMap`, and each member function a function on it: one that
--   takes the exclusive lock returns the new data beside its result, one under the shared lock its
--   result alone. Store/Live has `find_live` and `find_live_mut`; Store/Strings, Expiry, Lists,
--   Hashes, Sets, Glob and Keyspace the operations. Store/View says what a client can see, and
--   Store/Keeps and Store/Invariant what an operation on one key keeps. The other modules below an
--   operation's module are proofs about it; Store/Collection is what hashes and sets share.
-- Command: `parse_command` (Command/Parse), the reply helpers (Command/Reply), the handlers
--   (Command/Strings, Expiry, Lists, Hashes, Sets, Keyspace), `DISPATCH_TABLE`, `dispatch` and
--   `is_write_command` (Command/Dispatch). A handler takes a clock, the arguments and the data, and
--   returns the reply and the new data; Command/Dispatch/ReadOnly, Writers and Tables say what each
--   of them keeps, Command/Strings/Options what a client sees of SET.
-- Config: `parse_config` on the list of arguments (src/config.cpp). Main: the entry point
--   (src/main.cpp), the exit status and what is printed.
-- Fd: `FileDescriptor` (src/fd.cpp); the destructor and the moves return what they close.
--   Fd/Ownership runs operations on several objects. Aof: the stub of src/aof.cpp.
-- Client: one connection (src/client.cpp). `on_readable` takes the chunks that `recv` delivers and how
--   the last `recv` ends, `on_writable` the counts that `send` accepts. Client/Requests is the
--   specification, the values of a whole stream; Client/Stream and Client/Pipeline compare the code
--   with it, Client/Termination is about its fuel, Client/Output and Client/Rounds say what is sent,
--   Client/Invariant what always holds.
-- EventLoop: the callbacks by descriptor, `run_once` and `run` (src/event_loop.cpp). A lambda is the
--   constructor of `EventCallback` that says what it captures; `call` of Server runs it.
-- Server: the state, `close_client` and `shutdown` (Server/State), the callbacks (Server),
--   `setup_signals` and `start` (Server/Startup). Server/Tables, Armed, Invariant, Accepting,
--   Shutdown, Callbacks, Run, Started, Terminated and Answered are proofs. What the kernel answers is
--   an argument: `Answers` for the calls inside one callback, `Startup` for those of `start`,
--   `Waited` for `epoll_wait`. The field `armed` of the loop is no field of the class: it has the
--   masks that the successful calls of `epoll_ctl` set. `none` for a state is an exception.
--   Main/Life puts the parts together.
-- Tests: concrete runs.
--
-- Time: `now_ms()` is a `Clock`, the reading of each call in turn, so that time may pass inside an
-- operation; nothing is assumed of it but what a theorem says.
--
-- Bounds: `std::int64_t` is an integer that is checked against its range where the code checks;
-- `std::uint64_t` sums and products of expiry times wrap modulo 2 ^ 64. A `std::size_t` of a length
-- does not overflow. In `ttl`, the sum that is undefined past the largest `std::int64_t` is taken
-- as exact. `values.reserve` in `parse_at` throws beyond a size that depends on the platform: that
-- size is the parameter `max_elems`, and the exception an outcome of its own, `length_error`.
--
-- Fuel: `parse_at` takes one unit for each level and each element, and `try_parse` gives one more
-- than the buffer has bytes; every array element takes at least one byte. `glob_match` takes one
-- unit for each round, and gets one for each pair of positions. `on_readable` gives the loop over the
-- values of a chunk one unit more than the buffer has bytes. The loops around `recv`, `send`,
-- `accept4`, `read` and `epoll_wait` are recursions on the list of what the calls return: that the
-- kernel at some time has no more to deliver or to accept is assumed, not proved. `rounds` tells
-- whether `run` has returned (`left`) or the list is used up and the loop goes on (`still_running`).
--
-- Not modelled: the mutex (each operation holds it for its whole body, so operations are atomic),
-- the use of `ServerContext` in a handler (none uses it), the failure of an allocation, the calls of
-- the C library and of the kernel, which are arguments, the descriptor of epoll, what the server
-- closes with the objects that it destroys (Fd/Ownership has the class alone), and src/rdb.cpp, which
-- is empty.
pub mod Prelude
pub mod FlatMap
pub mod Decimal
pub mod Resp
pub mod Store
pub mod Command
pub mod Config
pub mod Fd
pub mod Aof
pub mod Client
pub mod EventLoop
pub mod Server
pub mod Main
mod Tests
