-- ===== src/EventLoop.antt =====
-- src/event_loop.cpp: the callbacks by descriptor, and the loop that calls them. What `epoll_ctl`
-- and `epoll_wait` return are arguments: `none` is the success of a call, a text is `strerror`.
use redix.Prelude.{
  Bool, true, false, Option, none, some, List, [], ◌∷◌, ◌++◌, if◌then◌else◌, Bytes, codes,
}
use redix.Prelude.Int.{ℤ, ltb_ℤ, ltb_ℤ_irrefl, ltb_ℤ_trans, ltb_ℤ_connex}
use redix.FlatMap.{Less, FlatMap, find, insert, erase}

instance abbrev pub int_order : Less ℤ
int_order = record {
  less = ltb_ℤ;
  less_irrefl = ltb_ℤ_irrefl;
  less_trans = ltb_ℤ_trans;
  less_connex = ltb_ℤ_connex;
}

-- A mask of `EPOLL…` flags, those that the program uses.
pub record Events : Type 0 where
  pub readable : Bool
  pub writable : Bool
  pub failed : Bool
  pub hung_up : Bool
  pub peer_closed : Bool

-- The callbacks that the server passes: what each lambda captures.
pub data EventCallback : Type 0 where
  listen_callback signal_callback : EventCallback
  client_callback : ℤ → EventCallback

-- `armed` is not a field of the class: the masks that the successful calls of `epoll_ctl` set.
pub record EventLoop : Type 0 where
  pub callbacks_ : FlatMap ℤ EventCallback
  pub running_ : Bool
  pub armed : FlatMap ℤ Events

abbrev pub new_loop : EventLoop
new_loop = record { callbacks_ = []; running_ = false; armed = [] }

-- `std::expected<void, std::string>` and the loop.
abbrev pub Changed : Type 0
Changed = Option Bytes × EventLoop

unfoldable pub add : ℤ → Events → EventCallback → Option Bytes → EventLoop → Changed
add fd events cb (some errno) loop = (some (codes "epoll_ctl(ADD): " ++ errno), loop)
add fd events cb none loop = (
  none,
  record loop { callbacks_ = insert fd cb loop.callbacks_; armed = insert fd events loop.armed },
)

unfoldable pub modify : ℤ → Events → EventCallback → Option Bytes → EventLoop → Changed
modify fd events cb (some errno) loop = (some (codes "epoll_ctl(MOD): " ++ errno), loop)
modify fd events cb none loop = (
  none,
  record loop { callbacks_ = insert fd cb loop.callbacks_; armed = insert fd events loop.armed },
)

unfoldable pub remove : ℤ → EventLoop → EventLoop
remove fd loop = record loop { callbacks_ = erase fd loop.callbacks_; armed = erase fd loop.armed }

unfoldable pub stop : EventLoop → EventLoop
stop loop = record loop { running_ = false }

unfoldable pub start_running : EventLoop → EventLoop
start_running loop = record loop { running_ = true }

-- What `epoll_wait` returns: a failure other than `EINTR`, `EINTR`, or the ready descriptors. `A` is
-- what the calls of the kernel inside the callback return.
pub data Waited (A : Type 0) : Type 0 where
  wait_failed wait_interrupted : Waited A
  ready : List (ℤ × Events × A) → Waited A

abbrev pub and_then {ℓ κ} : {A : Type ℓ} → {B : Type κ} → Option A → (A → Option B) → Option B
and_then none f = none
and_then (some a) f = f a

-- How far the loop of `run` has come when the calls of `epoll_wait` that are given are used up: `run`
-- has returned since `running_` is false, or the loop is about to call `epoll_wait` again.
pub data Ran (S : Type 0) : Type 0 where
  left still_running : S → Ran S

abbrev pub state_of : {S : Type 0} → Ran S → S
state_of (left s) = s
state_of (still_running s) = s

-- The callbacks work on the state `S` that the loop is a part of; `none` is an exception.
module _ {S A : Type 0} (loop : S → EventLoop)
    (call : EventCallback → Events → A → S → Option S) where
  abbrev pub call_found : Option EventCallback → Events → A → S → Option S
  call_found none events answers s = some s
  call_found (some cb) events answers s = call cb events answers s

  unfoldable pub deliver : List (ℤ × Events × A) → S → Option S
  deliver [] s = some s
  deliver ((fd, events, answers) ∷ rest) s =
      and_then (call_found (find fd (loop s).callbacks_) events answers s) (deliver rest)

  -- Whether the result is negative, and the state.
  unfoldable pub run_once : Waited A → S → Option (Bool × S)
  unfolding deliver
  run_once wait_failed s = some (true, s)
  run_once wait_interrupted s = some (false, s)
  run_once (ready events) s = and_then (deliver events s) λ s'. some (false, s')

  -- The loop of `run`, for as many rounds as the list has; a real loop goes on without an end as long
  -- as `running_` is true. `put` writes the loop back.
  abbrev pub stopped : (EventLoop → S → S) → Bool × S → S
  stopped put (failed, s) = if failed then put (stop (loop s)) s else s

  unfoldable pub rounds : (EventLoop → S → S) → List (Waited A) → S → Option (Ran S)
  unfolding run_once stop
  rounds put [] s = some (if (loop s).running_ then still_running s else left s)
  rounds put (w ∷ ws) s =
      let more = and_then (run_once w s) λ r. rounds put ws (stopped put r) in
      if (loop s).running_ then more else some (left s)

  unfoldable pub run : (EventLoop → S → S) → List (Waited A) → S → Option (Ran S)
  unfolding rounds start_running
  run put ws s = rounds put ws (put (start_running (loop s)) s)
