-- ===== src/Server/Tables.antt =====
-- The tables of the server: the connections, their callbacks and their masks.
use redix.Prelude.{ℕ, suc, ◌-◌, ◌≡◌, Bool, true, false, Option, none, some, arith, length}
use redix.Prelude.Int.{ℤ}
use redix.FlatMap.{FlatMap, find, insert, erase, IsSorted}
use redix.FlatMap.Laws.{
  same, same_iff, find-insert, find-erase, IsSorted-insert, IsSorted-erase, length-insert,
  length-erase,
}
use redix.EventLoop.{EventLoop, EventCallback, client_callback, Events, int_order, remove}
use redix.Client.{Client, is_writing}
use redix.Client.Invariant.{IsClient}
use redix.Server.State.{is_some}

-- Every connection has its callback, every callback of a connection has its connection, and `n` is
-- their number.
pub record IsRegistered (clients : FlatMap ℤ Client) (loop : EventLoop) (n : ℕ) : Type 0 where
  pub sorted_clients : IsSorted clients
  pub sorted_callbacks : IsSorted loop.callbacks_
  pub sorted_armed : IsSorted loop.armed
  pub counted : n ≡ length clients
  pub called :
      (j g : ℤ)
      → find j loop.callbacks_ ≡ some (client_callback g)
      → (g ≡ j) × (is_some (find j clients) ≡ true)
  pub registered :
      (j : ℤ) → is_some (find j clients) ≡ true → find j loop.callbacks_ ≡ some (client_callback j)
  pub kept : (j : ℤ) (c : Client) → find j clients ≡ some c → IsClient c

abbrev pub writes : Option Events → Bool
writes none = false
writes (some e) = e.writable

-- The kernel reports that a connection can be written where a reply waits.
abbrev pub IsArmed : FlatMap ℤ Client → EventLoop → ℤ → Type 0
IsArmed clients loop j =
    (c : Client)
    → find j clients ≡ some c
    → is_writing c.state ≡ true
    → writes (find j loop.armed) ≡ true

abbrev pub AreArmed : FlatMap ℤ Client → EventLoop → Type 0
AreArmed clients loop = (j : ℤ) → IsArmed clients loop j

abbrev pub AreArmedBut : ℤ → FlatMap ℤ Client → EventLoop → Type 0
AreArmedBut fd clients loop = (j : ℤ) → same j fd ≡ false → IsArmed clients loop j

abbrev pub with_callback : ℤ → EventCallback → Events → EventLoop → EventLoop
with_callback fd cb mask loop = record loop {
  callbacks_ = insert fd cb loop.callbacks_;
  armed = insert fd mask loop.armed;
}

module _ (fd : ℤ) (clients : FlatMap ℤ Client) (loop : EventLoop) (n : ℕ)
    (h : IsRegistered clients loop n) where
  pub erase-IsRegistered :
      is_some (find fd clients) ≡ true → IsRegistered (erase fd clients) (remove fd loop) (n - 1)
  unfolding remove
  erase-IsRegistered p = record {
    sorted_clients = IsSorted-erase fd clients h.sorted_clients;
    sorted_callbacks = IsSorted-erase fd loop.callbacks_ h.sorted_callbacks;
    sorted_armed = IsSorted-erase fd loop.armed h.sorted_armed;
    counted = ground (arith, length-erase fd clients, h.counted);
    called = λ j g. ground (
      arith,
      find-erase j fd clients h.sorted_clients,
      find-erase j fd loop.callbacks_ h.sorted_callbacks,
      h.called j g,
    );
    registered = λ j. ground (
      arith,
      find-erase j fd clients h.sorted_clients,
      find-erase j fd loop.callbacks_ h.sorted_callbacks,
      h.registered j,
    );
    kept = λ j c. ground (arith, find-erase j fd clients h.sorted_clients, h.kept j c);
  }

  pub put-IsRegistered :
      (c : Client)
      → is_some (find fd clients) ≡ true
      → IsClient c
      → IsRegistered (insert fd c clients) loop n
  put-IsRegistered c p w = record {
    sorted_clients = IsSorted-insert fd c clients h.sorted_clients;
    sorted_callbacks = h.sorted_callbacks;
    sorted_armed = h.sorted_armed;
    counted = ground (arith, length-insert fd c clients, h.counted);
    called = λ j g. ground (arith, find-insert j fd c clients, h.called j g);
    registered = λ j. ground (arith, find-insert j fd c clients, h.registered j, (same_iff j fd).0);
    kept = λ j d. ground (arith, find-insert j fd c clients, h.kept j d);
  }

  pub modify-IsRegistered :
      (mask : Events)
      → is_some (find fd clients) ≡ true
      → IsRegistered clients (with_callback fd (client_callback fd) mask loop) n
  modify-IsRegistered mask p = record {
    sorted_clients = h.sorted_clients;
    sorted_callbacks = IsSorted-insert fd (client_callback fd) loop.callbacks_ h.sorted_callbacks;
    sorted_armed = IsSorted-insert fd mask loop.armed h.sorted_armed;
    counted = h.counted;
    called = λ j g. ground (
      arith,
      find-insert j fd (client_callback fd) loop.callbacks_,
      h.called j g,
      (same_iff j fd).0,
    );
    registered = λ j. ground (
      arith,
      find-insert j fd (client_callback fd) loop.callbacks_,
      h.registered j,
      (same_iff j fd).0,
    );
    kept = h.kept;
  }

  pub add-IsRegistered :
      (mask : Events) (c : Client)
      → find fd clients ≡ none
      → IsClient c
      → IsRegistered (insert fd c clients) (with_callback fd (client_callback fd) mask loop) (suc n)
  add-IsRegistered mask c p w = record {
    sorted_clients = IsSorted-insert fd c clients h.sorted_clients;
    sorted_callbacks = IsSorted-insert fd (client_callback fd) loop.callbacks_ h.sorted_callbacks;
    sorted_armed = IsSorted-insert fd mask loop.armed h.sorted_armed;
    counted = ground (arith, length-insert fd c clients, h.counted);
    called = λ j g. ground (
      arith,
      find-insert j fd (client_callback fd) loop.callbacks_,
      find-insert j fd c clients,
      h.called j g,
      (same_iff j fd).0,
    );
    registered = λ j. ground (
      arith,
      find-insert j fd (client_callback fd) loop.callbacks_,
      find-insert j fd c clients,
      h.registered j,
      (same_iff j fd).0,
    );
    kept = λ j d. ground (arith, find-insert j fd c clients, h.kept j d);
  }

  -- A callback that is no connection's goes.
  pub remove-IsRegistered : find fd clients ≡ none → IsRegistered clients (remove fd loop) n
  unfolding remove
  remove-IsRegistered p = record {
    sorted_clients = h.sorted_clients;
    sorted_callbacks = IsSorted-erase fd loop.callbacks_ h.sorted_callbacks;
    sorted_armed = IsSorted-erase fd loop.armed h.sorted_armed;
    counted = h.counted;
    called =
        λ j g. ground (arith, find-erase j fd loop.callbacks_ h.sorted_callbacks, h.called j g);
    registered = λ j. ground (
      arith,
      find-erase j fd loop.callbacks_ h.sorted_callbacks,
      h.registered j,
      (same_iff j fd).0,
    );
    kept = h.kept;
  }
