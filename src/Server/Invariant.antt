-- ===== src/Server/Invariant.antt =====
-- What holds of the server between its callbacks.
use redix.Prelude.{◌-◌, ◌≡◌, refl, inl, inr, true, Option, none, some, arith, Bool-cases, Bytes}
use redix.Prelude.Int.{ℤ}
use redix.FlatMap.{FlatMap, find, insert, erase}
use redix.FlatMap.Laws.{same_iff, find-insert}
use redix.EventLoop.{client_callback, Events, int_order, remove, modify}
use redix.Store.Invariant.{IsValid}
use redix.Client.{Client, is_writing}
use redix.Client.Invariant.{IsClient}
use redix.Server.State.{Server, ServerContext, is_some, close_client, or_close, decremented}
use redix.Server.Tables.{
  IsRegistered, AreArmed, AreArmedBut, writes, erase-IsRegistered, put-IsRegistered,
  modify-IsRegistered,
}
use redix.Server.Armed.{erase-AreArmed, put-AreArmed, put-AreArmedBut, modify-AreArmed}

abbrev pub IsConsistent : Server → Type 0
IsConsistent s =
    IsRegistered s.clients_ s.loop s.ctx.connected_clients
    × AreArmed s.clients_ s.loop
    × IsValid s.data_

decremented_lem :
    (ctx : ServerContext)
    → decremented ctx ≡ record ctx { connected_clients = ctx.connected_clients - 1 }
decremented_lem ctx = ground arith

pub close_client-closed :
    (fd : ℤ) (s : Server)
    → is_some (find fd s.clients_) ≡ true
    → close_client fd s ≡ record s {
      loop = remove fd s.loop;
      clients_ = erase fd s.clients_;
      ctx = record s.ctx { connected_clients = s.ctx.connected_clients - 1 };
    }
unfolding close_client
close_client-closed fd s p = rw (p, decremented_lem s.ctx) refl

-- A connection that is closed may be one whose mask is not right yet.
pub close_client-IsConsistent :
    (fd : ℤ) (s : Server)
    → IsRegistered s.clients_ s.loop s.ctx.connected_clients
    → is_some (find fd s.clients_) ≡ true
    → AreArmedBut fd s.clients_ s.loop
    → IsValid s.data_
    → IsConsistent (close_client fd s)
close_client-IsConsistent fd s h p a v = rw (close_client-closed fd s p) (
  erase-IsRegistered fd s.clients_ s.loop s.ctx.connected_clients h p,
  erase-AreArmed fd s.clients_ s.loop h.sorted_clients h.sorted_armed a,
  v,
)

-- `close_client` for any descriptor.
pub close_any-IsConsistent :
    (fd : ℤ) (s : Server) → IsConsistent s → IsConsistent (close_client fd s)
close_any-IsConsistent fd s (h, a, v) = elim (Bool-cases (is_some (find fd s.clients_))) [
  | inl p ↦ close_client-IsConsistent fd s h p (λ j e. a j) v
  | inr p ↦ unfold close_client in rw p (h, a, v)
]

is_some-insert :
    (fd : ℤ) (c : Client) (m : FlatMap ℤ Client) → is_some (find fd (insert fd c m)) ≡ true
is_some-insert fd c m = ground (arith, find-insert fd fd c m, (same_iff fd fd).1 refl)

-- What follows `loop_.modify`, when the mask is right for the connection.
pub modified-IsConsistent :
    (fd : ℤ) (c : Client) (mask : Events) (result : Option Bytes) (s : Server)
    → IsConsistent s
    → is_some (find fd s.clients_) ≡ true
    → IsClient c
    → (is_writing c.state ≡ true → mask.writable ≡ true)
    → IsConsistent (
        or_close fd
          (modify fd mask (client_callback fd) result s.loop)
          (record s { clients_ = insert fd c s.clients_ }))
unfolding modify
modified-IsConsistent fd c mask none s (h, a, v) p w e =
    let n = s.ctx.connected_clients in
    (
      modify-IsRegistered fd (insert fd c s.clients_) s.loop n
          (put-IsRegistered fd s.clients_ s.loop n h c p w) mask (is_some-insert fd c s.clients_),
      modify-AreArmed fd s.clients_ s.loop c (client_callback fd) mask a e,
      v,
    )
modified-IsConsistent fd c mask (some errno) s (h, a, v) p w e =
    close_client-IsConsistent fd (record s { clients_ = insert fd c s.clients_ })
      (put-IsRegistered fd s.clients_ s.loop s.ctx.connected_clients h c p w)
      (is_some-insert fd c s.clients_) (put-AreArmedBut fd s.clients_ s.loop c a) v

-- `c` is what `on_readable` or `on_writable` makes of the connection.
module _ (fd : ℤ) (c : Client) (s : Server) (h : IsConsistent s)
    (p : is_some (find fd s.clients_) ≡ true) (w : IsClient c) where
  pub put_close-IsConsistent :
      IsConsistent (close_client fd (record s { clients_ = insert fd c s.clients_ }))
  put_close-IsConsistent =
      close_client-IsConsistent fd (record s { clients_ = insert fd c s.clients_ })
        (put-IsRegistered fd s.clients_ s.loop s.ctx.connected_clients h.0 c p w)
        (is_some-insert fd c s.clients_) (put-AreArmedBut fd s.clients_ s.loop c h.1) h.2

  pub put_keep-IsConsistent :
      (is_writing c.state ≡ true → writes (find fd s.loop.armed) ≡ true)
      → IsConsistent (record s { clients_ = insert fd c s.clients_ })
  put_keep-IsConsistent e = (
    put-IsRegistered fd s.clients_ s.loop s.ctx.connected_clients h.0 c p w,
    put-AreArmed fd s.clients_ s.loop c h.1 e,
    h.2,
  )
