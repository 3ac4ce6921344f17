-- ===== src/Server/Accepting.antt =====
-- New connections keep the tables of the server consistent.
use redix.Prelude.{suc, ◌-◌, ◌≡◌, refl, true, Option, none, some, List, [], ◌∷◌, arith, Bytes}
use redix.Prelude.Int.{ℤ, pos}
use redix.FlatMap.{FlatMap, find, insert, IsSorted}
use redix.FlatMap.Laws.{same_iff, find-insert, find-erase, erase-insert}
use redix.EventLoop.{EventLoop, client_callback, int_order, remove, add}
use redix.Client.{Client, new_client}
use redix.Server.State.{Server, Accepted, remote_addr_string, is_some, or_close}
use redix.Server.Tables.{AreArmed, add-IsRegistered, remove-IsRegistered}
use redix.Server.Armed.{modify-AreArmed}
use redix.Server.Invariant.{IsConsistent, close_client-closed}
use redix.Server.{input_mask, counted, accept_client, on_new_connection}

-- `accept4` returns no descriptor that is open.
abbrev pub AreFresh : List Accepted → Server → Type 0
unfolding accept_client find
AreFresh [] s = Unit
AreFresh (a ∷ accepts) s =
    (find (pos a.descriptor) s.clients_ ≡ none) × AreFresh accepts (accept_client a s)

remove-AreArmed :
    (fd : ℤ) (clients : FlatMap ℤ Client) (loop : EventLoop)
    → find fd clients ≡ none
    → IsSorted loop.armed
    → AreArmed clients loop
    → AreArmed clients (remove fd loop)
unfolding remove
remove-AreArmed fd clients loop f sa h j c =
    ground (arith, find-erase j fd loop.armed sa, h j c, (same_iff j fd).0)

pub remove-IsConsistent :
    (fd : ℤ) (s : Server)
    → find fd s.clients_ ≡ none
    → IsConsistent s
    → IsConsistent (record s { loop = remove fd s.loop })
remove-IsConsistent fd s f (h, a, v) = (
  remove-IsRegistered fd s.clients_ s.loop s.ctx.connected_clients h f,
  remove-AreArmed fd s.clients_ s.loop f h.sorted_armed a,
  v,
)

module _ (fd : ℤ) (addr : Bytes) (s : Server) (f : find fd s.clients_ ≡ none)
    (h : IsConsistent s) where
  added-IsConsistent :
      (added : Option Bytes)
      → IsConsistent (
          or_close fd (add fd input_mask (client_callback fd) added s.loop) (record s {
            clients_ = insert fd (new_client fd addr) s.clients_;
            ctx = counted s.ctx;
          }))
  unfolding add new_client
  added-IsConsistent none = (
    add-IsRegistered fd s.clients_ s.loop s.ctx.connected_clients h.0 input_mask
        (new_client fd addr) f (omega arith, λ l. absurd (omega arith)),
    modify-AreArmed fd s.clients_ s.loop (new_client fd addr) (client_callback fd) input_mask h.1
        (λ e. absurd (cc)),
    h.2,
  )
  added-IsConsistent (some errno) =
      let client = new_client fd addr in
      let taken = record s { clients_ = insert fd client s.clients_; ctx = counted s.ctx } in
      let found : is_some (find fd (insert fd client s.clients_)) ≡ true =
        ground (arith, find-insert fd fd client s.clients_, (same_iff fd fd).1 refl) in
      let back : suc s.ctx.connected_clients - 1 ≡ s.ctx.connected_clients = omega arith in
      rw (close_client-closed fd taken found)
        (rw (erase-insert fd client s.clients_ f, back) (remove-IsConsistent fd s f h))

pub accept_client-IsConsistent :
    (a : Accepted) (s : Server)
    → find (pos a.descriptor) s.clients_ ≡ none
    → IsConsistent s
    → IsConsistent (accept_client a s)
unfolding accept_client
accept_client-IsConsistent a s f h =
    added-IsConsistent (pos a.descriptor) (remote_addr_string a.address) s f h a.added

pub on_new_connection-IsConsistent :
    (accepts : List Accepted) (s : Server)
    → AreFresh accepts s
    → IsConsistent s
    → IsConsistent (on_new_connection accepts s)
unfolding on_new_connection
on_new_connection-IsConsistent [] s f h = h
on_new_connection-IsConsistent (a ∷ accepts) s (f, fs) h =
    on_new_connection-IsConsistent accepts (accept_client a s) fs
      (accept_client-IsConsistent a s f h)
