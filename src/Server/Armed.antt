-- ===== src/Server/Armed.antt =====
-- The masks of the connections after updates of the tables.
use redix.Prelude.{◌≡◌, true, false, arith}
use redix.Prelude.Int.{ℤ}
use redix.FlatMap.{FlatMap, find, insert, erase, IsSorted}
use redix.FlatMap.Laws.{same, same_iff, find-insert, find-erase}
use redix.EventLoop.{EventLoop, EventCallback, Events, int_order, remove}
use redix.Client.{Client, is_writing}
use redix.Server.Tables.{writes, AreArmed, AreArmedBut, with_callback}

module _ (fd : ℤ) (clients : FlatMap ℤ Client) (loop : EventLoop) where
  pub AreArmed-but : AreArmed clients loop → AreArmedBut fd clients loop
  AreArmed-but h j e = h j

  pub erase-AreArmed :
      IsSorted clients
      → IsSorted loop.armed
      → AreArmedBut fd clients loop
      → AreArmed (erase fd clients) (remove fd loop)
  unfolding remove
  erase-AreArmed sc sa h j c = ground (
    arith,
    find-erase j fd clients sc,
    find-erase j fd loop.armed sa,
    λ (e : same j fd ≡ false). h j e c,
  )

  pub put-AreArmedBut :
      (c : Client) → AreArmed clients loop → AreArmedBut fd (insert fd c clients) loop
  put-AreArmedBut c h j e d = ground (arith, find-insert j fd c clients, h j d)

  pub put-AreArmed :
      (c : Client)
      → AreArmed clients loop
      → (is_writing c.state ≡ true → writes (find fd loop.armed) ≡ true)
      → AreArmed (insert fd c clients) loop
  put-AreArmed c h w j d = ground (arith, find-insert j fd c clients, h j d, w, (same_iff j fd).0)

  pub modify-AreArmed :
      (c : Client) (cb : EventCallback) (mask : Events)
      → AreArmed clients loop
      → (is_writing c.state ≡ true → mask.writable ≡ true)
      → AreArmed (insert fd c clients) (with_callback fd cb mask loop)
  modify-AreArmed c cb mask h w j d =
      ground (arith, find-insert j fd c clients, find-insert j fd mask loop.armed, h j d, w)
