-- ===== src/Server/Callbacks.antt =====
-- The callbacks of the server keep its tables consistent.
use redix.Prelude.{
  ℕ, ◌≡◌, refl, inl, inr, Bool, true, false, Option, none, some, arith, Option-cases, Bool-cases,
  Bytes,
}
use redix.Prelude.Int.{ℤ}
use redix.FlatMap.{find}
use redix.EventLoop.{int_order}
use redix.Client.{Client, is_writing, Readable, returned, uncaught, no_fuel, on_writable}
use redix.Client.Invariant.{
  IsClient, IsKept, on_readable-IsKept, on_writable-IsClient, on_writable-is_writing,
}
use redix.Server.State.{Server, Answers, is_some}
use redix.Server.Invariant.{
  IsConsistent, modified-IsConsistent, put_close-IsConsistent, put_keep-IsConsistent,
}
use redix.Server.{
  reading_mask, writing_mask, is_reading, after_read, after_write, on_client_writable,
  on_client_readable,
}

-- What holds of a state, unless there is none.
abbrev pub After {ℓ κ} : {S : Type ℓ} → Option S → (S → Type κ) → Type κ
After none P = Unit
After (some s) P = P s

after_read-IsConsistent :
    (fd : ℤ) (modified : Option Bytes) (r : Readable) (s : Server)
    → IsConsistent s
    → is_some (find fd s.clients_) ≡ true
    → IsKept r
    → After (after_read fd modified r s) IsConsistent
unfolding after_read
after_read-IsConsistent fd modified uncaught s h p k = tt
after_read-IsConsistent fd modified no_fuel s h p k = tt
after_read-IsConsistent fd modified (returned false t) s h p k =
    put_close-IsConsistent fd t.client (record s { data_ = t.data_ }) (h.0, h.1, k.1) p k.0
after_read-IsConsistent fd modified (returned true t) s h p k =
    let s' = record s { data_ = t.data_ } in
    let h' : IsConsistent s' = (h.0, h.1, k.1) in
    elim (Bool-cases (is_writing t.client.state)) [
      | inl e ↦
          rw e (modified-IsConsistent fd t.client writing_mask modified s' h' p k.0 (λ _. refl))
      | inr e ↦ rw e (put_keep-IsConsistent fd t.client s' h' p k.0 (λ e'. absurd (cc)))
    ]

is_reading_lem : (c : Client) → is_reading c.state ≡ true → is_writing c.state ≡ false
is_reading_lem c h = ground arith

after_write-IsConsistent :
    (fd : ℤ) (modified : Option Bytes) (alive : Bool) (c c' : Client) (s : Server)
    → IsConsistent s
    → find fd s.clients_ ≡ some c
    → IsClient c'
    → (is_writing c'.state ≡ true → is_writing c.state ≡ true)
    → IsConsistent (after_write fd modified alive c' s)
unfolding after_write
after_write-IsConsistent fd modified false c c' s h f k e =
    put_close-IsConsistent fd c' s h (rw f refl) k
after_write-IsConsistent fd modified true c c' s h f k e = elim (Bool-cases (is_reading c'.state)) [
  | inl r ↦ rw r (
      modified-IsConsistent fd c' reading_mask modified s h (rw f refl) k
        (λ e'. absurd (cc (is_reading_lem c' r))))
  | inr r ↦ rw r (put_keep-IsConsistent fd c' s h (rw f refl) k (λ e'. h.1 fd c f (e e')))
]

pub on_client_writable-IsConsistent :
    (fd : ℤ) (a : Answers) (s : Server) → IsConsistent s → IsConsistent (on_client_writable fd a s)
unfolding on_client_writable
on_client_writable-IsConsistent fd a s h = elim (Option-cases (find fd s.clients_)) [
  | inl e ↦ rw e h
  | inr (c, e) ↦ rw e (
      after_write-IsConsistent fd a.modified_out (on_writable a.counts a.send_end c).0 c
        (on_writable a.counts a.send_end c).1 s h e
        (on_writable-IsClient a.counts a.send_end c (h.0.kept fd c e).1)
        (on_writable-is_writing a.counts a.send_end c))
]

pub on_client_readable-IsConsistent :
    (max_elems : ℕ) (fd : ℤ) (a : Answers) (s : Server)
    → IsConsistent s
    → After (on_client_readable max_elems fd a s) IsConsistent
unfolding on_client_readable
on_client_readable-IsConsistent max_elems fd a s h = elim (Option-cases (find fd s.clients_)) [
  | inl e ↦ rw e h
  | inr (c, e) ↦ rw e (
      after_read-IsConsistent fd a.modified_in _ s h (rw e refl) (
        on_readable-IsKept max_elems a.clocks s.aof a.chunks a.recv_end
          (record { client = c; data_ = s.data_; served = 0 }) (h.0.kept fd c e, h.2)))
]
