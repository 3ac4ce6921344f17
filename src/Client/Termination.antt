-- ===== src/Client/Termination.antt =====
-- The loops of `on_readable` end.
use redix.Prelude.{ℕ, suc, ◌≢◌, ◌<◌, refl, sym, ap, ◌∙◌, List, [], ◌∷◌, ◌++◌, arith, length, Bytes}
use redix.Aof.{Aof}
use redix.Resp.Parser
use redix.Client.{
  Clocks, Session, with_parser, RecvEnd, Drained, waiting, protocol_error, threw, ran_out, Readable,
  no_fuel, settle, drain, on_readable,
}
use redix.Client.Requests.{Requests, requests, requests-ne-ran_out, split-requests}
use redix.Client.Stream.{drained, drain_lem}

drained-ne-ran_out :
    (clocks : Clocks) (aof : Aof) (r : Requests) (s : Session)
    → r.1 ≢ ran_out
    → (drained clocks aof r s).0 ≢ ran_out
drained-ne-ran_out clocks aof (vs, waiting, rest) s h = λ q. cc
drained-ne-ran_out clocks aof (vs, protocol_error, rest) s h = λ q. cc
drained-ne-ran_out clocks aof (vs, threw, rest) s h = λ q. cc
drained-ne-ran_out clocks aof (vs, ran_out, rest) s h = absurd (h refl)

settle-ne-no_fuel :
    (next : Session → Readable) (r : Drained × Session)
    → r.0 ≢ ran_out
    → ((t : Session) → next t ≢ no_fuel)
    → settle next r ≢ no_fuel
settle-ne-no_fuel next (waiting, s) h k = k s
settle-ne-no_fuel next (protocol_error, s) h k = λ q. cc
settle-ne-no_fuel next (threw, s) h k = λ q. cc
settle-ne-no_fuel next (ran_out, s) h k = absurd (h refl)

-- The inner loop of `on_readable` ends: on a buffer of any bytes, fuel for more rounds than the buffer
-- has bytes never runs out. `on_readable` gives it one round more than the buffer has bytes.
pub drain-ne-ran_out :
    (max_elems : ℕ) (clocks : Clocks) (aof : Aof) (f : ℕ) (s : Session)
    → length s.client.parser < f
    → (drain max_elems clocks aof f s).0 ≢ ran_out
drain-ne-ran_out max_elems clocks aof f s h = λ q.
    drained-ne-ran_out clocks aof (requests max_elems s.client.parser) s
      (requests-ne-ran_out max_elems s.client.parser)
      (ap (λ r. (drained clocks aof r s).0) (sym (split-requests max_elems f s.client.parser h))
        ∙ ap (λ p. p.0) (sym (drain_lem max_elems clocks aof f s))
        ∙ q)

-- For finitely many chunks that `recv` delivers, the fuel of `on_readable` does not run out.
pub on_readable-ne-no_fuel :
    (max_elems : ℕ) (clocks : Clocks) (aof : Aof) (chunks : List Bytes) (last : RecvEnd)
    (s : Session)
    → on_readable max_elems clocks aof chunks last s ≢ no_fuel
unfolding on_readable Parser.feed
on_readable-ne-no_fuel max_elems clocks aof [] last s = λ q. cc
on_readable-ne-no_fuel max_elems clocks aof (c ∷ cs) last s =
    let buf = s.client.parser ++ c in
    settle-ne-no_fuel (on_readable max_elems clocks aof cs last) _
      (drain-ne-ran_out max_elems clocks aof (suc (length buf)) (with_parser buf s) (omega arith))
      (λ t. on_readable-ne-no_fuel max_elems clocks aof cs last t)
