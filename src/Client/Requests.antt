-- ===== src/Client/Requests.antt =====
-- The stream of bytes that a client sends, cut into values.
use mathlib.Core.Path.{subst}
use redix.Prelude.{
  ℕ, suc, zero, ◌≡◌, ◌≢◌, ◌<◌, refl, sym, ap, ◌∙◌, List, [], ◌∷◌, ◌++◌, arith, length, length-drop,
  length-append, Bytes,
}
use redix.Resp.Value.{
  RespValue, ParseResult, complete, incomplete, error, length_error, out_of_fuel,
}
use redix.Resp.Parser.{try_parse, feed}
use redix.Resp.Parser.Stream.{Outcome, try_parse_total, try_parse-feed}
use redix.Client.{Drained, waiting, protocol_error, threw, ran_out}

-- The complete values at the front of a stream, what stopped the parser behind them, and the bytes
-- from there on.
abbrev pub Requests : Type 0
Requests = List RespValue × Drained × Bytes

abbrev pub before : RespValue → Requests → Requests
before v (vs, ending, rest) = (v ∷ vs, ending, rest)

abbrev pub after : List RespValue → Requests → Requests
after us (vs, ending, rest) = (us ++ vs, ending, rest)

-- The outcome of one `try_parse`, with the stream behind a complete value.
abbrev pub one_then : (Bytes → Requests) → ParseResult × Bytes → Requests
one_then next (complete v n, rest) = before v (next rest)
one_then next (incomplete, rest) = ([], waiting, rest)
one_then next (error, rest) = ([], protocol_error, rest)
one_then next (length_error, rest) = ([], threw, rest)
one_then next (out_of_fuel, rest) = ([], ran_out, rest)

module _ (max_elems : ℕ) where
  unfoldable pub split : ℕ → Bytes → Requests
  split zero buf = ([], ran_out, buf)
  split (suc f) buf = one_then (split f) (try_parse max_elems buf)

  unfoldable pub requests : Bytes → Requests
  unfolding split
  requests buf = split (suc (length buf)) buf

  -- A complete value leaves fewer bytes.
  shorter :
      (buf rest : Bytes) (v : RespValue) (n : ℕ)
      → try_parse max_elems buf ≡ (complete v n, rest)
      → length rest < length buf
  shorter buf rest v n e =
      let (pos, le, r) = subst (Outcome buf) e (try_parse_total max_elems buf) in
      rw r (omega (arith, length-drop n buf))

  one_then_eq :
      (f g : Bytes → Requests) (r : ParseResult × Bytes)
      → ((v : RespValue) (n : ℕ) (rest : Bytes) → r ≡ (complete v n, rest) → f rest ≡ g rest)
      → one_then f r ≡ one_then g r
  one_then_eq f g (complete v n, rest) h = ap (before v) (h v n rest refl)
  one_then_eq f g (incomplete, rest) h = refl
  one_then_eq f g (error, rest) h = refl
  one_then_eq f g (length_error, rest) h = refl
  one_then_eq f g (out_of_fuel, rest) h = refl

  split_enough :
      (f g : ℕ) (buf : Bytes) → length buf < f → length buf < g → split f buf ≡ split g buf
  unfolding split
  split_enough zero g buf h k = absurd (omega arith)
  split_enough (suc f) zero buf h k = absurd (omega arith)
  split_enough (suc f) (suc g) buf h k =
      one_then_eq (split f) (split g) (try_parse max_elems buf) λ v n rest e.
        let le = shorter buf rest v n e in split_enough f g rest (omega arith) (omega arith)

  pub split-requests : (f : ℕ) (buf : Bytes) → length buf < f → split f buf ≡ requests buf
  unfolding requests
  split-requests f buf h = split_enough f (suc (length buf)) buf h (omega arith)

  -- What more bytes make of the values so far: a stream that waits goes on with them.
  abbrev pub continued : Requests → Bytes → Requests
  continued (vs, waiting, rest) more = after vs (requests (rest ++ more))
  continued (vs, protocol_error, rest) more = (vs, protocol_error, rest ++ more)
  continued (vs, threw, rest) more = (vs, threw, rest ++ more)
  continued (vs, ran_out, rest) more = (vs, ran_out, rest ++ more)

  continued-before :
      (v : RespValue) (r : Requests) (more : Bytes)
      → continued (before v r) more ≡ before v (continued r more)
  continued-before v (vs, waiting, rest) more = refl
  continued-before v (vs, protocol_error, rest) more = refl
  continued-before v (vs, threw, rest) more = refl
  continued-before v (vs, ran_out, rest) more = refl

  -- `try_parse` with more bytes behind, where it has an answer.
  fed :
      (buf more rest : Bytes) (r : ParseResult)
      → try_parse max_elems buf ≡ (r, rest)
      → r ≢ incomplete
      → try_parse max_elems (buf ++ more) ≡ (r, rest ++ more)
  unfolding feed
  fed buf more rest r e d =
      try_parse-feed max_elems buf more (λ q. d (sym (ap (λ p. p.0) e) ∙ q))
      ∙ ap (λ p. (p.0, p.1 ++ more)) e

  split-append :
      (f : ℕ) (buf more : Bytes)
      → length (buf ++ more) < f
      → split f (buf ++ more) ≡ continued (split f buf) more
  unfolding split
  split-append zero buf more h = absurd (omega arith)
  split-append (suc f) buf more h =
      by_outcome (try_parse max_elems buf) refl (λ rest le. split-append f rest more le)
    where
      by_outcome :
          (r : ParseResult × Bytes)
          → try_parse max_elems buf ≡ r
          → ((rest : Bytes)
              → length (rest ++ more) < f
              → split f (rest ++ more) ≡ continued (split f rest) more)
          → one_then (split f) (try_parse max_elems (buf ++ more))
            ≡ continued (one_then (split f) r) more
      by_outcome (complete v n, rest) e ih =
          ap (one_then (split f)) (fed buf more rest (complete v n) e (λ q. cc))
          ∙ ap (before v) (
              ih rest (
                let le = shorter buf rest v n e in
                omega
                  (arith, length-append {0} {A = ℕ} buf more, length-append {0} {A = ℕ} rest more)))
          ∙ sym (continued-before v (split f rest) more)
      by_outcome (incomplete, rest) e ih =
          split-requests (suc f) (buf ++ more) h
          ∙ ap (λ b. requests (b ++ more))
              (sym (subst (Outcome buf) e (try_parse_total max_elems buf)))
      by_outcome (error, rest) e ih = ap (one_then (split f)) (fed buf more rest error e (λ q. cc))
      by_outcome (length_error, rest) e ih =
          ap (one_then (split f)) (fed buf more rest length_error e (λ q. cc))
      by_outcome (out_of_fuel, rest) e ih =
          ap (one_then (split f)) (fed buf more rest out_of_fuel e (λ q. cc))

  -- The values of a stream that arrives in two parts.
  pub requests-append : (buf more : Bytes) → requests (buf ++ more) ≡ continued (requests buf) more
  requests-append buf more =
      sym (split-requests (suc (length (buf ++ more))) (buf ++ more) (omega arith))
      ∙ split-append (suc (length (buf ++ more))) buf more (omega arith)
      ∙ ap (λ r. continued r more)
          (split-requests (suc (length (buf ++ more))) buf
            (omega (arith, length-append {0} {A = ℕ} buf more)))

  pub requests_step : (buf : Bytes) → requests buf ≡ one_then requests (try_parse max_elems buf)
  unfolding requests split
  requests_step buf =
      one_then_eq (split (length buf)) requests (try_parse max_elems buf) λ v n rest e.
        let le = shorter buf rest v n e in split-requests (length buf) rest (omega arith)

  -- The fuel never runs out.
  split-ne-ran_out : (f : ℕ) (buf : Bytes) → length buf < f → (split f buf).1 ≢ ran_out
  unfolding split
  split-ne-ran_out zero buf h = absurd (omega arith)
  split-ne-ran_out (suc f) buf h =
      by_outcome (try_parse max_elems buf) refl (λ rest le. split-ne-ran_out f rest le)
    where
      by_outcome :
          (r : ParseResult × Bytes)
          → try_parse max_elems buf ≡ r
          → ((rest : Bytes) → length rest < f → (split f rest).1 ≢ ran_out)
          → (one_then (split f) r).1 ≢ ran_out
      by_outcome (complete v n, rest) e ih =
          ih rest (let le = shorter buf rest v n e in omega arith)
      by_outcome (incomplete, rest) e ih = λ q. cc
      by_outcome (error, rest) e ih = λ q. cc
      by_outcome (length_error, rest) e ih = λ q. cc
      by_outcome (out_of_fuel, rest) e ih =
          absurd (subst (Outcome buf) e (try_parse_total max_elems buf))

  pub requests-ne-ran_out : (buf : Bytes) → (requests buf).1 ≢ ran_out
  unfolding requests
  requests-ne-ran_out buf = split-ne-ran_out (suc (length buf)) buf (omega arith)

  -- What a stream waits with is a stream that waits.
  split-waiting :
      (f : ℕ) (buf : Bytes)
      → length buf < f
      → (split f buf).1 ≡ waiting
      → requests (split f buf).2 ≡ ([], waiting, (split f buf).2)
  unfolding split
  split-waiting zero buf h q = absurd (omega arith)
  split-waiting (suc f) buf h q =
      by_outcome (try_parse max_elems buf) refl (λ rest le. split-waiting f rest le) q
    where
      by_outcome :
          (r : ParseResult × Bytes)
          → try_parse max_elems buf ≡ r
          → ((rest : Bytes)
              → length rest < f
              → (split f rest).1 ≡ waiting
              → requests (split f rest).2 ≡ ([], waiting, (split f rest).2))
          → (one_then (split f) r).1 ≡ waiting
          → requests (one_then (split f) r).2 ≡ ([], waiting, (one_then (split f) r).2)
      by_outcome (complete v n, rest) e ih w =
          ih rest (let le = shorter buf rest v n e in omega arith) w
      by_outcome (incomplete, rest) e ih w =
          let same : rest ≡ buf = subst (Outcome buf) e (try_parse_total max_elems buf) in
          ap requests same ∙ requests_step buf ∙ ap (one_then requests) e
      by_outcome (error, rest) e ih w = absurd (cc)
      by_outcome (length_error, rest) e ih w = absurd (cc)
      by_outcome (out_of_fuel, rest) e ih w = absurd (cc)

  pub requests-waiting :
      (buf : Bytes)
      → (requests buf).1 ≡ waiting
      → requests (requests buf).2 ≡ ([], waiting, (requests buf).2)
  unfolding requests
  requests-waiting buf q = split-waiting (suc (length buf)) buf (omega arith) q

  pub requests-incomplete :
      (buf : Bytes) → (try_parse max_elems buf).0 ≡ incomplete → requests buf ≡ ([], waiting, buf)
  requests-incomplete buf q = by_outcome (try_parse max_elems buf) refl q
    where
      by_outcome :
          (r : ParseResult × Bytes)
          → try_parse max_elems buf ≡ r
          → r.0 ≡ incomplete
          → requests buf ≡ ([], waiting, buf)
      by_outcome (complete v n, rest) e w = absurd (cc)
      by_outcome (incomplete, rest) e w =
          requests_step buf
          ∙ ap (one_then requests) e
          ∙ ap (λ b. ([], waiting, b)) (subst (Outcome buf) e (try_parse_total max_elems buf))
      by_outcome (error, rest) e w = absurd (cc)
      by_outcome (length_error, rest) e w = absurd (cc)
      by_outcome (out_of_fuel, rest) e w = absurd (cc)
