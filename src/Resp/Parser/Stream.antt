-- ===== src/Resp/Parser/Stream.antt =====
-- `try_parse` on a buffer that grows.
use redix.Prelude.{
  ℕ, suc, ◌≤◌, ◌≡◌, ◌≢◌, refl, ◌++◌, arith, length, drop, length-append, drop-append_le, Bytes,
}
use redix.Resp.Value.{ParseResult, complete, incomplete, error, length_error, out_of_fuel}
use redix.Resp.Parser.{remaining, try_parse, feed}
use redix.Resp.Parser.Total.{Ends, Within, parse_at-Ends}
use redix.Resp.Parser.Prefix.{Stable, parse_at-Stable}

-- The outcome of `try_parse` on `buf`: never out of fuel; a complete value consumes from one to all
-- of the bytes, and leaves the others; otherwise the buffer stays as it is.
abbrev pub Outcome : Bytes → ParseResult × Bytes → Type 0
Outcome buf (complete v n, rest) = (1 ≤ n) × (n ≤ length buf) × (rest ≡ drop n buf)
Outcome buf (out_of_fuel, rest) = ⊥
Outcome buf (_, rest) = rest ≡ buf

Outcome-remaining :
    (buf : Bytes) (r : ParseResult) → Ends (Within buf) r → Outcome buf (r, remaining buf r)
Outcome-remaining buf (complete v n) h = (h.0, h.1, refl)
Outcome-remaining buf out_of_fuel h = h
Outcome-remaining buf _ h = refl

-- Every call of `try_parse` ends. A complete value consumes at least one byte and no more than the
-- buffer holds, and the bytes behind it stay; any other outcome leaves the buffer unchanged.
pub try_parse_total : (max_elems : ℕ) (buf : Bytes) → Outcome buf (try_parse max_elems buf)
unfolding try_parse
try_parse_total max_elems buf =
    Outcome-remaining buf _ (parse_at-Ends max_elems (suc (length buf)) buf (omega arith))

Stable-remaining :
    (buf more : Bytes) (r r' : ParseResult)
    → Ends (Within buf) r
    → Stable r r'
    → r ≢ incomplete
    → ◌≡◌ {A = ParseResult × Bytes} (r', remaining (buf ++ more) r') (r, remaining buf r ++ more)
Stable-remaining buf more (complete v n) r' h e d = rw (e, drop-append_le n buf more h.1)
Stable-remaining buf more incomplete r' h e d = absurd (d refl)
Stable-remaining buf more out_of_fuel r' h e d = absurd h
Stable-remaining buf more error r' h e d = rw e
Stable-remaining buf more length_error r' h e d = rw e

-- Once `try_parse` has an answer other than `Incomplete`, bytes that arrive later do not change the
-- answer, and are found behind what it left.
pub try_parse-feed :
    (max_elems : ℕ) (buf more : Bytes)
    → (try_parse max_elems buf).0 ≢ incomplete
    → try_parse max_elems (feed buf more)
      ≡ ((try_parse max_elems buf).0, (try_parse max_elems buf).1 ++ more)
unfolding try_parse feed
try_parse-feed max_elems buf more =
    Stable-remaining buf more _ _ (parse_at-Ends max_elems (suc (length buf)) buf (omega arith)) (
      parse_at-Stable max_elems _ _ buf more (omega arith)
        (omega (arith, length-append {0} {A = ℕ} buf more)))
