-- ===== src/Client/Stream.antt =====
-- `on_readable` against the stream of bytes, however `recv` cuts it.
use redix.Prelude.{
  ℕ, suc, zero, ◌≡◌, refl, sym, ap, ◌∙◌, Bool, true, false, List, [], ◌∷◌, ◌++◌, arith, length,
  append-nil, append_assoc, Bytes,
}
use redix.Aof.{Aof}
use redix.Resp.Value.{
  RespValue, ParseResult, complete, incomplete, error, length_error, out_of_fuel,
}
use redix.Resp.Parser
use redix.Resp.Parser.{try_parse}
use redix.Command.Parse.{CommandResult, command, rejected, parse_command}
use redix.Client.{
  Clocks, Session, with_parser, RecvEnd, recv_would_block, recv_closed, recv_failed, Drained,
  waiting, protocol_error, threw, ran_out, Readable, returned, uncaught, no_fuel, enqueue_response,
  run_command, answer, handle_value, round, settle, drain, stays_open, on_readable,
}
use redix.Client.Requests.{
  Requests, before, after, one_then, split, requests, continued, split-requests, requests-append,
  requests-waiting, requests-incomplete,
}

-- The bytes of the successive chunks.
abbrev pub concat : List Bytes → Bytes
concat [] = []
concat (c ∷ cs) = c ++ concat cs

-- Whether the last `recv` would have blocked: the peer may still send.
abbrev pub is_blocked : RecvEnd → Bool
is_blocked recv_would_block = true
is_blocked recv_closed = false
is_blocked recv_failed = false

stays_open-is_blocked : (last : RecvEnd) → stays_open last ≡ is_blocked last
stays_open-is_blocked recv_would_block = refl
stays_open-is_blocked recv_closed = refl
stays_open-is_blocked recv_failed = refl

module _ (clocks : Clocks) (aof : Aof) where
  -- Each value is answered before the next.
  unfoldable pub serve_all : List RespValue → Session → Session
  serve_all [] s = s
  serve_all (v ∷ vs) s = serve_all vs (handle_value clocks aof v s)

  -- What `on_readable` returns for a stream.
  abbrev pub finished : RecvEnd → Requests → Session → Readable
  finished last (vs, waiting, rest) s =
      returned (is_blocked last) (with_parser rest (serve_all vs s))
  finished last (vs, protocol_error, rest) s = returned false (with_parser [] (serve_all vs s))
  finished last (vs, threw, rest) s = uncaught
  finished last (vs, ran_out, rest) s = no_fuel

  answer-with_parser :
      (b : Bytes) (r : CommandResult) (s : Session)
      → answer clocks aof r (with_parser b s) ≡ with_parser b (answer clocks aof r s)
  unfolding run_command enqueue_response
  answer-with_parser b (command cmd) s = refl
  answer-with_parser b (rejected e) s = refl

  handle_value-with_parser :
      (b : Bytes) (v : RespValue) (s : Session)
      → handle_value clocks aof v (with_parser b s) ≡ with_parser b (handle_value clocks aof v s)
  unfolding handle_value
  handle_value-with_parser b v s = answer-with_parser b (parse_command v) s

  pub serve_all-with_parser :
      (b : Bytes) (vs : List RespValue) (s : Session)
      → serve_all vs (with_parser b s) ≡ with_parser b (serve_all vs s)
  unfolding serve_all
  serve_all-with_parser b [] s = refl
  serve_all-with_parser b (v ∷ vs) s =
      ap (serve_all vs) (handle_value-with_parser b v s)
      ∙ serve_all-with_parser b vs (handle_value clocks aof v s)

  pub serve_all-append :
      (us vs : List RespValue) (s : Session)
      → serve_all (us ++ vs) s ≡ serve_all vs (serve_all us s)
  unfolding serve_all
  serve_all-append [] vs s = refl
  serve_all-append (u ∷ us) vs s = serve_all-append us vs (handle_value clocks aof u s)

  serve_again :
      (us vs : List RespValue) (rest b : Bytes) (s : Session)
      → with_parser rest (serve_all (us ++ vs) s)
        ≡ with_parser rest (serve_all vs (with_parser b (serve_all us s)))
  serve_again us vs rest b s =
      ap (with_parser rest) (serve_all-append us vs s)
      ∙ ap (with_parser rest) (sym (serve_all-with_parser b vs (serve_all us s)))

  finished-after :
      (last : RecvEnd) (us : List RespValue) (r : Requests) (b : Bytes) (s : Session)
      → finished last (after us r) s ≡ finished last r (with_parser b (serve_all us s))
  finished-after last us (vs, waiting, rest) b s =
      ap (returned (is_blocked last)) (serve_again us vs rest b s)
  finished-after last us (vs, protocol_error, rest) b s =
      ap (returned false) (serve_again us vs [] b s)
  finished-after last us (vs, threw, rest) b s = refl
  finished-after last us (vs, ran_out, rest) b s = refl

  -- What `drain` returns for a stream.
  abbrev pub drained : Requests → Session → Drained × Session
  drained (vs, waiting, rest) s = (waiting, with_parser rest (serve_all vs s))
  drained (vs, protocol_error, rest) s = (protocol_error, with_parser [] (serve_all vs s))
  drained (vs, threw, rest) s = (threw, with_parser rest (serve_all vs s))
  drained (vs, ran_out, rest) s = (ran_out, with_parser rest (serve_all vs s))

  serve_next :
      (v : RespValue) (vs : List RespValue) (rest b : Bytes) (s : Session)
      → with_parser rest (serve_all vs (handle_value clocks aof v (with_parser b s)))
        ≡ with_parser rest (serve_all (v ∷ vs) s)
  unfolding serve_all
  serve_next v vs rest b s =
      ap (λ t. with_parser rest (serve_all vs t)) (handle_value-with_parser b v s)
      ∙ sym (serve_again (v ∷ []) vs rest b s)

  drained-before :
      (v : RespValue) (r : Requests) (b : Bytes) (s : Session)
      → drained r (handle_value clocks aof v (with_parser b s)) ≡ drained (before v r) s
  drained-before v (vs, waiting, rest) b s = ap (λ t. (waiting, t)) (serve_next v vs rest b s)
  drained-before v (vs, protocol_error, rest) b s =
      ap (λ t. (protocol_error, t)) (serve_next v vs [] b s)
  drained-before v (vs, threw, rest) b s = ap (λ t. (threw, t)) (serve_next v vs rest b s)
  drained-before v (vs, ran_out, rest) b s = ap (λ t. (ran_out, t)) (serve_next v vs rest b s)

  handle_value-parser :
      (v : RespValue) (b : Bytes) (s : Session)
      → (handle_value clocks aof v (with_parser b s)).client.parser ≡ b
  handle_value-parser v b s = ap (λ t. t.client.parser) (handle_value-with_parser b v s)

module _ (max_elems : ℕ) (clocks : Clocks) (aof : Aof) where
  pub drain_lem :
      (f : ℕ) (s : Session)
      → drain max_elems clocks aof f s ≡ drained clocks aof (split max_elems f s.client.parser) s
  unfolding drain split serve_all Parser.reset
  drain_lem zero s = refl
  drain_lem (suc f) s = by_outcome (try_parse max_elems s.client.parser) (drain_lem f)
    where
      by_outcome :
          (r : ParseResult × Bytes)
          → ((t : Session)
              → drain max_elems clocks aof f t
                ≡ drained clocks aof (split max_elems f t.client.parser) t)
          → round (handle_value clocks aof) (drain max_elems clocks aof f) s r
            ≡ drained clocks aof (one_then (split max_elems f) r) s
      by_outcome (complete v n, b) ih =
          ih (handle_value clocks aof v (with_parser b s))
          ∙ ap
              (λ c.
                drained clocks aof (split max_elems f c)
                  (handle_value clocks aof v (with_parser b s)))
              (handle_value-parser clocks aof v b s)
          ∙ drained-before clocks aof v (split max_elems f b) b s
      by_outcome (incomplete, b) ih = refl
      by_outcome (error, b) ih = refl
      by_outcome (length_error, b) ih = refl
      by_outcome (out_of_fuel, b) ih = refl

  abbrev IsWaiting : Bytes → Type 0
  IsWaiting buf = requests max_elems buf ≡ ([], waiting, buf)

  -- One chunk, and the ones behind it.
  chunk_lem :
      (last : RecvEnd) (next : Session → Readable) (tail : Bytes) (r : Requests) (s : Session)
      → (r.1 ≡ waiting → IsWaiting r.2)
      → ((t : Session)
          → IsWaiting t.client.parser
          → next t ≡ finished clocks aof last (requests max_elems (t.client.parser ++ tail)) t)
      → settle next (drained clocks aof r s)
        ≡ finished clocks aof last (continued max_elems r tail) s
  chunk_lem last next tail (vs, waiting, rest) s w ih =
      ih (with_parser rest (serve_all clocks aof vs s)) (w refl)
      ∙ sym (finished-after clocks aof last vs (requests max_elems (rest ++ tail)) rest s)
  chunk_lem last next tail (vs, protocol_error, rest) s w ih = refl
  chunk_lem last next tail (vs, threw, rest) s w ih = refl
  chunk_lem last next tail (vs, ran_out, rest) s w ih = refl

  on_readable-IsWaiting :
      (chunks : List Bytes) (last : RecvEnd) (s : Session)
      → IsWaiting s.client.parser
      → on_readable max_elems clocks aof chunks last s
        ≡ finished clocks aof last (requests max_elems (s.client.parser ++ concat chunks)) s
  unfolding on_readable Parser.feed serve_all
  on_readable-IsWaiting [] last s w =
      ap (λ b. returned b s) (stays_open-is_blocked last)
      ∙ ap (λ r. finished clocks aof last r s)
          (sym w ∙ ap (requests max_elems) (sym (append-nil s.client.parser)))
  on_readable-IsWaiting (c ∷ cs) last s w =
      let buf = s.client.parser ++ c in
      let fed = with_parser buf s in
      ap (settle (on_readable max_elems clocks aof cs last)) (
        drain_lem (suc (length buf)) fed
        ∙ ap (λ r. drained clocks aof r fed)
            (split-requests max_elems (suc (length buf)) buf (omega arith)))
      ∙ chunk_lem last (on_readable max_elems clocks aof cs last) (concat cs)
          (requests max_elems buf) fed (requests-waiting max_elems buf)
          (λ t w'. on_readable-IsWaiting cs last t w')
      ∙ ap (λ r. finished clocks aof last r fed) (sym (requests-append max_elems buf (concat cs)))
      ∙ ap (λ b. finished clocks aof last (requests max_elems b) fed)
          (append_assoc s.client.parser c (concat cs))
      ∙ sym (
          finished-after clocks aof last []
            (requests max_elems (s.client.parser ++ (c ++ concat cs))) buf s)

-- `on_readable`, from a connection whose buffer holds no complete value, for finitely many chunks that
-- `recv` delivers before it blocks, closes or fails: however the stream is cut into them, the values
-- of the whole stream are answered one after the other up to the first bytes that are no value. Where
-- those bytes may still become one, they stay in the buffer, and the connection lives on exactly if
-- the last `recv` would block. Where they break the protocol, the connection ends, with an empty
-- buffer. Where the parser throws on them, so does `on_readable`.
pub on_readable_lem :
    (max_elems : ℕ) (clocks : Clocks) (aof : Aof) (chunks : List Bytes) (last : RecvEnd)
    (s : Session)
    → (try_parse max_elems s.client.parser).0 ≡ incomplete
    → on_readable max_elems clocks aof chunks last s
      ≡ finished clocks aof last (requests max_elems (s.client.parser ++ concat chunks)) s
on_readable_lem max_elems clocks aof chunks last s h =
    on_readable-IsWaiting max_elems clocks aof chunks last s
      (requests-incomplete max_elems s.client.parser h)
