-- ===== src/Client/Pipeline.antt =====
-- Commands that a client sends one behind the other, and the replies to them.
use mathlib.Core.Path.{subst}
use redix.Prelude.{
  ℕ, suc, ◌≡◌, refl, sym, ap, ◌∙◌, true, false, none, List, [], ◌∷◌, ◌++◌, map, append-nil,
  append_assoc, Bytes, All,
}
use redix.Aof
use redix.Aof.{Aof}
use redix.Resp.Value.{RespValue, incomplete}
use redix.Resp.Encoder.{resp_encode}
use redix.Resp.Parser.{try_parse, parse_at}
use redix.Resp.RoundTrip.{IsEncodable, try_parse-resp_encode}
use redix.Store.Value.{DataMap}
use redix.Command.Parse.{Command, command, uppercase, parse_command}
use redix.Command.Parse.Request.{AreUpperOf, uppercase-AreUpperOf, request, parse_command_iff}
use redix.Command.Dispatch.{dispatch}
use redix.Client.{
  Clocks, Session, with_parser, recv_would_block, waiting, Readable, returned, uncaught, no_fuel,
  enqueue_response, append_error, or_error, run_command, answer, handle_value, on_readable,
}
use redix.Client.Requests.{before, after, one_then, requests, requests_step}
use redix.Client.Stream.{concat, serve_all, finished, on_readable_lem}

-- The encodings of the values, in order.
abbrev pub encode_all : List RespValue → Bytes
encode_all [] = []
encode_all (v ∷ vs) = resp_encode v ++ encode_all vs

-- The values at the front of a stream are found again.
requests-encode_all :
    (max_elems : ℕ) (vs : List RespValue) (tail : Bytes)
    → All (IsEncodable max_elems) vs
    → requests max_elems (encode_all vs ++ tail) ≡ after vs (requests max_elems tail)
requests-encode_all max_elems [] tail h = refl
requests-encode_all max_elems (v ∷ vs) tail (h, hs) =
    ap (requests max_elems) (append_assoc (resp_encode v) (encode_all vs) tail)
    ∙ requests_step max_elems (resp_encode v ++ (encode_all vs ++ tail))
    ∙ ap (one_then (requests max_elems))
        (try_parse-resp_encode max_elems v (encode_all vs ++ tail) h)
    ∙ ap (before v) (requests-encode_all max_elems vs tail hs)

-- The command that `parse_command` makes of a request.
abbrev pub uppercased : Command → Command
uppercased cmd = record cmd { name = uppercase cmd.name }

-- A command with a name, short enough to be sent.
abbrev pub IsSendable : ℕ → Command → Type 0
IsSendable max_elems cmd =
    ((c : ℕ) × ((name : Bytes) × (cmd.name ≡ c ∷ name)))
    × IsEncodable max_elems (request cmd.name cmd.args)

abbrev pub asked : Command → RespValue
asked cmd = request cmd.name cmd.args

-- The replies of `dispatch` to the commands in order, from the n-th of a call on, and the data
-- behind the last.
unfoldable pub transcript : Clocks → ℕ → List Command → DataMap → Bytes × DataMap
transcript clocks n [] data_ = ([], data_)
transcript clocks n (cmd ∷ cmds) data_ =
    let (reply, data') = dispatch (clocks n) (uppercased cmd) data_ in
    let (replies, data'') = transcript clocks (suc n) cmds data' in (reply ++ replies, data'')

module _ (clocks : Clocks) (aof : Aof) (quiet : Aof.is_open aof ≡ false) where
  parse_command-asked :
      (cmd : Command)
      → (c : ℕ) × ((name : Bytes) × (cmd.name ≡ c ∷ name))
      → parse_command (asked cmd) ≡ command (uppercased cmd)
  parse_command-asked cmd (c, (name, e)) = (parse_command_iff (asked cmd) (uppercased cmd)).1 (
    c,
    (
      name,
      (
        ap (λ n. request n cmd.args) e,
        subst (λ n. AreUpperOf n (uppercase cmd.name)) e (uppercase-AreUpperOf cmd.name),
      ),
    ),
  )

  append_error-quiet : (cmd : Command) → append_error aof cmd ≡ none
  unfolding append_error
  append_error-quiet cmd = rw quiet

  -- The session with the commands run.
  abbrev ran : List Command → Session → Session
  ran [] s = s
  ran (cmd ∷ cmds) s = ran cmds (run_command clocks aof (uppercased cmd) s)

  serve_all-asked :
      (cmds : List Command) (s : Session)
      → All (λ cmd. (c : ℕ) × ((name : Bytes) × (cmd.name ≡ c ∷ name))) cmds
      → serve_all clocks aof (map asked cmds) s ≡ ran cmds s
  unfolding serve_all handle_value
  serve_all-asked [] s h = refl
  serve_all-asked (cmd ∷ cmds) s (h, hs) =
      ap (λ r. serve_all clocks aof (map asked cmds) (answer clocks aof r s))
        (parse_command-asked cmd h)
      ∙ serve_all-asked cmds (run_command clocks aof (uppercased cmd) s) hs

  ran_lem :
      (cmds : List Command) (s : Session)
      → ((ran cmds s).client.write_buf
          ≡ s.client.write_buf ++ (transcript clocks s.served cmds s.data_).0)
        × ((ran cmds s).data_ ≡ (transcript clocks s.served cmds s.data_).1)
  unfolding transcript run_command enqueue_response
  ran_lem [] s = (sym (append-nil s.client.write_buf), refl)
  ran_lem (cmd ∷ cmds) s =
      let cmd' = uppercased cmd in
      let ih = ran_lem cmds (run_command clocks aof cmd' s) in
      let reply = (dispatch (clocks s.served) cmd' s.data_).0 in
      let later =
        (transcript clocks (suc s.served) cmds (dispatch (clocks s.served) cmd' s.data_).1).0 in
      (
        ih.0
            ∙ ap (λ e. (s.client.write_buf ++ or_error e reply) ++ later) (append_error-quiet cmd')
            ∙ append_assoc s.client.write_buf reply later,
        ih.1,
      )

-- `on_readable` returned with the connection alive, nothing left to parse, and the replies and the
-- data of the transcript.
abbrev pub IsAnswered : Clocks → List Command → Session → Readable → Type 0
IsAnswered clocks cmds s uncaught = ⊥
IsAnswered clocks cmds s no_fuel = ⊥
IsAnswered clocks cmds s (returned alive s') =
    (alive ≡ true)
    × (s'.client.parser ≡ [])
    × (s'.client.write_buf ≡ s.client.write_buf ++ (transcript clocks s.served cmds s.data_).0)
    × (s'.data_ ≡ (transcript clocks s.served cmds s.data_).1)

try_parse-nil : (max_elems : ℕ) → try_parse max_elems [] ≡ (incomplete, [])
unfolding try_parse parse_at
try_parse-nil max_elems = refl

requests_whole :
    (max_elems : ℕ) (vs : List RespValue)
    → All (IsEncodable max_elems) vs
    → requests max_elems (encode_all vs) ≡ (vs, waiting, [])
requests_whole max_elems vs h =
    ap (requests max_elems) (sym (append-nil (encode_all vs)))
    ∙ requests-encode_all max_elems vs [] h
    ∙ ap (after vs)
        (requests_step max_elems [] ∙ ap (one_then (requests max_elems)) (try_parse-nil max_elems))
    ∙ ap (λ us. (us, waiting, [])) (append-nil vs)

asked-IsEncodable :
    (max_elems : ℕ) (cmds : List Command)
    → All (IsSendable max_elems) cmds
    → All (IsEncodable max_elems) (map asked cmds)
asked-IsEncodable max_elems [] h = tt
asked-IsEncodable max_elems (cmd ∷ cmds) (h, hs) = (h.1, asked-IsEncodable max_elems cmds hs)

names :
    (max_elems : ℕ) (cmds : List Command)
    → All (IsSendable max_elems) cmds
    → All (λ cmd. (c : ℕ) × ((name : Bytes) × (cmd.name ≡ c ∷ name))) cmds
names max_elems [] h = tt
names max_elems (cmd ∷ cmds) (h, hs) = (h.0, names max_elems cmds hs)

-- Commands with a name that is not empty and of encodable size that arrive one behind the other at a
-- connection with an empty buffer, in chunks cut anywhere, with the log closed, where `recv` would
-- block behind the last chunk: each command, its name as `uppercase` makes it, is dispatched once, in
-- order, on the data that the one before it left; the replies are queued in that order behind what
-- was queued before; the connection lives on, and nothing is left in the buffer.
pub on_readable-transcript :
    (max_elems : ℕ) (clocks : Clocks) (aof : Aof) (cmds : List Command) (chunks : List Bytes)
    (s : Session)
    → Aof.is_open aof ≡ false
    → s.client.parser ≡ []
    → All (IsSendable max_elems) cmds
    → concat chunks ≡ encode_all (map asked cmds)
    → IsAnswered clocks cmds s (on_readable max_elems clocks aof chunks recv_would_block s)
on_readable-transcript max_elems clocks aof cmds chunks s quiet empty h e =
    let stream =
      ap (λ b. requests max_elems (b ++ concat chunks)) empty
      ∙ ap (requests max_elems) e
      ∙ requests_whole max_elems (map asked cmds) (asked-IsEncodable max_elems cmds h) in
    let result =
      on_readable_lem max_elems clocks aof chunks recv_would_block s
        (ap (λ b. (try_parse max_elems b).0) empty ∙ ap (λ p. p.0) (try_parse-nil max_elems))
      ∙ ap (λ r. finished clocks aof recv_would_block r s) stream
      ∙ ap (λ t. returned true (with_parser [] t))
          (serve_all-asked clocks aof quiet cmds s (names max_elems cmds h)) in
    subst (IsAnswered clocks cmds s) (sym result)
      (refl, refl, (ran_lem clocks aof quiet cmds s).0, (ran_lem clocks aof quiet cmds s).1)
