-- ===== src/Tests/Connections.antt =====
-- Concrete runs: a connection.
use redix.Prelude.{
  ◌≡◌, ◌≢◌, refl, ap, ◌∙◌, false, none, some, List, [], ◌∷◌, ◌++◌, arith, map, length, take, drop,
  append-nil, Bytes, codes,
}
use redix.Prelude.Int.{pos}
use redix.Fd
use redix.Aof
use redix.Aof.{new_aof}
use redix.Resp.Value.{incomplete}
use redix.Resp.Parser.{try_parse, parse_at}
use redix.Command.Parse.{Command}
use redix.Client.{
  Client, new_client, Clocks, Session, recv_would_block, recv_closed, on_readable, send_would_block,
  ran_out, drain,
}
use redix.Client.Requests.{requests}
use redix.Client.Stream.{concat, finished, on_readable_lem}
use redix.Client.Termination.{drain-ne-ran_out}
use redix.Client.Pipeline.{encode_all, IsSendable, asked, IsAnswered, on_readable-transcript}
use redix.Client.Output.{pending, emptied, take-drop}
use redix.Client.Rounds.{
  Output, enqueued, written, outputs, all_enqueued, AreAccepted, outputs_lem, Round, write_rounds,
  AreProgress, write_rounds_lem,
}
use redix.FlatMap.{find}
use redix.Config.{default_config}
use redix.EventLoop.{int_order, client_callback}
use redix.Server.State.{Server, Answers, new_server}
use redix.Server.{input_mask, call}
use redix.Server.Answered.{IsDone, call-IsReplied}
use redix.Tests.{keyspace, noon, get_n, get_request-IsEncodable}

abbrev session : Session
session = record {
  client = new_client (pos 5) (codes "10.0.0.1:999");
  data_ = keyspace;
  served = 0;
}

abbrev clocks : Clocks
clocks n = noon

-- `GET n` twice, cut behind the seventh byte.
abbrev commands : List Command
commands = get_n ∷ get_n ∷ []

abbrev stream : Bytes
stream = encode_all (map asked commands)

abbrev cut : List Bytes
cut = take 7 stream ∷ drop 7 stream ∷ []

cut-concat : concat cut ≡ stream
cut-concat = ap (λ s. take 7 stream ++ s) (append-nil (drop 7 stream)) ∙ take-drop 7 stream

closed_log : Aof.is_open new_aof ≡ false
unfolding Aof.is_open Fd.is_open
closed_log = refl

new_session-parser : session.client.parser ≡ []
unfolding new_client
new_session-parser = refl

get_n-IsSendable : IsSendable 4 get_n
get_n-IsSendable = ((b'G', (codes "ET", refl)), get_request-IsEncodable)

on_readable-transcript_example :
    IsAnswered clocks commands session (on_readable 4 clocks new_aof cut recv_would_block session)
on_readable-transcript_example =
    on_readable-transcript 4 clocks new_aof commands cut session closed_log new_session-parser
      (get_n-IsSendable, (get_n-IsSendable, tt)) cut-concat

nothing-read : (try_parse 4 session.client.parser).0 ≡ incomplete
unfolding new_client try_parse parse_at
nothing-read = refl

on_readable_lem_example :
    on_readable 4 clocks new_aof cut recv_closed session
    ≡ finished clocks new_aof recv_closed (requests 4 (session.client.parser ++ concat cut)) session
on_readable_lem_example = on_readable_lem 4 clocks new_aof cut recv_closed session nothing-read

-- A whole value and the first byte of the next one.
abbrev partly_read : Session
partly_read = record session { client = record session.client { parser = codes "$1\r\nx\r\n:" } }

drain-ne-ran_out_example : (drain 4 clocks new_aof 9 partly_read).0 ≢ ran_out
drain-ne-ran_out_example = drain-ne-ran_out 4 clocks new_aof 9 partly_read (omega arith)

-- Three bytes queued, of which one is sent.
abbrev queued : Client
queued = record session.client { write_buf = codes "+OK"; write_offset = 1 }

abbrev two_rounds : List Round
two_rounds = (1 ∷ [], send_would_block) ∷ (1 ∷ [], send_would_block) ∷ []

two_rounds-AreProgress : AreProgress two_rounds (length (pending queued))
two_rounds-AreProgress =
    (omega arith, (λ p. omega arith), refl, (omega arith, (λ p. omega arith), refl, tt))

write_rounds_lem_example : write_rounds two_rounds queued ≡ (emptied queued, pending queued)
write_rounds_lem_example =
    write_rounds_lem two_rounds queued (omega arith) two_rounds-AreProgress (omega arith)
      (omega arith)

abbrev events : List Output
events =
    written (1 ∷ []) send_would_block
    ∷ enqueued (codes ":1")
    ∷ written (2 ∷ 0 ∷ []) send_would_block
    ∷ []

events-AreAccepted : AreAccepted events (length (pending queued))
events-AreAccepted = (omega arith, (omega arith, tt))

outputs_lem_example :
    (outputs events queued).1 ++ pending (outputs events queued).0
    ≡ pending queued ++ all_enqueued events
outputs_lem_example = outputs_lem events queued (omega arith) events-AreAccepted

-- The server with that connection.
abbrev serving : Server
serving = record (new_server 0 default_config) {
  data_ = keyspace;
  clients_ = (pos 5, session.client) ∷ [];
}

abbrev arrived : Answers
arrived = record {
  clocks = clocks;
  chunks = cut;
  recv_end = recv_would_block;
  modified_in = none;
  counts = [];
  send_end = send_would_block;
  modified_out = none;
  accepts = [];
  signals = [];
}

serving-found : find (pos 5) serving.clients_ ≡ some session.client
unfolding find
serving-found = refl

serving-quiet : Aof.is_open serving.aof ≡ false
unfolding new_server Aof.is_open Fd.is_open
serving-quiet = refl

call-IsReplied_example :
    IsDone
      (pos 5)
      serving
      clocks
      commands
      session.client
      (call 4 (client_callback (pos 5)) input_mask arrived serving)
call-IsReplied_example =
    call-IsReplied (pos 5) serving 4 arrived commands session.client serving-found
      new_session-parser serving-quiet (get_n-IsSendable, (get_n-IsSendable, tt)) cut-concat refl
      refl
