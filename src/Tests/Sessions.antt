-- ===== src/Tests/Sessions.antt =====
-- Tests of the server's loop.
use game_store.Prelude.{◌++◌, true, some, List, [], ◌∷◌, ◌≡◌, refl, arith, length, suc, All}
use game_store.Prelude.Int.{pos}
use game_store.Bytes.{Bytes, text, ◌==ᵇ◌}
use game_store.Protocol.Error.{ProtocolError}
use game_store.Protocol.Frame.{v2}
use game_store.Protocol.Requests.{IsRequest}
use game_store.Protocol.Command.{decode_command}
use game_store.Protocol.Stable.{Extended, decode_command-IsStable}
use game_store.Store.Base.{Store}
use game_store.Store.Hash.{hset}
use game_store.Server.Connection.{command_label, is_among}
use game_store.Server.Labels.{labels, is_among-command_label}
use game_store.Server.Progress.{handle_buffer_ends}
use game_store.Server.Keeps.{handle_buffer-IsConsistent}
use game_store.Server.Pipeline.{request_bytes, handle_requests, handle_buffer-request_bytes}
use game_store.Server.Chunks.{handle_all, handle_all-append}
use game_store.Protocol.Parser.{default_limits}
use game_store.Commands.Registry.{standard}
use game_store.Store.View.{IsConsistent}
use game_store.Server.Session.{Connection, handle_buffer, handle_item, handle_request}
use game_store.Reference.{memory_host, memory_laws}
use game_store.Tests.Fixtures.{hash_store, hash_store-IsConsistent}
use game_store.Tests.Frames.{bit_text, arguments}

abbrev pub no_text : ProtocolError → Bytes
no_text e = []

abbrev pub connection : Connection
connection = record {
  version = v2;
  limits = default_limits;
  conn_id = pos 1;
  sent = [];
  is_open = true;
}

abbrev pub crlf_line : Bytes → Bytes
crlf_line line = line ++ 13 ∷ 10 ∷ []

-- HSET h f v, in two pieces.
abbrev first_piece : Bytes
first_piece = crlf_line (text "PING") ++ text "HSET h "

abbrev second_piece : Bytes
second_piece = crlf_line (text "f v")

handle_buffer-IsConsistent_example :
    (r : Bytes × Connection × Store memory_host) × ((handle_buffer bit_text no_text
          (standard bit_text)
          (suc (length (crlf_line (text "DEL u:1"))))
          (crlf_line (text "DEL u:1"))
          connection
          hash_store
        ≡ some r)
      × IsConsistent memory_laws r.2)
handle_buffer-IsConsistent_example =
    handle_buffer-IsConsistent memory_laws bit_text no_text (crlf_line (text "DEL u:1")) connection
      hash_store hash_store-IsConsistent

handle_buffer_ends_example :
    (r : Bytes × Connection × Store memory_host) × (handle_buffer bit_text no_text
        (standard bit_text)
        20
        first_piece
        connection
        hash_store
      ≡ some r)
handle_buffer_ends_example =
    handle_buffer_ends bit_text no_text (standard bit_text) 20 first_piece connection hash_store
      (unfold text in omega arith)

abbrev requests : List (List Bytes)
requests = arguments ∷ (text "QUIT" ∷ []) ∷ arguments ∷ []

requests-IsRequest : All (IsRequest default_limits) requests
unfolding text
requests-IsRequest =
    (two, (((omega arith, omega arith), ((omega arith, omega arith), tt)), (two, tt)))
  where
    two : IsRequest default_limits arguments
    two =
        ((omega arith, omega arith), ((omega arith, omega arith), ((omega arith, omega arith), tt)))

handle_buffer-request_bytes_example :
    handle_buffer bit_text no_text
      (standard bit_text)
      5
      (request_bytes bit_text no_text v2 requests)
      connection
      hash_store
    ≡ some (
      request_bytes bit_text no_text v2
          (handle_requests bit_text no_text (standard bit_text) requests connection hash_store).0,
      (handle_requests bit_text no_text (standard bit_text) requests connection hash_store).1,
      (handle_requests bit_text no_text (standard bit_text) requests connection hash_store).2,
    )
handle_buffer-request_bytes_example =
    handle_buffer-request_bytes bit_text no_text (standard bit_text) v2 requests 5 connection
      hash_store requests-IsRequest (omega arith)

-- `PING` on a fresh connection, and the start of another request.
abbrev ponged : Connection
ponged = record connection { sent = text "+PONG" ++ 13 ∷ 10 ∷ [] }

first_outcome :
    handle_all bit_text no_text (standard bit_text) first_piece connection hash_store
    ≡ some (text "HSET h ", ponged, hash_store)
unfolding handle_buffer handle_item handle_request decode_command text ◌==ᵇ◌ standard hset
first_outcome = refl

second_outcome :
    (r : Bytes × Connection × Store memory_host) × (handle_all bit_text no_text
        (standard bit_text)
        (text "HSET h " ++ second_piece)
        ponged
        hash_store
      ≡ some r)
second_outcome =
    handle_buffer_ends bit_text no_text (standard bit_text)
      (suc (length (text "HSET h " ++ second_piece))) (text "HSET h " ++ second_piece) ponged
      hash_store (omega arith)

handle_all-append_example :
    handle_all bit_text no_text
      (standard bit_text)
      (first_piece ++ second_piece)
      connection
      hash_store
    ≡ some second_outcome.0
handle_all-append_example =
    handle_all-append bit_text no_text (standard bit_text) first_piece second_piece connection
      hash_store (text "HSET h ", ponged, hash_store) second_outcome.0 first_outcome refl
      second_outcome.1

decode_command-IsStable_example :
    Extended
      (crlf_line (text "GET a"))
      (decode_command default_limits (crlf_line (text "PING")))
      (decode_command default_limits (crlf_line (text "PING") ++ crlf_line (text "GET a")))
decode_command-IsStable_example =
    decode_command-IsStable default_limits (crlf_line (text "PING")) (crlf_line (text "GET a"))

is_among-command_label_example :
    is_among
      (labels (standard ⦃h = memory_host⦄ bit_text))
      (command_label (standard ⦃h = memory_host⦄ bit_text) (text "get"))
    ≡ true
is_among-command_label_example = is_among-command_label (standard bit_text) (text "get")
