-- ===== src/Server/Loop.antt =====
-- `serve` of main.go: one request per line of standard input, one reply per line of output.
use kimi_ssh.Base.{ℕ, Bool, Option, none, some, List, [], ◌∷◌, if◌then◌else◌}
use kimi_ssh.Base.Text.{Text, codes, same_text}
use kimi_ssh.Base.Text.Fields.{trim_space}
use kimi_ssh.Server.Dispatch.{handle_request}
use kimi_ssh.Server.State.{Request, Response, Server, World}

-- How the loop ends: after `shutdown`, at the end of the input, with the scanner's error, or with an
-- error of writing.
pub data Ended : Type 0 where
  after_shutdown end_of_input input_failed write_failed : Ended

-- The replies that were written, in order, the server that is left, and the end.
pub record Served : Type 0 where
  pub replies : List Response
  pub server : Server
  pub ended : Ended

-- `json.Unmarshal` of a frame, whether a reply can be written and flushed, and whether the scanner
-- stops with an error.
pub record Streams : Type 0 where
  pub parse_request : Text → Option Request
  pub can_write : Response → Bool
  pub input_fails : Bool

-- `serve` goes on with the remaining lines, unless the request was `shutdown`.
abbrev pub go_on : (Server → Served) → Server → Request → Served
go_on rest s r =
    if same_text r.method (codes "shutdown")
    then record { replies = []; server = s; ended = after_shutdown }
    else rest s

-- A reply is written before the next line is read.
abbrev pub written : Streams → (Server → Served) → Request → Server × Option Response → Served
written io rest r (s, none) = go_on rest s r
written io rest r (s, some reply) =
    let later = go_on rest s r in
    if io.can_write reply
    then record later { replies = reply ∷ later.replies }
    else record { replies = []; server = s; ended = write_failed }

-- The request in a line: none if the line is blank or does not decode.
unfoldable pub request_of : Streams → Text → Option Request
request_of io line =
    let frame = trim_space line in if same_text frame [] then none else io.parse_request frame

unfoldable pub serve_lines : World → Streams → List Text → Server → Served
serve_lines w io [] s = record {
  replies = [];
  server = s;
  ended = if io.input_fails then input_failed else end_of_input;
}
serve_lines w io (line ∷ lines) s = elim (request_of io line) [
  | none ↦ serve_lines w io lines s
  | some r ↦ written io (serve_lines w io lines) r (handle_request w s r)
]

-- The exit status of `main`.
abbrev pub exit_status : Ended → ℕ
exit_status after_shutdown = 0
exit_status end_of_input = 0
exit_status input_failed = 1
exit_status write_failed = 1
