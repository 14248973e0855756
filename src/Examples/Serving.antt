-- ===== src/Examples/Serving.antt =====
-- The server's theorems for a client that lists the tools, calls one and shuts down.
use kimi_ssh.Base.{true, false, not, ◌≡◌, ◌↔◌, arith, refl, some, List, [], ◌∷◌, any}
use mathlib.Core.List.{map}
use kimi_ssh.Base.Text.{Text, codes, same_text}
use kimi_ssh.Connection.WellFormed.{new_manager-IsWellFormed}
use kimi_ssh.Base.Text.Fields.{trim_space}
use kimi_ssh.Server.State.{decode, Request, Response, World, new_server}
use kimi_ssh.Server.Dispatch.{handle_request, handle_list_tools, handle_call_tool}
use kimi_ssh.Server.Loop.{Streams, serve_lines}
use kimi_ssh.Server.Tools.{exec_command}
use kimi_ssh.Server.Reports.{is_ok, IsSuccess, exec_command-IsSuccess}
use kimi_ssh.Session.Commands.{session_execute}
use kimi_ssh.Server.Replies.{
  reply_id, ids_of, present, up_to_shutdown, requests_in, is_protocol_error, listed,
  serve_lines-ids, handle_call_tool-listed,
}
use kimi_ssh.Server.Safety.{IsSound, handle_request-IsSound}
use kimi_ssh.Examples.Data.{web, disk, dial_at_once, hanging}
use kimi_ssh.Examples.Hosts.{dial_at_once-IsTame}

-- The raw parameters of a call are the tool's name, and its arguments name one host.
abbrev world : World
world = record {
  call = λ params. some (params, codes "{}");
  host_argument = λ arguments. some web;
  exec_arguments = λ arguments. some (codes "uptime", web);
  file_system = disk;
  dial = dial_at_once;
  exec_env = record { timeout_raw = []; max_output_raw = [] };
  remote = hanging;
  show_duration = λ d. codes "2m0s";
}

-- A line is the name of a method, and its id too.
abbrev streams : Streams
streams = record {
  parse_request =
      λ frame. some (record { id = some frame; method = frame; params = codes "ssh_connect" });
  can_write = λ reply. true;
  input_fails = false;
}

abbrev lines : List Text
lines = codes "initialize" ∷ codes " tools/call" ∷ codes "shutdown" ∷ codes "tools/list" ∷ []

abbrev connect_request : Request
connect_request = record {
  id = some (codes "7");
  method = codes "tools/call";
  params = codes "ssh_connect";
}

handle_request-IsSound_example : IsSound (handle_request world new_server connect_request).0
handle_request-IsSound_example =
    handle_request-IsSound world dial_at_once-IsTame new_server connect_request
      new_manager-IsWellFormed

always_writes : (reply : Response) → streams.can_write reply ≡ true
always_writes reply = refl

serve_lines-ids_example :
    ids_of (serve_lines world streams lines new_server).replies
    ≡ present (map reply_id (up_to_shutdown (requests_in streams lines)))
serve_lines-ids_example = serve_lines-ids world streams always_writes lines new_server

handle_call_tool-listed_example :
    is_protocol_error (handle_call_tool world new_server (codes "1") (codes "ssh_exec")).1.reply
    ≡ not (
        any
          (λ tool. same_text tool.name (codes "ssh_exec"))
          (listed (handle_list_tools new_server (codes "2")).1.reply))
handle_call_tool-listed_example =
    handle_call_tool-listed world new_server new_server (codes "1") (codes "2") (codes "ssh_exec")
      (codes "ssh_exec") (codes "{}") refl

exec_command-IsSuccess_example :
    (is_ok (exec_command world new_server (codes "{}")).1 ≡ true)
    ↔ IsSuccess
        (session_execute world.exec_env world.remote new_server.session_manager
          (codes "uptime")
          web).1
unfolding decode same_text trim_space
exec_command-IsSuccess_example =
    exec_command-IsSuccess world new_server (codes "{}") (codes "uptime") web refl
      (λ e. ground (arith, e))
