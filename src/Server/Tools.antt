-- ===== src/Server/Tools.antt =====
-- The tools of internal/mcp/server.go. Each gives the server it leaves, and a result or an error.
-- The Chinese phrases of two texts are code points here.
use kimi_ssh.Base.{
  ℕ, Bool, true, false, not, ◌||◌, Option, none, some, List, [], ◌∷◌, ◌++◌, if◌then◌else◌, length,
  ltb,
}
use mathlib.Core.List.{map}
use kimi_ssh.Base.Decimal.{show_nat}
use kimi_ssh.Base.Int.{ℤ, pos, negsuc, is_zero}
use kimi_ssh.Base.Text.{Text, codes, same_text, join}
use kimi_ssh.Config.Resolve.{ordered_configs}
use kimi_ssh.Config.Settings.{SshConfig}
use kimi_ssh.Exec.Buffer.{is_truncated}
use kimi_ssh.Exec.Run.{Outcome, ran, failed}
use kimi_ssh.Session.{
  Session, SessionError, no_active_host, list_active_connections, get_active_host, session_connect,
  session_disconnect,
}
use kimi_ssh.Session.Commands.{SessionRan, no_target, session_ran, session_execute}
use kimi_ssh.Server.State.{
  ToolError, invalid_parameters, host_required, command_required, nothing_to_disconnect,
  session_error, exec_error, text, ToolResult, Server, World, decode,
}

-- A result, or an error.
pub data Answer : Type 0 where
  done : ToolResult → Answer
  refused : ToolError → Answer

-- `ok`
abbrev pub ok : List Text → Answer
ok texts = done (record { texts = map text texts; is_error = false })

abbrev pub when : Bool → Text → List Text
when true t = t ∷ []
when false t = []

-- One line of the body of `ssh_list`; a nil pointer would panic, and there is none.
abbrev pub host_line : Option SshConfig → Text
host_line none = []
host_line (some c) =
    codes "  - "
    ++ c.host
    ++ codes " ("
    ++ c.user
    ++ codes "@"
    ++ c.host_name
    ++ codes ":"
    ++ c.port
    ++ codes ")"
    ++ 10 ∷ []

unfoldable pub format_lines : List (Option SshConfig) → Text
format_lines [] = []
format_lines (c ∷ cs) = host_line c ++ format_lines cs

unfoldable pub format_hosts : List (Option SshConfig) → Text
unfolding format_lines
format_hosts [] = codes "No SSH hosts found in config."
format_hosts (c ∷ cs) = codes "Available SSH hosts:" ++ 10 ∷ format_lines (c ∷ cs)

unfoldable pub list_hosts : Server → Server × Answer
list_hosts s =
    let configs = ordered_configs s.config_parser.hosts in
    (
      s,
      ok (
          (codes "Found " ++ show_nat (length configs) ++ codes " SSH hosts in config")
          ∷ format_hosts configs
          ∷ []),
    )

-- `connectHost` after the decoding.
abbrev pub connected : Server → Text → Session × Option SessionError → Server × Answer
connected s host (t, none) =
    (record s { session_manager = t }, ok ((codes "Successfully connected to " ++ host) ∷ []))
connected s host (t, some e) = (record s { session_manager = t }, refused (session_error e))

abbrev pub connect_named : World → Server → Option Text → Server × Answer
connect_named w s none = (s, refused invalid_parameters)
connect_named w s (some host) =
    if same_text host []
    then (s, refused host_required)
    else connected s host (session_connect w.dial s.session_manager host)

unfoldable pub connect_host : World → Server → Text → Server × Answer
connect_host w s arguments = connect_named w s (decode [] w.host_argument arguments)

abbrev pub exec_timeout_env : Text
exec_timeout_env = codes "KIMI_SSH_EXEC_TIMEOUT_MS"

-- The texts under `if outcome.TimedOut`.
abbrev pub timeout_texts : World → Outcome → List Text
timeout_texts w o =
    (if o.remote_killed
      then codes "ERROR: command exceeded "
        ++ w.show_duration o.timeout
        ++ codes
            " and was force-terminated on the remote host: the remote `timeout` killed its whole process group, so child processes went with it ("
        ++ exec_timeout_env
        ++ codes " overrides the timeout)"
      else codes "ERROR: command timed out after "
        ++ w.show_duration o.timeout
        ++ codes " and was stopped ("
        ++ exec_timeout_env
        ++ codes " overrides the timeout)")
    ∷ when o.connection_closed (
        codes "ERROR: the SSH connection to "
        ++ o.host
        ++ codes " was closed with the stuck session; connect again before running more commands")

abbrev pub truncated_text : Text → Text → ℕ → Text
truncated_text stream kept total =
    stream
    ++ codes " truncated: kept the first "
    ++ show_nat (length kept)
    ++ codes " bytes (已截断，原始长度 "
    ++ show_nat total
    ++ codes " 字节)"

abbrev pub exit_text : ℤ → List Text
exit_text (pos code) = (codes "EXIT: " ++ show_nat code) ∷ []
exit_text (negsuc n) = []

-- The texts of `execCommand`, in order.
unfoldable pub exec_texts : World → Text → Outcome → List Text
exec_texts w command o =
    (codes "Executed command: " ++ command) ∷ (if o.timed_out then timeout_texts w o else [])
    ++ when o.no_remote_timeout (
        codes
          "WARNING: the remote host has no `timeout` command, so the command was re-run without remote enforcement; a command that outlives the deadline may keep running on the server")
    ++ when (not (same_text o.stderr [])) (codes "STDERR:" ++ 10 ∷ o.stderr)
    ++ when (not (same_text o.stdout [])) (codes "STDOUT:" ++ 10 ∷ o.stdout)
    ++ when (is_truncated o.stderr_bytes o.stderr)
        (truncated_text (codes "STDERR") o.stderr o.stderr_bytes)
    ++ when (is_truncated o.stdout_bytes o.stdout)
        (truncated_text (codes "STDOUT") o.stdout o.stdout_bytes)
    ++ (if o.timed_out then [] else exit_text o.exit_code)

abbrev pub has_failed : Outcome → Bool
has_failed o = o.timed_out || not (is_zero o.exit_code)

abbrev pub exec_answer : World → Text → SessionRan → Answer
exec_answer w command no_target = refused (session_error no_active_host)
exec_answer w command (session_ran (failed e)) = refused (exec_error e)
exec_answer w command (session_ran (ran o)) =
    done (record { texts = map text (exec_texts w command o); is_error = has_failed o })

abbrev pub exec_decoded : World → Server → Option (Text × Text) → Server × Answer
exec_decoded w s none = (s, refused invalid_parameters)
exec_decoded w s (some (command, host)) =
    if same_text command []
    then (s, refused command_required)
    else let (t, r) = session_execute w.exec_env w.remote s.session_manager command host in
      (record s { session_manager = t }, exec_answer w command r)

unfoldable pub exec_command : World → Server → Text → Server × Answer
exec_command w s arguments = exec_decoded w s (decode ([], []) w.exec_arguments arguments)

unfoldable pub status : Server → Server × Answer
status s =
    let active = list_active_connections s.session_manager in
    let (t, host) = get_active_host s.session_manager in
    (
      record s { session_manager = t },
      ok (
          (codes "Active connections: " ++ show_nat (length active))
          ∷ (when (ltb 0 (length active))
                (codes "Active hosts: [" ++ join active (codes " ") ++ codes "]")
              ++ (if same_text host []
                  then codes "No active host selected"
                  else codes "Current active host: " ++ host)
                ∷ [])),
    )

abbrev pub disconnected : Server → Text → Session × Option SessionError → Server × Answer
disconnected s host (t, none) =
    (record s { session_manager = t }, ok ((codes "Disconnected from " ++ host) ∷ []))
disconnected s host (t, some e) = (record s { session_manager = t }, refused (session_error e))

-- The host that was named, or the active one.
abbrev pub disconnect_target : Server → Session × Text → Server × Answer
disconnect_target s (t, host) =
    if same_text host []
    then (record s { session_manager = t }, refused nothing_to_disconnect)
    else disconnected s host (session_disconnect t host)

abbrev pub disconnect_named : Server → Option Text → Server × Answer
disconnect_named s none = (s, refused invalid_parameters)
disconnect_named s (some host) =
    disconnect_target s
      (if same_text host [] then get_active_host s.session_manager else (s.session_manager, host))

unfoldable pub disconnect_host : World → Server → Text → Server × Answer
disconnect_host w s arguments = disconnect_named s (decode [] w.host_argument arguments)
