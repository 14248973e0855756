-- ===== src/Server/Safety.antt =====
-- The invariant of the connections along the handlers of internal/mcp/server.go and the loop of main.go.
use kimi_ssh.Base.{inl, inr, Option, none, some, List, [], ◌∷◌, Bool-cases, Option-cases, All}
use kimi_ssh.Base.Text.{Text, codes, same_text}
use kimi_ssh.Config.Load.{LoadError, ConfigParser, parse_config_files}
use kimi_ssh.Connection.Steps.{set_configs-IsWellFormed}
use kimi_ssh.Connection.WellFormed.{IsWellFormed}
use kimi_ssh.Session.{
  Session, SessionError, Dial, get_active_host, session_connect, session_disconnect, target_of,
}
use kimi_ssh.Session.ActiveHost.{
  IsTame, ConnectResult, get_active_host-Reports, session_connect-ConnectResult,
  session_disconnect_lem,
}
use kimi_ssh.Session.Commands.{session_execute-IsWellFormed}
use kimi_ssh.Server.Dispatch.{
  ToolSpec, tool_specs, take_configs, handle_initialize, call_tool, call_decoded, handle_call_tool,
  Method, initialize, ignore, shutdown, list_tools, call, unknown, method_of, handle_method,
  handle_with, handle_request,
}
use kimi_ssh.Server.Loop.{Served, Streams, go_on, written, request_of, serve_lines}
use kimi_ssh.Server.State.{Request, Response, Server, World, decode}
use kimi_ssh.Server.Tools.{
  list_hosts, connected, connect_named, connect_host, exec_decoded, exec_command, status,
  disconnected, disconnect_target, disconnect_named, disconnect_host,
}

-- A server whose connections are well formed.
abbrev pub IsSound : Server → Type 0
IsSound s = IsWellFormed s.session_manager.manager

ConnectResult-IsWellFormed :
    (dial : Dial) (s : Session) (target : Text) (t : Session × Option SessionError)
    → ConnectResult dial s target t
    → IsWellFormed t.0.manager
ConnectResult-IsWellFormed dial s target (t, none) h = h.0
ConnectResult-IsWellFormed dial s target (t, some e) h = h.0

connected-IsSound :
    (s : Server) (host : Text) (t : Session × Option SessionError)
    → IsWellFormed t.0.manager
    → IsSound (connected s host t).0
connected-IsSound s host (t, none) h = h
connected-IsSound s host (t, some e) h = h

disconnected-IsSound :
    (s : Server) (host : Text) (t : Session × Option SessionError)
    → IsWellFormed t.0.manager
    → IsSound (disconnected s host t).0
disconnected-IsSound s host (t, none) h = h
disconnected-IsSound s host (t, some e) h = h

get_active_host-IsWellFormed :
    (s : Session) → IsWellFormed s.manager → IsWellFormed (get_active_host s).0.manager
get_active_host-IsWellFormed s h = rw (get_active_host-Reports s h).0 h

disconnect_target-IsSound :
    (s : Server) (t : Session × Text) → IsWellFormed t.0.manager → IsSound (disconnect_target s t).0
disconnect_target-IsSound s (t, host) h = elim (Bool-cases (same_text host [])) [
  | inl e ↦ rw e h
  | inr e ↦
      rw e (
        disconnected-IsSound s host (session_disconnect t host) (session_disconnect_lem t host h).0)
]

disconnect_named-IsSound :
    (s : Server) (o : Option Text) → IsSound s → IsSound (disconnect_named s o).0
disconnect_named-IsSound s none h = h
disconnect_named-IsSound s (some host) h = elim (Bool-cases (same_text host [])) [
  | inl e ↦ rw e (
      disconnect_target-IsSound s (get_active_host s.session_manager)
        (get_active_host-IsWellFormed s.session_manager h))
  | inr e ↦ rw e (disconnect_target-IsSound s (s.session_manager, host) h)
]

status-IsSound : (s : Server) → IsSound s → IsSound (status s).0
unfolding status
status-IsSound s h = get_active_host-IsWellFormed s.session_manager h

take_configs-IsSound :
    (s : Server) (p : ConfigParser × Option LoadError) → IsSound s → IsSound (take_configs s p)
take_configs-IsSound s (p, none) h =
    set_configs-IsWellFormed s.session_manager.manager p.hosts.configs h
take_configs-IsSound s (p, some e) h = h

module _ (w : World) (tame : IsTame w.dial) where
  connect_named-IsSound :
      (s : Server) (o : Option Text) → IsSound s → IsSound (connect_named w s o).0
  connect_named-IsSound s none h = h
  connect_named-IsSound s (some host) h = elim (Bool-cases (same_text host [])) [
    | inl e ↦ rw e h
    | inr e ↦ rw e (
        connected-IsSound s host (session_connect w.dial s.session_manager host) (
          ConnectResult-IsWellFormed w.dial (target_of s.session_manager host).0
            (target_of s.session_manager host).1 (session_connect w.dial s.session_manager host)
            (session_connect-ConnectResult w.dial s.session_manager host tame h)))
  ]

  exec_decoded-IsSound :
      (s : Server) (o : Option (Text × Text)) → IsSound s → IsSound (exec_decoded w s o).0
  exec_decoded-IsSound s none h = h
  exec_decoded-IsSound s (some (command, host)) h = elim (Bool-cases (same_text command [])) [
    | inl e ↦ rw e h
    | inr e ↦
        rw e (session_execute-IsWellFormed w.exec_env w.remote s.session_manager command host h)
  ]

  -- A tool keeps every server sound.
  abbrev IsSafe : ToolSpec → Type 0
  IsSafe t = (s : Server) (arguments : Text) → IsSound s → IsSound (t.run w s arguments).0

  tool_specs-IsSafe : All IsSafe tool_specs
  unfolding list_hosts connect_host exec_command disconnect_host
  tool_specs-IsSafe = (
    (λ s a h. h),
    (
      (λ s a h. connect_named-IsSound s (decode [] w.host_argument a) h),
      (
        (λ s a h. exec_decoded-IsSound s (decode ([], []) w.exec_arguments a) h),
        (
          (λ s a h. status-IsSound s h),
          ((λ s a h. disconnect_named-IsSound s (decode [] w.host_argument a) h), tt),
        ),
      ),
    ),
  )

  call_tool-IsSound :
      (ts : List ToolSpec) (s : Server) (id name arguments : Text)
      → All IsSafe ts
      → IsSound s
      → IsSound (call_tool w s id name arguments ts).0
  unfolding call_tool
  call_tool-IsSound [] s id name arguments safe h = h
  call_tool-IsSound (t ∷ ts) s id name arguments safe h =
      elim (Bool-cases (same_text t.name name)) [
        | inl e ↦ rw (e, call_tool) (safe.0 s arguments h)
        | inr e ↦ rw (e, call_tool) (call_tool-IsSound ts s id name arguments safe.1 h)
      ]

  call_decoded-IsSound :
      (s : Server) (id : Text) (o : Option (Text × Text))
      → IsSound s
      → IsSound (call_decoded w s id o).0
  call_decoded-IsSound s id none h = h
  call_decoded-IsSound s id (some (name, arguments)) h =
      call_tool-IsSound tool_specs s id name arguments tool_specs-IsSafe h

  handle_method-IsSound :
      (s : Server) (id params : Text) (m : Method)
      → IsSound s
      → IsSound (handle_method w s id params m).0
  unfolding handle_initialize handle_call_tool
  handle_method-IsSound s id params initialize h =
      take_configs-IsSound s (parse_config_files w.file_system s.config_parser) h
  handle_method-IsSound s id params ignore h = h
  handle_method-IsSound s id params shutdown h = h
  handle_method-IsSound s id params list_tools h = h
  handle_method-IsSound s id params call h = call_decoded-IsSound s id (w.call params) h
  handle_method-IsSound s id params unknown h = h

  handle_with-IsSound :
      (s : Server) (r : Request) (id : Option Text) → IsSound s → IsSound (handle_with w s r id).0
  handle_with-IsSound s r none h = h
  handle_with-IsSound s r (some id) h = handle_method-IsSound s id r.params (method_of r.method) h

  -- Whatever request arrives, the server's connections stay well formed, if what other calls do
  -- while a call dials keeps them so.
  pub handle_request-IsSound :
      (s : Server) (r : Request) → IsSound s → IsSound (handle_request w s r).0
  unfolding handle_request
  handle_request-IsSound s r h = handle_with-IsSound s r r.id h

  go_on-IsSound :
      (rest : Server → Served) (s : Server) (r : Request)
      → ((t : Server) → IsSound t → IsSound (rest t).server)
      → IsSound s
      → IsSound (go_on rest s r).server
  go_on-IsSound rest s r k h = elim (Bool-cases (same_text r.method (codes "shutdown"))) [
    | inl e ↦ rw e h
    | inr e ↦ rw e (k s h)
  ]

  written-IsSound :
      (io : Streams) (rest : Server → Served) (r : Request) (a : Server × Option Response)
      → ((t : Server) → IsSound t → IsSound (rest t).server)
      → IsSound a.0
      → IsSound (written io rest r a).server
  written-IsSound io rest r (s, none) k h = go_on-IsSound rest s r k h
  written-IsSound io rest r (s, some reply) k h = elim (Bool-cases (io.can_write reply)) [
    | inl e ↦ rw e (go_on-IsSound rest s r k h)
    | inr e ↦ rw e h
  ]

  -- Whatever lines arrive, the loop leaves the server's connections well formed, if what other
  -- calls do while a call dials keeps them so.
  pub serve_lines-IsSound :
      (io : Streams) (lines : List Text) (s : Server)
      → IsSound s
      → IsSound (serve_lines w io lines s).server
  unfolding serve_lines
  serve_lines-IsSound io [] s h = h
  serve_lines-IsSound io (line ∷ lines) s h = elim (Option-cases (request_of io line)) [
    | inl e ↦ rw (e, serve_lines) (serve_lines-IsSound io lines s h)
    | inr (r, e) ↦
        rw (e, serve_lines)
          (written-IsSound io (serve_lines w io lines) r (handle_request w s r)
            (λ t k. serve_lines-IsSound io lines t k) (handle_request-IsSound s r h))
  ]
