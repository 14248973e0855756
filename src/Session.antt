-- ===== src/Session.antt =====
-- `SessionManager` of internal/session/manager.go: the connection manager and the active host. The
-- empty text stands for "no host", as in the source. Dialing is given by its result, and by what
-- other calls do meanwhile.
pub mod Next
pub mod ActiveHost
pub mod Commands
use kimi_ssh.Base.{ℕ, Bool, true, false, Option, none, some, List, [], ◌∷◌, if◌then◌else◌}
use kimi_ssh.Base.Dict.{Dict}
use kimi_ssh.Base.Sort.{sort_texts}
use kimi_ssh.Base.Dict.{Dict}
use kimi_ssh.Base.Text.{Text, same_text}
use kimi_ssh.Config.Settings.{SshConfig}
use kimi_ssh.Connection.{
  Manager, new_manager, Begin, unknown_host, already_connected, must_dial, connect_begin,
  connect_publish, set_configs, disconnect, is_active, active_connections,
}

pub record Session : Type 0 where
  pub manager : Manager
  pub active_host : Text

abbrev pub new_session : Session
new_session = record { manager = new_manager; active_host = [] }

-- The errors of this package and of the connection manager's `Connect`, `Disconnect` and `Execute`.
pub data SessionError : Type 0 where
  no_active_host host_not_found dial_failed not_connected exec_failed : SessionError

abbrev pub first_or_empty : List Text → Text
first_or_empty [] = []
first_or_empty (host ∷ hosts) = host

-- `pickActive`
unfoldable pub pick_active : List Text → Text
pick_active hosts = first_or_empty (sort_texts hosts)

-- `GetActiveHost`: the host, and the session with a lost host replaced.
unfoldable pub get_active_host : Session → Session × Text
get_active_host s =
    if same_text s.active_host []
    then (s, s.active_host)
    else if is_active s.manager s.active_host
    then (s, s.active_host)
    else let host = pick_active (active_connections s.manager) in
      (record s { active_host = host }, host)

-- The dialing of one call: the manager as other calls have left it by then, and whether there is a
-- client; and what other calls have made of the active host.
pub record Dial : Type 0 where
  pub reach : Manager → Text → SshConfig → Manager × Bool
  pub others : Text → Text

-- What `Connect` does after the dialing.
abbrev pub dialed : Text → SshConfig → Manager × Bool → Manager × Option SessionError
dialed host config (n, true) = (connect_publish n host config, none)
dialed host config (n, false) = (n, some dial_failed)

-- `ConnectionManager.Connect`
abbrev pub connect_with : Dial → Manager → Text → Begin → Manager × Option SessionError
connect_with dial m host unknown_host = (m, some host_not_found)
connect_with dial m host already_connected = (m, none)
connect_with dial m host (must_dial config) = dialed host config (dial.reach m host config)

unfoldable pub manager_connect : Dial → Manager → Text → Manager × Option SessionError
manager_connect dial m host = connect_with dial m host (connect_begin m host)

-- `sm.activeHost = target` after a `Connect` that succeeded; else it is as other calls have left it.
abbrev pub activate :
    Dial → Session → Text → Manager × Option SessionError → Session × Option SessionError
activate dial s target (m, none) = (record { manager = m; active_host = target }, none)
activate dial s target (m, some e) =
    (record { manager = m; active_host = dial.others s.active_host }, some e)

-- The host that a call names, or the active one if it names none.
unfoldable pub target_of : Session → Text → Session × Text
target_of s host = if same_text host [] then get_active_host s else (s, host)

abbrev pub connect_target : Dial → Session × Text → Session × Option SessionError
connect_target dial (s, target) =
    if same_text target []
    then (s, some no_active_host)
    else activate dial s target (manager_connect dial s.manager target)

-- `Connect`
unfoldable pub session_connect : Dial → Session → Text → Session × Option SessionError
session_connect dial s host = connect_target dial (target_of s host)

abbrev pub disconnect_error : Bool → Option SessionError
disconnect_error true = none
disconnect_error false = some not_connected

-- `Disconnect`: the active host is replaced whether or not there was an error.
unfoldable pub session_disconnect : Session → Text → Session × Option SessionError
session_disconnect s host =
    let (m, known) = disconnect s.manager host in
    let active =
      if same_text s.active_host host then pick_active (active_connections m) else s.active_host in
    (record { manager = m; active_host = active }, disconnect_error known)

-- `SetConfigs`
abbrev pub set_session_configs : Session → Dict SshConfig → Session
set_session_configs s configs = record s { manager = set_configs s.manager configs }

-- `ListActiveConnections` and `GetActiveConnections`
abbrev pub list_active_connections : Session → List Text
list_active_connections s = active_connections s.manager
