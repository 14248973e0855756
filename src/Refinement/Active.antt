-- ===== src/Refinement/Active.antt =====
-- What the session manager of internal/session/manager.go promises to a client that makes its calls
-- one after the other: a set of connected hosts, one of which is the active one.
pub mod Follows
use kimi_ssh.Base.{
  Bool, true, false, ◌≡◌, ◌≢◌, ◌⊎◌, Option, some, List, [], ◌∷◌, if◌then◌else◌, is_some,
}
use kimi_ssh.Base.Sort.{text_le}
use kimi_ssh.Base.Text.{Text}
use kimi_ssh.Base.Dict.{Dict}
use kimi_ssh.Config.Settings.{SshConfig}
use kimi_ssh.Exec.Run.{Ran, ExecEnv, Remote}
use kimi_ssh.Login.Dial.{Caller, dial_with}
use kimi_ssh.Refinement.{
  configure, configured, list_active, listed, connect, hang_up, execute_on, connected, hung_up,
  executed, Spec, new_spec, Allowed,
}
use kimi_ssh.Session.{
  Session, SessionError, no_active_host, disconnect_error, get_active_host, session_connect,
  session_disconnect, set_session_configs, list_active_connections,
}
use kimi_ssh.Session.Commands.{SessionRan, no_target, session_ran, session_execute}

pub data SessionCall : Type 0 where
  learn : Dict SshConfig → SessionCall
  connect_to : Caller → Text → SessionCall
  leave : Text → SessionCall
  execute_in : ExecEnv → Remote → Text → Text → SessionCall
  which : SessionCall
  list_all : SessionCall

pub data SessionReport : Type 0 where
  learned : SessionReport
  entered left : Option SessionError → SessionReport
  ended : SessionRan → SessionReport
  active_is : Text → SessionReport
  all_are : List Text → SessionReport

-- `SetConfigs`, `Connect`, `Disconnect`, `Execute`, `GetActiveHost` and `ListActiveConnections`.
unfoldable pub perform_in : Session → SessionCall → Session × SessionReport
perform_in s (learn configs) = (set_session_configs s configs, learned)
perform_in s (connect_to e host) =
    let (t, r) = session_connect (dial_with e) s host in (t, entered r)
perform_in s (leave host) = let (t, r) = session_disconnect s host in (t, left r)
perform_in s (execute_in env remote command host) =
    let (t, r) = session_execute env remote s command host in (t, ended r)
perform_in s which = let (t, host) = get_active_host s in (t, active_is host)
perform_in s list_all = (s, all_are (list_active_connections s))

unfoldable pub perform_all_in : Session → List SessionCall → Session × List SessionReport
perform_all_in s [] = (s, [])
perform_all_in s (c ∷ cs) =
    let (t, r) = perform_in s c in let (last, rs) = perform_all_in t cs in (last, r ∷ rs)

pub record ActiveSpec : Type 0 where
  pub hosts : Spec
  pub active : Text

abbrev pub new_active_spec : ActiveSpec
new_active_spec = record { hosts = new_spec; active = [] }

-- The least of the connected hosts, or empty if there is none.
abbrev pub IsPicked : (Text → Bool) → Text → Type 0
IsPicked up host =
    ((host ≡ []) × ((j : Text) → up j ≡ false))
    ⊎ ((up host ≡ true) × ((j : Text) → up j ≡ true → text_le host j ≡ true))

-- Which host a call means that names a host or none, and the active host afterwards: one that is lost
-- is replaced.
pub data Means (s : ActiveSpec) : Text → Text → Text → Type 0 where
  named : (host : Text) → host ≢ [] → Means s host host s.active
  kept : (s.active ≡ []) ⊎ (s.hosts.up s.active ≡ true) → Means s [] s.active s.active
  replaced :
      (host : Text) → s.hosts.up s.active ≡ false → IsPicked s.hosts.up host → Means s [] host host

-- Which reports a call may get, by what the set of hosts allows.
pub data ActiveAllowed (s : ActiveSpec) : SessionCall → SessionReport → ActiveSpec → Type 0 where
  learns :
      (configs : Dict SshConfig) (t : Spec)
      → Allowed s.hosts (configure configs) configured t
      → ActiveAllowed s (learn configs) learned (record s { hosts = t })
  enters_nothing :
      (e : Caller) (host active : Text)
      → Means s host [] active
      → ActiveAllowed s
          (connect_to e host)
          (entered (some no_active_host))
          (record s { active = active })
  enters :
      (e : Caller) (host target active : Text) (r : Option SessionError) (t : Spec)
      → Means s host target active
      → target ≢ []
      → Allowed s.hosts (connect e target) (connected r) t
      → ActiveAllowed s
          (connect_to e host)
          (entered r)
          (record { hosts = t; active = if is_some r then active else target })
  leaves_other :
      (host : Text) (known : Bool) (t : Spec)
      → s.active ≢ host
      → Allowed s.hosts (hang_up host) (hung_up known) t
      → ActiveAllowed s (leave host) (left (disconnect_error known)) (record s { hosts = t })
  leaves_active :
      (host : Text) (known : Bool) (t : Spec) (next : Text)
      → s.active ≡ host
      → Allowed s.hosts (hang_up host) (hung_up known) t
      → IsPicked t.up next
      → ActiveAllowed s
          (leave host)
          (left (disconnect_error known))
          (record { hosts = t; active = next })
  runs_nothing :
      (env : ExecEnv) (remote : Remote) (command host active : Text)
      → Means s host [] active
      → ActiveAllowed s
          (execute_in env remote command host)
          (ended no_target)
          (record s { active = active })
  runs_on :
      (env : ExecEnv) (remote : Remote) (command host target active : Text) (r : Ran) (t : Spec)
      → Means s host target active
      → target ≢ []
      → Allowed s.hosts (execute_on env remote command target) (executed r) t
      → ActiveAllowed s
          (execute_in env remote command host)
          (ended (session_ran r))
          (record { hosts = t; active = active })
  tells :
      (host : Text)
      → Means s [] host host
      → ActiveAllowed s which (active_is host) (record s { active = host })
  lists_all :
      (hosts : List Text) (t : Spec)
      → Allowed s.hosts list_active (listed hosts) t
      → ActiveAllowed s list_all (all_are hosts) (record s { hosts = t })

-- The calls get reports that are allowed, one after the other.
pub data ActiveTrace : ActiveSpec → List SessionCall → List SessionReport → Type 0 where
  ends : {s : ActiveSpec} → ActiveTrace s [] []
  goes_on :
      {s : ActiveSpec} {c : SessionCall} {r : SessionReport} {t : ActiveSpec}
      {cs : List SessionCall} {rs : List SessionReport}
      → ActiveAllowed s c r t
      → ActiveTrace t cs rs
      → ActiveTrace s (c ∷ cs) (r ∷ rs)
