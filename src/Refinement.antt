-- ===== src/Refinement.antt =====
-- What the connection manager of internal/ssh/connection.go and internal/ssh/exec.go promises to a
-- client that makes its calls one after the other: a set of connected hosts. How a connection is
-- stored, and how it goes away, is forgotten.
pub mod Active
pub mod Live
pub mod Simulation
use kimi_ssh.Base.{Bool, true, false, ◌≢◌, ◌≡◌, Option, some, List, [], ◌∷◌, if◌then◌else◌, is_some}
use kimi_ssh.Base.Dict.{Dict, lookup}
use kimi_ssh.Base.Sort.{IsSorted}
use kimi_ssh.Base.Text.{Text, same_text}
use kimi_ssh.Config.Resolve.{has_key}
use kimi_ssh.Config.Settings.{SshConfig}
use kimi_ssh.Connection.{Manager, set_configs, disconnect, active_connections}
use kimi_ssh.Exec.Run.{
  Outcome, ExecError, not_connected, Ran, ran, failed, ExecEnv, Remote, execute,
}
use kimi_ssh.Login.Dial.{Caller, dial_with}
use kimi_ssh.Login.Dial.Connect.{connect_error}
use kimi_ssh.Session.{SessionError, manager_connect}

pub data Call : Type 0 where
  configure : Dict SshConfig → Call
  connect : Caller → Text → Call
  hang_up : Text → Call
  execute_on : ExecEnv → Remote → Text → Text → Call
  list_active : Call

pub data Report : Type 0 where
  configured : Report
  connected : Option SessionError → Report
  hung_up : Bool → Report
  executed : Ran → Report
  listed : List Text → Report

-- `SetConfigs`, `Connect`, `Disconnect`, `Execute` and `GetActiveConnections`.
unfoldable pub perform : Manager → Call → Manager × Report
perform m (configure configs) = (set_configs m configs, configured)
perform m (connect e host) = let (n, r) = manager_connect (dial_with e) m host in (n, connected r)
perform m (hang_up host) = let (n, known) = disconnect m host in (n, hung_up known)
perform m (execute_on env remote command host) =
    let (n, r) = execute env remote m host command in (n, executed r)
perform m list_active = (m, listed (active_connections m))

unfoldable pub perform_all : Manager → List Call → Manager × List Report
perform_all m [] = (m, [])
perform_all m (c ∷ cs) =
    let (n, r) = perform m c in let (last, rs) = perform_all n cs in (last, r ∷ rs)

-- The hosts that are connected, and the configs.
pub record Spec : Type 0 where
  pub up : Text → Bool
  pub configs : Dict SshConfig

abbrev pub new_spec : Spec
new_spec = record { up = λ host. false; configs = [] }

abbrev pub with_host : Spec → Text → Bool → Spec
with_host s host b = record s { up = λ j. if same_text host j then b else s.up j }

-- Which reports a call may get, and the set it leaves.
pub data Allowed (s : Spec) : Call → Report → Spec → Type 0 where
  configures :
      (configs : Dict SshConfig)
      → Allowed s (configure configs) configured (record s { configs = configs })
  -- An error leaves everything as it was.
  connects :
      (e : Caller) (host : Text) (r : Option SessionError)
      → r ≡ connect_error e (s.up host) (lookup host s.configs)
      → Allowed s (connect e host) (connected r) (if is_some r then s else with_host s host true)
  hangs_up : (host : Text) → Allowed s (hang_up host) (hung_up (s.up host)) (with_host s host false)
  refuses :
      (env : ExecEnv) (remote : Remote) (command host : Text)
      → s.up host ≡ false
      → Allowed s (execute_on env remote command host) (executed (failed not_connected)) s
  fails :
      (env : ExecEnv) (remote : Remote) (command host : Text) (e : ExecError)
      → s.up host ≡ true
      → e ≢ not_connected
      → Allowed s (execute_on env remote command host) (executed (failed e)) s
  -- The outcome says whether the connection is gone.
  runs :
      (env : ExecEnv) (remote : Remote) (command host : Text) (o : Outcome)
      → s.up host ≡ true
      → Allowed s
          (execute_on env remote command host)
          (executed (ran o))
          (if o.connection_closed then with_host s host false else s)
  lists :
      (hosts : List Text)
      → IsSorted hosts
      → ((j : Text) → has_key hosts j ≡ s.up j)
      → Allowed s list_active (listed hosts) s

-- The calls get reports that are allowed, one after the other.
pub data Trace : Spec → List Call → List Report → Type 0 where
  ends : {s : Spec} → Trace s [] []
  goes_on :
      {s : Spec} {c : Call} {r : Report} {t : Spec} {cs : List Call} {rs : List Report}
      → Allowed s c r t
      → Trace t cs rs
      → Trace s (c ∷ cs) (r ∷ rs)
