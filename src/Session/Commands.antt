-- ===== src/Session/Commands.antt =====
-- `Execute` of internal/session/manager.go.
use kimi_ssh.Base.{[], if◌then◌else◌, Bool-cases, inl, inr}
use kimi_ssh.Base.Text.{Text, same_text}
use kimi_ssh.Connection.{Manager}
use kimi_ssh.Connection.WellFormed.{IsWellFormed}
use kimi_ssh.Exec.Run.{Attempt, ExecEnv, Remote, Ran, ran, failed, execute}
use kimi_ssh.Exec.Run.Executed.{first_attempt, Executed, execute-Executed}
use kimi_ssh.Session.{Session, target_of}
use kimi_ssh.Session.ActiveHost.{target_of-IsWellFormed}

-- `ErrNoActiveHost`, or what the connection manager's `Execute` gives.
pub data SessionRan : Type 0 where
  no_target : SessionRan
  session_ran : Ran → SessionRan

abbrev pub execute_target : ExecEnv → Remote → Text → Session × Text → Session × SessionRan
execute_target env remote command (s, target) =
    if same_text target []
    then (s, no_target)
    else let (m, r) = execute env remote s.manager target command in
      (record s { manager = m }, session_ran r)

unfoldable pub session_execute : ExecEnv → Remote → Session → Text → Text → Session × SessionRan
session_execute env remote s command host = execute_target env remote command (target_of s host)

Executed-IsWellFormed :
    (m : Manager) (host : Text) (first second : Attempt) (s : Manager × Ran)
    → Executed m host first second s
    → IsWellFormed m
    → IsWellFormed s.0
Executed-IsWellFormed m host first second (n, ran o) (_, e) w = e.well_formed w
Executed-IsWellFormed m host first second (n, failed _) (e, _) w = rw e w

execute_target-IsWellFormed :
    (env : ExecEnv) (remote : Remote) (command : Text) (s : Session) (target : Text)
    → IsWellFormed s.manager
    → IsWellFormed (execute_target env remote command (s, target)).0.manager
execute_target-IsWellFormed env remote command s target w =
    elim (Bool-cases (same_text target [])) [
      | inl e ↦ rw e w
      | inr e ↦ rw e (
          Executed-IsWellFormed s.manager target (first_attempt env remote command)
            (remote.second command) (execute env remote s.manager target command)
            (execute-Executed env remote s.manager target command) w)
    ]

pub session_execute-IsWellFormed :
    (env : ExecEnv) (remote : Remote) (s : Session) (command host : Text)
    → IsWellFormed s.manager
    → IsWellFormed (session_execute env remote s command host).0.manager
unfolding session_execute
session_execute-IsWellFormed env remote s command host w =
    execute_target-IsWellFormed env remote command (target_of s host).0 (target_of s host).1
      (target_of-IsWellFormed s host w)
