-- ===== src/Session/Next.antt =====
-- `Execute` of internal/session/manager.go after its `Connect`.
use kimi_ssh.Base.{◌≡◌, refl, ◌∙◌, Option, none, ap, some, [], arith, false, true}
use kimi_ssh.Base.Text.{Text, same_text, same_text_iff}
use kimi_ssh.Connection.{is_active}
use kimi_ssh.Connection.WellFormed.{IsWellFormed}
use kimi_ssh.Exec.Run.{ExecEnv, Remote}
use kimi_ssh.Session.{Session, SessionError, Dial, get_active_host, target_of, session_connect}
use kimi_ssh.Session.ActiveHost.{IsTame, ConnectResult, session_connect-ConnectResult}
use kimi_ssh.Session.Commands.{session_execute, execute_target}

target_of-active :
    (t : Session)
    → same_text t.active_host [] ≡ false
    → is_active t.manager t.active_host ≡ true
    → target_of t [] ≡ target_of t t.active_host
unfolding target_of get_active_host same_text
target_of-active t named up = rw (named, up) refl

-- After a success, a call that names no host is the call that names the active host.
connected-execute :
    (dial : Dial) (env : ExecEnv) (remote : Remote) (command : Text) (s : Session) (target : Text)
    (r : Session × Option SessionError)
    → ConnectResult dial s target r
    → r.1 ≡ none
    → session_execute env remote r.0 command [] ≡ session_execute env remote r.0 command target
unfolding session_execute
connected-execute dial env remote command s target (t, some e) k h = ground (arith, h)
connected-execute dial env remote command s target (t, none) (w, same, named, up) h =
    let active : same_text t.active_host [] ≡ false =
      ground (arith, same_text_iff t.active_host [], same, named) in
    ap (execute_target env remote command) (target_of-active t active (rw same up) ∙ rw same refl)

-- After a `Connect` that succeeded, an `Execute` that names no host does what it does when it
-- names the host that was connected, for a well-formed manager that dialing keeps so.
pub session_execute-session_connect :
    (dial : Dial) (env : ExecEnv) (remote : Remote) (s : Session) (host command : Text)
    → IsTame dial
    → IsWellFormed s.manager
    → (session_connect dial s host).1 ≡ none
    → let t = (session_connect dial s host).0 in
      session_execute env remote t command []
      ≡ session_execute env remote t command (target_of s host).1
session_execute-session_connect dial env remote s host command tame w h =
    connected-execute dial env remote command (target_of s host).0 (target_of s host).1
      (session_connect dial s host) (session_connect-ConnectResult dial s host tame w) h
