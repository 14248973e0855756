-- ===== src/Server/Reports.antt =====
-- What `ssh_exec` reports of a command, against the outcome of `Execute`.
use kimi_ssh.Base.{Bool, true, false, not, ◌≡◌, ◌≢◌, ◌↔◌, refl, some, [], arith}
use kimi_ssh.Base.Int.{ℤ, pos, negsuc, is_zero}
use kimi_ssh.Base.Text.{Text, same_text, same_text_iff}
use kimi_ssh.Exec.Run.{Outcome, ran, failed}
use kimi_ssh.Session.Commands.{SessionRan, no_target, session_ran, session_execute}
use kimi_ssh.Server.State.{Server, World, decode}
use kimi_ssh.Server.Tools.{Answer, done, refused, has_failed, exec_answer, exec_command}

-- A command that ended by itself with exit code 0.
abbrev pub IsSuccess : SessionRan → Type 0
IsSuccess no_target = ⊥
IsSuccess (session_ran (failed e)) = ⊥
IsSuccess (session_ran (ran o)) = (o.timed_out ≡ false) × (o.exit_code ≡ pos 0)

zero_code : (code : ℤ) → is_zero code ≡ true → code ≡ pos 0
zero_code (pos n) h = ground arith
zero_code (negsuc n) h = ground arith

-- A result that is not marked as an error.
abbrev pub is_ok : Answer → Bool
is_ok (done r) = not r.is_error
is_ok (refused e) = false

has_failed-IsSuccess : (o : Outcome) → (not (has_failed o) ≡ true) ↔ IsSuccess (session_ran (ran o))
has_failed-IsSuccess o =
    (λ h. (ground (arith, h), zero_code o.exit_code (ground (arith, h))), λ s. rw (s.0, s.1) refl)

exec_answer-IsSuccess :
    (w : World) (command : Text) (s : SessionRan)
    → (is_ok (exec_answer w command s) ≡ true) ↔ IsSuccess s
exec_answer-IsSuccess w command no_target = (λ h. absurd (ground (arith, h)), λ s. absurd s)
exec_answer-IsSuccess w command (session_ran (failed e)) =
    (λ h. absurd (ground (arith, h)), λ s. absurd s)
exec_answer-IsSuccess w command (session_ran (ran o)) = has_failed-IsSuccess o

-- The result of `ssh_exec` is free of the error flag exactly if `Execute` had a target and an
-- outcome, the command did not time out, and its exit code was 0; for arguments that decode and a
-- command that is not empty.
pub exec_command-IsSuccess :
    (w : World) (s : Server) (arguments command host : Text)
    → decode ([], []) w.exec_arguments arguments ≡ some (command, host)
    → command ≢ []
    → (is_ok (exec_command w s arguments).1 ≡ true)
      ↔ IsSuccess (session_execute w.exec_env w.remote s.session_manager command host).1
unfolding exec_command
exec_command-IsSuccess w s arguments command host e ne =
    let named : same_text command [] ≡ false = ground (arith, same_text_iff command [], ne) in
    rw (e, named)
      (exec_answer-IsSuccess w command
        (session_execute w.exec_env w.remote s.session_manager command host).1)
