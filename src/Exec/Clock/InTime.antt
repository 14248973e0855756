-- ===== src/Exec/Clock/InTime.antt =====
-- A command that the remote `timeout` ends, seen by the client.
use kimi_ssh.Base.{ℕ, Bool, false, ◌&&◌, ◌≡◌}
use kimi_ssh.Base.Int.{pos}
use kimi_ssh.Base.Text.{Text}
use kimi_ssh.Connection.{Manager}
use kimi_ssh.Exec.Run.{Wait, exit_code_of, is_kill_code, Attempt, Outcome}
use kimi_ssh.Exec.Clock.{Timing, clocked, attempt_deadline}

-- An outcome of a command that ended by itself or by a remote kill.
pub record IsInTime (w : Wait) (wrapped : Bool) (o : Outcome) : Type 0 where
  pub code : o.exit_code ≡ exit_code_of w
  pub killed : o.remote_killed ≡ (wrapped && is_kill_code (exit_code_of w))
  pub late : o.timed_out ≡ o.remote_killed
  pub kept : o.connection_closed ≡ false

module _ (limit : ℕ) (m : Manager) (id : ℕ) (host : Text) (n : ℕ) (wrapped : Bool) (a : Attempt)
    (t : Timing) (s d : ℕ) (w : Wait) where
  abbrev pub timed_attempt : Attempt
  timed_attempt = clocked t (attempt_deadline (pos n)) a
