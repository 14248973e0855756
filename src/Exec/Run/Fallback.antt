-- ===== src/Exec/Run/Fallback.antt =====
-- `Execute`: when the command is run a second time, and what is left of the connection.
use kimi_ssh.Base.{ℕ, true, false, ◌≡◌, refl, some, ◌&&◌, ◌||◌, if◌then◌else◌, not}
use kimi_ssh.Base.Int.{pos}
use kimi_ssh.Base.Text.{Text}
use kimi_ssh.Connection.{disconnect, Manager, connection, is_active}
use kimi_ssh.Connection.WellFormed.{IsWellFormed}
use kimi_ssh.Exec.Deadline.{exec_timeout, exec_max_output_bytes}
use kimi_ssh.Exec.Quote.{wrap_command}
use kimi_ssh.Exec.Run.{
  Attempt, Ran, exit_code_of, wait_of, is_kill_code, Outcome, ran, failed, run, ExecEnv, Remote,
  needs_fallback, execute_at, execute,
}
use kimi_ssh.Exec.Run.Attempts.{is_late, is_stuck, IsReported, run-Reported}
use kimi_ssh.Exec.Run.Errors.{Begun}
use kimi_ssh.Exec.Run.Executed.{timed_out-needs_fallback, IsFitting, Executed}

-- What is said of an outcome, with the manager `n` that it leaves and the attempt that it is of.
pub record IsTruthful (m : Manager) (host : Text) (a : Attempt) (n : Manager) (o : Outcome)
    : Type 0 where
  -- Timed out exactly if the client stopped waiting or the exit code is that of a remote kill.
  pub late : o.timed_out ≡ (is_late a || o.remote_killed)
  pub killed : o.remote_killed ≡ (not o.no_remote_timeout && is_kill_code o.exit_code)
  -- The exit code that the server sent, or 0 if the client stopped waiting.
  pub code : o.exit_code ≡ (if is_late a then pos 0 else exit_code_of (wait_of a.end))
  -- Not run again, although the notice is there: never.
  pub settled : (not o.no_remote_timeout && needs_fallback o) ≡ false
  -- The connection is dropped exactly if the session could not be unwound.
  pub stuck : o.connection_closed ≡ is_stuck a
  pub left : n ≡ (if o.connection_closed then (disconnect m host).0 else m)
  pub well_formed : IsWellFormed n

-- An outcome of a connected host, of the second attempt if it says that there is no `timeout`; or an
-- error that leaves everything as it was, and that the host is not connected exactly if it is not.
abbrev pub Truthful : Manager → Text → Attempt → Attempt → Manager × Ran → Type 0
Truthful m host first second (n, ran o) =
    (is_active m host ≡ true)
    × Begun (is_active m host) first second (ran o)
    × IsTruthful m host (if o.no_remote_timeout then second else first) n o
Truthful m host first second (n, failed e) =
    (n ≡ m) × IsFitting (is_active m host) e × Begun (is_active m host) first second (failed e)

-- A command whose wrapped attempt timed out is not run again: that attempt's outcome is the
-- result.
pub execute_timed_out :
    (env : ExecEnv) (remote : Remote) (m n : Manager) (host command : Text) (id : ℕ) (o : Outcome)
    → connection m host ≡ some id
    → run
        (exec_max_output_bytes env.max_output_raw)
        m
        id
        host
        (exec_timeout env.timeout_raw)
        true
        (remote.first (wrap_command command (exec_timeout env.timeout_raw)))
      ≡ (n, ran o)
    → o.timed_out ≡ true
    → execute env remote m host command ≡ (n, ran o)
unfolding execute
execute_timed_out env remote m n host command id o c e h =
    let limit = exec_max_output_bytes env.max_output_raw in
    let timeout = exec_timeout env.timeout_raw in
    let r : IsReported m host id true (remote.first (wrap_command command timeout)) n o =
      rw e at
        (run-Reported limit m id host timeout true (remote.first (wrap_command command timeout))) in
    rw (c, execute_at, e, timed_out-needs_fallback o r h) refl
