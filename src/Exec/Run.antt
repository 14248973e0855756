-- ===== src/Exec/Run.antt =====
-- `Outcome`, `run`, `exitCodeOf` and `Execute` of internal/ssh/exec.go. What the server and the clock
-- do during one attempt is a record: which calls fail, what arrives on the two streams, and whether
-- the command ends before the client's deadline.
pub mod Errors
pub mod Executed
pub mod Attempts
pub mod Fallback
use kimi_ssh.Base.{
  ℕ, Bool, true, false, not, ◌&&◌, ◌||◌, Option, none, some, List, [], ◌∷◌, if◌then◌else◌,
}
use kimi_ssh.Base.Int.{ℤ, pos, negsuc, same_int}
use kimi_ssh.Base.Text.{Text}
use kimi_ssh.Connection.{Manager, connection, close_at, forget}
use kimi_ssh.Exec.Buffer.{empty_buffer, write_all}
use kimi_ssh.Exec.Deadline.{exec_timeout, exec_max_output_bytes}
use kimi_ssh.Exec.Missing.{missing_remote_timeout}
use kimi_ssh.Exec.Quote.{wrap_command}

pub record Outcome : Type 0 where
  pub host : Text
  pub stdout : Text
  pub stderr : Text
  pub exit_code : ℤ
  pub timed_out : Bool
  pub timeout : ℤ
  pub remote_killed : Bool
  pub no_remote_timeout : Bool
  pub connection_closed : Bool
  pub stdout_bytes : ℕ
  pub stderr_bytes : ℕ

-- How `remote.Wait` ends: with nil, with an `*ssh.ExitError`, or with another error.
pub data Wait : Type 0 where
  clean : Wait
  exited : ℤ → Wait
  lost : Wait

unfoldable pub exit_code_of : Wait → ℤ
exit_code_of clean = pos 0
exit_code_of (exited status) = status
exit_code_of lost = negsuc 0

-- How `remote.Start` ends: accepted, refused, or not before the deadline.
pub data Start : Type 0 where
  accepted refused unanswered : Start

-- How the started command ends: before the deadline, or not. In the second case the session is
-- closed, and unwinds within the grace period or not.
pub data End : Type 0 where
  finished : Wait → End
  overdue : Bool → End

pub record Attempt : Type 0 where
  pub session_opens : Bool
  pub stdout_opens : Bool
  pub stderr_opens : Bool
  pub start : Start
  pub end : End
  pub stdout_chunks : List Text
  pub stderr_chunks : List Text

pub data ExecError : Type 0 where
  not_connected no_session no_stdout no_stderr start_failed : ExecError

pub data Ran : Type 0 where
  ran : Outcome → Ran
  failed : ExecError → Ran

-- `&Outcome{Host: host, Timeout: timeout}`
abbrev pub new_outcome : Text → ℤ → Outcome
new_outcome host timeout = record {
  host = host;
  stdout = [];
  stderr = [];
  exit_code = pos 0;
  timed_out = false;
  timeout = timeout;
  remote_killed = false;
  no_remote_timeout = false;
  connection_closed = false;
  stdout_bytes = 0;
  stderr_bytes = 0;
}

-- `waitErr` stays nil when the deadline passes first.
abbrev pub wait_of : End → Wait
wait_of (finished w) = w
wait_of (overdue unwound) = clean

abbrev pub is_overdue : End → Bool
is_overdue (finished w) = false
is_overdue (overdue unwound) = true

-- The session did not unwind, so the connection is dropped.
abbrev pub must_drop : End → Bool
must_drop (finished w) = false
must_drop (overdue unwound) = not unwound

-- `outcome.ExitCode == 124 || outcome.ExitCode == 137`
abbrev pub is_kill_code : ℤ → Bool
is_kill_code code = same_int code (pos 124) || same_int code (pos 137)

-- `conn.close(); cm.forget(host, conn)`
unfoldable pub drop_connection : Manager → Text → ℕ → Manager
drop_connection m host id = forget (close_at m id) host id

-- The outcome of a command that was started.
unfoldable pub collect : ℕ → Outcome → Bool → Attempt → Outcome
collect limit o wrapped a =
    let out = write_all (empty_buffer limit) a.stdout_chunks in
    let err_out = write_all (empty_buffer limit) a.stderr_chunks in
    let code = exit_code_of (wait_of a.end) in
    let killed = wrapped && is_kill_code code in
    record o {
      stdout = out.buffer;
      stderr = err_out.buffer;
      stdout_bytes = out.total;
      stderr_bytes = err_out.total;
      exit_code = code;
      connection_closed = must_drop a.end;
      remote_killed = killed;
      timed_out = is_overdue a.end || killed;
    }

-- From the answer to the exec request on.
abbrev pub run_started : ℕ → Manager → ℕ → Text → ℤ → Bool → Attempt → Start → Manager × Ran
run_started limit m id host timeout wrapped a refused = (m, failed start_failed)
run_started limit m id host timeout wrapped a unanswered = (
  drop_connection m host id,
  ran (record (new_outcome host timeout) { timed_out = true; connection_closed = true }),
)
run_started limit m id host timeout wrapped a accepted = (
  if must_drop a.end then drop_connection m host id else m,
  ran (collect limit (new_outcome host timeout) wrapped a),
)

-- `run`: one attempt over a fresh session.
unfoldable pub run : ℕ → Manager → ℕ → Text → ℤ → Bool → Attempt → Manager × Ran
run limit m id host timeout wrapped a =
    if not a.session_opens
    then (m, failed no_session)
    else if not a.stdout_opens
    then (m, failed no_stdout)
    else if not a.stderr_opens
    then (m, failed no_stderr)
    else run_started limit m id host timeout wrapped a a.start

-- The values of the two environment variables.
pub record ExecEnv : Type 0 where
  pub timeout_raw : Text
  pub max_output_raw : Text

-- What happens to a command, at the first attempt and at the second.
pub record Remote : Type 0 where
  pub first : Text → Attempt
  pub second : Text → Attempt

abbrev pub needs_fallback : Outcome → Bool
needs_fallback o = same_int o.exit_code (pos 127) && missing_remote_timeout o.stderr

abbrev pub mark_fallback : Manager × Ran → Manager × Ran
mark_fallback (m, failed e) = (m, failed e)
mark_fallback (m, ran o) = (m, ran (record o { no_remote_timeout = true }))

-- After the wrapped attempt: its outcome, or the bare command once more.
abbrev pub after_first : (Manager → Manager × Ran) → Manager × Ran → Manager × Ran
after_first again (m, failed e) = (m, failed e)
after_first again (m, ran o) = if needs_fallback o then mark_fallback (again m) else (m, ran o)

abbrev pub execute_at : ExecEnv → Remote → Manager → Text → Text → Option ℕ → Manager × Ran
execute_at env remote m host command none = (m, failed not_connected)
execute_at env remote m host command (some id) =
    let timeout = exec_timeout env.timeout_raw in
    let limit = exec_max_output_bytes env.max_output_raw in
    after_first (λ n. run limit n id host timeout false (remote.second command))
      (run limit m id host timeout true (remote.first (wrap_command command timeout)))

-- `Execute`
unfoldable pub execute : ExecEnv → Remote → Manager → Text → Text → Manager × Ran
execute env remote m host command = execute_at env remote m host command (connection m host)
