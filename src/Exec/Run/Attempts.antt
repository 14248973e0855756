-- ===== src/Exec/Run/Attempts.antt =====
-- What an attempt reports, and when the command is run a second time.
use kimi_ssh.Base.{ℕ, Bool, true, false, ◌&&◌, ◌||◌, not, ◌≢◌, ◌≡◌, refl, arith, if◌then◌else◌}
use kimi_ssh.Base.Int.{ℤ, pos}
use kimi_ssh.Base.Text.{Text}
use kimi_ssh.Connection.{Manager}
use kimi_ssh.Exec.Run.{
  no_session, no_stdout, no_stderr, End, finished, overdue, is_overdue, must_drop, wait_of,
  not_connected, Outcome, exit_code_of, Start, accepted, refused, unanswered, Attempt, Ran, ran,
  failed, is_kill_code, drop_connection, collect, run_started, run,
}

-- Whether the client stops waiting, for the answer to the request or for the command.
abbrev pub late_from : Start → End → Bool
late_from refused end = false
late_from unanswered end = true
late_from accepted end = is_overdue end

abbrev pub is_late : Attempt → Bool
is_late a = late_from a.start a.end

-- Whether a late session cannot be unwound.
abbrev pub stuck_from : Start → End → Bool
stuck_from refused end = false
stuck_from unanswered end = true
stuck_from accepted end = must_drop end

abbrev pub is_stuck : Attempt → Bool
is_stuck a = stuck_from a.start a.end

-- What every reported outcome of an attempt says of itself and of the manager it leaves.
pub record IsReported (m : Manager) (host : Text) (id : ℕ) (wrapped : Bool) (a : Attempt)
    (n : Manager) (o : Outcome) : Type 0 where
  pub late : o.timed_out ≡ (is_late a || o.remote_killed)
  pub code : o.exit_code ≡ (if is_late a then pos 0 else exit_code_of (wait_of a.end))
  pub stuck : o.connection_closed ≡ is_stuck a
  -- A kill on the remote host is reported for the exit codes 124 and 137 of a wrapped command only.
  pub killed : o.remote_killed ≡ (wrapped && is_kill_code o.exit_code)
  pub killed_timed_out : o.remote_killed ≡ true → o.timed_out ≡ true
  -- The connection is dropped exactly when the outcome says so, and only after a timeout.
  pub closed : n ≡ (if o.connection_closed then drop_connection m host id else m)
  pub closed_timed_out : o.connection_closed ≡ true → o.timed_out ≡ true
  -- An outcome that timed out without a remote kill carries exit code 0.
  pub backstop_code : o.timed_out ≡ true → o.remote_killed ≡ false → o.exit_code ≡ pos 0
  pub no_fallback : o.no_remote_timeout ≡ false

abbrev pub Reported : Manager → Text → ℕ → Bool → Attempt → Manager × Ran → Type 0
Reported m host id wrapped a (n, ran o) = IsReported m host id wrapped a n o
Reported m host id wrapped a (n, failed e) = (n ≡ m) × (e ≢ not_connected)

accepted_code :
    (end : End)
    → exit_code_of (wait_of end) ≡ (if is_overdue end then pos 0 else exit_code_of (wait_of end))
unfolding exit_code_of
accepted_code (finished w) = refl
accepted_code (overdue unwound) = refl

run_started-Reported :
    (limit : ℕ) (m : Manager) (id : ℕ) (host : Text) (timeout : ℤ) (wrapped : Bool) (a : Attempt)
    (s : Start)
    → a.start ≡ s
    → Reported m host id wrapped a (run_started limit m id host timeout wrapped a s)
unfolding collect exit_code_of
run_started-Reported limit m id host timeout wrapped a refused e = (refl, λ p. ground arith)
run_started-Reported limit m id host timeout wrapped a unanswered e = record {
  late = rw e refl;
  code = rw e refl;
  stuck = rw e refl;
  killed = ground arith;
  killed_timed_out = λ _. refl;
  closed = refl;
  closed_timed_out = λ _. refl;
  backstop_code = λ _ _. refl;
  no_fallback = refl;
}
run_started-Reported limit m id host timeout wrapped a accepted e = record {
  late = rw e refl;
  code = rw e (accepted_code a.end);
  stuck = rw e refl;
  killed = refl;
  killed_timed_out = λ h. ground arith;
  closed = refl;
  closed_timed_out = λ h. ground arith;
  backstop_code = λ h k. ground arith;
  no_fallback = refl;
}

-- An attempt whose session or pipes do not open fails, and leaves the manager alone.
opened-Reported :
    (m : Manager) (host : Text) (id : ℕ) (wrapped : Bool) (a : Attempt) (b c d : Bool)
    (r : Manager × Ran)
    → Reported m host id wrapped a r
    → Reported m host id wrapped a (
        if not b
        then (m, failed no_session)
        else if not c
        then (m, failed no_stdout)
        else if not d
        then (m, failed no_stderr)
        else r)
opened-Reported m host id wrapped a false c d r h = (refl, λ p. ground arith)
opened-Reported m host id wrapped a true false d r h = (refl, λ p. ground arith)
opened-Reported m host id wrapped a true true false r h = (refl, λ p. ground arith)
opened-Reported m host id wrapped a true true true r h = h

-- What every attempt reports.
pub run-Reported :
    (limit : ℕ) (m : Manager) (id : ℕ) (host : Text) (timeout : ℤ) (wrapped : Bool) (a : Attempt)
    → Reported m host id wrapped a (run limit m id host timeout wrapped a)
unfolding run
run-Reported limit m id host timeout wrapped a =
    opened-Reported m host id wrapped a a.session_opens a.stdout_opens a.stderr_opens
      (run_started limit m id host timeout wrapped a a.start)
      (run_started-Reported limit m id host timeout wrapped a a.start refl)
