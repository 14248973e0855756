-- ===== src/Exec/Run/Errors.antt =====
-- Which errors `run` and `Execute` give.
use kimi_ssh.Base.{
  ℕ, Bool, true, false, not, ◌≡◌, refl, sym, ◌⊎◌, inl, inr, Option, none, some, if◌then◌else◌,
  Bool-cases, [], arith,
}
use kimi_ssh.Base.Int.{ℤ}
use kimi_ssh.Base.Text.{Text}
use kimi_ssh.Connection.{Manager, connection, is_active}
use kimi_ssh.Exec.Deadline.{exec_timeout, exec_max_output_bytes}
use kimi_ssh.Exec.Run.{
  ExecError, no_session, no_stdout, no_stderr, start_failed, Start, accepted, refused, unanswered,
  Attempt, Ran, ran, failed, run_started, run, mark_fallback, needs_fallback, after_first,
  execute_at, execute, ExecEnv, Remote,
}
use kimi_ssh.Exec.Run.Attempts.{Reported, run-Reported}
use kimi_ssh.Exec.Run.Executed.{first_attempt, connection-inactive}

abbrev ran_error : Ran → Option ExecError
ran_error (ran o) = none
ran_error (failed e) = some e

abbrev start_error : Start → Option ExecError
start_error refused = some start_failed
start_error unanswered = none
start_error accepted = none

-- The first thing that goes wrong before the command runs.
abbrev pub attempt_error : Attempt → Option ExecError
attempt_error a =
    if not a.session_opens
    then some no_session
    else if not a.stdout_opens
    then some no_stdout
    else if not a.stderr_opens
    then some no_stderr
    else start_error a.start

opened_error :
    (m : Manager) (b c d : Bool) (r : Manager × Ran) (e : Option ExecError)
    → ran_error r.1 ≡ e
    → let s : Manager × Ran =
        (if not b
          then (m, failed no_session)
          else if not c
          then (m, failed no_stdout)
          else if not d
          then (m, failed no_stderr)
          else r) in
      ran_error s.1 ≡ (
        if not b
        then some no_session
        else if not c
        then some no_stdout
        else if not d
        then some no_stderr
        else e)
opened_error m false c d r e h = refl
opened_error m true false d r e h = refl
opened_error m true true false r e h = refl
opened_error m true true true r e h = h

started_error :
    (limit : ℕ) (m : Manager) (id : ℕ) (host : Text) (timeout : ℤ) (wrapped : Bool) (a : Attempt)
    (s : Start)
    → ran_error (run_started limit m id host timeout wrapped a s).1 ≡ start_error s
started_error limit m id host timeout wrapped a refused = refl
started_error limit m id host timeout wrapped a unanswered = refl
started_error limit m id host timeout wrapped a accepted = refl

run_error :
    (limit : ℕ) (m : Manager) (id : ℕ) (host : Text) (timeout : ℤ) (wrapped : Bool) (a : Attempt)
    → ran_error (run limit m id host timeout wrapped a).1 ≡ attempt_error a
unfolding run
run_error limit m id host timeout wrapped a =
    opened_error m a.session_opens a.stdout_opens a.stderr_opens
      (run_started limit m id host timeout wrapped a a.start) (start_error a.start)
      (started_error limit m id host timeout wrapped a a.start)

-- An outcome is of an attempt that meets no error, and an error of a connected host is one that an
-- attempt meets.
abbrev pub Begun : Bool → Attempt → Attempt → Ran → Type 0
Begun up first second (ran o) = attempt_error (if o.no_remote_timeout then second else first) ≡ none
Begun up first second (failed e) =
    up ≡ true → (attempt_error first ≡ some e) ⊎ (attempt_error second ≡ some e)

module _ (up : Bool) (first second : Attempt) where
  second-Begun :
      (s : Manager × Ran)
      → ran_error s.1 ≡ attempt_error second
      → Begun up first second (mark_fallback s).1
  second-Begun (n, ran o) h = sym h
  second-Begun (n, failed e) h = λ _. inr (sym h)

  after_first-Begun :
      (m : Manager) (host : Text) (id : ℕ) (again : Manager → Manager × Ran) (s : Manager × Ran)
      → Reported m host id true first s
      → ran_error s.1 ≡ attempt_error first
      → ((n : Manager) → ran_error (again n).1 ≡ attempt_error second)
      → Begun up first second (after_first again s).1
  after_first-Begun m host id again (n, failed e) r h k = λ _. inl (sym h)
  after_first-Begun m host id again (n, ran o) r h k = elim (Bool-cases (needs_fallback o)) [
    | inr e ↦ rw (e, r.no_fallback) (sym h)
    | inl e ↦ rw e (second-Begun (again n) (k n))
  ]

module _ (env : ExecEnv) (remote : Remote) (m : Manager) (host command : Text) where
  execute_at-Begun :
      (c : Option ℕ)
      → connection m host ≡ c
      → Begun
          (is_active m host)
          (first_attempt env remote command)
          (remote.second command)
          (execute_at env remote m host command c).1
  execute_at-Begun none e = λ up. absurd (ground (arith, connection-inactive [] m host e, up))
  execute_at-Begun (some id) e =
      after_first-Begun (is_active m host) (first_attempt env remote command)
        (remote.second command) m host id
        (λ n. run limit n id host timeout false (remote.second command))
        (run limit m id host timeout true (first_attempt env remote command))
        (run-Reported limit m id host timeout true (first_attempt env remote command))
        (run_error limit m id host timeout true (first_attempt env remote command))
        (λ n. run_error limit n id host timeout false (remote.second command))
    where
      timeout : ℤ
      timeout = exec_timeout env.timeout_raw

      limit : ℕ
      limit = exec_max_output_bytes env.max_output_raw

  pub execute-Begun :
      Begun
        (is_active m host)
        (first_attempt env remote command)
        (remote.second command)
        (execute env remote m host command).1
  unfolding execute
  execute-Begun = execute_at-Begun (connection m host) refl
