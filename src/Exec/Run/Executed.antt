-- ===== src/Exec/Run/Executed.antt =====
-- What `Execute` leaves of the connection, from what its attempts report.
use kimi_ssh.Base.{
  ℕ, List, [], ◌≢◌, ◌&&◌, ◌||◌, not, Bool, true, false, ◌≡◌, refl, ◌∙◌, inl, inr, Option, none,
  some, arith, Bool-cases, if◌then◌else◌, ==_iff,
}
use kimi_ssh.Base.Dict.{lookup, lookup-erase}
use kimi_ssh.Base.Int.{ℤ, pos}
use kimi_ssh.Base.Text.{Text, same_text_self}
use kimi_ssh.Connection.{Manager, connection, close_at, disconnect, forget, is_active}
use kimi_ssh.Connection.Steps.{forget-close_at-IsWellFormed}
use kimi_ssh.Connection.WellFormed.{IsWellFormed}
use kimi_ssh.Exec.Deadline.{exec_timeout, exec_max_output_bytes}
use kimi_ssh.Exec.Quote.{wrap_command}
use kimi_ssh.Exec.Run.{
  Attempt, ExecError, not_connected, exit_code_of, wait_of, is_kill_code, Outcome, Ran, ran, failed,
  drop_connection, run, ExecEnv, Remote, needs_fallback, mark_fallback, after_first, execute_at,
  execute,
}
use kimi_ssh.Exec.Run.Attempts.{is_late, is_stuck, IsReported, Reported, run-Reported}

drop_connection-IsWellFormed :
    (m : Manager) (host : Text) (id : ℕ) → IsWellFormed m → IsWellFormed (drop_connection m host id)
unfolding drop_connection
drop_connection-IsWellFormed m host id w = forget-close_at-IsWellFormed m host id w

drop_connection_inactive :
    (m : Manager) (host : Text) (id : ℕ)
    → lookup host m.connections ≡ some id
    → is_active (drop_connection m host id) host ≡ false
unfolding drop_connection forget close_at is_active
drop_connection_inactive m host id e =
    ground (arith, lookup-erase host host m.connections, same_text_self host)

drop_connection-disconnect :
    (m : Manager) (host : Text) (id : ℕ)
    → lookup host m.connections ≡ some id
    → drop_connection m host id ≡ (disconnect m host).0
unfolding drop_connection forget close_at disconnect
drop_connection-disconnect m host id e = rw (e, disconnect, (==_iff id id).1 refl) refl

-- A timed-out attempt has exit code 0, 124 or 137, so it never asks for a second one.
pub timed_out-needs_fallback :
    {m n : Manager} {host : Text} {id : ℕ} {wrapped : Bool} {a : Attempt} (o : Outcome)
    → IsReported m host id wrapped a n o
    → o.timed_out ≡ true
    → needs_fallback o ≡ false
timed_out-needs_fallback o r h = elim (Bool-cases o.remote_killed) [
  | inl e ↦ ground (arith, r.killed)
  | inr e ↦ ground (arith, r.backstop_code h e)
]

-- What `Execute` reports about a host whose connection is `id`.
pub record IsExecuted (m : Manager) (host : Text) (first second : Attempt) (n : Manager)
    (o : Outcome) : Type 0 where
  -- The attempt that the outcome is of, and how it went.
  pub late :
      o.timed_out ≡ (is_late (if o.no_remote_timeout then second else first) || o.remote_killed)
  pub code :
      let a = if o.no_remote_timeout then second else first in
      o.exit_code ≡ (if is_late a then pos 0 else exit_code_of (wait_of a.end))
  pub killed : o.remote_killed ≡ (not o.no_remote_timeout && is_kill_code o.exit_code)
  pub stuck : o.connection_closed ≡ is_stuck (if o.no_remote_timeout then second else first)
  -- Only the wrapped attempt can be killed remotely, and then the deadline was exceeded.
  pub killed_timed_out : o.remote_killed ≡ true → o.timed_out ≡ true
  pub fallback_not_killed : o.no_remote_timeout ≡ true → o.remote_killed ≡ false
  -- A result of the wrapped attempt is never the notice that `timeout` is missing.
  pub settled : o.no_remote_timeout ≡ false → needs_fallback o ≡ false
  -- The connection is gone if the outcome says that it was closed, and else nothing has changed.
  pub closed : o.connection_closed ≡ true → is_active n host ≡ false
  pub kept : o.connection_closed ≡ false → n ≡ m
  -- A connection that is closed is gone as after `Disconnect`.
  pub left : n ≡ (if o.connection_closed then (disconnect m host).0 else m)
  pub well_formed : IsWellFormed m → IsWellFormed n

-- What an attempt on a connection gives.
abbrev Tried : Manager → Text → Attempt → Attempt → Manager × Ran → Type 0
Tried m host first second (n, ran o) = IsExecuted m host first second n o
Tried m host first second (n, failed e) = (n ≡ m) × (e ≢ not_connected)

-- The error that no connection was found, exactly if there is none.
abbrev pub IsFitting : Bool → ExecError → Type 0
IsFitting true e = e ≢ not_connected
IsFitting false e = e ≡ not_connected

abbrev pub Executed : Manager → Text → Attempt → Attempt → Manager × Ran → Type 0
Executed m host first second (n, ran o) =
    (is_active m host ≡ true) × IsExecuted m host first second n o
Executed m host first second (n, failed e) = (n ≡ m) × IsFitting (is_active m host) e

module _ (m : Manager) (host : Text) (id : ℕ) (here : lookup host m.connections ≡ some id) where
  module _ {wrapped : Bool} {a : Attempt} {n : Manager} {o : Outcome}
      (r : IsReported m host id wrapped a n o) where
    reported_closed : o.connection_closed ≡ true → is_active n host ≡ false
    reported_closed h = rw r.closed (rw h (drop_connection_inactive m host id here))

    reported_kept : o.connection_closed ≡ false → n ≡ m
    reported_kept h = r.closed ∙ rw h

    reported_left : n ≡ (if o.connection_closed then (disconnect m host).0 else m)
    reported_left = rw (← drop_connection-disconnect m host id here) r.closed

    reported-IsWellFormed : IsWellFormed m → IsWellFormed n
    reported-IsWellFormed w = elim (Bool-cases o.connection_closed) [
      | inl e ↦ rw r.closed (rw e (drop_connection-IsWellFormed m host id w))
      | inr e ↦ rw (reported_kept e) w
    ]

  first-Executed :
      (first second : Attempt) (n : Manager) (o : Outcome)
      → IsReported m host id true first n o
      → needs_fallback o ≡ false
      → IsExecuted m host first second n o
  first-Executed first second n o r settled = record {
    late = rw r.no_fallback r.late;
    code = rw r.no_fallback r.code;
    killed = rw r.no_fallback r.killed;
    stuck = rw r.no_fallback r.stuck;
    killed_timed_out = r.killed_timed_out;
    fallback_not_killed = λ h. ground (arith, r.no_fallback);
    settled = λ _. settled;
    closed = reported_closed r;
    kept = reported_kept r;
    left = reported_left r;
    well_formed = reported-IsWellFormed r;
  }

  second-Executed :
      (first second : Attempt) (s : Manager × Ran)
      → Reported m host id false second s
      → Tried m host first second (mark_fallback s)
  second-Executed first second (n, failed e) h = h
  second-Executed first second (n, ran o) r = record {
    late = r.late;
    code = r.code;
    killed = r.killed;
    stuck = r.stuck;
    killed_timed_out = r.killed_timed_out;
    fallback_not_killed = λ _. r.killed;
    settled = λ h. ground arith;
    closed = reported_closed r;
    kept = reported_kept r;
    left = reported_left r;
    well_formed = reported-IsWellFormed r;
  }

  after_first-Executed :
      (first second : Attempt) (again : Manager → Manager × Ran) (s : Manager × Ran)
      → Reported m host id true first s
      → ((n : Manager) → n ≡ m → Reported m host id false second (again n))
      → Tried m host first second (after_first again s)
  after_first-Executed first second again (n, failed e) h k = h
  after_first-Executed first second again (n, ran o) r k = elim (Bool-cases (needs_fallback o)) [
    | inr e ↦ rw e (first-Executed first second n o r e)
    | inl e ↦ rw e (second-Executed first second (again n) (k n (reported_kept r (open_still e))))
  ]
    where
      open_still : needs_fallback o ≡ true → o.connection_closed ≡ false
      open_still e = elim (Bool-cases o.connection_closed) [
        | inr c ↦ c
        | inl c ↦ ground (arith, timed_out-needs_fallback o r (r.closed_timed_out c))
      ]

connection-lookup :
    (m : Manager) (host : Text) {id : ℕ}
    → connection m host ≡ some id
    → lookup host m.connections ≡ some id
unfolding connection
connection-lookup m host e = ground arith

connection-is_active :
    (m : Manager) (host : Text) {id : ℕ} → connection m host ≡ some id → is_active m host ≡ true
unfolding connection
connection-is_active m host e = ground arith

pub connection-inactive :
    (lost : List ℕ) (m : Manager) (host : Text)
    → connection m host ≡ none
    → is_active m host ≡ false
unfolding connection is_active
connection-inactive lost m host e = ground (arith, e)

Tried-Executed :
    (m : Manager) (host : Text) (first second : Attempt) (s : Manager × Ran)
    → is_active m host ≡ true
    → Tried m host first second s
    → Executed m host first second s
Tried-Executed m host first second (n, ran o) up h = (up, h)
Tried-Executed m host first second (n, failed e) up h = (h.0, rw (up, IsFitting) h.1)

-- The attempts of a command.
abbrev pub first_attempt : ExecEnv → Remote → Text → Attempt
first_attempt env remote command =
    remote.first (wrap_command command (exec_timeout env.timeout_raw))

module _ (env : ExecEnv) (remote : Remote) (m : Manager) (host command : Text) where
  execute_at-Executed :
      (c : Option ℕ)
      → connection m host ≡ c
      → Executed m host
          (first_attempt env remote command)
          (remote.second command)
          (execute_at env remote m host command c)
  execute_at-Executed none e = (refl, rw (connection-inactive [] m host e, IsFitting) refl)
  execute_at-Executed (some id) e =
      Tried-Executed m host first second _ (connection-is_active m host e) (
        after_first-Executed m host id (connection-lookup m host e) first second
          (λ n. run limit n id host timeout false second) (run limit m id host timeout true first)
          (run-Reported limit m id host timeout true first)
          (λ n p. rw p (run-Reported limit m id host timeout false second)))
    where
      timeout : ℤ
      timeout = exec_timeout env.timeout_raw

      limit : ℕ
      limit = exec_max_output_bytes env.max_output_raw

      first : Attempt
      first = first_attempt env remote command

      second : Attempt
      second = remote.second command

  pub execute-Executed :
      Executed m host
        (first_attempt env remote command)
        (remote.second command)
        (execute env remote m host command)
  unfolding execute
  execute-Executed = execute_at-Executed (connection m host) refl
