-- ===== src/Exec/Clock/Bounded.antt =====
-- How long an attempt takes, and when it gives up.
use kimi_ssh.Base.{
  ℕ, ◌+◌, ◌*◌, ◌-◌, ◌≤◌, Bool, true, false, not, ◌&&◌, ◌≡◌, refl, inl, inr, Option, none, some,
  if◌then◌else◌, arith, Bool-cases,
}
use kimi_ssh.Exec.Run.{
  Outcome, ran, new_outcome, collect, run, run_started, Start, accepted, refused, unanswered, End,
  finished, overdue, is_overdue, Attempt,
}
use kimi_ssh.Exec.Clock.{
  teardown_grace, Timing, waited, start_of, end_of, clocked, ended_at, end_time, time_from,
  run_time, attempt_deadline,
}
use kimi_ssh.Base.Int.{ℤ}
use kimi_ssh.Base.Text.{Text}
use kimi_ssh.Connection.{Manager}

-- Whether the client gives up waiting, for the answer to the request or for the command.
abbrev pub given_up : Start → End → Bool
given_up refused end = false
given_up unanswered end = true
given_up accepted end = is_overdue end

waited_le : (o : Option ℕ) (limit : ℕ) → waited o limit ≤ limit
waited_le none limit = omega arith
waited_le (some d) limit = ground arith

end_time_le : (t : Timing) (left : ℕ) (end : End) → end_time t left end ≤ left + 2 * teardown_grace
end_time_le t left (finished w) = omega (arith, waited_le (ended_at t.ended) left)
end_time_le t left (overdue true) = omega (arith, waited_le t.unwound teardown_grace)
end_time_le t left (overdue false) =
    omega (arith, waited_le t.unwound teardown_grace, waited_le t.unwound_later teardown_grace)

time_from_le :
    (t : Timing) (deadline : ℕ) (start : Start) (end : End)
    → time_from t deadline start end ≤ deadline + 3 * teardown_grace
time_from_le t deadline refused end = omega (arith, waited_le t.answered deadline)
time_from_le t deadline unanswered end = omega arith
time_from_le t deadline accepted end = omega (
  arith,
  waited_le t.answered deadline,
  end_time_le t (deadline - waited t.answered deadline) end,
  waited_le t.drained teardown_grace,
)

given_up-time_from :
    (t : Timing) (deadline : ℕ) (start : Start) (end : End)
    → given_up start end ≡ true
    → deadline ≤ time_from t deadline start end
given_up-time_from t deadline refused end h = ground arith
given_up-time_from t deadline unanswered end h = omega arith
given_up-time_from t deadline accepted (finished w) h = ground arith
given_up-time_from t deadline accepted (overdue true) h =
    omega (arith, waited_le t.answered deadline)
given_up-time_from t deadline accepted (overdue false) h =
    omega (arith, waited_le t.answered deadline)

-- An outcome that is timed out although nothing was killed comes from giving up.
run_started-given_up :
    (limit : ℕ) (m : Manager) (id : ℕ) (host : Text) (timeout : ℤ) (wrapped : Bool) (a : Attempt)
    (start : Start) (n : Manager) (o : Outcome)
    → run_started limit m id host timeout wrapped a start ≡ (n, ran o)
    → (o.timed_out && not o.remote_killed) ≡ true
    → given_up start a.end ≡ true
unfolding collect
run_started-given_up limit m id host timeout wrapped a refused n o e h = ground (arith, e)
run_started-given_up limit m id host timeout wrapped a unanswered n o e h = refl
run_started-given_up limit m id host timeout wrapped a accepted n o e h =
    let p : collect limit (new_outcome host timeout) wrapped a ≡ o = ground (arith, e) in
    ground (arith, p, h)

-- An attempt that has an outcome has opened its session and both pipes.
run-run_started :
    (limit : ℕ) (m : Manager) (id : ℕ) (host : Text) (timeout : ℤ) (wrapped : Bool) (a : Attempt)
    (n : Manager) (o : Outcome)
    → run limit m id host timeout wrapped a ≡ (n, ran o)
    → run_started limit m id host timeout wrapped a a.start ≡ (n, ran o)
unfolding run
run-run_started limit m id host timeout wrapped a n o e = elim (Bool-cases a.session_opens) [
  | inr s ↦ ground (arith, s, e)
  | inl s ↦ elim (Bool-cases a.stdout_opens) [
    | inr t ↦ ground (arith, s, t, e)
    | inl t ↦ elim (Bool-cases a.stderr_opens) [
      | inr u ↦ ground (arith, s, t, u, e)
      | inl u ↦ ground (arith, s, t, u, e)
    ]
  ]
]

run_time-given_up :
    (t : Timing) (deadline : ℕ)
    → given_up (start_of t deadline) (end_of t deadline) ≡ true
    → deadline ≤ run_time t deadline
unfolding run_time
run_time-given_up t deadline h =
    given_up-time_from t deadline (start_of t deadline) (end_of t deadline) h

-- An attempt takes at most the deadline and three grace periods, counted from when its session is
-- open and whatever the server does; one whose outcome is timed out without a kill code has lasted
-- until the deadline.
pub run-run_time :
    (limit : ℕ) (m : Manager) (id : ℕ) (host : Text) (timeout : ℤ) (wrapped : Bool) (a : Attempt)
    (t : Timing) (n : Manager) (o : Outcome)
    → run limit m id host timeout wrapped (clocked t (attempt_deadline timeout) a) ≡ (n, ran o)
    → ((if o.timed_out && not o.remote_killed then attempt_deadline timeout else 0)
        ≤ run_time t (attempt_deadline timeout))
      × (run_time t (attempt_deadline timeout) ≤ attempt_deadline timeout + 3 * teardown_grace)
run-run_time limit m id host timeout wrapped a t n o e =
    let deadline = attempt_deadline timeout in
    (
      elim (Bool-cases (o.timed_out && not o.remote_killed)) [
        | inl h ↦ rw h (
            run_time-given_up t deadline (
              run_started-given_up limit m id host timeout wrapped (clocked t deadline a)
                (start_of t deadline) n o
                (run-run_started limit m id host timeout wrapped (clocked t deadline a) n o e) h))
        | inr h ↦ rw h (omega arith)
      ],
      unfold run_time in time_from_le t deadline (start_of t deadline) (end_of t deadline),
    )
