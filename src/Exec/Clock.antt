-- ===== src/Exec/Clock.antt =====
-- The waits of `run` in internal/ssh/exec.go, with `delivered` and `waitDrained`: how long an attempt
-- takes once its session is open. Times are in nanoseconds from the moment when the wait begins, and
-- `none` is an event that never comes. An event and a timer at the same moment count as the event.
pub mod InTime
pub mod Bounded
use kimi_ssh.Base.{
  ℕ, ◌+◌, ◌*◌, ◌-◌, Bool, true, false, not, ◌||◌, Option, none, some, if◌then◌else◌, leb,
}
use kimi_ssh.Base.Int.{ℤ, pos, negsuc}
use kimi_ssh.Exec.Deadline.{second, client_deadline}
use kimi_ssh.Exec.Run.{
  Wait, Start, accepted, refused, unanswered, End, finished, overdue, is_overdue, must_drop,
  Attempt,
}

abbrev pub teardown_grace : ℕ
teardown_grace = 3 * second

-- The answer to the exec request; the end of `Wait`, from there; its end after the session was closed,
-- and after the connection was closed too; and the end of the readers.
pub record Timing : Type 0 where
  pub answered : Option ℕ
  pub accepts : Bool
  pub ended : Option (ℕ × Wait)
  pub unwound : Option ℕ
  pub unwound_later : Option ℕ
  pub drained : Option ℕ

abbrev pub within : Option ℕ → ℕ → Bool
within none limit = false
within (some d) limit = leb d limit

-- How long a wait with a limit takes.
abbrev pub waited : Option ℕ → ℕ → ℕ
waited none limit = limit
waited (some d) limit = if leb d limit then d else limit

-- `delivered`: whether the event came, and how long that took.
abbrev pub delivered : Option ℕ → ℕ → Bool × ℕ
delivered arrival limit = (within arrival limit, waited arrival limit)

-- `waitDrained`
abbrev pub wait_drained : Option ℕ → ℕ → ℕ
wait_drained = waited

-- `time.Until(deadline)` is negative after the deadline, and the timer then fires at once.
abbrev pub from_now : ℤ → ℕ
from_now (pos n) = n
from_now (negsuc n) = 0

unfoldable pub start_of : Timing → ℕ → Start
start_of t deadline =
    if within t.answered deadline then (if t.accepts then accepted else refused) else unanswered

-- How the command ends, with the time that is left until the deadline.
abbrev pub end_within : Option (ℕ × Wait) → Option ℕ → ℕ → End
end_within none unwound left = overdue (delivered unwound teardown_grace).0
end_within (some (d, w)) unwound left =
    if leb d left then finished w else overdue (delivered unwound teardown_grace).0

unfoldable pub end_of : Timing → ℕ → End
end_of t deadline = end_within t.ended t.unwound (deadline - waited t.answered deadline)

-- The attempt with these times, and a deadline for its waits.
abbrev pub clocked : Timing → ℕ → Attempt → Attempt
clocked t deadline a = record a { start = start_of t deadline; end = end_of t deadline }

abbrev pub ended_at : Option (ℕ × Wait) → Option ℕ
ended_at none = none
ended_at (some (d, w)) = some d

-- The wait for the command, and the clean-up of a session that is overdue.
abbrev pub end_time : Timing → ℕ → End → ℕ
end_time t left (finished w) = waited (ended_at t.ended) left
end_time t left (overdue true) = left + (delivered t.unwound teardown_grace).1
end_time t left (overdue false) =
    left + (delivered t.unwound teardown_grace).1 + (delivered t.unwound_later teardown_grace).1

abbrev pub time_from : Timing → ℕ → Start → End → ℕ
time_from t deadline refused end = waited t.answered deadline
time_from t deadline unanswered end = deadline
time_from t deadline accepted end =
    waited t.answered deadline
    + end_time t (deadline - waited t.answered deadline) end
    + wait_drained t.drained teardown_grace

-- How long `run` takes from the moment when its deadline is set.
unfoldable pub run_time : Timing → ℕ → ℕ
run_time t deadline = time_from t deadline (start_of t deadline) (end_of t deadline)

-- The deadline of an attempt for a configured timeout.
abbrev pub attempt_deadline : ℤ → ℕ
attempt_deadline timeout = from_now (client_deadline timeout)
