-- ===== src/Exec/Deadline.antt =====
-- `envInt`, `execTimeout`, `execMaxOutputBytes`, `timeoutSeconds` and the client deadline of
-- internal/ssh/exec.go. A `time.Duration` is an `int64` of nanoseconds, read as an integer; the
-- environment gives the raw text of a variable, empty if it is unset.
pub mod Backstop
use kimi_ssh.Base.{
  ℕ, suc, ◌+◌, ◌*◌, ◌/◌, ◌%◌, ◌-◌, Bool, true, false, Option, none, some, List, [], ◌∷◌,
  if◌then◌else◌, ltb, leb, ◌==◌,
}
use kimi_ssh.Base.Text.{Text, same_text}
use kimi_ssh.Base.Text.Fields.{trim_space}
use kimi_ssh.Base.Decimal.{parse_int}
use kimi_ssh.Base.Int.{ℤ, pos, negsuc, wrap_int64}

abbrev pub millisecond : ℕ
millisecond = 1_000_000

abbrev pub second : ℕ
second = 1_000_000_000

abbrev pub default_exec_timeout : ℤ
default_exec_timeout = pos (120 * second)

abbrev pub default_exec_max_output : ℕ
default_exec_max_output = 1_048_576

abbrev pub remote_kill_after_seconds : ℕ
remote_kill_after_seconds = 5

abbrev pub client_deadline_lead : ℕ
client_deadline_lead = (remote_kill_after_seconds + 5) * second

-- `envInt`, of the raw value of the variable.
unfoldable pub env_int : Text → Option ℤ
env_int raw = if same_text (trim_space raw) [] then none else parse_int (trim_space raw)

-- `time.Duration(value) * time.Millisecond`, where the value is positive.
abbrev pub timeout_of : Option ℤ → ℤ
timeout_of none = default_exec_timeout
timeout_of (some (negsuc n)) = default_exec_timeout
timeout_of (some (pos n)) = if ltb 0 n then wrap_int64 (n * millisecond) else default_exec_timeout

unfoldable pub exec_timeout : Text → ℤ
exec_timeout raw = timeout_of (env_int raw)

abbrev pub max_output_of : Option ℤ → ℕ
max_output_of none = default_exec_max_output
max_output_of (some (negsuc n)) = default_exec_max_output
max_output_of (some (pos n)) = if ltb 0 n then n else default_exec_max_output

unfoldable pub exec_max_output_bytes : Text → ℕ
exec_max_output_bytes raw = max_output_of (env_int raw)

-- The quotient of a negative duration is at most 0, and one more is at most 1.
unfoldable pub timeout_seconds : ℤ → ℕ
timeout_seconds (pos n) =
    let seconds = n / second + (if n % second == 0 then 0 else 1) in
    if ltb seconds 1 then 1 else seconds
timeout_seconds (negsuc n) = 1

-- `timeout + clientDeadlineLead`: how long after the start of the attempt the client gives up.
unfoldable pub client_deadline : ℤ → ℤ
client_deadline (pos n) = wrap_int64 (n + client_deadline_lead)
client_deadline (negsuc n) =
    if ltb n client_deadline_lead
    then pos (client_deadline_lead - suc n)
    else negsuc (n - client_deadline_lead)
