-- ===== src/Examples/Commands.antt =====
-- The theorems about commands at concrete commands, streams and deadlines.
use kimi_ssh.Base.{
  ℕ, ◌+◌, ◌*◌, ◌≤◌, ◌<◌, true, not, ◌&&◌, if◌then◌else◌, ◌≡◌, ◌↔◌, refl, none, some, List, [], ◌∷◌,
  length, arith,
}
use kimi_ssh.Base.Int.{ℤ, pos, wrap_int64}
use kimi_ssh.Base.Text.{Text, codes, same_text}
use kimi_ssh.Base.Text.Fields.{trim_space}
use kimi_ssh.Base.Decimal.{show_nat, parse_int}
use kimi_ssh.Base.Dict.{lookup, insert}
use kimi_ssh.Connection.{connection, connect_publish, is_active, start_keepalive}
use kimi_ssh.Exec.Buffer.{empty_buffer, write_all, is_truncated}
use kimi_ssh.Exec.Buffer.Prefix.{concat, write_all-empty, is_truncated-write_all}
use kimi_ssh.Exec.Deadline.{
  exec_max_output_bytes, env_int, exec_timeout, timeout_seconds, client_deadline, second,
}
use kimi_ssh.Exec.Quote.{wrap_command}
use kimi_ssh.Exec.Quote.Shell.{shell_words}
use kimi_ssh.Exec.Quote.RoundTrip.{shell_words-wrap_command}
use kimi_ssh.Exec.Clock.{
  Timing, clocked, attempt_deadline, start_of, end_of, run_time, teardown_grace,
}
use kimi_ssh.Exec.Clock.Bounded.{run-run_time}
use kimi_ssh.Exec.Run.{
  Attempt, drop_connection, ExecEnv, Outcome, ran, run, collect, new_outcome, exited,
}
use kimi_ssh.Examples.Data.{web, one_host, hanging_attempt}

abbrev defaults : ExecEnv
defaults = record { timeout_raw = []; max_output_raw = [] }

abbrev limit : ℕ
limit = exec_max_output_bytes []

abbrev timeout : ℤ
timeout = exec_timeout []

-- The outcome of the attempt that hangs.
abbrev stuck : Outcome
stuck = collect limit (new_outcome web timeout) true hanging_attempt

web-connection : connection one_host web ≡ some 0
unfolding connection is_active lookup connect_publish insert same_text start_keepalive
web-connection = refl

hanging_run : run limit one_host 0 web timeout true hanging_attempt ≡ (one_host, ran stuck)
unfolding run
hanging_run = refl

stuck_timed_out : stuck.timed_out ≡ true
unfolding collect
stuck_timed_out = refl

shell_words-wrap_command_example :
    shell_words (wrap_command (codes "echo 'hi'") (pos 1))
    ≡ some (
        codes "timeout"
        ∷ codes "-k"
        ∷ codes "5"
        ∷ show_nat (timeout_seconds (pos 1))
        ∷ codes "sh"
        ∷ codes "-c"
        ∷ codes "echo 'hi'"
        ∷ [])
shell_words-wrap_command_example = shell_words-wrap_command (codes "echo 'hi'") (pos 1)

abbrev chunks : List Text
chunks = codes "abc" ∷ codes "de" ∷ []

write_all-empty_example :
    ((write_all (empty_buffer 4) chunks).buffer ≡ codes "abcd")
    × ((write_all (empty_buffer 4) chunks).total ≡ 5)
write_all-empty_example = write_all-empty 4 chunks

is_truncated-write_all_example :
    let c = write_all (empty_buffer 4) chunks in
    (is_truncated c.total c.buffer ≡ true) ↔ (4 < length (concat chunks))
is_truncated-write_all_example = is_truncated-write_all 4 chunks (omega arith)

-- The command does not end, and its session is unwound only once the connection is closed.
abbrev slow : Timing
slow = record {
  answered = some 5;
  accepts = true;
  ended = none;
  unwound = none;
  unwound_later = some 7;
  drained = none;
}

-- The command runs for six seconds, past its timeout of one, and `timeout -k 5` kills it.
abbrev killed_late : Timing
killed_late = record slow { ended = some (6 * second, exited (pos 137)) }

-- 2^63 / 10^6, rounded up.
abbrev huge : Text
huge = codes "9223372036855"

huge_value : env_int huge ≡ some (pos 9_223_372_036_855)
unfolding env_int same_text trim_space parse_int
huge_value = refl

abbrev slow_attempt : Attempt
slow_attempt = clocked slow (attempt_deadline timeout) hanging_attempt

abbrev slow_outcome : Outcome
slow_outcome = collect limit (new_outcome web timeout) true slow_attempt

slow_run :
    run limit one_host 0 web timeout true slow_attempt
    ≡ (drop_connection one_host web 0, ran slow_outcome)
unfolding run start_of end_of exec_timeout env_int same_text trim_space parse_int client_deadline
    wrap_int64
slow_run = refl

run-run_time_example :
    ((if slow_outcome.timed_out && not slow_outcome.remote_killed
        then attempt_deadline timeout
        else 0)
      ≤ run_time slow (attempt_deadline timeout))
    × (run_time slow (attempt_deadline timeout) ≤ attempt_deadline timeout + 3 * teardown_grace)
run-run_time_example =
    run-run_time limit one_host 0 web timeout true hanging_attempt slow
      (drop_connection one_host web 0) slow_outcome slow_run
