-- ===== src/Exec/Deadline/Backstop.antt =====
-- The client's deadline against the remote one, and how the configured timeout is read.
use kimi_ssh.Base.{
  ℕ, ◌+◌, ◌*◌, ◌%◌, ◌-◌, ◌^◌, ◌≤◌, ◌<◌, ◌≡◌, refl, ap, ◌∙◌, lt→ltb, inl, inr, true, some, arith,
  if◌then◌else◌, ltb, ◌==◌, Bool-cases,
}
use kimi_ssh.Base.Text.{Text}
use kimi_ssh.Base.Int.{pos, negsuc, wrap_int64}
use kimi_ssh.Exec.Deadline.{
  millisecond, second, default_exec_timeout, remote_kill_after_seconds, client_deadline_lead,
  env_int, exec_timeout, timeout_seconds, client_deadline,
}

pub wrap_int64_small : (n : ℕ) → n < 2 ^ 63 → wrap_int64 n ≡ pos n
unfolding wrap_int64
wrap_int64_small n h = ground arith

pub wrap_int64_negative : (n : ℕ) → 2 ^ 63 ≤ n → n < 2 ^ 64 → wrap_int64 n ≡ negsuc (2 ^ 64 - 1 - n)
unfolding wrap_int64
wrap_int64_negative n h k = ground arith

-- The remote timeout is at least one second and at least the deadline, and no more than one second
-- above it, for a deadline that is not negative.
pub timeout_seconds_lem :
    (n : ℕ)
    → (1 ≤ timeout_seconds (pos n))
      × (n ≤ timeout_seconds (pos n) * second)
      × (timeout_seconds (pos n) * second ≤ n + second)
unfolding timeout_seconds
timeout_seconds_lem n = elim (Bool-cases (n % second == 0)) [
  | inl e ↦ rw e (ground arith)
  | inr e ↦ rw e (ground arith)
]

-- Even a command that has to be killed with SIGKILL is dealt with on the remote host at least four
-- seconds before the client gives up, for every deadline that leaves room for the lead in an
-- `int64`.
pub client_deadline_after_kill :
    (n : ℕ)
    → n + client_deadline_lead < 2 ^ 63
    → (d : ℕ) × (client_deadline (pos n) ≡ pos d)
      × ((timeout_seconds (pos n) + remote_kill_after_seconds) * second + 4 * second ≤ d)
unfolding client_deadline
client_deadline_after_kill n h = (
  n + client_deadline_lead,
  wrap_int64_small (n + client_deadline_lead) h,
  omega (arith, timeout_seconds_lem n),
)

-- A configured number of milliseconds that fits is the deadline; one that does not is the default.
pub exec_timeout_set :
    (raw : Text) (n : ℕ)
    → env_int raw ≡ some (pos n)
    → n * millisecond < 2 ^ 63
    → exec_timeout raw ≡ (if ltb 0 n then pos (n * millisecond) else default_exec_timeout)
unfolding exec_timeout
exec_timeout_set raw n e h = rw (e, wrap_int64_small (n * millisecond) h)

negative_second : (n : ℕ) → timeout_seconds (negsuc n) ≡ 1
unfolding timeout_seconds
negative_second n = refl

-- A configured number of milliseconds whose product is between 2^63 and 2^64 makes the deadline
-- negative: the remote timeout becomes one second, whatever was asked for.
pub exec_timeout_overflow :
    (raw : Text) (n : ℕ)
    → env_int raw ≡ some (pos n)
    → 2 ^ 63 ≤ n * millisecond
    → n * millisecond < 2 ^ 64
    → (exec_timeout raw ≡ negsuc (2 ^ 64 - 1 - n * millisecond))
      × (timeout_seconds (exec_timeout raw) ≡ 1)
unfolding exec_timeout
exec_timeout_overflow raw n e h k =
    let positive : ltb 0 n ≡ true = lt→ltb 0 n (omega arith) in
    let read : exec_timeout raw ≡ negsuc (2 ^ 64 - 1 - n * millisecond) =
      rw (e, positive, wrap_int64_negative (n * millisecond) h k) in
    (read, ap timeout_seconds read ∙ negative_second (2 ^ 64 - 1 - n * millisecond))
