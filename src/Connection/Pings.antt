-- ===== src/Connection/Pings.antt =====
-- The goroutine that `startKeepalive` of internal/ssh/connection.go starts, next to `close`. When its
-- ticker and its stop channel are both ready it takes either. A request on a client that is closed
-- fails; one on a client that is open may fail too.
pub mod Ends
use kimi_ssh.Base.{ℕ, ◌+◌, Bool, true, false, ◌≡◌}

-- Whether the client is open, whether the stop channel is closed, whether the goroutine has returned,
-- and how many requests it has sent.
pub record Pinging : Type 0 where
  pub is_open : Bool
  pub told : Bool
  pub is_over : Bool
  pub sent : ℕ

abbrev pub just_started : Pinging
just_started = record { is_open = true; told = false; is_over = false; sent = 0 }

-- One turn of the loop.
pub data Turn (s : Pinging) : Pinging → Type 0 where
  stops : s.is_over ≡ false → s.told ≡ true → Turn s (record s { is_over = true })
  is_answered : s.is_over ≡ false → s.is_open ≡ true → Turn s (record s { sent = s.sent + 1 })
  gives_up : s.is_over ≡ false → Turn s (record s { sent = s.sent + 1; is_over = true })

-- `close` closes the stop channel first, and then the client.
pub data Closing (s : Pinging) : Pinging → Type 0 where
  tells : Closing s (record s { told = true })
  shuts : s.told ≡ true → Closing s (record s { is_open = false })

-- A run, with the number of turns of the loop.
pub data Runs (s : Pinging) : ℕ → Pinging → Type 0 where
  stays : Runs s 0 s
  turns : {n : ℕ} {t u : Pinging} → Runs s n t → Turn t u → Runs s (n + 1) u
  closes : {n : ℕ} {t u : Pinging} → Runs s n t → Closing t u → Runs s n u
