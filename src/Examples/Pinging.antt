-- ===== src/Examples/Pinging.antt =====
-- A keepalive that has sent one request when the connection is closed, and sends another.
use kimi_ssh.Base.{◌+◌, ◌≤◌, true, false, ◌≡◌, ◌⊎◌, refl}
use kimi_ssh.Connection.Pings.{
  Pinging, just_started, Turn, is_answered, gives_up, tells, shuts, Runs, stays, turns, closes,
}
use kimi_ssh.Connection.Pings.Ends.{Runs-end}

abbrev closed : Pinging
closed = record { is_open = false; told = true; is_over = false; sent = 1 }

abbrev over : Pinging
over = record { is_open = false; told = true; is_over = true; sent = 2 }

closed-Runs : Runs just_started 1 closed
closed-Runs = closes (closes (turns stays (is_answered refl refl)) tells) (shuts refl)

over-Runs : Runs closed 1 over
over-Runs = turns stays (gives_up refl)

Runs-end_example :
    (1 ≤ 1)
    × (over.sent ≤ closed.sent + 1)
    × ((over.is_over ≡ true) ⊎ ((u : Pinging) × Turn over u × (u.is_over ≡ true)))
Runs-end_example = Runs-end closed-Runs refl over-Runs
