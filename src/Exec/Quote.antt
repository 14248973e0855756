-- ===== src/Exec/Quote.antt =====
-- `shellQuote` and `wrapCommand` of internal/ssh/exec.go.
pub mod Shell
pub mod RoundTrip
use kimi_ssh.Base.{ℕ, List, [], ◌∷◌, ◌++◌, ◌==◌, if◌then◌else◌}
use kimi_ssh.Base.Text.{Text, codes, apostrophe}
use kimi_ssh.Base.Decimal.{show_nat}
use kimi_ssh.Base.Int.{ℤ}
use kimi_ssh.Exec.Deadline.{remote_kill_after_seconds, timeout_seconds}

-- `strings.ReplaceAll(text, "'", "'\\''")`
unfoldable pub escape_quotes : Text → Text
escape_quotes [] = []
escape_quotes (c ∷ s) = (if c == apostrophe then codes "'\\''" else c ∷ []) ++ escape_quotes s

unfoldable pub shell_quote : Text → Text
unfolding escape_quotes
shell_quote text = codes "'" ++ (escape_quotes text ++ codes "'")

-- `fmt.Sprintf("timeout -k %d %d sh -c %s", ...)`
unfoldable pub wrap_command : Text → ℤ → Text
wrap_command command timeout =
    codes "timeout -k "
    ++ (show_nat remote_kill_after_seconds
        ++ (codes " "
            ++ (show_nat (timeout_seconds timeout) ++ (codes " sh -c " ++ shell_quote command))))
