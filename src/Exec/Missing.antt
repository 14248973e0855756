-- ===== src/Exec/Missing.antt =====
-- `missingRemoteTimeout` of internal/ssh/exec.go.
pub mod Notices
use kimi_ssh.Base.{Bool, true, false, ◌||◌, List, [], ◌∷◌, any}
use kimi_ssh.Base.Text.{Text, codes, to_lower, contains}
use kimi_ssh.Base.FilePath.{split}

abbrev pub notices : List Text
notices =
    codes "timeout: not found"
    ∷ codes "timeout: command not found"
    ∷ codes "timeout: no such file"
    ∷ codes "command not found: timeout"
    ∷ []

-- The inner loop, over the notices, at one line.
unfoldable pub line_reports : Text → Bool
line_reports line = any (λ notice. contains (to_lower line) notice) notices

unfoldable pub missing_remote_timeout : Text → Bool
unfolding line_reports
missing_remote_timeout stderr = any line_reports (split stderr 10)
