-- ===== src/Login/Target.antt =====
-- `endpoint` and `resolveTarget` of internal/ssh/connection.go, and `currentUsername` of
-- internal/ssh/auth.go.
use kimi_ssh.Base.{Option, none, some, [], ◌∷◌, ◌++◌, if◌then◌else◌}
use kimi_ssh.Base.Text.{Text, same_text}
use kimi_ssh.Config.Settings.{SshConfig, default_port}

pub record Endpoint : Type 0 where
  pub hostname : Text
  pub user : Text
  pub address : Text

-- The value, or another one for an empty text.
abbrev pub or_default : Text → Text → Text
or_default value other = if same_text value [] then other else value

-- `currentUsername`, of the name that `user.Current` gives, none for its error, and of `USER`.
abbrev pub current_username : Option Text → Text → Text
current_username none variable = variable
current_username (some name) variable = or_default name variable

-- `resolveTarget`, with the local login name.
unfoldable pub resolve_target : Text → SshConfig → Endpoint
resolve_target login config =
    let hostname = or_default config.host_name config.host in
    record {
      hostname = hostname;
      user = or_default config.user login;
      address = hostname ++ b':' ∷ or_default config.port default_port;
    }
