-- ===== src/Config/Settings.antt =====
-- `SSHConfig`, `expandTilde` and `applySetting` of internal/ssh/config.go. The home directory that
-- `os.UserHomeDir` finds is an argument; `none` stands for its error.
pub mod Fields
use kimi_ssh.Base.{ℕ, Bool, true, false, not, Option, none, some, List, [], ◌∷◌, if◌then◌else◌}
use kimi_ssh.Base.Int.{ℤ, pos, negsuc}
use kimi_ssh.Base.Decimal.{parse_int}
use kimi_ssh.Base.FilePath.{path_join}
use kimi_ssh.Base.Text.{Text, codes, same_text, has_prefix, trim_prefix, equal_fold}

pub record SshConfig : Type 0 where
  pub host : Text
  pub host_name : Text
  pub port : Text
  pub user : Text
  pub identity_file : Text
  pub proxy_jump : Text
  pub proxy_command : Text
  pub server_alive_interval : ℤ

abbrev pub default_port : Text
default_port = codes "22"

abbrev pub server_alive_unset : ℤ
server_alive_unset = negsuc 0

-- The entry that `resolve` starts from.
abbrev pub initial_config : Text → SshConfig
initial_config al = record {
  host = al;
  host_name = [];
  port = default_port;
  user = [];
  identity_file = [];
  proxy_jump = [];
  proxy_command = [];
  server_alive_interval = server_alive_unset;
}

unfoldable pub expand_tilde : Option Text → Text → Text
expand_tilde home path =
    if not (has_prefix path (codes "~"))
    then path
    else elim home [ none ↦ path | some dir ↦ path_join (dir ∷ trim_prefix path (codes "~") ∷ []) ]

-- `ProxyCommand none` cancels a proxy.
abbrev pub proxy_value : Text → Text
proxy_value value = if equal_fold value (codes "none") then [] else value

-- The `serveraliveinterval` case: a value that is no number changes nothing.
abbrev pub set_interval : SshConfig → Option ℤ → SshConfig × Bool
set_interval config none = (config, false)
set_interval config (some seconds) = (record config { server_alive_interval = seconds }, true)

-- The new entry, and whether the keyword was understood.
unfoldable pub apply_setting : Option Text → SshConfig → Text → Text → SshConfig × Bool
apply_setting home config keyword value =
    if same_text keyword (codes "hostname")
    then (record config { host_name = value }, true)
    else if same_text keyword (codes "port")
    then (record config { port = value }, true)
    else if same_text keyword (codes "user")
    then (record config { user = value }, true)
    else if same_text keyword (codes "identityfile")
    then (record config { identity_file = expand_tilde home value }, true)
    else if same_text keyword (codes "proxyjump")
    then (record config { proxy_jump = value }, true)
    else if same_text keyword (codes "proxycommand")
    then (record config { proxy_command = proxy_value value }, true)
    else if same_text keyword (codes "serveraliveinterval")
    then set_interval config (parse_int value)
    else (config, false)
