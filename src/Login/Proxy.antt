-- ===== src/Login/Proxy.antt =====
-- `proxyCommandConn` of internal/ssh/proxy.go: the replacement of `%h`, `%n`, `%p` and `%r`, and the
-- process whose pipes are the connection.
pub mod Expand
use kimi_ssh.Base.{
  ℕ, Bool, true, false, not, ◌&&◌, ◌||◌, Option, none, some, List, [], ◌∷◌, ◌++◌, if◌then◌else◌,
  ◌==◌,
}
use kimi_ssh.Base.Text.{Text, codes}
use kimi_ssh.Config.Settings.{SshConfig}
use kimi_ssh.Login.Target.{Endpoint}

-- What the replacer puts in.
pub record Values : Type 0 where
  pub hostname : Text
  pub port : Text
  pub user : Text

-- The value for two bytes, if they are one of the four.
abbrev pub value_of : Values → ℕ → ℕ → Option Text
value_of v c d =
    if c == b'%'
    then (if d == b'h' || d == b'n'
        then some v.hostname
        else if d == b'p'
        then some v.port
        else if d == b'r'
        then some v.user
        else none)
    else none

-- `Replace`: from the left, and never within what was put in.
unfoldable pub expand : Values → Text → Text
expand v [] = []
expand v (c ∷ []) = c ∷ []
expand v (c ∷ d ∷ s) = elim (value_of v c d) [
  | some value ↦ value ++ expand v s
  | none ↦ c ∷ expand v (d ∷ s)
]

abbrev pub proxy_values : SshConfig → Endpoint → Values
proxy_values config dst = record { hostname = dst.hostname; port = config.port; user = dst.user }

-- How the start of the process ends.
pub data Spawn : Type 0 where
  no_stdin no_stdout not_started started : Spawn

-- `proxyConn`: the process and the address that it stands in for.
pub record ProxyConn : Type 0 where
  pub command : Text
  pub address : Text
  pub is_running : Bool

-- `proxyCommandConn`, with what becomes of a command that `sh -c` is to run.
abbrev pub proxy_conn : (Text → Spawn) → Text → SshConfig → Endpoint → Option ProxyConn
proxy_conn spawn template config dst =
    let command = expand (proxy_values config dst) template in
    elim (spawn command) [
      | started ↦ some (record { command = command; address = dst.address; is_running = true })
      | no_stdin ↦ none
      | no_stdout ↦ none
      | not_started ↦ none
    ]

-- `Close`: the process is killed and waited for.
abbrev pub close_proxy : ProxyConn → ProxyConn
close_proxy c = record c { is_running = false }

-- `RemoteAddr` and `LocalAddr`
abbrev pub remote_address : ProxyConn → Text
remote_address c = c.address

abbrev pub local_address : Text
local_address = codes "127.0.0.1:0"
