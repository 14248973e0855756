-- ===== src/Login/Dial.antt =====
-- `dial`, `openClient` and `openThroughProxy` of internal/ssh/connection.go. What the network does at
-- each attempt is given.
pub mod Attempts
pub mod Connect
use kimi_ssh.Base.{
  ℕ, zero, suc, ◌+◌, ◌*◌, Bool, true, false, not, ◌&&◌, ◌||◌, Option, none, some, List, [], ◌∷◌,
  ◌++◌, if◌then◌else◌, ltb,
}
use kimi_ssh.Base.Text.{Text, same_text}
use kimi_ssh.Config.Settings.{SshConfig}
use kimi_ssh.Connection.{Manager, second}
use kimi_ssh.Session.{Dial}
use kimi_ssh.Login.Auth.{Machine, AuthMethod, client_settings_for}
use kimi_ssh.Login.HostKey.{Callback}
use kimi_ssh.Login.Proxy.{Spawn, ProxyConn, proxy_conn, close_proxy}
use kimi_ssh.Login.Target.{Endpoint, resolve_target}

abbrev pub dial_attempts : ℕ
dial_attempts = 3

-- How the handshake over a proxy ends within `handshakeLimit`.
pub data Handshake : Type 0 where
  completed rejected silent : Handshake

-- What happens at each attempt: whether `ssh.Dial` gives a client for an address and methods, what
-- becomes of a proxy command, and how the handshake over it ends.
pub record Network : Type 0 where
  pub direct : ℕ → Text → List AuthMethod → Bool
  pub spawn : ℕ → Text → Spawn
  pub handshake : ℕ → List AuthMethod → Handshake

-- Whether there is a client, and the proxy that was started for it.
pub record Opened : Type 0 where
  pub client : Bool
  pub proxy : Option ProxyConn

-- The end of the handshake: the proxy is closed unless there is a client.
abbrev pub shake_hands : ProxyConn → Handshake → Opened
shake_hands c completed = record { client = true; proxy = some c }
shake_hands c rejected = record { client = false; proxy = some (close_proxy c) }
shake_hands c silent = record { client = false; proxy = some (close_proxy c) }

abbrev pub after_spawn : Handshake → Option ProxyConn → Opened
after_spawn h none = record { client = false; proxy = none }
after_spawn h (some c) = shake_hands c h

-- `openThroughProxy`
abbrev pub open_through_proxy : Network → ℕ → SshConfig → Endpoint → List AuthMethod → Opened
open_through_proxy net attempt config dst methods =
    after_spawn (net.handshake attempt methods)
      (proxy_conn (net.spawn attempt) config.proxy_command config dst)

unfoldable pub open_client : Network → ℕ → SshConfig → Endpoint → List AuthMethod → Opened
open_client net attempt config dst methods =
    if same_text config.proxy_command []
    then record { client = net.direct attempt dst.address methods; proxy = none }
    else open_through_proxy net attempt config dst methods

-- The result of the loop: whether there is a client, the proxies that were started, in order, and the
-- pauses in nanoseconds.
pub record Dialed : Type 0 where
  pub client : Bool
  pub proxies : List ProxyConn
  pub pauses : List ℕ

abbrev pub started_proxy : Option ProxyConn → List ProxyConn
started_proxy none = []
started_proxy (some c) = c ∷ []

-- The pause after an attempt that failed.
abbrev pub pause_after : ℕ → List ℕ
pause_after attempt = if ltb attempt dial_attempts then attempt * attempt * second ∷ [] else []

-- The loop of `dial` from an attempt on, with the number of attempts that are left.
unfoldable pub dial_loop : Network → SshConfig → Endpoint → List AuthMethod → ℕ → ℕ → Dialed
dial_loop net config dst methods zero attempt = record { client = false; proxies = []; pauses = [] }
dial_loop net config dst methods (suc left) attempt =
    let opened = open_client net attempt config dst methods in
    let later = dial_loop net config dst methods left (attempt + 1) in
    if opened.client
    then record { client = true; proxies = started_proxy opened.proxy; pauses = [] }
    else record {
      client = later.client;
      proxies = started_proxy opened.proxy ++ later.proxies;
      pauses = pause_after attempt ++ later.pauses;
    }

-- Where a call dials from: the machine, the host key callback, the login name and the network.
pub record Caller : Type 0 where
  pub machine : Machine
  pub callback : Callback
  pub login : Text
  pub network : Network

abbrev pub dial_settings : Caller → SshConfig → Option (List AuthMethod) → Option Dialed
dial_settings e config none = none
dial_settings e config (some methods) =
    some (dial_loop e.network config (resolve_target e.login config) methods dial_attempts 1)

-- `dial`; none if the settings cannot be made.
unfoldable pub dial : Caller → SshConfig → Option Dialed
dial e config = dial_settings e config (client_settings_for e.machine e.callback config)

abbrev pub has_client : Option Dialed → Bool
has_client none = false
has_client (some d) = d.client

-- The dialing of `Connect`, if no other call runs meanwhile.
abbrev pub dial_with : Caller → Dial
dial_with e = record {
  reach = λ m host config. (m, has_client (dial e config));
  others = λ host. host;
}
