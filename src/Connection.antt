-- ===== src/Connection.antt =====
-- `Connection` and `ConnectionManager` of internal/ssh/connection.go and `forget` of
-- internal/ssh/exec.go. A `*Connection` is an index into `heap`, so that two maps or two calls can
-- share one. Each function here is what a call does with no other call in between; `Connect` has two,
-- with the dialing between them. `close` takes no lock: Connection/Calls takes it apart into its three
-- writes.
pub mod WellFormed
pub mod Closing
pub mod Writes
pub mod Pings
pub mod Steps
pub mod Calls
pub mod Effects
use kimi_ssh.Base.{
  ℕ, zero, suc, ◌+◌, ◌*◌, Bool, true, false, not, ◌&&◌, Option, none, some, List, [], ◌∷◌, ◌++◌,
  if◌then◌else◌, length, get_elem?, modify, ◌==◌, is_some,
}
use kimi_ssh.Base.Dict.{Dict, lookup, insert, erase}
use kimi_ssh.Base.Int.{ℤ, pos, negsuc, is_pos, wrap_int64}
use kimi_ssh.Base.Sort.{sort_texts}
use kimi_ssh.Base.Text.{Text, codes, same_text}
use kimi_ssh.Config.Settings.{SshConfig}

-- Nanoseconds.
abbrev pub second : ℕ
second = 1_000_000_000

abbrev pub keepalive_default : ℤ
keepalive_default = pos (30 * second)

-- The goroutine that pings the server: never started, running at an interval, or told to stop.
pub data Keepalive : Type 0 where
  off : Keepalive
  running : ℤ → Keepalive
  stopped : Keepalive

-- A goroutine that has not been told to stop. One that has been told may still send one request, see
-- Connection/Pings.
abbrev pub is_untold : Keepalive → Bool
is_untold (running interval) = true
is_untold _ = false

pub record Connection : Type 0 where
  pub config : SshConfig
  pub active : Bool
  -- Whether this program has not closed the client; that the server went away is not seen here.
  pub client_open : Bool
  pub keepalive : Keepalive

-- `close(c.stopKeepalive)`, at most once.
abbrev pub stop_keepalive : Keepalive → Keepalive
stop_keepalive off = off
stop_keepalive (running interval) = stopped
stop_keepalive stopped = stopped

-- The three writes of `Connection.close`.
abbrev pub tell : Connection → Connection
tell c = record c { keepalive = stop_keepalive c.keepalive }

abbrev pub shut : Connection → Connection
shut c = record c { client_open = false }

abbrev pub deactivate : Connection → Connection
deactivate c = record c { active = false }

-- `Connection.close`
unfoldable pub close : Connection → Connection
close c = deactivate (shut (tell c))

-- The interval of `startKeepalive`: `time.Duration(seconds) * time.Second`, or the default.
abbrev pub keepalive_interval : ℤ → ℤ
keepalive_interval (pos seconds) = wrap_int64 (seconds * second)
keepalive_interval (negsuc n) = keepalive_default

-- `startKeepalive`
unfoldable pub start_keepalive : Connection → Connection
start_keepalive c =
    let interval = keepalive_interval c.config.server_alive_interval in
    if is_pos interval then record c { keepalive = running interval } else c

pub record Manager : Type 0 where
  pub connections : Dict ℕ
  pub configs : Dict SshConfig
  pub heap : List Connection

abbrev pub new_manager : Manager
new_manager = record { connections = []; configs = []; heap = [] }

-- `SetConfigs`
unfoldable pub set_configs : Manager → Dict SshConfig → Manager
set_configs m configs = record m { configs = configs }

abbrev pub is_active_at : List Connection → Option ℕ → Bool
is_active_at heap none = false
is_active_at heap (some id) = elim (get_elem? heap id) [ some c ↦ c.active | none ↦ false ]

-- `isActive` and `IsConnected`
unfoldable pub is_active : Manager → Text → Bool
is_active m host = is_active_at m.heap (lookup host m.connections)

-- `configFor`
unfoldable pub config_for : Manager → Text → Option SshConfig
config_for m host = lookup host m.configs

-- `connection`: the pointer of an open connection.
unfoldable pub connection : Manager → Text → Option ℕ
connection m host = if is_active m host then lookup host m.connections else none

-- What `Connect` decides before it dials.
pub data Begin : Type 0 where
  unknown_host already_connected : Begin
  must_dial : SshConfig → Begin

abbrev pub begin_with : Bool → Option SshConfig → Begin
begin_with active none = unknown_host
begin_with active (some config) = if active then already_connected else must_dial config

unfoldable pub connect_begin : Manager → Text → Begin
connect_begin m host = begin_with (is_active m host) (config_for m host)

abbrev pub fresh : SshConfig → Connection
fresh config = record { config = config; active = true; client_open = true; keepalive = off }

-- What `Connect` does with the client that it dialed, under the lock. If another call has connected
-- meanwhile, the new client is closed and nothing else changes.
unfoldable pub connect_publish : Manager → Text → SshConfig → Manager
connect_publish m host config = if is_active m host then m else record m {
  heap = m.heap ++ start_keepalive (fresh config) ∷ [];
  connections = insert host (length m.heap) m.connections;
}

-- `conn.close()` on a pointer.
-- A write to one connection.
unfoldable pub write_at : (Connection → Connection) → Manager → ℕ → Manager
write_at f m id = record m { heap = modify f id m.heap }

unfoldable pub close_at : Manager → ℕ → Manager
close_at m id = record m { heap = modify close id m.heap }

abbrev pub disconnect_at : Manager → Text → Option ℕ → Manager × Bool
disconnect_at m host none = (m, false)
disconnect_at m host (some id) =
    (close_at (record m { connections = erase host m.connections }) id, true)

-- `Disconnect`. The Boolean is false for the error "not connected to host".
unfoldable pub disconnect : Manager → Text → Manager × Bool
disconnect m host = disconnect_at m host (lookup host m.connections)

abbrev pub forget_at : Manager → Text → ℕ → Option ℕ → Manager
forget_at m host id none = m
forget_at m host id (some current) =
    if current == id then record m { connections = erase host m.connections } else m

-- `forget`: only while the map still holds the same pointer.
unfoldable pub forget : Manager → Text → ℕ → Manager
forget m host id = forget_at m host id (lookup host m.connections)

unfoldable pub active_hosts : List Connection → Dict ℕ → List Text
active_hosts heap [] = []
active_hosts heap ((host, id) ∷ rest) =
    let others = active_hosts heap rest in
    if is_active_at heap (some id) then host ∷ others else others

-- `GetActiveConnections`
unfoldable pub active_connections : Manager → List Text
active_connections m = sort_texts (active_hosts m.heap m.connections)
