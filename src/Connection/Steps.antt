-- ===== src/Connection/Steps.antt =====
-- Each operation of the connection manager, as one step, and the invariant.
use kimi_ssh.Base.{ℕ, inl, inr, [], ◌∷◌, arith, Option-cases}
use kimi_ssh.Base.Dict.{Dict, lookup}
use kimi_ssh.Base.Text.{Text}
use kimi_ssh.Config.Settings.{SshConfig}
use kimi_ssh.Connection.{Manager, set_configs, connect_publish, close_at, disconnect, forget}
use kimi_ssh.Connection.WellFormed.{
  IsWellFormed, set_configs-IsKept, IsKept-mono, connect_publish-IsKept, unlinked-IsKept,
}
use kimi_ssh.Connection.Closing.{close_at-IsClosed, close_at-IsKept, forget-IsKept}

pub set_configs-IsWellFormed :
    (m : Manager) (configs : Dict SshConfig) → IsWellFormed m → IsWellFormed (set_configs m configs)
set_configs-IsWellFormed m configs w = set_configs-IsKept [] m w configs

-- Publishing a dialed client keeps the manager well formed: the map has one entry for a host and
-- points into the heap, no two hosts share a connection, every client that this program has not
-- closed is recorded under a host, a connection is marked active exactly until its client is
-- closed by this program, and the keepalive goroutine of a client that is closed has been told to
-- stop.
pub connect_publish-IsWellFormed :
    (m : Manager) (host : Text) (config : SshConfig)
    → IsWellFormed m
    → IsWellFormed (connect_publish m host config)
connect_publish-IsWellFormed m host config w = connect_publish-IsKept [] m w host config

-- `Disconnect` keeps the manager well formed, whether or not the host is known.
pub disconnect-IsWellFormed :
    (m : Manager) (host : Text) → IsWellFormed m → IsWellFormed (disconnect m host).0
unfolding disconnect
disconnect-IsWellFormed m host w = elim (Option-cases (lookup host m.connections)) [
  | inl e ↦ rw (e, disconnect) w
  | inr (id, e) ↦ rw (e, disconnect) (close_at-IsKept [] _ id (unlinked-IsKept [] m w host id e))
]

pub close_at-IsWellFormed : (m : Manager) (id : ℕ) → IsWellFormed m → IsWellFormed (close_at m id)
close_at-IsWellFormed m id w =
    close_at-IsKept [] m id (IsKept-mono [] m w (id ∷ []) (λ k h. ground arith))

-- Closing a connection and forgetting it keeps the manager well formed, also if the map holds
-- another connection for the host by then.
pub forget-close_at-IsWellFormed :
    (m : Manager) (host : Text) (id : ℕ)
    → IsWellFormed m
    → IsWellFormed (forget (close_at m id) host id)
forget-close_at-IsWellFormed m host id w =
    forget-IsKept [] (close_at m id) host id (close_at-IsWellFormed m id w) (close_at-IsClosed m id)
