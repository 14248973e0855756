-- ===== src/Connection/Calls.antt =====
-- Calls of the connection manager of internal/ssh/connection.go and internal/ssh/exec.go that run at
-- the same time. A step is what one call does under the lock, or one thing that it does outside of it:
-- `Connect` dials, and `Disconnect` closes the connection that it has taken out of the map, as `run`
-- closes that of a stuck session before it forgets it. The three writes of `close` take no lock and are
-- three steps. A step may happen; nothing here says that it does, since a dialing or a command may
-- block.
pub mod Later
pub mod Held
pub mod Lost
pub mod Safety
pub mod Forget
use kimi_ssh.Base.{ℕ, false, ◌≡◌, Option, none, some, List, [], ◌∷◌, ◌++◌, get_elem?}
use kimi_ssh.Base.Dict.{Dict, lookup, erase}
use kimi_ssh.Base.Remove.{remove_at}
use kimi_ssh.Base.Text.{Text}
use kimi_ssh.Config.Settings.{SshConfig}
use kimi_ssh.Connection.{
  Manager, new_manager, set_configs, is_active, connect_publish, tell, shut, deactivate, write_at,
  connection, forget,
}

-- A connection that is being closed, with the host that is to be forgotten, if `run` closes it.
abbrev pub Closer : Type 0
Closer = Option Text × ℕ

-- The manager, and the calls that are on their way: `Connect` calls that dial, `Disconnect` calls that
-- are to close a connection, `Execute` calls that run on one, calls that have told the keepalive of
-- theirs to stop, those that have then closed its client, and `Execute` calls that are done with `close`.
pub record System : Type 0 where
  pub manager : Manager
  pub dialing : List (Text × SshConfig)
  pub unlinked : List ℕ
  pub running : List (Text × ℕ)
  pub told : List Closer
  pub shut_down : List Closer
  pub closed : List (Text × ℕ)

abbrev pub new_system : System
new_system = record {
  manager = new_manager;
  dialing = [];
  unlinked = [];
  running = [];
  told = [];
  shut_down = [];
  closed = [];
}

-- What is left to do after `close`.
abbrev pub to_forget : Closer → List (Text × ℕ)
to_forget (none, id) = []
to_forget (some host, id) = (host, id) ∷ []

-- A call begins. `Connect` looks its config up under one lock and asks whether the host is connected
-- under the next, so that the config of a dial may be an earlier one.
pub data Start (s : System) : System → Type 0 where
  configure :
      (configs : Dict SshConfig) → Start s (record s { manager = set_configs s.manager configs })
  dial :
      (host : Text) (config : SshConfig)
      → is_active s.manager host ≡ false
      → Start s (record s { dialing = (host, config) ∷ s.dialing })
  unlink :
      (host : Text) (id : ℕ)
      → lookup host s.manager.connections ≡ some id
      → Start s (record s {
        manager = record s.manager { connections = erase host s.manager.connections };
        unlinked = id ∷ s.unlinked;
      })
  enter :
      (host : Text) (id : ℕ)
      → connection s.manager host ≡ some id
      → Start s (record s { running = (host, id) ∷ s.running })

-- A call that is on its way goes on: the dialing fails or succeeds, the command ends, the connection
-- is closed in three writes, or a connection that was closed is forgotten.
pub data Advance (s : System) : System → Type 0 where
  give_up :
      (i : ℕ) (d : Text × SshConfig)
      → get_elem? s.dialing i ≡ some d
      → Advance s (record s { dialing = remove_at i s.dialing })
  publish :
      (i : ℕ) (host : Text) (config : SshConfig)
      → get_elem? s.dialing i ≡ some (host, config)
      → Advance s (record s {
        manager = connect_publish s.manager host config;
        dialing = remove_at i s.dialing;
      })
  leave :
      (i : ℕ) (r : Text × ℕ)
      → get_elem? s.running i ≡ some r
      → Advance s (record s { running = remove_at i s.running })
  tell_unlinked :
      (i id : ℕ)
      → get_elem? s.unlinked i ≡ some id
      → Advance s (record s {
        manager = write_at tell s.manager id;
        unlinked = remove_at i s.unlinked;
        told = (none, id) ∷ s.told;
      })
  tell_running :
      (i : ℕ) (host : Text) (id : ℕ)
      → get_elem? s.running i ≡ some (host, id)
      → Advance s (record s {
        manager = write_at tell s.manager id;
        running = remove_at i s.running;
        told = (some host, id) ∷ s.told;
      })
  shut_client :
      (i : ℕ) (c : Closer)
      → get_elem? s.told i ≡ some c
      → Advance s (record s {
        manager = write_at shut s.manager c.1;
        told = remove_at i s.told;
        shut_down = c ∷ s.shut_down;
      })
  mark_inactive :
      (i : ℕ) (c : Closer)
      → get_elem? s.shut_down i ≡ some c
      → Advance s (record s {
        manager = write_at deactivate s.manager c.1;
        shut_down = remove_at i s.shut_down;
        closed = to_forget c ++ s.closed;
      })
  forget_closed :
      (i : ℕ) (host : Text) (id : ℕ)
      → get_elem? s.closed i ≡ some (host, id)
      → Advance s (record s { manager = forget s.manager host id; closed = remove_at i s.closed })

pub data Step (s : System) (t : System) : Type 0 where
  begins : Start s t → Step s t
  goes_on : Advance s t → Step s t

pub data Reach : System → Type 0 where
  at_first : Reach new_system
  later : {s t : System} → Reach s → Step s t → Reach t
