-- ===== src/Examples/Calls.antt =====
-- Calls at the same time: one connects to a host, and a command on it gets stuck.
use kimi_ssh.Base.{some, ◌≡◌, refl, [], ◌∷◌}
use kimi_ssh.Base.Text.{same_text}
use kimi_ssh.Base.Dict.{lookup, insert}
use kimi_ssh.Config.Settings.{SshConfig, initial_config}
use kimi_ssh.Connection.{
  new_manager, set_configs, connect_publish, tell, shut, deactivate, write_at, forget, is_active,
  connection, start_keepalive,
}
use kimi_ssh.Connection.WellFormed.{IsWellFormed}
use kimi_ssh.Connection.Calls.{
  System, new_system, configure, dial, enter, publish, tell_running, shut_client, mark_inactive,
  begins, goes_on, Reach, at_first, later,
}
use kimi_ssh.Connection.Calls.Safety.{Reach-IsWellFormed}
use kimi_ssh.Connection.Calls.Forget.{forget_closed-is_active}
use kimi_ssh.Examples.Data.{web}

abbrev config : SshConfig
config = initial_config web

abbrev configured : System
configured = record new_system { manager = set_configs new_manager ((web, config) ∷ []) }

abbrev dials : System
dials = record configured { dialing = (web, config) ∷ [] }

abbrev connected : System
connected = record configured { manager = connect_publish configured.manager web config }

abbrev runs : System
runs = record connected { running = (web, 0) ∷ [] }

abbrev told : System
told = record connected { manager = write_at tell connected.manager 0; told = (some web, 0) ∷ [] }

-- The client is closed, and `active` is not cleared yet.
abbrev shut_down : System
shut_down = record connected {
  manager = write_at shut told.manager 0;
  shut_down = (some web, 0) ∷ [];
}

abbrev stuck : System
stuck = record connected {
  manager = write_at deactivate shut_down.manager 0;
  closed = (web, 0) ∷ [];
}

dials-Reach : Reach dials
unfolding is_active lookup set_configs
dials-Reach =
    later (later at_first (begins (configure ((web, config) ∷ [])))) (begins (dial web config refl))

connected-Reach : Reach connected
connected-Reach = later dials-Reach (goes_on (publish 0 web config refl))

runs-Reach : Reach runs
unfolding connection is_active lookup same_text set_configs connect_publish insert start_keepalive
runs-Reach = later connected-Reach (begins (enter web 0 refl))

told-Reach : Reach told
told-Reach = later runs-Reach (goes_on (tell_running 0 web 0 refl))

stuck-Reach : Reach stuck
stuck-Reach =
    later (later told-Reach (goes_on (shut_client 0 (some web, 0) refl)))
      (goes_on (mark_inactive 0 (some web, 0) refl))

Reach-IsWellFormed_example : IsWellFormed stuck.manager
Reach-IsWellFormed_example = Reach-IsWellFormed stuck stuck-Reach refl refl refl

forget_closed-is_active_example :
    is_active (forget stuck.manager web 0) web ≡ is_active stuck.manager web
forget_closed-is_active_example = forget_closed-is_active stuck-Reach 0 web 0 refl web
