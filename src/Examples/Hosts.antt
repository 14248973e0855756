-- ===== src/Examples/Hosts.antt =====
-- The theorems about connections and the active host at two connected hosts.
use kimi_ssh.Base.{none, refl, ◌∷◌, [], false, ◌≡◌, ◌≢◌, ◌⊎◌}
use kimi_ssh.Base.Dict.{Dict, insert, lookup}
use kimi_ssh.Base.Text.{codes, same_text}
use kimi_ssh.Config.Settings.{SshConfig, initial_config}
use kimi_ssh.Connection.{
  set_configs, start_keepalive, connect_begin, config_for, new_manager, connect_publish, is_active,
}
use kimi_ssh.Connection.Steps.{set_configs-IsWellFormed, connect_publish-IsWellFormed}
use kimi_ssh.Connection.WellFormed.{IsWellFormed, new_manager-IsWellFormed}
use kimi_ssh.Session.{Session, manager_connect, session_connect, session_disconnect, target_of}
use kimi_ssh.Session.ActiveHost.{Picks, session_disconnect_lem, IsTame}
use kimi_ssh.Exec.Run.{ExecEnv}
use kimi_ssh.Session.Commands.{session_execute}
use kimi_ssh.Session.Next.{session_execute-session_connect}
use kimi_ssh.Examples.Data.{hanging, web, db, one_host, two_hosts, on_web, dial_at_once}

one_host-IsWellFormed : IsWellFormed one_host
one_host-IsWellFormed =
    connect_publish-IsWellFormed new_manager web (initial_config web) new_manager-IsWellFormed

pub two_hosts-IsWellFormed : IsWellFormed two_hosts
two_hosts-IsWellFormed =
    connect_publish-IsWellFormed one_host db (initial_config db) one_host-IsWellFormed

connect_publish-IsWellFormed_example : IsWellFormed two_hosts
connect_publish-IsWellFormed_example =
    connect_publish-IsWellFormed one_host db (initial_config db) one_host-IsWellFormed

session_disconnect_lem_example :
    let t = (session_disconnect on_web web).0 in
    IsWellFormed t.manager
    × (is_active t.manager web ≡ false)
    × (((web ≡ web) × Picks t.manager t.active_host) ⊎ ((web ≢ web) × (t.active_host ≡ web)))
session_disconnect_lem_example = session_disconnect_lem on_web web two_hosts-IsWellFormed

pub dial_at_once-IsTame : IsTame dial_at_once
dial_at_once-IsTame m host config w = w

abbrev env : ExecEnv
env = record { timeout_raw = []; max_output_raw = [] }

abbrev configs : Dict SshConfig
configs = (db, initial_config db) ∷ []

abbrev configured : Session
configured = record on_web { manager = set_configs two_hosts configs }

db_connects : (session_connect dial_at_once configured db).1 ≡ none
unfolding session_connect target_of manager_connect connect_begin config_for same_text set_configs
    lookup is_active connect_publish insert start_keepalive
db_connects = refl

session_execute-session_connect_example :
    let t = (session_connect dial_at_once configured db).0 in
    session_execute env hanging t (codes "uptime") []
    ≡ session_execute env hanging t (codes "uptime") (target_of configured db).1
session_execute-session_connect_example =
    session_execute-session_connect dial_at_once env hanging configured db (codes "uptime")
      dial_at_once-IsTame (set_configs-IsWellFormed two_hosts configs two_hosts-IsWellFormed)
      db_connects
