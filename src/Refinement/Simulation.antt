-- ===== src/Refinement/Simulation.antt =====
-- The connection manager against the set of connected hosts.
use kimi_ssh.Base.{
  Bool, true, false, ◌≡◌, refl, sym, ◌∙◌, inl, inr, List, [], ◌∷◌, arith, if◌then◌else◌, is_some,
  not, ◌&&◌, Bool-cases,
}
use kimi_ssh.Base.Dict.{Dict, lookup}
use mathlib.Core.Path.{subst}
use kimi_ssh.Base.Text.{Text, same_text}
use kimi_ssh.Config.Settings.{SshConfig}
use kimi_ssh.Connection.{
  Manager, new_manager, set_configs, config_for, connection, is_active, disconnect,
  active_connections,
}
use kimi_ssh.Connection.Effects.{disconnect_lem, active_connections_lem}
use kimi_ssh.Connection.Steps.{set_configs-IsWellFormed}
use kimi_ssh.Connection.WellFormed.{new_manager-IsWellFormed}
use kimi_ssh.Exec.Run.{Ran, ran, failed, not_connected, ExecEnv, Remote, execute_at, execute}
use kimi_ssh.Exec.Run.Executed.{first_attempt, IsFitting, Executed, execute-Executed}
use kimi_ssh.Login.Dial.{Caller, dial_with}
use kimi_ssh.Login.Dial.Connect.{connect_error, manager_connect-dial_with}
use kimi_ssh.Session.{manager_connect}
use kimi_ssh.Refinement.{
  Call, configure, connect, hang_up, execute_on, list_active, Report, executed, perform,
  perform_all, Spec, new_spec, with_host, Allowed, configures, connects, hangs_up, refuses, fails,
  runs, lists, Trace, ends, goes_on,
}
use kimi_ssh.Refinement.Live.{IsLive, disconnect-IsLive, recorded-is_active, manager_connect-IsLive}

-- The set has the hosts that are connected.
pub record Sim (s : Spec) (m : Manager) : Type 0 where
  pub live : IsLive s.configs m
  pub up : (host : Text) → s.up host ≡ is_active m host

module _ (s : Spec) (m : Manager) (w : Sim s m) where
  -- The report is allowed, and the set is again that of the connected hosts.
  abbrev IsSimulated : Call → Manager × Report → Type 0
  IsSimulated c (n, r) = (t : Spec) × Allowed s c r t × Sim t n

  disconnect-Sim : (host : Text) → Sim (with_host s host false) (disconnect m host).0
  disconnect-Sim host = record {
    live = disconnect-IsLive s.configs m w.live host;
    up = λ j. rw (w.up j) (sym (disconnect_lem m host w.live.well_formed j).0);
  }

  configure-IsSimulated :
      (configs : Dict SshConfig) → IsSimulated (configure configs) (perform m (configure configs))
  unfolding perform set_configs is_active
  configure-IsSimulated configs = (
    record s { configs = configs },
    configures configs,
    record {
      live = record {
        well_formed = unfold set_configs in set_configs-IsWellFormed m configs w.live.well_formed;
        live = unfold is_active in w.live.live;
        configs_kept = refl;
      };
      up = unfold is_active in w.up;
    },
  )

  connected-Sim :
      (host : Text) (n : Manager) (failed : Bool)
      → IsLive s.configs n
      → ((j : Text)
          → is_active n j ≡ (if same_text host j && not failed then true else is_active m j))
      → Sim (if failed then s else with_host s host true) n
  connected-Sim host n true l h = record { live = l; up = λ j. ground (arith, h j, w.up j) }
  connected-Sim host n false l h = record { live = l; up = λ j. ground (arith, h j, w.up j) }

  config_for_kept : (host : Text) → config_for m host ≡ lookup host s.configs
  unfolding config_for
  config_for_kept host = rw w.live.configs_kept refl

  connect-IsSimulated :
      (e : Caller) (host : Text) → IsSimulated (connect e host) (perform m (connect e host))
  unfolding perform
  connect-IsSimulated e host =
      let r = (manager_connect (dial_with e) m host).1 in
      let h = manager_connect-dial_with e m host w.live.well_formed in
      let right : r ≡ connect_error e (s.up host) (lookup host s.configs) =
        rw (w.up host, ← config_for_kept host) h.0 in
      (
        (if is_some r then s else with_host s host true),
        connects e host r right,
        connected-Sim host (manager_connect (dial_with e) m host).0 (is_some r)
            (manager_connect-IsLive s.configs m w.live e host) h.1,
      )

  hang_up-IsSimulated : (host : Text) → IsSimulated (hang_up host) (perform m (hang_up host))
  unfolding perform
  hang_up-IsSimulated host =
      let known : (disconnect m host).1 ≡ s.up host =
        (disconnect_lem m host w.live.well_formed host).1
        ∙ recorded-is_active s.configs m w.live host
        ∙ sym (w.up host) in
      (with_host s host false, rw known (hangs_up host), disconnect-Sim host)

  ran-IsSimulated :
      (env : ExecEnv) (remote : Remote) (command host : Text) (r : Manager × Ran)
      → s.up host ≡ true
      → Executed m host (first_attempt env remote command) (remote.second command) r
      → IsSimulated (execute_on env remote command host) (r.0, executed r.1)
  ran-IsSimulated env remote command host (n, failed e) here (k, fits) =
      let up : is_active m host ≡ true = sym (w.up host) ∙ here in
      (s, fails env remote command host e here (subst (λ b. IsFitting b e) up fits), rw k w)
  ran-IsSimulated env remote command host (n, ran o) here (_, k) = (
    (if o.connection_closed then with_host s host false else s),
    runs env remote command host o here,
    rw k.left (elim (Bool-cases o.connection_closed) [
      | inl c ↦ rw c (disconnect-Sim host)
      | inr c ↦ rw c w
    ]),
  )

  execute_down :
      (env : ExecEnv) (remote : Remote) (command host : Text)
      → is_active m host ≡ false
      → execute env remote m host command ≡ (m, failed not_connected)
  unfolding execute connection
  execute_down env remote command host e = rw (e, execute_at) refl

  execute_on-IsSimulated :
      (env : ExecEnv) (remote : Remote) (command host : Text)
      → IsSimulated
          (execute_on env remote command host)
          (perform m (execute_on env remote command host))
  unfolding perform
  execute_on-IsSimulated env remote command host = elim (Bool-cases (s.up host)) [
    | inl here ↦
        ran-IsSimulated env remote command host (execute env remote m host command) here
          (execute-Executed env remote m host command)
    | inr down ↦
        rw (execute_down env remote command host (sym (w.up host) ∙ down))
          (s, refuses env remote command host down, w)
  ]

  list_active-IsSimulated : IsSimulated list_active (perform m list_active)
  unfolding perform
  list_active-IsSimulated =
      let h = active_connections_lem m w.live.well_formed in
      (s, lists (active_connections m) h.0 (λ j. h.1 j ∙ sym (w.up j)), w)

  pub perform-IsSimulated : (c : Call) → IsSimulated c (perform m c)
  perform-IsSimulated (configure configs) = configure-IsSimulated configs
  perform-IsSimulated (connect e host) = connect-IsSimulated e host
  perform-IsSimulated (hang_up host) = hang_up-IsSimulated host
  perform-IsSimulated (execute_on env remote command host) =
      execute_on-IsSimulated env remote command host
  perform-IsSimulated list_active = list_active-IsSimulated

perform_all-Sim :
    (s : Spec) (m : Manager) → Sim s m → (cs : List Call) → Trace s cs (perform_all m cs).1
unfolding perform_all
perform_all-Sim s m w [] = ends
perform_all-Sim s m w (c ∷ cs) =
    let (t, allowed, v) = perform-IsSimulated s m w c in
    goes_on allowed (perform_all-Sim t (perform m c).0 v cs)

pub new_manager-Sim : Sim new_spec new_manager
unfolding lookup is_active
new_manager-Sim = record {
  live = record {
    well_formed = new_manager-IsWellFormed;
    live = λ host id e. ground (arith, e);
    configs_kept = refl;
  };
  up = λ host. refl;
}

-- A client that makes its calls one after the other sees a set of connected hosts: whatever the
-- calls and whatever the network and the servers do, each report is one that this set allows, the
-- error of `Connect`, the error of `Disconnect`, the list of connections and whether `Execute`
-- finds a connection included, and a connection leaves the set exactly by `Disconnect` or by an
-- outcome that says so.
pub perform_all-Trace : (cs : List Call) → Trace new_spec cs (perform_all new_manager cs).1
perform_all-Trace cs = perform_all-Sim new_spec new_manager new_manager-Sim cs
