-- ===== src/Refinement/Active/Follows.antt =====
-- The session manager against the set of hosts with an active one.
use kimi_ssh.Base.{
  true, false, ◌≡◌, ◌≢◌, refl, sym, ◌∙◌, inl, inr, ◌⊎◌, Option, none, some, List, [], ◌∷◌, arith,
  Bool-cases,
}
use kimi_ssh.Base.Dict.{Dict}
use kimi_ssh.Config.Settings.{SshConfig}
use kimi_ssh.Base.Text.{Text, same_text, same_text_iff}
use kimi_ssh.Connection.{active_connections, Manager, disconnect, is_active}
use kimi_ssh.Exec.Run.{ExecEnv, Remote, execute}
use kimi_ssh.Login.Dial.{Caller, dial_with}
use kimi_ssh.Refinement.{
  configure, list_active, connect, connected, hang_up, execute_on, perform, Spec, Allowed,
}
use kimi_ssh.Refinement.Active.{
  learn, list_all, learns, lists_all, SessionCall, connect_to, leave, execute_in, which,
  SessionReport, entered, ended, perform_in, perform_all_in, ActiveSpec, new_active_spec, IsPicked,
  Means, named, kept, replaced, ActiveAllowed, enters_nothing, enters, leaves_other, leaves_active,
  runs_nothing, runs_on, tells, ActiveTrace, ends, goes_on,
}
use kimi_ssh.Refinement.Simulation.{Sim, perform-IsSimulated, new_manager-Sim}
use kimi_ssh.Session.{
  Session, new_session, SessionError, get_active_host, manager_connect, activate, target_of,
  connect_target, session_connect, session_disconnect,
}
use kimi_ssh.Session.ActiveHost.{Picks, get_active_host-Reports, session_disconnect_lem}
use kimi_ssh.Session.Commands.{execute_target, session_execute}

pub record IsFollowed (s : ActiveSpec) (x : Session) : Type 0 where
  pub hosts : Sim s.hosts x.manager
  pub active : x.active_host ≡ s.active

-- The report is allowed, and the session is followed again.
abbrev pub Followed : ActiveSpec → SessionCall → Session × SessionReport → Type 0
Followed s c (y, r) = (t : ActiveSpec) × ActiveAllowed s c r t × IsFollowed t y

picked : {s : Spec} {m : Manager} → Sim s m → (host : Text) → Picks m host → IsPicked s.up host
picked w host (inl (e, h)) = inl (e, λ j. w.up j ∙ h j)
picked w host (inr (e, h)) = inr (w.up host ∙ e, λ j p. h j (sym (w.up j) ∙ p))

module _ (s : ActiveSpec) (x : Session) (w : IsFollowed s x) where
  reported-Means :
      (host : Text)
      → ((host ≡ x.active_host) × ((host ≡ []) ⊎ (is_active x.manager host ≡ true)))
        ⊎ ((is_active x.manager x.active_host ≡ false) × Picks x.manager host)
      → Means s [] host host
  reported-Means host (inl (e, d)) =
      let p : host ≡ s.active = e ∙ w.active in
      rw p (
        kept (elim d [
          | inl empty ↦ inl (sym p ∙ empty)
          | inr up ↦ inr (w.hosts.up s.active ∙ rw (← p) up)
        ]))
  reported-Means host (inr (lost, picks)) =
      replaced host (w.hosts.up s.active ∙ rw (← w.active) lost) (picked w.hosts host picks)

  get_active_host-Means :
      let (y, host) = get_active_host x in
      (y.manager ≡ x.manager) × (y.active_host ≡ host) × Means s [] host host
  get_active_host-Means =
      let (same, active, h) = get_active_host-Reports x w.hosts.live.well_formed in
      (same, active, reported-Means (get_active_host x).1 h)

  target_of-Means :
      (host : Text)
      → let (y, target) = target_of x host in
        (y.manager ≡ x.manager) × Means s host target y.active_host
  unfolding target_of
  target_of-Means host = elim (Bool-cases (same_text host [])) [
    | inl e ↦
        let p : host ≡ [] = (same_text_iff host []).0 e in
        let (same, active, h) = get_active_host-Means in rw (e, target_of) (same, rw (p, active) h)
    | inr e ↦
        rw (e, target_of, w.active)
          (refl, named host (λ p. ground (arith, same_text_iff host [], p, e)))
  ]

  -- The active host after `Connect`, from what the manager reports.
  activate-Followed :
      (e : Caller) (host target : Text) (y : Session) (p : Manager × Option SessionError)
      → Means s host target y.active_host
      → target ≢ []
      → (t : Spec) → Allowed s.hosts (connect e target) (connected p.1) t
      → Sim t p.0
      → let (z, r) = activate (dial_with e) y target p in
        Followed s (connect_to e host) (z, entered r)
  activate-Followed e host target y (m, none) h n t allowed v = (
    record { hosts = t; active = target },
    enters e host target y.active_host none t h n allowed,
    record { hosts = v; active = refl },
  )
  activate-Followed e host target y (m, some error) h n t allowed v = (
    record { hosts = t; active = y.active_host },
    enters e host target y.active_host (some error) t h n allowed,
    record { hosts = v; active = refl },
  )

  connect_target-Followed :
      (e : Caller) (host : Text) (y : Session) (target : Text)
      → y.manager ≡ x.manager
      → Means s host target y.active_host
      → let (z, r) = connect_target (dial_with e) (y, target) in
        Followed s (connect_to e host) (z, entered r)
  unfolding perform
  connect_target-Followed e host y target same h = elim (Bool-cases (same_text target [])) [
    | inl b ↦ rw b (
      record s { active = y.active_host },
      enters_nothing e host y.active_host (rw (← (same_text_iff target []).0 b) h),
      record { hosts = rw same w.hosts; active = refl },
    )
    | inr b ↦
        let (t, allowed, v) = perform-IsSimulated s.hosts x.manager w.hosts (connect e target) in
        rw (b, same)
          (activate-Followed e host target y (manager_connect (dial_with e) x.manager target) h
            (λ p. ground (arith, same_text_iff target [], p, b)) t allowed v)
  ]

  execute_target-Followed :
      (env : ExecEnv) (remote : Remote) (command host : Text) (y : Session) (target : Text)
      → y.manager ≡ x.manager
      → Means s host target y.active_host
      → let (z, r) = execute_target env remote command (y, target) in
        Followed s (execute_in env remote command host) (z, ended r)
  unfolding perform
  execute_target-Followed env remote command host y target same h =
      elim (Bool-cases (same_text target [])) [
        | inl b ↦ rw b (
          record s { active = y.active_host },
          runs_nothing env remote command host y.active_host
              (rw (← (same_text_iff target []).0 b) h),
          record { hosts = rw same w.hosts; active = refl },
        )
        | inr b ↦
            let (t, allowed, v) =
              perform-IsSimulated s.hosts x.manager w.hosts
                (execute_on env remote command target) in
            rw (b, same)
              (
                record { hosts = t; active = y.active_host },
                runs_on env remote command host target y.active_host
                    (execute env remote x.manager target command).1 t h
                    (λ p. ground (arith, same_text_iff target [], p, b)) allowed,
                record { hosts = v; active = refl },
              )
      ]

  learn-Followed :
      (configs : Dict SshConfig) → Followed s (learn configs) (perform_in x (learn configs))
  unfolding perform_in perform
  learn-Followed configs =
      let (t, allowed, v) = perform-IsSimulated s.hosts x.manager w.hosts (configure configs) in
      (record s { hosts = t }, learns configs t allowed, record { hosts = v; active = w.active })

  list_all-Followed : Followed s list_all (perform_in x list_all)
  unfolding perform_in perform
  list_all-Followed =
      let (t, allowed, v) = perform-IsSimulated s.hosts x.manager w.hosts list_active in
      (
        record s { hosts = t },
        lists_all (active_connections x.manager) t allowed,
        record { hosts = v; active = w.active },
      )

  leave-Followed : (host : Text) → Followed s (leave host) (perform_in x (leave host))
  unfolding perform_in session_disconnect perform
  leave-Followed host =
      let (t, allowed, v) = perform-IsSimulated s.hosts x.manager w.hosts (hang_up host) in
      elim (session_disconnect_lem x host w.hosts.live.well_formed).2 [
        | inl (e, picks) ↦ (
          record { hosts = t; active = (session_disconnect x host).0.active_host },
          leaves_active host (disconnect x.manager host).1 t
              (session_disconnect x host).0.active_host (sym w.active ∙ e) allowed
              (picked v (session_disconnect x host).0.active_host picks),
          record { hosts = v; active = refl },
        )
        | inr (ne, e) ↦ (
          record s { hosts = t },
          leaves_other host (disconnect x.manager host).1 t (λ p. ne (w.active ∙ p)) allowed,
          record { hosts = v; active = e ∙ w.active },
        )
      ]

  perform_in-Followed : (c : SessionCall) → Followed s c (perform_in x c)
  unfolding perform_in session_connect session_execute
  perform_in-Followed (learn configs) = learn-Followed configs
  perform_in-Followed list_all = list_all-Followed
  perform_in-Followed (connect_to e host) =
      let (same, h) = target_of-Means host in
      connect_target-Followed e host (target_of x host).0 (target_of x host).1 same h
  perform_in-Followed (leave host) = leave-Followed host
  perform_in-Followed (execute_in env remote command host) =
      let (same, h) = target_of-Means host in
      execute_target-Followed env remote command host (target_of x host).0 (target_of x host).1 same
        h
  perform_in-Followed which =
      let (same, active, h) = get_active_host-Means in
      (
        record s { active = (get_active_host x).1 },
        tells (get_active_host x).1 h,
        record { hosts = rw same w.hosts; active = active },
      )

perform_all_in-Followed :
    (s : ActiveSpec) (x : Session)
    → IsFollowed s x
    → (cs : List SessionCall) → ActiveTrace s cs (perform_all_in x cs).1
unfolding perform_all_in
perform_all_in-Followed s x w [] = ends
perform_all_in-Followed s x w (c ∷ cs) =
    let (t, allowed, v) = perform_in-Followed s x w c in
    goes_on allowed (perform_all_in-Followed t (perform_in x c).0 v cs)

-- A client that makes its session calls one after the other sees a set of connected hosts with an
-- active one: whatever the calls and whatever the network and the servers do, each report is one
-- that these allow. A call that names no host means the active one, or the least connected host
-- when the active one is lost; `Connect` makes its host the active one when it succeeds, and
-- `Disconnect` of the active host makes the least of the hosts that are left the active one.
pub perform_all_in-ActiveTrace :
    (cs : List SessionCall) → ActiveTrace new_active_spec cs (perform_all_in new_session cs).1
perform_all_in-ActiveTrace cs =
    perform_all_in-Followed new_active_spec new_session
      (record { hosts = new_manager-Sim; active = refl }) cs
