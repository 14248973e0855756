-- ===== src/Refinement/Live.antt =====
-- The manager of a client that makes its calls one after the other: every record is of an open connection.
use kimi_ssh.Base.{
  ℕ, Bool, true, false, ◌≡◌, refl, sym, ◌∙◌, inl, inr, Option, none, some, arith, if◌then◌else◌,
  is_some, length, Bool-cases, Option-cases,
}
use kimi_ssh.Base.Dict.{Dict, lookup, lookup-insert, lookup-erase}
use kimi_ssh.Base.Text.{Text, same_text, same_text_iff}
use kimi_ssh.Config.Settings.{SshConfig}
use kimi_ssh.Connection.{
  Manager, config_for, is_active, begin_with, connect_begin, connect_publish, disconnect,
}
use kimi_ssh.Connection.Effects.{
  connect_publish_up, connect_publish_down, disconnect_unknown, disconnect_known, unknown_inactive,
  is_active-connect_publish, disconnect_lem,
}
use kimi_ssh.Connection.Steps.{connect_publish-IsWellFormed, disconnect-IsWellFormed}
use kimi_ssh.Connection.WellFormed.{IsWellFormed}
use kimi_ssh.Login.Dial.{Caller, dial_with}
use kimi_ssh.Login.Dial.Connect.{reaches, dial_with-reaches}
use kimi_ssh.Session.{connect_with, manager_connect}

-- Well formed, and every connection that is recorded is open.
pub record IsLive (configs : Dict SshConfig) (m : Manager) : Type 0 where
  pub well_formed : IsWellFormed m
  pub live : (host : Text) (id : ℕ) → lookup host m.connections ≡ some id → is_active m host ≡ true
  pub configs_kept : m.configs ≡ configs

module _ (configs : Dict SshConfig) (m : Manager) (w : IsLive configs m) where
  connect_publish-lookup :
      (host : Text) (config : SshConfig) (j : Text)
      → same_text host j ≡ false
      → lookup j (connect_publish m host config).connections ≡ lookup j m.connections
  connect_publish-lookup host config j e = elim (Bool-cases (is_active m host)) [
    | inl a ↦ rw (connect_publish_up m host config a) refl
    | inr a ↦
        rw (connect_publish_down m host config a)
          (rw (lookup-insert j host (length m.heap) m.connections, e) refl)
  ]

  connect_publish-IsLive :
      (host : Text) (config : SshConfig) → IsLive configs (connect_publish m host config)
  connect_publish-IsLive host config = record {
    well_formed = connect_publish-IsWellFormed m host config w.well_formed;
    live = λ j id e. elim (Bool-cases (same_text host j)) [
      | inl same ↦ is_active-connect_publish m host w.well_formed config j ∙ rw same refl
      | inr other ↦
          is_active-connect_publish m host w.well_formed config j
          ∙ rw other (w.live j id (sym (connect_publish-lookup host config j other) ∙ e))
    ];
    configs_kept = elim (Bool-cases (is_active m host)) [
      | inl e ↦ rw (connect_publish_up m host config e) w.configs_kept
      | inr e ↦ rw (connect_publish_down m host config e) w.configs_kept
    ];
  }

  disconnect-lookup :
      (host j : Text)
      → lookup j (disconnect m host).0.connections
        ≡ (if same_text host j then none else lookup j m.connections)
  disconnect-lookup host j = elim (Option-cases (lookup host m.connections)) [
    | inl e ↦ rw (disconnect_unknown m host e) (ground (arith, same_text_iff host j, e))
    | inr (id, e) ↦ rw (disconnect_known m host e) (lookup-erase j host m.connections)
  ]

  pub disconnect-IsLive : (host : Text) → IsLive configs (disconnect m host).0
  disconnect-IsLive host = record {
    well_formed = disconnect-IsWellFormed m host w.well_formed;
    live = λ j id e. elim (Bool-cases (same_text host j)) [
      | inl same ↦ ground (arith, disconnect-lookup host j, same, e)
      | inr other ↦
          (disconnect_lem m host w.well_formed j).0
          ∙ rw other (w.live j id (sym (disconnect-lookup host j ∙ rw other refl) ∙ e))
    ];
    configs_kept = elim (Option-cases (lookup host m.connections)) [
      | inl e ↦ rw (disconnect_unknown m host e) w.configs_kept
      | inr (id, e) ↦ rw (disconnect_known m host e) w.configs_kept
    ];
  }

  -- A host has a record exactly if it is connected.
  pub recorded-is_active : (host : Text) → is_some (lookup host m.connections) ≡ is_active m host
  recorded-is_active host = elim (Option-cases (lookup host m.connections)) [
    | inl e ↦ rw e (sym (unknown_inactive m host e))
    | inr (id, e) ↦ rw e (sym (w.live host id e))
  ]

  begun-IsLive :
      (e : Caller) (host : Text) (b : Bool) (o : Option SshConfig)
      → IsLive configs (connect_with (dial_with e) m host (begin_with b o)).0
  begun-IsLive e host b none = w
  begun-IsLive e host true (some config) = w
  begun-IsLive e host false (some config) =
      rw (dial_with-reaches e m host config) (elim (Bool-cases (reaches e config)) [
        | inl r ↦ rw r (connect_publish-IsLive host config)
        | inr r ↦ rw r w
      ])

  pub manager_connect-IsLive :
      (e : Caller) (host : Text) → IsLive configs (manager_connect (dial_with e) m host).0
  unfolding manager_connect connect_begin
  manager_connect-IsLive e host = begun-IsLive e host (is_active m host) (config_for m host)
