-- ===== src/Login/Dial/Connect.antt =====
-- `Connect` with the dialing of internal/ssh/connection.go put in.
use kimi_ssh.Base.{
  Bool, true, false, not, ◌&&◌, ◌||◌, ◌≡◌, refl, ◌∙◌, inl, inr, Option, none, some, List, [], ◌∷◌,
  if◌then◌else◌, any, ap, arith, is_some, Bool-cases,
}
use kimi_ssh.Base.Text.{Text, same_text, same_text_iff}
use kimi_ssh.Config.Settings.{SshConfig}
use kimi_ssh.Connection.{Manager, begin_with, connect_begin, is_active, config_for}
use kimi_ssh.Connection.Effects.{is_active-connect_publish}
use kimi_ssh.Connection.WellFormed.{IsWellFormed}
use kimi_ssh.Session.{
  SessionError, host_not_found, dial_failed, dialed, connect_with, manager_connect,
}
use kimi_ssh.Session.ActiveHost.{IsTame}
use kimi_ssh.Login.Auth.{AuthMethod, client_settings_for}
use kimi_ssh.Login.Dial.{Caller, dial, dial_settings, has_client, dial_with}
use kimi_ssh.Login.Dial.Attempts.{opens, dial_loop_lem}
use kimi_ssh.Login.Target.{resolve_target}

-- Whether the settings can be made and one of the three attempts gives a client.
abbrev pub reaches_with : Caller → SshConfig → Option (List AuthMethod) → Bool
reaches_with e config none = false
reaches_with e config (some methods) =
    any (opens e.network config (resolve_target e.login config) methods) (1 ∷ 2 ∷ 3 ∷ [])

abbrev pub reaches : Caller → SshConfig → Bool
reaches e config = reaches_with e config (client_settings_for e.machine e.callback config)

-- The error of `Connect`, if there is one.
abbrev pub connect_error : Caller → Bool → Option SshConfig → Option SessionError
connect_error e active none = some host_not_found
connect_error e active (some config) = if active || reaches e config then none else some dial_failed

module _ (e : Caller) (m : Manager) (host : Text) where
  dial_settings-reaches_with :
      (config : SshConfig) (o : Option (List AuthMethod))
      → has_client (dial_settings e config o) ≡ reaches_with e config o
  dial_settings-reaches_with config none = refl
  dial_settings-reaches_with config (some methods) =
      (dial_loop_lem e.network config (resolve_target e.login config) methods).0

  pub dial_with-reaches :
      (config : SshConfig) → (dial_with e).reach m host config ≡ (m, reaches e config)
  unfolding dial
  dial_with-reaches config =
      ap (λ b. (m, b))
        (dial_settings-reaches_with config (client_settings_for e.machine e.callback config))

  -- The error, and the hosts that are connected afterwards.
  abbrev IsResult : Option SessionError → Manager × Option SessionError → Type 0
  IsResult wanted r =
      (r.1 ≡ wanted)
      × ((j : Text)
          → is_active r.0 j
            ≡ (if same_text host j && not (is_some r.1) then true else is_active m j))

  dialed-IsResult :
      (config : SshConfig)
      → IsWellFormed m
      → IsResult
          (if reaches e config then none else some dial_failed)
          (dialed host config (m, reaches e config))
  dialed-IsResult config w = elim (Bool-cases (reaches e config)) [
    | inl r ↦ rw r (refl, λ j. is_active-connect_publish m host w config j ∙ ground arith)
    | inr r ↦ rw r (refl, λ j. ground arith)
  ]

  begun-IsResult :
      (b : Bool) (o : Option SshConfig)
      → is_active m host ≡ b
      → IsWellFormed m
      → IsResult (connect_error e b o) (connect_with (dial_with e) m host (begin_with b o))
  begun-IsResult b none h w = (refl, λ j. ground arith)
  begun-IsResult true (some config) h w = (refl, λ j. ground (arith, same_text_iff host j))
  begun-IsResult false (some config) h w = rw (dial_with-reaches config) (dialed-IsResult config w)

-- `Connect` with the dialing put in reports success exactly if the host is in the configs and is
-- connected already, or the settings can be made and one of the three attempts gives a client, and
-- the right error otherwise; afterwards the host is connected if it succeeded, and every other
-- host is as before. The manager is well formed, and no other call runs meanwhile.
pub manager_connect-dial_with :
    (e : Caller) (m : Manager) (host : Text)
    → IsWellFormed m
    → let r = manager_connect (dial_with e) m host in
      (r.1 ≡ connect_error e (is_active m host) (config_for m host))
      × ((j : Text)
          → is_active r.0 j
            ≡ (if same_text host j && not (is_some r.1) then true else is_active m j))
unfolding manager_connect connect_begin
manager_connect-dial_with e m host w =
    begun-IsResult e m host (is_active m host) (config_for m host) refl w

-- No other call runs while this dials, so that the dialing leaves the manager alone.
pub dial_with-IsTame : (e : Caller) → IsTame (dial_with e)
dial_with-IsTame e m host config w = w
