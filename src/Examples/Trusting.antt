-- ===== src/Examples/Trusting.antt =====
-- The theorems about host keys and authentication at one host and one machine.
use kimi_ssh.Base.{
  ◌+◌, true, false, ◌≡◌, ◌≢◌, ◌≤◌, refl, none, some, List, [], ◌∷◌, ltb, All, arith, if◌then◌else◌,
}
use kimi_ssh.Base.Text.{Text, codes, same_text, equal_fold}
use kimi_ssh.Base.Text.Fields.{trim_space}
use kimi_ssh.Config.Settings.{initial_config}
use kimi_ssh.Login.HostKey.{
  recorded, unrecorded, mismatched, KnownHosts, no_trust, trusting, strict, check_host_key,
  check_all, Callback, check_dials,
}
use kimi_ssh.Login.HostKey.Safety.{check_host_key_mismatched}
use kimi_ssh.Login.HostKey.Appended.{times, ReadsBack, check_dials-times}
use kimi_ssh.Login.Auth.{
  Machine, agent, password, keyboard_interactive, password_configured, lookup_password,
  client_settings_for, load_identities, askpass_program,
}
use kimi_ssh.Login.Auth.Order.{keys_first, client_settings_for-keys_first}
use kimi_ssh.Examples.Data.{web, db}

-- Fingerprints by shifting each byte past the blank.
abbrev shifted : Text → Text
shifted [] = []
shifted (c ∷ s) = (c + 33) ∷ shifted s

shifted-lacks_space : (key : Text) → All (λ c. c ≢ b' ') (shifted key)
shifted-lacks_space [] = tt
shifted-lacks_space (c ∷ s) = ((λ e. omega (arith, e)), shifted-lacks_space s)

shifted_inj : (key other : Text) → shifted key ≡ shifted other → key ≡ other
shifted_inj [] [] e = refl
shifted_inj [] (d ∷ t) e = ground arith
shifted_inj (c ∷ s) [] e = ground arith
shifted_inj (c ∷ s) (d ∷ t) e = let r = shifted_inj s t (ground arith) in ground (arith, r)

-- The files record one key for `web`, and nothing for another host.
abbrev files : KnownHosts
files = record {
  verify = λ host key.
      if same_text host web
      then (if same_text key (codes "k1") then recorded else mismatched)
      else unrecorded;
  fingerprint = shifted;
  can_record = λ host key. true;
}

other_key : files.verify web (codes "k2") ≡ mismatched
unfolding same_text
other_key = refl

check_host_key_mismatched_example :
    (check_host_key trusting files
      (check_all trusting files no_trust ((db, codes "k2") ∷ (web, codes "k1") ∷ []))
      web
      (codes "k2")).1
    ≡ false
check_host_key_mismatched_example =
    check_host_key_mismatched files
      (record { lacks_space = shifted-lacks_space; injective = shifted_inj }) trusting
      ((db, codes "k2") ∷ (web, codes "k1") ∷ []) web (codes "k2") other_key

-- The user's file starts out empty.
abbrev read_back : List (Text × Text) → KnownHosts
read_back lines = record {
  verify = λ host key. if ltb 0 (times lines host key) then recorded else unrecorded;
  fingerprint = shifted;
  can_record = λ host key. true;
}

read_back-ReadsBack : ReadsBack read_back
read_back-ReadsBack lines host key m = ground (arith, m)

-- The second dial meets the key that the first one has recorded.
abbrev two_dials : List (Callback × List (Text × Text))
two_dials = (trusting, (db, codes "k2") ∷ []) ∷ (trusting, (db, codes "k2") ∷ []) ∷ []

check_dials-times_example : times (check_dials read_back [] two_dials) db (codes "k2") ≤ 1
check_dials-times_example =
    check_dials-times read_back read_back-ReadsBack two_dials db (codes "k2")

abbrev pub machine : Machine
machine = record {
  home = none;
  exists = λ path. true;
  reads = λ path. true;
  parses = λ path. true;
  has_agent = true;
  askpass = [];
  askpass_require = [];
  password_env = codes "secret";
  run_askpass = λ program user host. none;
}

methods :
    client_settings_for machine strict (initial_config web)
    ≡ some (agent ∷ password ∷ keyboard_interactive ∷ [])
unfolding client_settings_for same_text load_identities password_configured askpass_program
    equal_fold trim_space
methods = refl

client_settings_for-keys_first_example :
    keys_first (agent ∷ password ∷ keyboard_interactive ∷ []) ≡ true
client_settings_for-keys_first_example =
    client_settings_for-keys_first machine strict (initial_config web)
      (agent ∷ password ∷ keyboard_interactive ∷ []) methods

secret : lookup_password machine (codes "al") web ≡ some (codes "secret")
unfolding lookup_password same_text askpass_program equal_fold trim_space
secret = refl
