-- ===== src/Login/Auth/Order.antt =====
-- The order of the methods of `clientSettingsFor`, and `lookupPassword` against `passwordConfigured`.
use kimi_ssh.Base.{
  Bool, true, false, ◌&&◌, ◌≡◌, refl, sym, ap, ◌∙◌, ◌⊎◌, inl, inr, Option, none, some, List, [],
  ◌∷◌, ◌++◌, if◌then◌else◌, Bool-cases, Option-cases, All, arith,
}
use kimi_ssh.Base.Text.{Text, same_text}
use kimi_ssh.Config.Settings.{SshConfig}
use kimi_ssh.Login.HostKey.{Callback, no_files, unreadable, strict, trusting}
use kimi_ssh.Login.Auth.{
  loads, non_empty, or_else, AuthMethod, key_file, agent, password, keyboard_interactive, Machine,
  default_identity_files, load_identities, identity_auth_methods, askpass_program, is_present,
  password_configured, password_auth_methods, first_line, password_of_output, lookup_password,
  further_methods, own_key, with_callback, client_settings_for,
}

abbrev pub is_password : AuthMethod → Bool
is_password (key_file path) = false
is_password agent = false
is_password password = true
is_password keyboard_interactive = true

abbrev pub all_passwords : List AuthMethod → Bool
all_passwords [] = true
all_passwords (m ∷ ms) = is_password m && all_passwords ms

-- Nothing but passwords behind a password.
abbrev pub keys_first : List AuthMethod → Bool
keys_first [] = true
keys_first (m ∷ ms) = if is_password m then all_passwords ms else keys_first ms

abbrev AreKeys : List AuthMethod → Type 0
AreKeys = All (λ m. is_password m ≡ false)

keys_first-append : (ks ms : List AuthMethod) → AreKeys ks → keys_first (ks ++ ms) ≡ keys_first ms
keys_first-append [] ms h = refl
keys_first-append (k ∷ ks) ms h = rw h.0 (keys_first-append ks ms h.1)

load_identities-AreKeys : (e : Machine) (paths : List Text) → AreKeys (load_identities e paths)
unfolding load_identities
load_identities-AreKeys e [] = tt
load_identities-AreKeys e (path ∷ paths) = elim (Bool-cases (e.exists path && loads e path)) [
  | inl c ↦ rw c (refl, load_identities-AreKeys e paths)
  | inr c ↦ rw c (load_identities-AreKeys e paths)
]

agent-AreKeys : (b : Bool) → AreKeys (if b then agent ∷ [] else [])
agent-AreKeys true = (refl, tt)
agent-AreKeys false = tt

passwords-keys_first :
    (b : Bool) → keys_first (if b then password ∷ keyboard_interactive ∷ [] else []) ≡ true
passwords-keys_first true = refl
passwords-keys_first false = refl

further_methods-keys_first : (e : Machine) → keys_first (further_methods e) ≡ true
further_methods-keys_first e =
    keys_first-append (if e.has_agent then agent ∷ [] else [])
      (identity_auth_methods e ++ password_auth_methods e) (agent-AreKeys e.has_agent)
    ∙ keys_first-append (identity_auth_methods e) (password_auth_methods e)
        (load_identities-AreKeys e (default_identity_files e.home))
    ∙ passwords-keys_first (password_configured e)

carried-AreKeys : (ks own : List AuthMethod) → some ks ≡ some own → AreKeys ks → AreKeys own
carried-AreKeys ks own e h = let p : ks ≡ own = ground arith in rw (← p) h

none-some : (own : List AuthMethod) → none ≡ some own → ⊥
none-some own e = ground arith

own_key-AreKeys :
    (e : Machine) (path : Text) (own : List AuthMethod) → own_key e path ≡ some own → AreKeys own
own_key-AreKeys e path own h = elim (Bool-cases (same_text path [])) [
  | inl s ↦ carried-AreKeys [] own (rw s at h) tt
  | inr s ↦ elim (Bool-cases (loads e path)) [
    | inl l ↦ carried-AreKeys (key_file path ∷ []) own (rw (s, l) at h) (refl, tt)
    | inr l ↦ absurd (none-some own (rw (s, l) at h))
  ]
]

with_callback-keys_first :
    (c : Callback) (ms methods : List AuthMethod)
    → keys_first ms ≡ true
    → with_callback c ms ≡ some methods
    → keys_first methods ≡ true
with_callback-keys_first no_files ms methods h e = ground arith
with_callback-keys_first unreadable ms methods h e = ground arith
with_callback-keys_first strict ms methods h e = ground arith
with_callback-keys_first trusting ms methods h e = ground arith

-- When the settings are made, no key stands behind a password among the methods that are offered.
pub client_settings_for-keys_first :
    (e : Machine) (c : Callback) (config : SshConfig) (methods : List AuthMethod)
    → client_settings_for e c config ≡ some methods
    → keys_first methods ≡ true
unfolding client_settings_for
client_settings_for-keys_first e c config methods h =
    elim (Option-cases (own_key e config.identity_file)) [
      | inl n ↦ ground (arith, rw (n, client_settings_for) at h)
      | inr (own, o) ↦
          with_callback-keys_first c (own ++ further_methods e) methods
            (keys_first-append own (further_methods e)
                (own_key-AreKeys e config.identity_file own o)
              ∙ further_methods-keys_first e)
            (rw (o, client_settings_for) at h)
    ]

non_empty_lem : (s text : Text) → non_empty s ≡ some text → (s ≡ text) × (is_present s ≡ true)
non_empty_lem s text e = ground arith

or_else_lem :
    (a b : Option Text) (text : Text) → or_else a b ≡ some text → (a ≡ some text) ⊎ (b ≡ some text)
or_else_lem none b text e = inr e
or_else_lem (some s) b text e = inl e

non_empty-is_present : (s text : Text) → non_empty s ≡ some text → is_present text ≡ true
non_empty-is_present s text e = let r = non_empty_lem s text e in ap is_present (sym r.0) ∙ r.1

password_of_output-is_present :
    (o : Option Text) (text : Text) → password_of_output o ≡ some text → is_present text ≡ true
password_of_output-is_present none text e = ground arith
password_of_output-is_present (some output) text e = non_empty-is_present (first_line output) text e

-- What the askpass program gives, if there is one.
asked-is_present :
    (program : Text) (o : Option Text) (text : Text)
    → (if same_text program [] then none else password_of_output o) ≡ some text
    → (is_present program ≡ true) × (is_present text ≡ true)
asked-is_present program o text h = elim (Bool-cases (same_text program [])) [
  | inl e ↦ ground (arith, rw e at h)
  | inr e ↦ (rw e refl, password_of_output-is_present o text (rw e at h))
]

-- A password is found only if one was said to be configured, and it is not empty.
pub lookup_password-password_configured :
    (e : Machine) (user host text : Text)
    → lookup_password e user host ≡ some text
    → (password_configured e ≡ true) × (is_present text ≡ true)
unfolding lookup_password password_configured
lookup_password-password_configured e user host text h =
    elim (or_else_lem _ (non_empty e.password_env) text h) [
      | inl a ↦
          let r =
            asked-is_present (askpass_program e) (e.run_askpass (askpass_program e) user host) text
              a in
          (rw r.0 refl, r.1)
      | inr b ↦ (
        rw (non_empty_lem e.password_env text b).1 (ground arith),
        non_empty-is_present e.password_env text b,
      )
    ]
