-- ===== src/Login/Auth.antt =====
-- `clientSettingsFor` of internal/ssh/connection.go and the password sources of internal/ssh/auth.go.
-- Files, keys, the agent and the askpass program are given.
pub mod Order
pub mod Prompt
use kimi_ssh.Base.{
  ℕ, Bool, true, false, not, ◌&&◌, ◌||◌, Option, none, some, List, [], ◌∷◌, ◌++◌, if◌then◌else◌,
  ◌==◌, is_some,
}
use kimi_ssh.Base.FilePath.{path_join}
use kimi_ssh.Base.Text.{Text, codes, same_text, equal_fold}
use kimi_ssh.Base.Text.Fields.{trim_space}
use kimi_ssh.Config.Settings.{SshConfig}
use kimi_ssh.Login.HostKey.{Callback, no_files, unreadable, strict, trusting}

pub data AuthMethod : Type 0 where
  key_file : Text → AuthMethod
  agent password keyboard_interactive : AuthMethod

-- The machine: the home directory, which files are there, which of them can be read and
-- which are private keys, whether there is an agent, the raw variables, and the askpass program's output for a user and a host.
pub record Machine : Type 0 where
  pub home : Option Text
  pub exists : Text → Bool
  pub reads : Text → Bool
  pub parses : Text → Bool
  pub has_agent : Bool
  pub askpass : Text
  pub askpass_require : Text
  pub password_env : Text
  pub run_askpass : Text → Text → Text → Option Text

abbrev pub identity_names : List Text
identity_names = codes "id_ed25519" ∷ codes "id_ecdsa" ∷ codes "id_rsa" ∷ codes "id_dsa" ∷ []

unfoldable pub identity_paths : Text → List Text → List Text
identity_paths dir [] = []
identity_paths dir (name ∷ names) =
    path_join (dir ∷ codes ".ssh" ∷ name ∷ []) ∷ identity_paths dir names

abbrev pub default_identity_files : Option Text → List Text
default_identity_files none = []
default_identity_files (some dir) = identity_paths dir identity_names

pub data KeyError : Type 0 where
  not_read not_parsed : KeyError

-- `signerFromFile`: its error, or none if there is a signer.
abbrev pub signer_error : Machine → Text → Option KeyError
signer_error e path =
    if not (e.reads path)
    then some not_read
    else if not (e.parses path)
    then some not_parsed
    else none

abbrev pub loads : Machine → Text → Bool
loads e path = not (is_some (signer_error e path))

-- The loop of `identityAuthMethods`: a key that cannot be read is skipped.
unfoldable pub load_identities : Machine → List Text → List AuthMethod
load_identities e [] = []
load_identities e (path ∷ paths) =
    let rest = load_identities e paths in
    if e.exists path && loads e path then key_file path ∷ rest else rest

abbrev pub identity_auth_methods : Machine → List AuthMethod
identity_auth_methods e = load_identities e (default_identity_files e.home)

unfoldable pub askpass_program : Machine → Text
askpass_program e =
    if equal_fold (trim_space e.askpass_require) (codes "never") then [] else trim_space e.askpass

abbrev pub is_present : Text → Bool
is_present s = not (same_text s [])

unfoldable pub password_configured : Machine → Bool
password_configured e = is_present (askpass_program e) || is_present e.password_env

abbrev pub password_auth_methods : Machine → List AuthMethod
password_auth_methods e = if password_configured e then password ∷ keyboard_interactive ∷ [] else []

-- `strings.Cut` at the line feed, the part in front.
unfoldable pub before_newline : Text → Text
before_newline [] = []
before_newline (c ∷ s) = if c == 10 then [] else c ∷ before_newline s

-- `strings.TrimSuffix` of a carriage return.
unfoldable pub trim_return : Text → Text
trim_return [] = []
trim_return (c ∷ []) = if c == 13 then [] else c ∷ []
trim_return (c ∷ d ∷ s) = c ∷ trim_return (d ∷ s)

unfoldable pub first_line : Text → Text
first_line text = trim_return (before_newline text)

abbrev pub non_empty : Text → Option Text
non_empty s = if same_text s [] then none else some s

-- `askpassPassword`
abbrev pub password_of_output : Option Text → Option Text
password_of_output none = none
password_of_output (some output) = non_empty (first_line output)

abbrev pub or_else : Option Text → Option Text → Option Text
or_else none other = other
or_else (some s) other = some s

-- `lookupPassword`: the askpass program first, then the variable.
unfoldable pub lookup_password : Machine → Text → Text → Option Text
lookup_password e user host =
    let program = askpass_program e in
    let asked =
      if same_text program [] then none else password_of_output (e.run_askpass program user host) in
    or_else asked (non_empty e.password_env)

-- The methods behind the host's own key.
abbrev pub further_methods : Machine → List AuthMethod
further_methods e =
    (if e.has_agent then agent ∷ [] else []) ++ (identity_auth_methods e ++ password_auth_methods e)

-- The host's identity file: none if there is none, or an error if it cannot be loaded.
abbrev pub own_key : Machine → Text → Option (List AuthMethod)
own_key e path =
    if same_text path [] then some [] else if loads e path then some (key_file path ∷ []) else none

-- The settings' methods, unless there is no host key callback.
abbrev pub with_callback : Callback → List AuthMethod → Option (List AuthMethod)
with_callback no_files methods = none
with_callback unreadable methods = none
with_callback strict methods = some methods
with_callback trusting methods = some methods

-- `clientSettingsFor`: the methods in the order in which they are offered, or none for an error.
unfoldable pub client_settings_for : Machine → Callback → SshConfig → Option (List AuthMethod)
client_settings_for e c config = elim (own_key e config.identity_file) [
  | none ↦ none
  | some own ↦ with_callback c (own ++ further_methods e)
]
