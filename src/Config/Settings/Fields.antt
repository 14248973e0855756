-- ===== src/Config/Settings/Fields.antt =====
-- What `applySetting` does to each field of an entry.
use kimi_ssh.Base.{false, ◌≡◌, refl, Option, some, arith, get_or, is_some}
use kimi_ssh.Base.Int.{ℤ}
use kimi_ssh.Base.Decimal.{parse_int}
use kimi_ssh.Base.Text.{Text, codes, same_text}
use kimi_ssh.Config.Settings.{SshConfig, expand_tilde, proxy_value, apply_setting}

-- A field of an entry: its keyword, how it reads its value, and where it stands.
pub record Field {ℓ} (A : Type ℓ) : Type ℓ where
  pub keyword : Text
  pub read : Text → Option A
  pub get : SshConfig → A

-- The keyword writes the field alone, when its value can be read, and no other keyword touches it.
pub record IsWritten {ℓ} {A : Type ℓ} (home : Option Text) (f : Field A) : Type ℓ where
  pub own :
      (c : SshConfig) (value : Text)
      → f.get (apply_setting home c f.keyword value).0 ≡ get_or (f.get c) (f.read value)
  pub understood :
      (c : SshConfig) (value : Text)
      → (apply_setting home c f.keyword value).1 ≡ is_some (f.read value)
  pub other :
      (c : SshConfig) (keyword value : Text)
      → same_text keyword f.keyword ≡ false
      → f.get (apply_setting home c keyword value).0 ≡ f.get c

module _ (home : Option Text) where
  abbrev pub host_name_field : Field Text
  host_name_field = record { keyword = codes "hostname"; read = some; get = λ c. c.host_name }

  abbrev pub port_field : Field Text
  port_field = record { keyword = codes "port"; read = some; get = λ c. c.port }

  abbrev pub user_field : Field Text
  user_field = record { keyword = codes "user"; read = some; get = λ c. c.user }

  abbrev pub identity_file_field : Field Text
  identity_file_field = record {
    keyword = codes "identityfile";
    read = λ value. some (expand_tilde home value);
    get = λ c. c.identity_file;
  }

  abbrev pub proxy_jump_field : Field Text
  proxy_jump_field = record { keyword = codes "proxyjump"; read = some; get = λ c. c.proxy_jump }

  abbrev pub proxy_command_field : Field Text
  proxy_command_field = record {
    keyword = codes "proxycommand";
    read = λ value. some (proxy_value value);
    get = λ c. c.proxy_command;
  }

  abbrev pub interval_field : Field ℤ
  interval_field = record {
    keyword = codes "serveraliveinterval";
    read = parse_int;
    get = λ c. c.server_alive_interval;
  }

  -- No keyword changes the alias.
  pub host-apply_setting : (c : SshConfig) (k v : Text) → (apply_setting home c k v).0.host ≡ c.host
  unfolding apply_setting
  host-apply_setting c k v = ground arith

  module _ (c : SshConfig) (k v : Text) where
    host_name_kept :
        same_text k (codes "hostname") ≡ false
        → (apply_setting home c k v).0.host_name ≡ c.host_name
    unfolding apply_setting
    host_name_kept h = ground arith

    port_kept : same_text k (codes "port") ≡ false → (apply_setting home c k v).0.port ≡ c.port
    unfolding apply_setting
    port_kept h = ground arith

    user_kept : same_text k (codes "user") ≡ false → (apply_setting home c k v).0.user ≡ c.user
    unfolding apply_setting
    user_kept h = ground arith

    identity_file_kept :
        same_text k (codes "identityfile") ≡ false
        → (apply_setting home c k v).0.identity_file ≡ c.identity_file
    unfolding apply_setting
    identity_file_kept h = ground arith

    proxy_jump_kept :
        same_text k (codes "proxyjump") ≡ false
        → (apply_setting home c k v).0.proxy_jump ≡ c.proxy_jump
    unfolding apply_setting
    proxy_jump_kept h = ground arith

    proxy_command_kept :
        same_text k (codes "proxycommand") ≡ false
        → (apply_setting home c k v).0.proxy_command ≡ c.proxy_command
    unfolding apply_setting
    proxy_command_kept h = ground arith

    server_alive_interval_kept :
        same_text k (codes "serveraliveinterval") ≡ false
        → (apply_setting home c k v).0.server_alive_interval ≡ c.server_alive_interval
    unfolding apply_setting
    server_alive_interval_kept h = ground arith

  pub host_name-IsWritten : IsWritten home host_name_field
  unfolding apply_setting same_text
  host_name-IsWritten = record {
    own = λ c v. refl;
    understood = λ c v. refl;
    other = λ c k v h. host_name_kept c k v h;
  }

  pub port-IsWritten : IsWritten home port_field
  unfolding apply_setting same_text
  port-IsWritten = record {
    own = λ c v. refl;
    understood = λ c v. refl;
    other = λ c k v h. port_kept c k v h;
  }

  pub user-IsWritten : IsWritten home user_field
  unfolding apply_setting same_text
  user-IsWritten = record {
    own = λ c v. refl;
    understood = λ c v. refl;
    other = λ c k v h. user_kept c k v h;
  }

  pub identity_file-IsWritten : IsWritten home identity_file_field
  unfolding apply_setting same_text
  identity_file-IsWritten = record {
    own = λ c v. refl;
    understood = λ c v. refl;
    other = λ c k v h. identity_file_kept c k v h;
  }

  pub proxy_jump-IsWritten : IsWritten home proxy_jump_field
  unfolding apply_setting same_text
  proxy_jump-IsWritten = record {
    own = λ c v. refl;
    understood = λ c v. refl;
    other = λ c k v h. proxy_jump_kept c k v h;
  }

  pub proxy_command-IsWritten : IsWritten home proxy_command_field
  unfolding apply_setting same_text
  proxy_command-IsWritten = record {
    own = λ c v. refl;
    understood = λ c v. refl;
    other = λ c k v h. proxy_command_kept c k v h;
  }

  pub interval-IsWritten : IsWritten home interval_field
  unfolding apply_setting same_text
  interval-IsWritten = record {
    own = λ c v. ground arith;
    understood = λ c v. ground arith;
    other = λ c k v h. server_alive_interval_kept c k v h;
  }
