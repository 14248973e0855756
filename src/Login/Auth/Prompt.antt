-- ===== src/Login/Auth/Prompt.antt =====
-- The two password methods of `passwordAuthMethods` in internal/ssh/auth.go, which share one password
-- that is looked up when it is first asked for.
pub mod Once
use kimi_ssh.Base.{
  ℕ, zero, suc, ◌+◌, Bool, true, false, Option, none, some, List, [], ◌∷◌, if◌then◌else◌, ◌==◌,
}
use kimi_ssh.Base.Text.{Text, codes, same_text}
use kimi_ssh.Login.Auth.{Machine, askpass_program, lookup_password}

abbrev pub password_env_name : Text
password_env_name = codes "KIMI_SSH_PASSWORD"

-- `askpassProgramOrEnv`
unfoldable pub askpass_program_or_env : Machine → Text
askpass_program_or_env e =
    if same_text (askpass_program e) [] then password_env_name else askpass_program e

-- `once`, `password` and `have`: what was looked up, if it was; and how often the askpass program was
-- launched.
pub record Prompt : Type 0 where
  pub loaded : Option (Option Text)
  pub launches : ℕ

abbrev pub new_prompt : Prompt
new_prompt = record { loaded = none; launches = 0 }

abbrev pub load_from : Option (Option Text) → Machine → Text → Text → Prompt → Prompt × Option Text
load_from (some r) e user host p = (p, r)
load_from none e user host p =
    let r = lookup_password e user host in
    (
      record {
        loaded = some r;
        launches = p.launches + (if same_text (askpass_program e) [] then 0 else 1);
      },
      r,
    )

-- `load`
unfoldable pub load : Machine → Text → Text → Prompt → Prompt × Option Text
load e user host p = load_from p.loaded e user host p

-- What a server asks for: the password, or the answers to so many questions.
pub data Question : Type 0 where
  for_password : Question
  questions : ℕ → Question

-- The password, the answers, or an error that names where a password was expected from.
pub data Reply : Type 0 where
  secret : Text → Reply
  answers : List Text → Reply
  no_password : Text → Reply

abbrev pub repeated : ℕ → Text → List Text
repeated zero value = []
repeated (suc n) value = value ∷ repeated n value

abbrev pub password_reply : Machine → Option Text → Reply
password_reply e none = no_password (askpass_program_or_env e)
password_reply e (some value) = secret value

abbrev pub keyboard_reply : Machine → ℕ → Option Text → Reply
keyboard_reply e n none = no_password (askpass_program_or_env e)
keyboard_reply e n (some value) = answers (repeated n value)

-- The callbacks of `ssh.PasswordCallback` and `ssh.KeyboardInteractive`.
unfoldable pub ask : Machine → Text → Text → Prompt → Question → Prompt × Reply
ask e user host p for_password = let (q, r) = load e user host p in (q, password_reply e r)
ask e user host p (questions n) =
    if n == 0 then (p, answers []) else let (q, r) = load e user host p in (q, keyboard_reply e n r)

-- Questions one after the other, each with the machine as it is then.
unfoldable pub ask_all :
    Text → Text → Prompt → List (Machine × Question) → Prompt × List (Question × Reply)
ask_all user host p [] = (p, [])
ask_all user host p ((e, q) ∷ rest) =
    let (next, r) = ask e user host p q in
    let (last, rs) = ask_all user host next rest in (last, (q, r) ∷ rs)
