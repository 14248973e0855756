-- ===== src/Login/Agent.antt =====
-- `agentAuthMethod` of internal/ssh/auth.go, with the variables `agentOnce` and `agentMethod`: the
-- agent's socket is opened at the first call, and what came of it is kept. Whether somebody listens at
-- the socket is given at each call.
use kimi_ssh.Base.{
  ℕ, ◌+◌, Bool, false, ◌&&◌, ◌≡◌, refl, inl, inr, Option, none, some, List, [], ◌∷◌, if◌then◌else◌,
  All, Bool-cases,
}
use kimi_ssh.Base.Text.{Text}
use kimi_ssh.Login.Auth.{is_present}

-- What the first call has found, if there was one; and how often the socket was opened.
pub record Agent : Type 0 where
  pub found : Option Bool
  pub opened : ℕ

abbrev pub new_agent : Agent
new_agent = record { found = none; opened = 0 }

-- What `agentOnce` runs, of the variable `SSH_AUTH_SOCK`. The Boolean is false for nil.
abbrev pub look_for_agent : Agent → Text → Bool → Agent × Bool
look_for_agent a socket listens =
    if is_present socket
    then (record { found = some listens; opened = a.opened + 1 }, listens)
    else (record a { found = some false }, false)

abbrev pub agent_from : Option Bool → Agent → Text → Bool → Agent × Bool
agent_from (some found) a socket listens = (a, found)
agent_from none a socket listens = look_for_agent a socket listens

unfoldable pub agent_auth_method : Agent → Text → Bool → Agent × Bool
agent_auth_method a socket listens = agent_from a.found a socket listens

-- The calls of a process, one after the other.
unfoldable pub agent_auth_methods : Agent → List (Text × Bool) → Agent × List Bool
agent_auth_methods a [] = (a, [])
agent_auth_methods a ((socket, listens) ∷ rest) =
    let (b, r) = agent_auth_method a socket listens in
    let (last, rs) = agent_auth_methods b rest in (last, r ∷ rs)

-- Every answer is the one that was found, and the socket is not opened again.
abbrev Settled : Bool → ℕ → Agent × List Bool → Type 0
Settled found opened (a, rs) = (a.opened ≡ opened) × All (λ r. r ≡ found) rs

found-Settled :
    (found : Bool) (opened : ℕ) (calls : List (Text × Bool))
    → Settled found opened
        (agent_auth_methods (record { found = some found; opened = opened }) calls)
unfolding agent_auth_methods agent_auth_method
found-Settled found opened [] = (refl, tt)
found-Settled found opened ((socket, listens) ∷ rest) =
    let ih = found-Settled found opened rest in (ih.0, (refl, ih.1))

first_call :
    (socket : Text) (listens : Bool)
    → agent_auth_method new_agent socket listens ≡ (
      record {
        found = some (is_present socket && listens);
        opened = if is_present socket then 1 else 0;
      },
      is_present socket && listens,
    )
unfolding agent_auth_method
first_call socket listens = elim (Bool-cases (is_present socket)) [
  | inl e ↦ rw e refl
  | inr e ↦ rw e refl
]

-- However often the agent is asked for, its socket is opened once, or never if the variable is
-- empty at the first call, and every answer is what the first call found, whatever the variable
-- and the socket are later.
pub agent_auth_methods_lem :
    (socket : Text) (listens : Bool) (later : List (Text × Bool))
    → let (a, answers) = agent_auth_methods new_agent ((socket, listens) ∷ later) in
      (a.opened ≡ (if is_present socket then 1 else 0))
      × All (λ r. r ≡ (is_present socket && listens)) answers
unfolding agent_auth_methods
agent_auth_methods_lem socket listens later =
    let rest =
      found-Settled (is_present socket && listens) (if is_present socket then 1 else 0) later in
    rw (first_call socket listens) (rest.0, (refl, rest.1))
