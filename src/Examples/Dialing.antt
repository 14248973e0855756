-- ===== src/Examples/Dialing.antt =====
-- Dialing at one host, without and with a proxy command, and a client that connects.
use kimi_ssh.Base.{
  ◌*◌, Bool, true, false, not, ◌&&◌, ◌==◌, ◌≡◌, is_some, List, [], ◌∷◌, any, if◌then◌else◌, All,
  arith,
}
use mathlib.Core.List.{map}
use kimi_ssh.Base.Text.{Text, codes, same_text}
use kimi_ssh.Config.Settings.{SshConfig, initial_config}
use kimi_ssh.Connection.{new_manager, second, is_active, config_for}
use kimi_ssh.Session.{new_session, manager_connect}
use kimi_ssh.Login.HostKey.{strict}
use kimi_ssh.Login.Auth.{Machine, password, is_present}
use kimi_ssh.Login.Auth.Prompt.{Question, for_password, questions, new_prompt, ask_all}
use kimi_ssh.Login.Auth.Prompt.Once.{IsOnce, first_lookup, ask_all-IsOnce}
use kimi_ssh.Login.Target.{resolve_target}
use kimi_ssh.Login.Proxy.{Values, expand, started}
use kimi_ssh.Login.Proxy.Expand.{Piece, byte, verb_h, verb_p, mean, IsPlain, expand-spell}
use kimi_ssh.Login.Dial.{completed, silent, Network, Caller, dial_attempts, dial_loop, dial_with}
use kimi_ssh.Login.Dial.Attempts.{opens, until, running, is_proxied, dial_loop_lem}
use kimi_ssh.Login.Dial.Connect.{connect_error, manager_connect-dial_with}
use kimi_ssh.Login.Agent.{new_agent, agent_auth_methods, agent_auth_methods_lem}
use kimi_ssh.Refinement.{
  Call, configure, connect, hang_up, execute_on, list_active, perform_all, new_spec, Trace,
}
use kimi_ssh.Refinement.Active.{
  SessionCall, learn, connect_to, which, execute_in, leave, list_all, perform_all_in,
  new_active_spec, ActiveTrace,
}
use kimi_ssh.Refinement.Active.Follows.{perform_all_in-ActiveTrace}
use kimi_ssh.Refinement.Simulation.{perform_all-Trace}
use kimi_ssh.Examples.Data.{web, db, two_hosts, hanging}
use kimi_ssh.Examples.Hosts.{two_hosts-IsWellFormed}
use kimi_ssh.Examples.Trusting.{machine}

-- The second attempt succeeds.
abbrev network : Network
network = record {
  direct = λ k address methods. k == 2;
  spawn = λ k command. started;
  handshake = λ k methods. if k == 2 then completed else silent;
}

abbrev proxied : SshConfig
proxied = record (initial_config web) { proxy_command = codes "nc %h %p" }

dial_loop_lem_example :
    let dst = resolve_target (codes "al") proxied in
    let d = dial_loop network proxied dst (password ∷ []) dial_attempts 1 in
    (d.client ≡ any (opens network proxied dst (password ∷ [])) (1 ∷ 2 ∷ 3 ∷ []))
    × (d.pauses
        ≡ map
            (λ k. k * k * second)
            (until (opens network proxied dst (password ∷ [])) (1 ∷ 2 ∷ [])))
    × (running d.proxies ≡ (if d.client && is_proxied proxied then 1 else 0))
dial_loop_lem_example =
    dial_loop_lem network proxied (resolve_target (codes "al") proxied) (password ∷ [])

abbrev caller : Caller
caller = record { machine = machine; callback = strict; login = codes "al"; network = network }

manager_connect-dial_with_example :
    let r = manager_connect (dial_with caller) two_hosts db in
    (r.1 ≡ connect_error caller (is_active two_hosts db) (config_for two_hosts db))
    × ((j : Text)
        → is_active r.0 j
          ≡ (if same_text db j && not (is_some r.1) then true else is_active two_hosts j))
manager_connect-dial_with_example =
    manager_connect-dial_with caller two_hosts db two_hosts-IsWellFormed

abbrev values : Values
values = record { hostname = codes "web.example"; port = codes "22"; user = codes "al" }

abbrev pieces : List Piece
pieces = byte b'n' ∷ byte b' ' ∷ verb_h ∷ byte b':' ∷ verb_p ∷ []

pieces-IsPlain : All IsPlain pieces
pieces-IsPlain =
    ((λ e. omega (arith, e)), ((λ e. omega (arith, e)), (tt, ((λ e. omega (arith, e)), (tt, tt)))))

expand-spell_example : expand values (codes "n %h:%p") ≡ mean values pieces
expand-spell_example = expand-spell values pieces pieces-IsPlain

abbrev login : List (Machine × Question)
login = (machine, questions 0) ∷ (machine, for_password) ∷ (machine, questions 2) ∷ []

ask_all-IsOnce_example :
    IsOnce (first_lookup (codes "al") web login) login (ask_all (codes "al") web new_prompt login)
ask_all-IsOnce_example = ask_all-IsOnce (codes "al") web login

-- A host is connected through the second attempt, and its connection is lost by a command that hangs.
abbrev calls : List Call
calls =
    configure ((web, initial_config web) ∷ [])
    ∷ connect caller web
    ∷ list_active
    ∷ execute_on (record { timeout_raw = []; max_output_raw = [] }) hanging (codes "sleep 9") web
    ∷ hang_up web
    ∷ []

perform_all-Trace_example : Trace new_spec calls (perform_all new_manager calls).1
perform_all-Trace_example = perform_all-Trace calls

abbrev listening : List (Text × Bool)
listening = (codes "/tmp/agent", false) ∷ []

agent_auth_methods_lem_example :
    let (a, answers) = agent_auth_methods new_agent ((codes "/tmp/agent", true) ∷ listening) in
    (a.opened ≡ (if is_present (codes "/tmp/agent") then 1 else 0))
    × All (λ r. r ≡ (is_present (codes "/tmp/agent") && true)) answers
agent_auth_methods_lem_example = agent_auth_methods_lem (codes "/tmp/agent") true listening

-- The host is connected, becomes the active one, and is left.
abbrev session_calls : List SessionCall
session_calls =
    learn ((web, initial_config web) ∷ [])
    ∷ connect_to caller web
    ∷ which
    ∷ execute_in (record { timeout_raw = []; max_output_raw = [] }) hanging (codes "sleep 9") []
    ∷ which
    ∷ list_all
    ∷ leave web
    ∷ []

perform_all_in-ActiveTrace_example :
    ActiveTrace new_active_spec session_calls (perform_all_in new_session session_calls).1
perform_all_in-ActiveTrace_example = perform_all_in-ActiveTrace session_calls
