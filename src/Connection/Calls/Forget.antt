-- ===== src/Connection/Calls/Forget.antt =====
-- What `forget` does to the hosts when it comes after other calls.
use kimi_ssh.Base.{
  ℕ, false, ◌≡◌, refl, sym, ◌∙◌, inl, inr, some, List, get_elem?, get_elem?-All, get_elem?_in_range,
  ◌==◌, ==_iff, Bool-cases, Option-cases,
}
use kimi_ssh.Base.Dict.{lookup}
use kimi_ssh.Base.Text.{Text, same_text, same_text_iff}
use kimi_ssh.Connection.{Manager, is_active, forget}
use kimi_ssh.Connection.WellFormed.{IsKept, is_active_lem, unlinked, lookup-unlinked}
use kimi_ssh.Connection.Closing.{IsClosed}
use kimi_ssh.Connection.Calls.{System, Reach}
use kimi_ssh.Connection.Calls.Held.{IsShut}
use kimi_ssh.Connection.Calls.Lost.{lost}
use kimi_ssh.Connection.Calls.Safety.{Reach-IsSafe}

-- A host whose recorded connection is closed is not connected.
closed-is_active :
    (lost : List ℕ) (m : Manager) (host : Text) (id : ℕ)
    → IsKept lost m
    → lookup host m.connections ≡ some id
    → IsClosed m id
    → is_active m host ≡ false
closed-is_active lost m host id w here closed =
    let (c, e) = get_elem?_in_range m.heap id (w.bounded host id here) in
    is_active_lem m host here e ∙ (closed c e).1

unlinked-is_active :
    (m : Manager) (host : Text) (j : Text)
    → is_active m host ≡ false
    → is_active (unlinked m host) j ≡ is_active m j
unfolding is_active
unlinked-is_active m host j e = elim (Bool-cases (same_text host j)) [
  | inl same ↦ rw (lookup-unlinked m host j, same) (sym (rw ((same_text_iff host j).0 same) at e))
  | inr other ↦ rw (lookup-unlinked m host j, other) refl
]

forget-is_active :
    (lost : List ℕ) (m : Manager) (host : Text) (id : ℕ) (j : Text)
    → IsKept lost m
    → IsClosed m id
    → is_active (forget m host id) j ≡ is_active m j
forget-is_active lost m host id j w closed = elim (Option-cases (lookup host m.connections)) [
  | inl e ↦ unfold forget in rw (e, forget) refl
  | inr (current, e) ↦ elim (Bool-cases (current == id)) [
    | inl same ↦
        let p : current ≡ id = (==_iff current id).0 same in
        let down = closed-is_active lost m host id w (rw (← p) e) closed in
        unfold forget in rw (e, forget, same) (unlinked-is_active m host j down)
    | inr other ↦ unfold forget in rw (e, forget, other) refl
  ]
]

-- When a stuck command has closed its connection and comes to forget it, no host's being connected
-- changes by that, whatever other calls did in between: a connection that has replaced it stays.
pub forget_closed-is_active :
    {s : System}
    → Reach s
    → (i : ℕ) (host : Text) (id : ℕ) → get_elem? s.closed i ≡ some (host, id)
    → (j : Text) → is_active (forget s.manager host id) j ≡ is_active s.manager j
forget_closed-is_active {s} r i host id e j =
    let w = Reach-IsSafe r in
    let shut : IsShut s.manager (host, id) =
      get_elem?-All (IsShut s.manager) s.closed i w.held.over e in
    forget-is_active (lost s) s.manager host id j w.kept shut.1
