-- ===== src/Connection/Calls/Held.antt =====
-- What the calls that run at the same time know of the connections they hold, and what each write of
-- `Connection.close` does to it.
use kimi_ssh.Base.{
  ℕ, ◌<◌, true, false, ◌≡◌, refl, inl, inr, Option, none, some, List, ◌∷◌, ◌++◌, arith, length,
  get_elem?, get_elem?-modify_cases, length-modify, All,
}
use kimi_ssh.Base.Remove.{has_id}
use kimi_ssh.Base.Text.{Text}
use kimi_ssh.Connection.{Connection, Manager, is_untold, tell, shut, deactivate, write_at}
use kimi_ssh.Connection.WellFormed.{IsKept}
use kimi_ssh.Connection.Closing.{found-IsKept, stop_keepalive_told}
use kimi_ssh.Connection.Writes.{write_at-IsKept, tell-IsEnding, shut-IsEnding, deactivate-IsEnding}
use kimi_ssh.Connection.Calls.Later.{
  IsLater, write_at-IsLater, Holds, Persists, Holds-later, Holds-All,
}
use kimi_ssh.Connection.Calls.{to_forget, System}

-- What is known of a connection at each point of a call.
abbrev pub Exists : Connection → Type 0
Exists c = Unit

abbrev pub IsTold : Connection → Type 0
IsTold c = is_untold c.keepalive ≡ false

abbrev pub IsDown : Connection → Type 0
IsDown c = c.client_open ≡ false

abbrev pub IsDone : Connection → Type 0
IsDone c = (c.client_open ≡ false) × (c.active ≡ false)

-- A pointer whose connection is closed for good.
abbrev pub IsShut : Manager → Text × ℕ → Type 0
IsShut m r = Holds IsDone m r.1

-- What the calls of the system know of their connections, in the heap of `m`.
pub record IsHeld (s : System) (m : Manager) : Type 0 where
  pub gone : All (Holds Exists m) s.unlinked
  pub runs : All (λ r. Holds Exists m r.1) s.running
  pub tells : All (λ c. Holds IsTold m c.1) s.told
  pub shuts : All (λ c. Holds IsDown m c.1) s.shut_down
  pub over : All (IsShut m) s.closed

pub IsTold-Persists : Persists IsTold
IsTold-Persists y c e h = ground (arith, e.untold_before, h)

pub IsDown-Persists : Persists IsDown
IsDown-Persists y c e h = ground (arith, e.open_before, h)

pub IsDone-Persists : Persists IsDone
IsDone-Persists y c e h = (ground (arith, e.open_before, h.0), ground (arith, e.active_before, h.1))

pub IsHeld-later : (s : System) (m n : Manager) → IsLater m n → IsHeld s m → IsHeld s n
IsHeld-later s m n l h = record {
  gone = Holds-All (λ id. id) Exists m n s.unlinked (λ y c e u. tt) l h.gone;
  runs = Holds-All (λ r. r.1) Exists m n s.running (λ y c e u. tt) l h.runs;
  tells = Holds-All (λ r. r.1) IsTold m n s.told IsTold-Persists l h.tells;
  shuts = Holds-All (λ r. r.1) IsDown m n s.shut_down IsDown-Persists l h.shuts;
  over = Holds-All (λ r. r.1) IsDone m n s.closed IsDone-Persists l h.over;
}

-- A connection that is told to stop, wherever it comes from.
pub tell-IsTold : (m : Manager) (id : ℕ) → id < length m.heap → Holds IsTold (write_at tell m id) id
unfolding write_at
tell-IsTold m id b = (
  omega (arith, b, length-modify tell id m.heap),
  λ c g. elim (get_elem?-modify_cases tell id id m.heap c g) [
    | inl (_, y, f) ↦ rw (← f) (stop_keepalive_told y.keepalive)
    | inr (ne, old) ↦ absurd (ne refl)
  ],
)

pub shut-IsDown : (m : Manager) (id : ℕ) → id < length m.heap → Holds IsDown (write_at shut m id) id
unfolding write_at
shut-IsDown m id b = (
  omega (arith, b, length-modify shut id m.heap),
  λ c g. elim (get_elem?-modify_cases shut id id m.heap c g) [
    | inl (_, y, f) ↦ rw (← f) refl
    | inr (ne, old) ↦ absurd (ne refl)
  ],
)

pub inactive_now :
    (m : Manager) (id : ℕ) (c : Connection)
    → get_elem? (write_at deactivate m id).heap id ≡ some c
    → c.active ≡ false
unfolding write_at
inactive_now m id c g = elim (get_elem?-modify_cases deactivate id id m.heap c g) [
  | inl (_, y, f) ↦ rw (← f) refl
  | inr (ne, old) ↦ absurd (ne refl)
]

pub deactivate-IsDone :
    (m : Manager) (id : ℕ) → Holds IsDown m id → Holds IsDone (write_at deactivate m id) id
deactivate-IsDone m id h =
    let later =
      Holds-later IsDown m (write_at deactivate m id) id IsDown-Persists
        (write_at-IsLater deactivate m id deactivate-IsEnding) h in
    (later.0, λ c g. (later.1 c g, inactive_now m id c g))

-- The three writes keep the invariant of the manager, each in its turn.
pub tell-IsKept :
    (ks : List ℕ) (m : Manager) (id : ℕ)
    → IsKept ks m
    → has_id ks id ≡ true
    → IsKept ks (write_at tell m id)
tell-IsKept ks m id w here =
    write_at-IsKept tell ks m id tell-IsEnding w here
      (λ c g. (w.marked id c g, λ o. stop_keepalive_told c.keepalive))

pub shut-IsKept :
    (ks : List ℕ) (m : Manager) (id : ℕ)
    → IsKept ks m
    → has_id ks id ≡ true
    → Holds IsTold m id
    → IsKept ks (write_at shut m id)
shut-IsKept ks m id w here h =
    write_at-IsKept shut ks m id shut-IsEnding w here
      (λ c g. (λ o. ground (arith, o), λ o. h.1 c g))

pub deactivate-IsKept :
    (ks : List ℕ) (m : Manager) (id : ℕ)
    → IsKept (id ∷ ks) m
    → Holds IsDown m id
    → IsKept ks (write_at deactivate m id)
deactivate-IsKept ks m id w h =
    found-IsKept ks (write_at deactivate m id) id
      (write_at-IsKept deactivate (id ∷ ks) m id deactivate-IsEnding w (ground arith)
        (λ c g. (λ o. absurd (ground (arith, h.1 c g, o)), λ o. w.told id c g o)))
      (deactivate-IsDone m id h).1

pub to_forget-IsShut :
    (m : Manager) (o : Option Text) (id : ℕ) (cs : List (Text × ℕ))
    → Holds IsDone m id
    → All (IsShut m) cs
    → All (IsShut m) (to_forget (o, id) ++ cs)
to_forget-IsShut m none id cs h hs = hs
to_forget-IsShut m (some host) id cs h hs = (h, hs)
