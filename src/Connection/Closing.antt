-- ===== src/Connection/Closing.antt =====
-- The invariant of the connection manager when a connection is closed, and when it is forgotten.
use kimi_ssh.Base.{
  ℕ, false, ◌≡◌, refl, inl, inr, some, List, ◌∷◌, arith, get_elem?, length-modify,
  get_elem?-modify_cases, ◌==◌, ==_iff, Bool-cases, Option-cases,
}
use kimi_ssh.Base.Dict.{lookup}
use kimi_ssh.Base.Text.{Text}
use kimi_ssh.Connection.{
  Connection, off, running, stopped, is_untold, stop_keepalive, Keepalive, close, Manager, close_at,
  forget,
}
use kimi_ssh.Connection.WellFormed.{IsKept, closed_lem, unlinked, unlinked-IsKept}

pub stop_keepalive_told : (k : Keepalive) → is_untold (stop_keepalive k) ≡ false
stop_keepalive_told off = refl
stop_keepalive_told (running interval) = refl
stop_keepalive_told stopped = refl

closed_told : (c : Connection) → is_untold (close c).keepalive ≡ false
unfolding close
closed_told c = stop_keepalive_told c.keepalive

abbrev pub IsClosed : Manager → ℕ → Type 0
IsClosed m id =
    (c : Connection) → get_elem? m.heap id ≡ some c → (c.client_open ≡ false) × (c.active ≡ false)

-- A connection that is closed for good is not lost.
pub found-IsKept :
    (lost : List ℕ) (m : Manager) (id : ℕ) → IsKept (id ∷ lost) m → IsClosed m id → IsKept lost m
found-IsKept lost m id w closed = record {
  keyed = w.keyed;
  bounded = w.bounded;
  owned = w.owned;
  recorded = λ k c e o l. elim (Bool-cases (id == k)) [
    | inl same ↦ ground (arith, closed c (rw ((==_iff id k).0 same) e))
    | inr other ↦ w.recorded k c e o (ground arith)
  ];
  in_step = λ k c e l. elim (Bool-cases (id == k)) [
    | inl same ↦ ground (arith, closed c (rw ((==_iff id k).0 same) e))
    | inr other ↦ w.in_step k c e (ground arith)
  ];
  marked = w.marked;
  told = w.told;
}

pub close_at-IsClosed : (m : Manager) (id : ℕ) → IsClosed (close_at m id) id
unfolding close_at
close_at-IsClosed m id c e = elim (get_elem?-modify_cases close id id m.heap c e) [
  | inl (_, y, f) ↦ ground (arith, closed_lem y)
  | inr (ne, old) ↦ absurd (ne refl)
]

-- Closing a connection, whether or not it is recorded.
pub close_at-IsKept :
    (lost : List ℕ) (m : Manager) (id : ℕ) → IsKept (id ∷ lost) m → IsKept lost (close_at m id)
close_at-IsKept lost m id w = found-IsKept lost (close_at m id) id kept (close_at-IsClosed m id)
  where
    kept : IsKept (id ∷ lost) (close_at m id)
    kept =
        unfold close_at in
        record {
          keyed = w.keyed;
          bounded = λ j k e. omega (arith, length-modify close id m.heap, w.bounded j k e);
          owned = w.owned;
          recorded = λ k c e o l. elim (get_elem?-modify_cases close id k m.heap c e) [
            | inl (_, y, f) ↦ ground (arith, closed_lem y)
            | inr (ne, old) ↦ w.recorded k c old o l
          ];
          in_step = λ k c e l. elim (get_elem?-modify_cases close id k m.heap c e) [
            | inl (_, y, f) ↦ ground (arith, closed_lem y)
            | inr (ne, old) ↦ w.in_step k c old l
          ];
          marked = λ k c e o. elim (get_elem?-modify_cases close id k m.heap c e) [
            | inl (_, y, f) ↦ ground (arith, closed_lem y)
            | inr (ne, old) ↦ w.marked k c old o
          ];
          told = λ k c e o. elim (get_elem?-modify_cases close id k m.heap c e) [
            | inl (_, y, f) ↦ rw (← f) (closed_told y)
            | inr (ne, old) ↦ w.told k c old o
          ];
        }

pub forget-IsKept :
    (lost : List ℕ) (m : Manager) (host : Text) (id : ℕ)
    → IsKept lost m
    → IsClosed m id
    → IsKept lost (forget m host id)
forget-IsKept lost m host id w closed = elim (Option-cases (lookup host m.connections)) [
  | inl e ↦ unfold forget in rw (e, forget) w
  | inr (current, e) ↦ elim (Bool-cases (current == id)) [
    | inl same ↦
        let p : current ≡ id = (==_iff current id).0 same in
        unfold forget in
        rw (e, forget, same)
          (found-IsKept lost (unlinked m host) id (unlinked-IsKept lost m w host id (rw (← p) e))
            closed)
    | inr other ↦ unfold forget in rw (e, forget, other) w
  ]
]
