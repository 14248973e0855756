-- ===== src/Connection/Calls/Later.antt =====
-- What stays true of a connection while other calls go on.
use kimi_ssh.Base.{
  ℕ, ◌≤◌, ◌<◌, true, ◌≡◌, refl, inl, inr, some, List, [], ◌∷◌, arith, length, length-append,
  length-modify, get_elem?, get_elem?-append_cases, get_elem?-modify_old, All, Bool-cases,
}
use kimi_ssh.Base.Text.{Text}
use kimi_ssh.Config.Settings.{SshConfig}
use kimi_ssh.Connection.{
  Connection, is_untold, Manager, connect_publish, write_at, is_active, forget, fresh,
  start_keepalive,
}
use kimi_ssh.Connection.WellFormed.{published}
use kimi_ssh.Connection.Writes.{IsEnding}

-- A connection and what it is later: nothing of it has come back.
pub record Ended (y c : Connection) : Type 0 where
  pub open_before : c.client_open ≡ true → y.client_open ≡ true
  pub active_before : c.active ≡ true → y.active ≡ true
  pub untold_before : is_untold c.keepalive ≡ true → is_untold y.keepalive ≡ true

same-Ended : (c : Connection) → Ended c c
same-Ended c = record { open_before = λ o. o; active_before = λ o. o; untold_before = λ o. o }

-- A heap that only grows, and in which nothing comes back.
pub record IsLater (m n : Manager) : Type 0 where
  pub grows : length m.heap ≤ length n.heap
  pub stays :
      (id : ℕ)
      → id < length m.heap
      → (c : Connection) → get_elem? n.heap id ≡ some c
      → (y : Connection) × (get_elem? m.heap id ≡ some y) × Ended y c

pub same-IsLater : (m n : Manager) → n.heap ≡ m.heap → IsLater m n
same-IsLater m n e = record {
  grows = rw e (omega arith);
  stays = λ id b c g. (c, rw e at g, same-Ended c);
}

published-IsLater :
    (m : Manager) (host : Text) (config : SshConfig) → IsLater m (published m host config)
published-IsLater m host config = record {
  grows = omega (arith, length-append m.heap (start_keepalive (fresh config) ∷ []));
  stays = λ id b c g. elim (get_elem?-append_cases m.heap _ c id g) [
    | inl old ↦ (c, old, same-Ended c)
    | inr (new, _) ↦ absurd (omega arith)
  ];
}

pub connect_publish-IsLater :
    (m : Manager) (host : Text) (config : SshConfig) → IsLater m (connect_publish m host config)
unfolding connect_publish
connect_publish-IsLater m host config = elim (Bool-cases (is_active m host)) [
  | inl e ↦ rw (e, connect_publish) (same-IsLater m m refl)
  | inr e ↦ rw (e, connect_publish) (published-IsLater m host config)
]

pub write_at-IsLater :
    (f : Connection → Connection) (m : Manager) (id : ℕ) → IsEnding f → IsLater m (write_at f m id)
unfolding write_at
write_at-IsLater f m id ending = record {
  grows = omega (arith, length-modify f id m.heap);
  stays = λ k b c g.
      let (y, old, q) = get_elem?-modify_old f id k m.heap c g in
      (
        y,
        old,
        elim q [
          | inl (same, r) ↦ record {
            open_before = λ o. ending.open_before y (rw r o);
            active_before = λ o. ending.active_before y (rw r o);
            untold_before = λ o. ending.untold_before y (rw r o);
          }
          | inr r ↦ rw (← r) (same-Ended y)
        ],
      );
}

pub forget-IsLater : (m : Manager) (host : Text) (id : ℕ) → IsLater m (forget m host id)
forget-IsLater m host id = same-IsLater m (forget m host id) (unfold forget in ground arith)

-- A pointer into the heap whose connection, as it is now, has the property.
abbrev pub Holds : (Connection → Type 0) → Manager → ℕ → Type 0
Holds P m id = (id < length m.heap) × ((c : Connection) → get_elem? m.heap id ≡ some c → P c)

-- A property that no later write takes away.
abbrev pub Persists : (Connection → Type 0) → Type 0
Persists P = (y c : Connection) → Ended y c → P y → P c

pub Holds-later :
    (P : Connection → Type 0) (m n : Manager) (id : ℕ)
    → Persists P
    → IsLater m n
    → Holds P m id
    → Holds P n id
Holds-later P m n id keeps l h = (
  omega (arith, h.0, l.grows),
  λ c g. let (y, old, e) = l.stays id h.0 c g in keeps y c e (h.1 y old),
)

pub Holds-All {ℓ} :
    {A : Type ℓ} (key : A → ℕ) (P : Connection → Type 0) (m n : Manager) (xs : List A)
    → Persists P
    → IsLater m n
    → All (λ x. Holds P m (key x)) xs
    → All (λ x. Holds P n (key x)) xs
Holds-All key P m n [] keeps l h = tt
Holds-All key P m n (x ∷ xs) keeps l h =
    (Holds-later P m n (key x) keeps l h.0, Holds-All key P m n xs keeps l h.1)
