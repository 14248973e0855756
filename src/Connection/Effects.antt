-- ===== src/Connection/Effects.antt =====
-- What the operations of the connection manager do to each host.
use kimi_ssh.Base.{
  ℕ, ◌<◌, true, false, ◌||◌, ◌≡◌, ◌≢◌, refl, sym, ap, ◌∙◌, inl, inr, Option, none, some, List, [],
  ◌∷◌, ◌++◌, arith, is_some, if◌then◌else◌, length, modify, get_elem?-modify_ne,
  get_elem?-append_old, get_elem?-append_new, Bool-cases, Option-cases,
}
use kimi_ssh.Base.Dict.{Dict, lookup, insert, erase, NodupKeys}
use kimi_ssh.Base.Sort.{IsSorted, sort_texts, sort_texts-IsSorted, insert_sorted}
use kimi_ssh.Base.Text.{Text, same_text, same_text_iff}
use kimi_ssh.Config.Settings.{SshConfig}
use kimi_ssh.Config.Resolve.{has_key}
use kimi_ssh.Connection.{
  Connection, close, start_keepalive, Manager, is_active_at, is_active, connect_publish, fresh,
  close_at, disconnect, forget, active_hosts, active_connections,
}
use kimi_ssh.Connection.WellFormed.{
  IsWellFormed, published, lookup-published, lookup-unlinked, opened_lem,
}

-- The map without one host, and its connection closed.
abbrev dropped : Manager → Text → ℕ → Manager
dropped m host id = record m {
  connections = erase host m.connections;
  heap = modify close id m.heap;
}

is_active_at_lem :
    (m : Manager) (j : Text) → is_active m j ≡ is_active_at m.heap (lookup j m.connections)
unfolding is_active
is_active_at_lem m j = refl

pub connect_publish_up :
    (m : Manager) (host : Text) (config : SshConfig)
    → is_active m host ≡ true
    → connect_publish m host config ≡ m
unfolding connect_publish
connect_publish_up m host config e = rw e

pub connect_publish_down :
    (m : Manager) (host : Text) (config : SshConfig)
    → is_active m host ≡ false
    → connect_publish m host config ≡ record m {
      heap = m.heap ++ start_keepalive (fresh config) ∷ [];
      connections = insert host (length m.heap) m.connections;
    }
unfolding connect_publish
connect_publish_down m host config e = rw e

pub disconnect_unknown :
    (m : Manager) (host : Text) → lookup host m.connections ≡ none → disconnect m host ≡ (m, false)
unfolding disconnect
disconnect_unknown m host e = rw e

pub disconnect_known :
    (m : Manager) (host : Text) {id : ℕ}
    → lookup host m.connections ≡ some id
    → disconnect m host
      ≡ (record m { connections = erase host m.connections; heap = modify close id m.heap }, true)
unfolding disconnect close_at
disconnect_known m host e = rw e

pub unknown_inactive :
    (m : Manager) (host : Text) → lookup host m.connections ≡ none → is_active m host ≡ false
unfolding is_active
unknown_inactive m host e = rw e

module _ (m : Manager) (host : Text) (w : IsWellFormed m) where
  is_active-published :
      (config : SshConfig) (j : Text)
      → is_active (published m host config) j ≡ (if same_text host j then true else is_active m j)
  is_active-published config j = elim (Bool-cases (same_text host j)) [
    | inl e ↦
        rw
          (
            is_active_at_lem (published m host config) j,
            lookup-published m host config j,
            e,
            is_active_at,
            get_elem?-append_new m.heap (start_keepalive (fresh config)),
          )
          (opened_lem config).0
    | inr e ↦
        rw
          (
            is_active_at_lem (published m host config) j,
            lookup-published m host config j,
            e,
            is_active_at_lem m j,
          )
          (old (lookup j m.connections) (w.bounded j))
  ]
    where
      old :
          (o : Option ℕ)
          → ((id : ℕ) → o ≡ some id → id < length m.heap)
          → is_active_at (m.heap ++ start_keepalive (fresh config) ∷ []) o ≡ is_active_at m.heap o
      old none h = refl
      old (some id) h = rw (
        get_elem?-append_old m.heap (start_keepalive (fresh config) ∷ []) id (h id refl),
        is_active_at,
      )

  -- After `Connect` has published its client the host is connected, also if another call had
  -- connected it meanwhile, and every other host is as before, in a well-formed manager.
  pub is_active-connect_publish :
      (config : SshConfig) (j : Text)
      → is_active (connect_publish m host config) j
        ≡ (if same_text host j then true else is_active m j)
  is_active-connect_publish config j = elim (Bool-cases (is_active m host)) [
    | inl e ↦ rw (connect_publish_up m host config e) (ground (arith, same_text_iff host j))
    | inr e ↦ rw (connect_publish_down m host config e) (is_active-published config j)
  ]

  is_active-dropped :
      (id : ℕ)
      → lookup host m.connections ≡ some id
      → (j : Text)
      → is_active (dropped m host id) j ≡ (if same_text host j then false else is_active m j)
  is_active-dropped id here j = elim (Bool-cases (same_text host j)) [
    | inl e ↦ rw (is_active_at_lem (dropped m host id) j, lookup-unlinked m host j, e)
    | inr e ↦
        rw
          (
            is_active_at_lem (dropped m host id) j,
            lookup-unlinked m host j,
            e,
            is_active_at_lem m j,
          )
          (other e (lookup j m.connections) refl)
  ]
    where
      other :
          same_text host j ≡ false
          → (o : Option ℕ) → lookup j m.connections ≡ o
          → is_active_at (modify close id m.heap) o ≡ is_active_at m.heap o
      other e none h = refl
      other e (some k) h = rw (
        get_elem?-modify_ne close id k m.heap
            (λ q. ground (arith, w.owned host j id here, same_text_iff host j)),
        is_active_at,
      )

  -- After `Disconnect` the host is not connected, and every other host is as before, in a
  -- well-formed manager. The error is reported exactly when the host had no record.
  pub disconnect_lem :
      (j : Text)
      → (is_active (disconnect m host).0 j ≡ (if same_text host j then false else is_active m j))
        × ((disconnect m host).1 ≡ is_some (lookup host m.connections))
  disconnect_lem j = elim (Option-cases (lookup host m.connections)) [
    | inl e ↦
        rw (disconnect_unknown m host e, e)
          (ground (arith, same_text_iff host j, unknown_inactive m host e), refl)
    | inr (id, e) ↦ rw (disconnect_known m host e, e) (is_active-dropped id e j, refl)
  ]

has_key-insert_sorted :
    (x : Text) (ys : List Text) (j : Text)
    → has_key (insert_sorted x ys) j ≡ (same_text x j || has_key ys j)
unfolding insert_sorted
has_key-insert_sorted x [] j = refl
has_key-insert_sorted x (y ∷ ys) j = ground (arith, has_key-insert_sorted x ys j)

pub has_key-sort_texts : (xs : List Text) (j : Text) → has_key (sort_texts xs) j ≡ has_key xs j
unfolding sort_texts
has_key-sort_texts [] j = refl
has_key-sort_texts (x ∷ xs) j =
    ground (arith, has_key-insert_sorted x (sort_texts xs) j, has_key-sort_texts xs j)

has_key-active_hosts :
    (heap : List Connection) (conns : Dict ℕ) (j : Text)
    → NodupKeys conns
    → has_key (active_hosts heap conns) j ≡ is_active_at heap (lookup j conns)
unfolding active_hosts lookup
has_key-active_hosts heap [] j h = refl
has_key-active_hosts heap ((host, id) ∷ rest) j h =
    let ih : has_key (active_hosts heap rest) j ≡ is_active_at heap (lookup j rest) =
      has_key-active_hosts heap rest j h.1 in
    elim (Bool-cases (same_text host j)) [
      | inl e ↦
          let absent : lookup j rest ≡ none =
            ap (λ k. lookup k rest) (sym ((same_text_iff host j).0 e)) ∙ h.0 in
          rw e (ground (arith, ih, ap (is_active_at heap) absent, e))
      | inr e ↦ rw e (ground (arith, ih, e))
    ]

-- The list of active connections is sorted, and holds a host exactly when it is connected, in a
-- well-formed manager.
pub active_connections_lem :
    (m : Manager)
    → IsWellFormed m
    → IsSorted (active_connections m)
      × ((j : Text) → has_key (active_connections m) j ≡ is_active m j)
unfolding active_connections
active_connections_lem m w = (
  sort_texts-IsSorted (active_hosts m.heap m.connections),
  λ j.
      has_key-sort_texts (active_hosts m.heap m.connections) j
      ∙ has_key-active_hosts m.heap m.connections j w.keyed
      ∙ sym (is_active_at_lem m j),
)

-- A connection that was replaced meanwhile is not forgotten: the map changes only if it still holds
-- the same pointer.
pub forget_replaced :
    (m : Manager) (host : Text) (id current : ℕ)
    → lookup host m.connections ≡ some current
    → current ≢ id
    → forget m host id ≡ m
unfolding forget
forget_replaced m host id current e n = ground arith
