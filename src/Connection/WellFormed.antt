-- ===== src/Connection/WellFormed.antt =====
-- The invariant of the connection manager, along its steps.
use kimi_ssh.Base.{
  ℕ, ◌<◌, true, false, ◌≡◌, refl, inl, inr, none, some, List, [], ◌∷◌, ◌++◌, arith, if◌then◌else◌,
  length, length-append, get_elem?, get_elem?-append_cases, ==_iff, Bool-cases,
}
use kimi_ssh.Base.Dict.{
  Dict, lookup, insert, erase, lookup-insert, lookup-erase, NodupKeys, insert-NodupKeys,
  erase-NodupKeys,
}
use kimi_ssh.Base.Remove.{has_id}
use kimi_ssh.Base.Text.{Text, same_text, same_text_iff, same_text_self}
use kimi_ssh.Config.Settings.{SshConfig}
use kimi_ssh.Connection.{
  Connection, is_untold, close, start_keepalive, Manager, new_manager, set_configs, is_active,
  connect_publish, fresh,
}

-- A well-formed manager, but for the connections `lost`, which are being closed, or were taken out of
-- the map and are to be closed.
pub record IsKept (lost : List ℕ) (m : Manager) : Type 0 where
  pub keyed : NodupKeys m.connections
  -- The map holds pointers of the heap only.
  pub bounded : (host : Text) (id : ℕ) → lookup host m.connections ≡ some id → id < length m.heap
  -- No two hosts share a connection.
  pub owned :
      (host other : Text) (id : ℕ)
      → lookup host m.connections ≡ some id
      → lookup other m.connections ≡ some id
      → host ≡ other
  -- A client that is open is recorded under a host: none is lost while it is open.
  pub recorded :
      (id : ℕ) (c : Connection)
      → get_elem? m.heap id ≡ some c
      → c.client_open ≡ true
      → has_id lost id ≡ false
      → (host : Text) × (lookup host m.connections ≡ some id)
  -- A connection is marked active exactly until its client is closed by this program.
  pub in_step :
      (id : ℕ) (c : Connection)
      → get_elem? m.heap id ≡ some c
      → has_id lost id ≡ false
      → c.active ≡ c.client_open
  -- A client that is not closed is marked active, also while it is being closed.
  pub marked :
      (id : ℕ) (c : Connection)
      → get_elem? m.heap id ≡ some c
      → c.client_open ≡ true
      → c.active ≡ true
  -- The goroutine of a client that is closed has been told to stop.
  pub told :
      (id : ℕ) (c : Connection)
      → get_elem? m.heap id ≡ some c
      → c.client_open ≡ false
      → is_untold c.keepalive ≡ false

abbrev pub IsWellFormed : Manager → Type 0
IsWellFormed = IsKept []

pub new_manager-IsWellFormed : IsWellFormed new_manager
unfolding lookup
new_manager-IsWellFormed = record {
  keyed = tt;
  bounded = λ host id e. ground arith;
  owned = λ host other id e f. ground arith;
  recorded = λ id c e o l. ground arith;
  in_step = λ id c e l. ground arith;
  marked = λ id c e o. ground arith;
  told = λ id c e o. ground arith;
}

pub opened_lem :
    (config : SshConfig)
    → ((start_keepalive (fresh config)).active ≡ true)
      × ((start_keepalive (fresh config)).client_open ≡ true)
unfolding start_keepalive
opened_lem config = ground arith

pub closed_lem : (c : Connection) → ((close c).active ≡ false) × ((close c).client_open ≡ false)
unfolding close
closed_lem c = (refl, refl)

pub is_active_lem :
    (m : Manager) (host : Text) {id : ℕ} {c : Connection}
    → lookup host m.connections ≡ some id
    → get_elem? m.heap id ≡ some c
    → is_active m host ≡ c.active
unfolding is_active
is_active_lem m host e f = ground arith

-- The state in which a new connection is recorded.
abbrev pub published : Manager → Text → SshConfig → Manager
published m host config = record m {
  heap = m.heap ++ start_keepalive (fresh config) ∷ [];
  connections = insert host (length m.heap) m.connections;
}

pub lookup-published :
    (m : Manager) (host : Text) (config : SshConfig) (j : Text)
    → lookup j (published m host config).connections
      ≡ (if same_text host j then some (length m.heap) else lookup j m.connections)
lookup-published m host config j = lookup-insert j host (length m.heap) m.connections

-- The map without one host.
abbrev pub unlinked : Manager → Text → Manager
unlinked m host = record m { connections = erase host m.connections }

pub lookup-unlinked :
    (m : Manager) (host j : Text)
    → lookup j (unlinked m host).connections
      ≡ (if same_text host j then none else lookup j m.connections)
lookup-unlinked m host j = lookup-erase j host m.connections

module _ (lost : List ℕ) (m : Manager) (w : IsKept lost m) where
  pub set_configs-IsKept : (configs : Dict SshConfig) → IsKept lost (set_configs m configs)
  unfolding set_configs
  set_configs-IsKept configs = record {
    keyed = w.keyed;
    bounded = w.bounded;
    owned = w.owned;
    recorded = w.recorded;
    in_step = w.in_step;
    marked = w.marked;
    told = w.told;
  }

  -- A longer list of lost connections says less.
  pub IsKept-mono :
      (more : List ℕ) → ((k : ℕ) → has_id lost k ≡ true → has_id more k ≡ true) → IsKept more m
  IsKept-mono more h = record {
    keyed = w.keyed;
    bounded = w.bounded;
    owned = w.owned;
    recorded = λ id c e o l. w.recorded id c e o (ground (arith, h id));
    in_step = λ id c e l. w.in_step id c e (ground (arith, h id));
    marked = w.marked;
    told = w.told;
  }

  -- A host whose client is open keeps its record, as the published host is another.
  still_recorded :
      (host : Text) (config : SshConfig)
      → is_active m host ≡ false
      → (id : ℕ) (c : Connection) → get_elem? m.heap id ≡ some c
      → c.client_open ≡ true
      → has_id lost id ≡ false
      → (j : Text) × (lookup j (published m host config).connections ≡ some id)
  still_recorded host config idle id c e o l =
      let (j, p) = w.recorded id c e o l in
      (
        j,
        ground (
          arith,
          lookup-published m host config j,
          same_text_iff host j,
          is_active_lem m j p e,
          w.marked id c e,
        ),
      )

  published-IsKept :
      (host : Text) (config : SshConfig)
      → is_active m host ≡ false
      → IsKept lost (published m host config)
  published-IsKept host config idle = record {
    keyed = insert-NodupKeys host (length m.heap) m.connections w.keyed;
    bounded = λ j id e. ground (
      arith,
      lookup-published m host config j,
      length-append m.heap (start_keepalive (fresh config) ∷ []),
      w.bounded j id,
    );
    owned = λ j k id e f. ground (
      arith,
      lookup-published m host config j,
      lookup-published m host config k,
      same_text_iff host j,
      same_text_iff host k,
      w.owned j k id,
      w.bounded j id,
      w.bounded k id,
    );
    recorded = λ id c e o l. elim (get_elem?-append_cases m.heap _ c id e) [
      | inl old ↦ still_recorded host config idle id c old o l
      | inr (new, _) ↦
          (host, ground (arith, lookup-published m host config host, same_text_self host))
    ];
    in_step = λ id c e l. elim (get_elem?-append_cases m.heap _ c id e) [
      | inl old ↦ w.in_step id c old l
      | inr (_, new) ↦ ground (arith, opened_lem config)
    ];
    marked = λ id c e o. elim (get_elem?-append_cases m.heap _ c id e) [
      | inl old ↦ w.marked id c old o
      | inr (_, new) ↦ ground (arith, opened_lem config)
    ];
    told = λ id c e o. elim (get_elem?-append_cases m.heap _ c id e) [
      | inl old ↦ w.told id c old o
      | inr (_, new) ↦ ground (arith, opened_lem config)
    ];
  }

  pub connect_publish-IsKept :
      (host : Text) (config : SshConfig) → IsKept lost (connect_publish m host config)
  connect_publish-IsKept host config = elim (Bool-cases (is_active m host)) [
    | inl e ↦ unfold connect_publish in rw (e, connect_publish) w
    | inr e ↦ unfold connect_publish in rw (e, connect_publish) (published-IsKept host config e)
  ]

  -- A connection that leaves the map is lost until it is closed.
  pub unlinked-IsKept :
      (host : Text) (id : ℕ)
      → lookup host m.connections ≡ some id
      → IsKept (id ∷ lost) (unlinked m host)
  unlinked-IsKept host id here = record {
    keyed = erase-NodupKeys host m.connections w.keyed;
    bounded = λ j k e. ground (arith, lookup-unlinked m host j, w.bounded j k);
    owned = λ j k x e f.
        ground (arith, lookup-unlinked m host j, lookup-unlinked m host k, w.owned j k x);
    recorded = λ k c e o l.
        let r = w.recorded k c e o (ground arith) in
        (r.0, ground (arith, lookup-unlinked m host r.0, same_text_iff host r.0, r.1, ==_iff id k));
    in_step = λ k c e l. w.in_step k c e (ground arith);
    marked = w.marked;
    told = w.told;
  }
