-- ===== src/Connection/Calls/Safety.antt =====
-- The invariant of the connection manager while calls run at the same time.
use kimi_ssh.Base.{ℕ, ◌<◌, true, ◌≡◌, refl, some, List, [], ◌∷◌, ◌++◌, arith, length, get_elem?-All}
use kimi_ssh.Base.Remove.{remove_at, remove_at-All, has_id, has_id-remove_at}
use kimi_ssh.Base.Text.{Text}
use kimi_ssh.Connection.{
  Manager, set_configs, connect_publish, connection, forget, tell, shut, deactivate, write_at,
}
use kimi_ssh.Connection.WellFormed.{
  IsKept, IsWellFormed, new_manager-IsWellFormed, set_configs-IsKept, IsKept-mono,
  connect_publish-IsKept, unlinked-IsKept,
}
use kimi_ssh.Connection.Closing.{forget-IsKept}
use kimi_ssh.Connection.Writes.{tell-IsEnding, shut-IsEnding, deactivate-IsEnding}
use kimi_ssh.Connection.Calls.Later.{
  same-IsLater, connect_publish-IsLater, write_at-IsLater, forget-IsLater, Holds,
}
use kimi_ssh.Connection.Calls.{
  System, Start, configure, dial, unlink, enter, Advance, give_up, publish, leave, tell_unlinked,
  tell_running, shut_client, mark_inactive, forget_closed, Step, begins, goes_on, Reach, at_first,
  later,
}
use kimi_ssh.Connection.Calls.Held.{
  Exists, IsTold, IsDown, IsShut, IsHeld, IsHeld-later, tell-IsTold, shut-IsDown, deactivate-IsDone,
  tell-IsKept, shut-IsKept, deactivate-IsKept, to_forget-IsShut,
}
use kimi_ssh.Connection.Calls.Lost.{ids, lost, has_id-lost, ids-remove_at}

pub record IsSafe (s : System) : Type 0 where
  pub kept : IsKept (lost s) s.manager
  pub held : IsHeld s s.manager

connection-bounded :
    (ks : List ℕ) (m : Manager) (host : Text) (id : ℕ)
    → IsKept ks m
    → connection m host ≡ some id
    → id < length m.heap
unfolding connection
connection-bounded ks m host id w e = w.bounded host id (ground arith)

Start-IsSafe : {s t : System} → Start s t → IsSafe s → IsSafe t
Start-IsSafe {s} (configure configs) w = record {
  kept = set_configs-IsKept (lost s) s.manager w.kept configs;
  held =
      let h =
        IsHeld-later s s.manager (set_configs s.manager configs)
          (same-IsLater s.manager (set_configs s.manager configs) (unfold set_configs in refl))
          w.held in
      record { gone = h.gone; runs = h.runs; tells = h.tells; shuts = h.shuts; over = h.over };
}
Start-IsSafe {s} (dial host config e) w = record {
  kept = w.kept;
  held =
      let h = w.held in
      record { gone = h.gone; runs = h.runs; tells = h.tells; shuts = h.shuts; over = h.over };
}
Start-IsSafe {s} (unlink host id e) w = record {
  kept = unlinked-IsKept (lost s) s.manager w.kept host id e;
  held =
      let h = w.held in
      record {
        gone = ((w.kept.bounded host id e, λ c g. tt), h.gone);
        runs = h.runs;
        tells = h.tells;
        shuts = h.shuts;
        over = h.over;
      };
}
Start-IsSafe {s} (enter host id e) w = record {
  kept = w.kept;
  held =
      let h = w.held in
      record {
        gone = h.gone;
        runs = ((connection-bounded (lost s) s.manager host id w.kept e, λ c g. tt), h.runs);
        tells = h.tells;
        shuts = h.shuts;
        over = h.over;
      };
}

-- A longer list of lost connections says less.
more_lost :
    (ks more : List ℕ) (m : Manager)
    → IsKept ks m
    → ((k : ℕ) → has_id ks k ≡ true → has_id more k ≡ true)
    → IsKept more m
more_lost ks more m w h = IsKept-mono ks m w more h

Advance-IsSafe : {s t : System} → Advance s t → IsSafe s → IsSafe t
Advance-IsSafe {s} (give_up i d e) w = record {
  kept = w.kept;
  held =
      let h = w.held in
      record { gone = h.gone; runs = h.runs; tells = h.tells; shuts = h.shuts; over = h.over };
}
Advance-IsSafe {s} (publish i host config e) w = record {
  kept = connect_publish-IsKept (lost s) s.manager w.kept host config;
  held =
      let h =
        IsHeld-later s s.manager (connect_publish s.manager host config)
          (connect_publish-IsLater s.manager host config) w.held in
      record { gone = h.gone; runs = h.runs; tells = h.tells; shuts = h.shuts; over = h.over };
}
Advance-IsSafe {s} (leave i r e) w = record {
  kept = w.kept;
  held =
      let h = w.held in
      record {
        gone = h.gone;
        runs = remove_at-All (λ r. Holds Exists s.manager r.1) i s.running h.runs;
        tells = h.tells;
        shuts = h.shuts;
        over = h.over;
      };
}
Advance-IsSafe {s} (tell_unlinked i id e) w =
    let n = write_at tell s.manager id in
    let h = IsHeld-later s s.manager n (write_at-IsLater tell s.manager id tell-IsEnding) w.held in
    let b : Holds Exists s.manager id =
      get_elem?-All (Holds Exists s.manager) s.unlinked i w.held.gone e in
    record {
      kept =
          tell-IsKept (remove_at i s.unlinked ++ (id ∷ ids s.told) ++ ids s.shut_down) s.manager id
            (more_lost (lost s) (remove_at i s.unlinked ++ (id ∷ ids s.told) ++ ids s.shut_down)
              s.manager w.kept
              (λ k m. ground (
                arith,
                has_id-lost (remove_at i s.unlinked) (id ∷ ids s.told) (ids s.shut_down) k,
                has_id-lost s.unlinked (ids s.told) (ids s.shut_down) k,
                has_id-remove_at i k id s.unlinked e,
                m,
              )))
            (ground
              (arith, has_id-lost (remove_at i s.unlinked) (id ∷ ids s.told) (ids s.shut_down) id));
      held = record {
        gone = remove_at-All (Holds Exists n) i s.unlinked h.gone;
        runs = h.runs;
        tells = (tell-IsTold s.manager id b.0, h.tells);
        shuts = h.shuts;
        over = h.over;
      };
    }
Advance-IsSafe {s} (tell_running i host id e) w =
    let n = write_at tell s.manager id in
    let h = IsHeld-later s s.manager n (write_at-IsLater tell s.manager id tell-IsEnding) w.held in
    let b : Holds Exists s.manager id =
      get_elem?-All (λ r. Holds Exists s.manager r.1) s.running i w.held.runs e in
    record {
      kept =
          tell-IsKept (s.unlinked ++ (id ∷ ids s.told) ++ ids s.shut_down) s.manager id
            (more_lost (lost s) (s.unlinked ++ (id ∷ ids s.told) ++ ids s.shut_down) s.manager
              w.kept
              (λ k m. ground (
                arith,
                has_id-lost s.unlinked (id ∷ ids s.told) (ids s.shut_down) k,
                has_id-lost s.unlinked (ids s.told) (ids s.shut_down) k,
                m,
              )))
            (ground (arith, has_id-lost s.unlinked (id ∷ ids s.told) (ids s.shut_down) id));
      held = record {
        gone = h.gone;
        runs = remove_at-All (λ r. Holds Exists n r.1) i s.running h.runs;
        tells = (tell-IsTold s.manager id b.0, h.tells);
        shuts = h.shuts;
        over = h.over;
      };
    }
Advance-IsSafe {s} (shut_client i (o, id) e) w =
    let n = write_at shut s.manager id in
    let h = IsHeld-later s s.manager n (write_at-IsLater shut s.manager id shut-IsEnding) w.held in
    let b : Holds IsTold s.manager id =
      get_elem?-All (λ c. Holds IsTold s.manager c.1) s.told i w.held.tells e in
    record {
      kept =
          shut-IsKept (s.unlinked ++ ids (remove_at i s.told) ++ (id ∷ ids s.shut_down)) s.manager
            id
            (more_lost (lost s) (s.unlinked ++ ids (remove_at i s.told) ++ (id ∷ ids s.shut_down))
              s.manager w.kept
              (λ k m. ground (
                arith,
                has_id-lost s.unlinked (ids (remove_at i s.told)) (id ∷ ids s.shut_down) k,
                has_id-lost s.unlinked (ids s.told) (ids s.shut_down) k,
                ids-remove_at i k (o, id) s.told e,
                m,
              )))
            (ground
              (arith, has_id-lost s.unlinked (ids (remove_at i s.told)) (id ∷ ids s.shut_down) id))
            b;
      held = record {
        gone = h.gone;
        runs = h.runs;
        tells = remove_at-All (λ c. Holds IsTold n c.1) i s.told h.tells;
        shuts = (shut-IsDown s.manager id b.0, h.shuts);
        over = h.over;
      };
    }
Advance-IsSafe {s} (mark_inactive i (o, id) e) w =
    let n = write_at deactivate s.manager id in
    let h =
      IsHeld-later s s.manager n (write_at-IsLater deactivate s.manager id deactivate-IsEnding)
        w.held in
    let b : Holds IsDown s.manager id =
      get_elem?-All (λ c. Holds IsDown s.manager c.1) s.shut_down i w.held.shuts e in
    record {
      kept =
          deactivate-IsKept (s.unlinked ++ ids s.told ++ ids (remove_at i s.shut_down)) s.manager id
            (more_lost (lost s) (id ∷ (s.unlinked ++ ids s.told ++ ids (remove_at i s.shut_down)))
              s.manager w.kept
              (λ k m. ground (
                arith,
                has_id-lost s.unlinked (ids s.told) (ids (remove_at i s.shut_down)) k,
                has_id-lost s.unlinked (ids s.told) (ids s.shut_down) k,
                ids-remove_at i k (o, id) s.shut_down e,
                m,
              )))
            b;
      held = record {
        gone = h.gone;
        runs = h.runs;
        tells = h.tells;
        shuts = remove_at-All (λ c. Holds IsDown n c.1) i s.shut_down h.shuts;
        over = to_forget-IsShut n o id s.closed (deactivate-IsDone s.manager id b) h.over;
      };
    }
Advance-IsSafe {s} (forget_closed i host id e) w =
    let n = forget s.manager host id in
    let h = IsHeld-later s s.manager n (forget-IsLater s.manager host id) w.held in
    let b : IsShut s.manager (host, id) =
      get_elem?-All (IsShut s.manager) s.closed i w.held.over e in
    record {
      kept = forget-IsKept (lost s) s.manager host id w.kept b.1;
      held = record {
        gone = h.gone;
        runs = h.runs;
        tells = h.tells;
        shuts = h.shuts;
        over = remove_at-All (IsShut n) i s.closed h.over;
      };
    }

Step-IsSafe : {s t : System} → Step s t → IsSafe s → IsSafe t
Step-IsSafe (begins st) w = Start-IsSafe st w
Step-IsSafe (goes_on st) w = Advance-IsSafe st w

pub Reach-IsSafe : {s : System} → Reach s → IsSafe s
Reach-IsSafe at_first = record {
  kept = new_manager-IsWellFormed;
  held = record { gone = tt; runs = tt; tells = tt; shuts = tt; over = tt };
}
Reach-IsSafe (later r st) = Step-IsSafe st (Reach-IsSafe r)

-- However the locked steps of calls that run at the same time follow one another, and the three
-- unlocked writes of each `close` with them, connecting, disconnecting, and closing and forgetting
-- the connection of a stuck command, the manager is well formed whenever no call is between taking
-- a connection out of the map, or beginning to close one, and the last of these writes.
pub Reach-IsWellFormed :
    (s : System)
    → Reach s
    → s.unlinked ≡ []
    → s.told ≡ []
    → s.shut_down ≡ []
    → IsWellFormed s.manager
Reach-IsWellFormed s r e f g =
    more_lost (lost s) [] s.manager (Reach-IsSafe r).kept (λ k h. ground (arith, rw (e, f, g) at h))
