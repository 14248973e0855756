-- ===== src/Connection/Writes.antt =====
-- The single writes of `Connection.close`, and the invariant while a connection is being closed.
use kimi_ssh.Base.{
  ℕ, true, false, ◌≡◌, refl, inl, inr, some, List, ◌∷◌, arith, get_elem?, length-modify,
  get_elem?-modify_old, modify, ap, ◌∙◌, zero, suc, [],
}
use kimi_ssh.Base.Remove.{has_id}
use kimi_ssh.Connection.{
  Connection, Manager, stop_keepalive, Keepalive, is_untold, tell, shut, deactivate, write_at,
  close_at, close,
}
use kimi_ssh.Connection.WellFormed.{IsKept}
use kimi_ssh.Connection.Closing.{stop_keepalive_told}

-- A write that brings nothing back: neither the client, nor the mark, nor the goroutine.
pub record IsEnding (f : Connection → Connection) : Type 0 where
  pub open_before : (c : Connection) → (f c).client_open ≡ true → c.client_open ≡ true
  pub active_before : (c : Connection) → (f c).active ≡ true → c.active ≡ true
  pub untold_before :
      (c : Connection) → is_untold (f c).keepalive ≡ true → is_untold c.keepalive ≡ true

-- What a write must leave true of its connection.
abbrev pub IsFair : (Connection → Connection) → Connection → Type 0
IsFair f c =
    ((f c).client_open ≡ true → (f c).active ≡ true)
    × ((f c).client_open ≡ false → is_untold (f c).keepalive ≡ false)

pub write_at-IsKept :
    (f : Connection → Connection) (lost : List ℕ) (m : Manager) (id : ℕ)
    → IsEnding f
    → IsKept lost m
    → has_id lost id ≡ true
    → ((c : Connection) → get_elem? m.heap id ≡ some c → IsFair f c)
    → IsKept lost (write_at f m id)
unfolding write_at
write_at-IsKept f lost m id ending w here fair = record {
  keyed = w.keyed;
  bounded = λ j k e. omega (arith, length-modify f id m.heap, w.bounded j k e);
  owned = w.owned;
  recorded = λ k c e o l.
      let (y, old, q) = get_elem?-modify_old f id k m.heap c e in
      elim q [
        | inl (same, g) ↦ absurd (ground (arith, rw (← same) at l, here))
        | inr g ↦ w.recorded k y old (rw g o) l
      ];
  in_step = λ k c e l.
      let (y, old, q) = get_elem?-modify_old f id k m.heap c e in
      elim q [
        | inl (same, g) ↦ absurd (ground (arith, rw (← same) at l, here))
        | inr g ↦ rw (← g) (w.in_step k y old l)
      ];
  marked = λ k c e o.
      let (y, old, q) = get_elem?-modify_old f id k m.heap c e in
      elim q [
        | inl (same, g) ↦ rw (← g) ((fair y (rw same old)).0 (rw g o))
        | inr g ↦ rw (← g) (w.marked k y old (rw g o))
      ];
  told = λ k c e o.
      let (y, old, q) = get_elem?-modify_old f id k m.heap c e in
      elim q [
        | inl (same, g) ↦ rw (← g) ((fair y (rw same old)).1 (rw g o))
        | inr g ↦ rw (← g) (w.told k y old (rw g o))
      ];
}

untold_before_stop : (k : Keepalive) → is_untold (stop_keepalive k) ≡ true → is_untold k ≡ true
untold_before_stop k e = absurd (ground (arith, stop_keepalive_told k, e))

pub tell-IsEnding : IsEnding tell
tell-IsEnding = record {
  open_before = λ c o. o;
  active_before = λ c o. o;
  untold_before = λ c o. untold_before_stop c.keepalive o;
}

pub shut-IsEnding : IsEnding shut
shut-IsEnding = record {
  open_before = λ c o. ground (arith, o);
  active_before = λ c o. o;
  untold_before = λ c o. o;
}

pub deactivate-IsEnding : IsEnding deactivate
deactivate-IsEnding = record {
  open_before = λ c o. o;
  active_before = λ c o. ground (arith, o);
  untold_before = λ c o. o;
}

modify-modify {ℓ} :
    {A : Type ℓ} (f g : A → A) (i : ℕ) (xs : List A)
    → modify f i (modify g i xs) ≡ modify (λ x. f (g x)) i xs
modify-modify f g i [] = refl
modify-modify f g zero (x ∷ xs) = refl
modify-modify f g (suc i) (x ∷ xs) = ap (λ ys. x ∷ ys) (modify-modify f g i xs)

-- The three writes, one after the other with none between, are `close`.
close_at_writes :
    (m : Manager) (id : ℕ)
    → write_at deactivate (write_at shut (write_at tell m id) id) id ≡ close_at m id
unfolding write_at close_at close
close_at_writes m id =
    ap (λ heap. record m { heap = heap })
      (ap (modify deactivate id) (modify-modify shut tell id m.heap)
        ∙ modify-modify deactivate (λ c. shut (tell c)) id m.heap)
