-- ===== src/Connection/Pings/Ends.antt =====
-- How the keepalive goroutine ends.
use kimi_ssh.Base.{ℕ, ◌+◌, ◌≤◌, true, false, ◌≡◌, refl, ◌⊎◌, inl, inr, arith, Bool-cases}
use kimi_ssh.Connection.Pings.{
  Pinging, just_started, Turn, stops, is_answered, gives_up, Closing, tells, shuts, Runs, stays,
  turns, closes,
}

-- The client is closed only after the stop channel.
IsTold : Pinging → Type 0
IsTold s = s.is_open ≡ false → s.told ≡ true

Turn-IsTold : {s t : Pinging} → Turn s t → IsTold s → IsTold t
unfolding IsTold
Turn-IsTold (stops a b) w h = w h
Turn-IsTold (is_answered a b) w h = w h
Turn-IsTold (gives_up a) w h = w h

Closing-IsTold : {s t : Pinging} → Closing s t → IsTold s → IsTold t
unfolding IsTold
Closing-IsTold tells w h = refl
Closing-IsTold (shuts told) w h = told

Runs-IsTold : {s : Pinging} {n : ℕ} {t : Pinging} → Runs s n t → IsTold s → IsTold t
Runs-IsTold stays w = w
Runs-IsTold (turns r a) w = Turn-IsTold a (Runs-IsTold r w)
Runs-IsTold (closes r a) w = Closing-IsTold a (Runs-IsTold r w)

-- After the client of `s` was closed: the goroutine is as it was, or it has returned after one turn.
record IsEnding (s : Pinging) (n : ℕ) (t : Pinging) : Type 0 where
  shut : t.is_open ≡ false
  at_most_once : n ≤ 1
  sent_once : t.sent ≤ s.sent + n
  over : (t.is_over ≡ true) ⊎ ((n ≡ 0) × (t.is_over ≡ false))

module _ {s : Pinging} where
  Turn-IsEnding : {n : ℕ} {t u : Pinging} → Turn t u → IsEnding s n t → IsEnding s (n + 1) u
  Turn-IsEnding (stops a b) w = elim w.over [
    | inl o ↦ absurd (ground (arith, o, a))
    | inr (z, o) ↦ record {
      shut = w.shut;
      at_most_once = omega (arith, z);
      sent_once = omega (arith, w.sent_once);
      over = inl refl;
    }
  ]
  Turn-IsEnding (is_answered a b) w = absurd (ground (arith, w.shut, b))
  Turn-IsEnding (gives_up a) w = elim w.over [
    | inl o ↦ absurd (ground (arith, o, a))
    | inr (z, o) ↦ record {
      shut = w.shut;
      at_most_once = omega (arith, z);
      sent_once = omega (arith, w.sent_once);
      over = inl refl;
    }
  ]

  Closing-IsEnding : {n : ℕ} {t u : Pinging} → Closing t u → IsEnding s n t → IsEnding s n u
  Closing-IsEnding tells w = record {
    shut = w.shut;
    at_most_once = w.at_most_once;
    sent_once = w.sent_once;
    over = w.over;
  }
  Closing-IsEnding (shuts told) w = record {
    shut = refl;
    at_most_once = w.at_most_once;
    sent_once = w.sent_once;
    over = w.over;
  }

  Runs-IsEnding : {n : ℕ} {t : Pinging} → s.is_open ≡ false → Runs s n t → IsEnding s n t
  Runs-IsEnding h stays = record {
    shut = h;
    at_most_once = omega arith;
    sent_once = omega arith;
    over = elim (Bool-cases s.is_over) [ inl o ↦ inl o | inr o ↦ inr (refl, o) ];
  }
  Runs-IsEnding h (turns r a) = Turn-IsEnding a (Runs-IsEnding h r)
  Runs-IsEnding h (closes r a) = Closing-IsEnding a (Runs-IsEnding h r)

just_started-IsTold : IsTold just_started
unfolding IsTold
just_started-IsTold h = ground (arith, h)

-- However a keepalive and the closing of its connection interleave, once the client is closed the
-- goroutine takes at most one turn more, sends at most one request in it, and has returned or has
-- a turn in which it returns.
pub Runs-end :
    {s : Pinging} {k n : ℕ} {t : Pinging}
    → Runs just_started k s
    → s.is_open ≡ false
    → Runs s n t
    → (n ≤ 1)
      × (t.sent ≤ s.sent + n)
      × ((t.is_over ≡ true) ⊎ ((u : Pinging) × Turn t u × (u.is_over ≡ true)))
unfolding IsTold
Runs-end {s} {k} {n} {t} before shut r =
    let w = Runs-IsEnding shut r in
    let told : t.told ≡ true = Runs-IsTold r (Runs-IsTold before just_started-IsTold) w.shut in
    (
      w.at_most_once,
      w.sent_once,
      elim w.over [
        | inl o ↦ inl o
        | inr (z, o) ↦ inr (record t { is_over = true }, stops o told, refl)
      ],
    )
