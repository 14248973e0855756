-- ===== src/Connection/Calls/Lost.antt =====
-- The connections that the calls on their way are closing, or are to close.
use kimi_ssh.Base.{ℕ, true, ◌≡◌, refl, some, List, [], ◌∷◌, ◌++◌, arith, get_elem?, zero, suc, ◌||◌}
use kimi_ssh.Base.Remove.{remove_at, has_id}
use kimi_ssh.Connection.Calls.{Closer, System}

abbrev pub ids : List Closer → List ℕ
ids [] = []
ids ((o, id) ∷ cs) = id ∷ ids cs

-- The connections that are being closed, or are to be.
abbrev pub lost : System → List ℕ
lost s = s.unlinked ++ ids s.told ++ ids s.shut_down

pub has_id-append : (xs ys : List ℕ) (k : ℕ) → has_id (xs ++ ys) k ≡ (has_id xs k || has_id ys k)
has_id-append [] ys k = refl
has_id-append (x ∷ xs) ys k = ground (arith, has_id-append xs ys k)

-- Membership in `lost`, one list after the other.
pub has_id-lost :
    (us ts ds : List ℕ) (k : ℕ)
    → has_id (us ++ ts ++ ds) k ≡ (has_id us k || (has_id ts k || has_id ds k))
has_id-lost us ts ds k = ground (arith, has_id-append (us ++ ts) ds k, has_id-append us ts k)

pub ids-remove_at :
    (i k : ℕ) (c : Closer) (cs : List Closer)
    → get_elem? cs i ≡ some c
    → has_id (ids cs) k ≡ true
    → has_id (c.1 ∷ ids (remove_at i cs)) k ≡ true
ids-remove_at i k c [] h m = ground arith
ids-remove_at zero k c ((o, id) ∷ cs) h m = ground (arith, m, h)
ids-remove_at (suc i) k c ((o, id) ∷ cs) h m = ground (arith, ids-remove_at i k c cs h, m)
