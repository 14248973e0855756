-- ===== src/Config/Glob/Matches.antt =====
-- What it means for an alias to match a host pattern, with no search order in it: `*` stands for any
-- run of bytes and `?` for one byte.
use kimi_ssh.Base.{ℕ, true, ◌≡◌, ◌≢◌, [], ◌∷◌}
use kimi_ssh.Base.Text.{Text}
use kimi_ssh.Config.Glob.{fits}

pub data Matches : Text → Text → Type 0 where
  done : Matches [] []
  byte : {x c : ℕ} {p s : Text} → x ≢ b'*' → fits x c ≡ true → Matches p s → Matches (x ∷ p) (c ∷ s)
  leave : {x : ℕ} {p s : Text} → x ≡ b'*' → Matches p s → Matches (x ∷ p) s
  grow : {x c : ℕ} {p s : Text} → x ≡ b'*' → Matches (x ∷ p) s → Matches (x ∷ p) (c ∷ s)

pub byte_inv :
    {x c : ℕ} {p s : Text} → x ≢ b'*' → Matches (x ∷ p) (c ∷ s) → (fits x c ≡ true) × Matches p s
byte_inv n (byte _ h d) = (h, d)
byte_inv n (leave e d) = absurd (n e)
byte_inv n (grow e d) = absurd (n e)

pub end_inv : {x : ℕ} {p : Text} → Matches (x ∷ p) [] → (x ≡ b'*') × Matches p []
end_inv (leave e d) = (e, d)

-- A star that does not stand for the empty run takes one byte.
pub must_grow :
    {x c : ℕ} {p s : Text}
    → x ≡ b'*'
    → Matches (x ∷ p) (c ∷ s)
    → ¬ Matches p (c ∷ s)
    → Matches (x ∷ p) s
must_grow e (byte n h d) no_match = absurd (n e)
must_grow e (leave _ d) no_match = absurd (no_match d)
must_grow e (grow _ d) no_match = d

-- Two stars in a row are one.
pub merge_stars :
    {x y : ℕ} {p s : Text} → x ≡ b'*' → y ≡ b'*' → Matches (x ∷ y ∷ p) s → Matches (y ∷ p) s
merge_stars e e' (byte n h d) = absurd (n e)
merge_stars e e' (leave _ d) = d
merge_stars e e' (grow _ d) = grow e' (merge_stars e e' d)

-- Wherever a byte pattern behind a star matches, the rest matches behind a star one byte on.
pub past_byte :
    {x y c : ℕ} {p : Text} (s : Text)
    → x ≡ b'*'
    → y ≢ b'*'
    → Matches (x ∷ y ∷ p) (c ∷ s)
    → Matches (x ∷ p) s
past_byte s e n (byte n' h d) = absurd (n' e)
past_byte s e n (leave _ d) = leave e (byte_inv n d).1
past_byte [] e n (grow _ d) = absurd (n (end_inv (end_inv d).1).0)
past_byte (c ∷ s) e n (grow _ d) = grow e (past_byte s e n d)
