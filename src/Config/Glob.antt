-- ===== src/Config/Glob.antt =====
-- `globMatch` of internal/ssh/config.go. The cursors `p`, `a`, `star` and `resume` are indices, as in
-- the source; `star` is an option in place of -1. The loop runs on fuel, `glob_fuel`
-- rounds of it.
pub mod Matches
pub mod Correct
pub mod Meaning
use kimi_ssh.Base.{
  ℕ, zero, suc, ◌+◌, ◌*◌, Bool, true, false, ◌&&◌, ◌||◌, Option, none, some, List, [], ◌∷◌, ltb,
  ◌==◌, if◌then◌else◌, length, get_elem?,
}
use kimi_ssh.Base.Text.{Text, to_lower}

pub record Cursor : Type 0 where
  pub p : ℕ
  pub a : ℕ
  pub star : Option ℕ
  pub resume : ℕ

-- What one round decides.
pub data Round : Type 0 where
  again : Cursor → Round
  mismatch : Round

-- `pattern[i] == '?' || pattern[i] == alias[j]`, of the two bytes.
abbrev pub fits : ℕ → ℕ → Bool
fits x c = x == b'?' || x == c

-- The last two cases of the switch, at `star` and `resume`.
abbrev pub backtrack : Option ℕ → ℕ → Round
backtrack none resume = mismatch
backtrack (some st) resume =
    again (record { p = st + 1; a = resume + 1; star = some st; resume = resume + 1 })

abbrev pub round_at : Option ℕ → ℕ → Cursor → Round
round_at none c s = backtrack s.star s.resume
round_at (some x) c s =
    if fits x c
    then again (record s { p = s.p + 1; a = s.a + 1 })
    else if x == b'*'
    then again (record s { star = some s.p; resume = s.a; p = s.p + 1 })
    else backtrack s.star s.resume

-- The second loop, `for p < len(pattern) && pattern[p] == '*'`, with the rounds that are left.
unfoldable pub skip_stars : ℕ → Text → ℕ → ℕ
skip_stars zero pat p = p
skip_stars (suc f) pat p = elim (get_elem? pat p) [
  | some x ↦ (let rest = skip_stars f pat (p + 1) in if x == b'*' then rest else p)
  | none ↦ p
]

-- `none` means that the fuel ran out.
unfoldable pub glob_loop : ℕ → Text → Text → Cursor → Option Bool
unfolding skip_stars
glob_loop zero pat al s = none
glob_loop (suc f) pat al s = elim (get_elem? al s.a) [
  | none ↦ some (skip_stars (length pat) pat s.p == length pat)
  | some c ↦ elim (round_at (get_elem? pat s.p) c s) [
    | again t ↦ glob_loop f pat al t
    | mismatch ↦ some false
  ]
]

abbrev pub start : Cursor
start = record { p = 0; a = 0; star = none; resume = 0 }

abbrev pub glob_fuel : Text → Text → ℕ
glob_fuel pat al = (length al + 1) * (length pat + 1) + 1

-- The loop over texts that are lower case already.
unfoldable pub glob_run : Text → Text → Option Bool
unfolding glob_loop
glob_run pat al = glob_loop (glob_fuel pat al) pat al start

unfoldable pub glob_match : Text → Text → Bool
unfolding glob_run to_lower
glob_match pattern al = elim (glob_run (to_lower pattern) (to_lower al)) [
  | some b ↦ b
  | none ↦ false
]
