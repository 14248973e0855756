-- ===== src/Exec/Missing/Notices.antt =====
-- Which outputs count as the notice of a shell that has no `timeout`.
use kimi_ssh.Base.{true, ◌≡◌, ◌≢◌, refl, ap, [], ◌∷◌, ◌++◌, arith, All, All-append}
use kimi_ssh.Base.Text.{Text, codes, to_lower, lower_byte, contains}
use kimi_ssh.Base.FilePath.{split-Lacks}
use kimi_ssh.Exec.Missing.{missing_remote_timeout}

contains-append : (p s t : Text) → contains s t ≡ true → contains (p ++ s) t ≡ true
unfolding contains
contains-append [] s t h = h
contains-append (c ∷ p) s t h = ground (arith, contains-append p s t)

to_lower-append : (s t : Text) → to_lower (s ++ t) ≡ to_lower s ++ to_lower t
unfolding to_lower
to_lower-append [] t = refl
to_lower-append (c ∷ s) t = ap (◌∷◌ (lower_byte c)) (to_lower-append s t)

contains-not_found :
    contains (to_lower (codes "timeout: not found")) (codes "timeout: not found") ≡ true
unfolding contains to_lower
contains-not_found = refl

-- Any one line that ends in the words `timeout: not found` counts, whatever stands in front of
-- them: also the notice about another command whose name ends in `timeout`.
pub missing_remote_timeout_suffix :
    (front : Text)
    → All (λ c. c ≢ 10) front
    → missing_remote_timeout (front ++ codes "timeout: not found") ≡ true
unfolding missing_remote_timeout
missing_remote_timeout_suffix front h = rw (
  split-Lacks (front ++ codes "timeout: not found") 10
      (All-append (λ c. c ≢ 10) front (codes "timeout: not found") h (omega arith)),
  to_lower-append front (codes "timeout: not found"),
  contains-append (to_lower front) (to_lower (codes "timeout: not found"))
      (codes "timeout: not found") contains-not_found,
)
