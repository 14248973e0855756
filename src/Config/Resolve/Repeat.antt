-- ===== src/Config/Resolve/Repeat.antt =====
-- `resolveAll` after `ParseConfigFiles` has run more than once: the blocks of every run are kept.
use kimi_ssh.Base.{
  ◌≡◌, refl, sym, ap, ◌∙◌, Option, none, some, List, [], ◌∷◌, ◌++◌, append_assoc, append-nil, arith,
  if◌then◌else◌,
}
use mathlib.Core.Path.{fun_ext}
use kimi_ssh.Base.Text.{Text, equal_fold_self}
use kimi_ssh.Config.Block.{Setting, HostBlock, applies_to}
use kimi_ssh.Config.Settings.Fields.{Field, port_field}
use kimi_ssh.Config.Resolve.{resolve, resolve_all}
use kimi_ssh.Config.Resolve.FirstObtained.{covered, first_obtained, resolve-first_obtained}
use kimi_ssh.Config.Resolve.Aliases.{
  literals_of, literals, drop_fold, first_spellings, drop_known, drop_known-nil,
  resolve_all-first_spellings,
}

covered-append :
    (al : Text) (bs cs : List HostBlock) → covered al (bs ++ cs) ≡ covered al bs ++ covered al cs
covered-append al [] cs = refl
covered-append al (b ∷ bs) cs =
    ap (◌++◌ (if applies_to b al then b.directives else [])) (covered-append al bs cs)
    ∙ sym (
        append_assoc (if applies_to b al then b.directives else []) (covered al bs) (covered al cs))

-- A value that was obtained stays, and one that was not comes from what follows.
abbrev or_else {ℓ} : {A : Type ℓ} → Option A → Option A → Option A
or_else none o = o
or_else (some a) o = some a

first_obtained-append {ℓ} :
    {A : Type ℓ} (f : Field A) (ds es : List Setting)
    → first_obtained f (ds ++ es) ≡ or_else (first_obtained f ds) (first_obtained f es)
first_obtained-append f [] es = refl
first_obtained-append f (d ∷ ds) es = ground (arith, first_obtained-append f ds es)

or_else_idem {ℓ} : {A : Type ℓ} (o : Option A) → or_else o o ≡ o
or_else_idem none = refl
or_else_idem (some a) = refl

first_obtained_twice {ℓ} :
    {A : Type ℓ} (f : Field A) (ds : List Setting)
    → first_obtained f (ds ++ ds) ≡ first_obtained f ds
first_obtained_twice f ds = rw (first_obtained-append f ds ds) (or_else_idem (first_obtained f ds))

resolve_twice :
    (home : Option Text) (bs : List HostBlock) (al : Text)
    → resolve home (bs ++ bs) al ≡ resolve home bs al
resolve_twice home bs al =
    rw
      (
        resolve-first_obtained home (bs ++ bs) al,
        resolve-first_obtained home bs al,
        covered-append al bs bs,
      )
      (simp first_obtained_twice)

literals-append : (bs cs : List HostBlock) → literals (bs ++ cs) ≡ literals bs ++ literals cs
literals-append [] cs = refl
literals-append (b ∷ bs) cs =
    ap (◌++◌ (literals_of b.patterns)) (literals-append bs cs)
    ∙ sym (append_assoc (literals_of b.patterns) (literals bs) (literals cs))

drop_fold-append :
    (al : Text) (xs ys : List Text) → drop_fold al (xs ++ ys) ≡ drop_fold al xs ++ drop_fold al ys
drop_fold-append al [] ys = refl
drop_fold-append al (x ∷ xs) ys = ground (arith, drop_fold-append al xs ys)

drop_fold-drop_known :
    (al : Text) (als xs : List Text) → drop_fold al (drop_known als xs) ≡ drop_known (al ∷ als) xs
unfolding drop_known
drop_fold-drop_known al als [] = refl
drop_fold-drop_known al als (x ∷ xs) = ground (arith, drop_fold-drop_known al als xs)

first_spellings-append :
    (xs ys : List Text)
    → first_spellings (xs ++ ys) ≡ first_spellings xs ++ drop_known xs (first_spellings ys)
first_spellings-append [] ys = sym (drop_known-nil (first_spellings ys))
first_spellings-append (x ∷ xs) ys =
    ap (λ zs. x ∷ drop_fold x zs) (first_spellings-append xs ys)
    ∙ ap (◌∷◌ x) (
        drop_fold-append x (first_spellings xs) (drop_known xs (first_spellings ys))
        ∙ ap (◌++◌ (drop_fold x (first_spellings xs)))
            (drop_fold-drop_known x xs (first_spellings ys)))

-- Once everything is known, nothing is left.
drop_known_more :
    (al : Text) (als xs : List Text)
    → drop_known als xs ≡ []
    → drop_known (al ∷ als) (drop_fold al xs) ≡ []
unfolding drop_known
drop_known_more al als [] h = refl
drop_known_more al als (x ∷ xs) h = ground (arith, drop_known_more al als xs)

drop_known_self : (xs : List Text) → drop_known xs (first_spellings xs) ≡ []
drop_known_self [] = unfold drop_known in refl
drop_known_self (x ∷ xs) =
    head_known (drop_known_more x xs (first_spellings xs) (drop_known_self xs))
  where
    head_known :
        drop_known (x ∷ xs) (drop_fold x (first_spellings xs)) ≡ []
        → drop_known (x ∷ xs) (x ∷ drop_fold x (first_spellings xs)) ≡ []
    head_known h = unfold drop_known in ground (arith, equal_fold_self x, h)

first_spellings_twice : (xs : List Text) → first_spellings (xs ++ xs) ≡ first_spellings xs
first_spellings_twice xs =
    rw (first_spellings-append xs xs, drop_known_self xs) (append-nil (first_spellings xs))

-- Reading the same files once more changes neither the hosts nor their order nor any entry,
-- although every block is then there twice.
pub resolve_all_twice :
    (home : Option Text) (bs : List HostBlock) → resolve_all home (bs ++ bs) ≡ resolve_all home bs
resolve_all_twice home bs = rw (
  resolve_all-first_spellings home (bs ++ bs),
  resolve_all-first_spellings home bs,
  literals-append bs bs,
  first_spellings_twice (literals bs),
  fun_ext (resolve_twice home bs),
)

-- After the files have changed, the value of the port that the first reading obtained for an alias
-- still wins over whatever the second reading finds.
pub resolve_stale_port :
    (home : Option Text) (old new : List HostBlock) (al port : Text)
    → first_obtained (port_field home) (covered al old) ≡ some port
    → (resolve home (old ++ new) al).port ≡ port
resolve_stale_port home old new al port h = rw (
  resolve-first_obtained home (old ++ new) al,
  covered-append al old new,
  first_obtained-append (port_field home) (covered al old) (covered al new),
  h,
)
