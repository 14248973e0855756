-- ===== src/Config/Resolve/Aliases.antt =====
-- `resolveAll`: which aliases become hosts, in which order, and what each key of the map holds.
use kimi_ssh.Base.{
  Bool, true, false, ◌≡◌, refl, sym, ap, ◌∙◌, inl, inr, Option, none, some, List, [], ◌∷◌, ◌++◌,
  append_assoc, append-nil, arith, if◌then◌else◌, any, any-append, Bool-cases,
}
use kimi_ssh.Base.Dict.{Dict, insert}
use kimi_ssh.Base.Text.{
  Text, same_text_iff, to_lower, equal_fold, equal_fold_iff, equal_fold_self, equal_fold_lem,
}
use kimi_ssh.Config.Block.{HostBlock, literal_alias}
use kimi_ssh.Config.Settings.{SshConfig}
use kimi_ssh.Config.Resolve.{
  has_key, resolve, Claims, claim, claim_literal, claim_patterns, claim_blocks, no_hosts,
  resolve_all,
}

-- The aliases that the patterns name literally, in file order.
abbrev pub and_literal : Option Text → List Text → List Text
and_literal none als = als
and_literal (some al) als = al ∷ als

abbrev pub literals_of : List Text → List Text
literals_of [] = []
literals_of (p ∷ ps) = and_literal (literal_alias p) (literals_of ps)

abbrev pub literals : List HostBlock → List Text
literals [] = []
literals (b ∷ bs) = literals_of b.patterns ++ literals bs

abbrev pub drop_fold : Text → List Text → List Text
drop_fold al [] = []
drop_fold al (x ∷ xs) = let rest = drop_fold al xs in if equal_fold al x then rest else x ∷ rest

-- The first spelling of each alias, case aside.
abbrev pub first_spellings : List Text → List Text
first_spellings [] = []
first_spellings (al ∷ als) = al ∷ drop_fold al (first_spellings als)

abbrev pub with_config : (Text → SshConfig) → List Text → Dict SshConfig
with_config config_of [] = []
with_config config_of (al ∷ als) = (al, config_of al) ∷ with_config config_of als

abbrev pub known : List Text → Text → Bool
known als x = any (λ al. equal_fold al x) als

unfoldable pub drop_known : List Text → List Text → List Text
drop_known als [] = []
drop_known als (x ∷ xs) = let rest = drop_known als xs in if known als x then rest else x ∷ rest

drop_known_one :
    (als : List Text) (al : Text) (xs : List Text)
    → drop_known (als ++ al ∷ []) xs ≡ drop_known als (drop_fold al xs)
unfolding drop_known
drop_known_one als al [] = refl
drop_known_one als al (x ∷ xs) =
    ground (arith, any-append (λ a. equal_fold a x) als (al ∷ []), drop_known_one als al xs)

-- A text that differs from a known one in case only is known.
known_fold :
    (als : List Text) (al x : Text)
    → known als al ≡ true
    → equal_fold al x ≡ true
    → known als x ≡ true
known_fold [] al x h e = ground arith
known_fold (a ∷ als) al x h e = elim (Bool-cases (equal_fold a al)) [
  | inl s ↦ rw (fold_trans s) refl
  | inr n ↦ ground (arith, known_fold als al x)
]
  where
    fold_trans : equal_fold a al ≡ true → equal_fold a x ≡ true
    fold_trans s = (equal_fold_iff a x).1 ((equal_fold_iff a al).0 s ∙ (equal_fold_iff al x).0 e)

drop_known_again :
    (als : List Text) (al : Text) (xs : List Text)
    → known als al ≡ true
    → drop_known als (drop_fold al xs) ≡ drop_known als xs
unfolding drop_known
drop_known_again als al [] h = refl
drop_known_again als al (x ∷ xs) h =
    ground (arith, known_fold als al x h, drop_known_again als al xs h)

drop_known_old :
    (als : List Text) (al : Text) (xs : List Text)
    → known als al ≡ true
    → drop_known als (al ∷ drop_fold al xs) ≡ drop_known als xs
drop_known_old als al xs h = unfold drop_known in rw h (drop_known_again als al xs h)

drop_known_new :
    (als : List Text) (al : Text) (xs : List Text)
    → known als al ≡ false
    → drop_known als (al ∷ drop_fold al xs) ≡ al ∷ drop_known (als ++ al ∷ []) xs
drop_known_new als al xs h =
    unfold drop_known in rw h (ap (◌∷◌ al) (sym (drop_known_one als al xs)))

pub drop_known-nil : (xs : List Text) → drop_known [] xs ≡ xs
unfolding drop_known
drop_known-nil [] = refl
drop_known-nil (x ∷ xs) = ap (◌∷◌ x) (drop_known-nil xs)

module _ (config_of : Text → SshConfig) where
  claim_all : Claims → List Text → Claims
  claim_all s [] = s
  claim_all s (al ∷ als) = claim_all (claim config_of s al) als

  claim_all-append :
      (s : Claims) (xs ys : List Text) → claim_all s (xs ++ ys) ≡ claim_all (claim_all s xs) ys
  unfolding claim_all
  claim_all-append s [] ys = refl
  claim_all-append s (x ∷ xs) ys = claim_all-append (claim config_of s x) xs ys

  claim_patterns_lem :
      (s : Claims) (ps : List Text) → claim_patterns config_of s ps ≡ claim_all s (literals_of ps)
  unfolding claim_patterns claim_all
  claim_patterns_lem s [] = refl
  claim_patterns_lem s (p ∷ ps) = one (literal_alias p) (λ t. claim_patterns_lem t ps)
    where
      one :
          (o : Option Text)
          → ((t : Claims) → claim_patterns config_of t ps ≡ claim_all t (literals_of ps))
          → claim_patterns config_of (claim_literal config_of s o) ps
            ≡ claim_all s (and_literal o (literals_of ps))
      one none ih = ih s
      one (some al) ih = ih (claim config_of s al)

  claim_blocks_lem :
      (s : Claims) (bs : List HostBlock) → claim_blocks config_of s bs ≡ claim_all s (literals bs)
  unfolding claim_blocks
  claim_blocks_lem s [] = unfold claim_all in refl
  claim_blocks_lem s (b ∷ bs) =
      claim_blocks_lem (claim_patterns config_of s b.patterns) bs
      ∙ ap (λ t. claim_all t (literals bs)) (claim_patterns_lem s b.patterns)
      ∙ sym (claim_all-append s (literals_of b.patterns) (literals bs))

  record Inv (s : Claims) : Type 0 where
    keyed : s.hosts.configs ≡ with_config config_of s.hosts.order
    folded : (al : Text) → has_key s.claimed (to_lower al) ≡ known s.hosts.order al

  with_config-insert :
      (als : List Text) (al : Text)
      → known als al ≡ false
      → insert al (config_of al) (with_config config_of als)
        ≡ with_config config_of (als ++ al ∷ [])
  unfolding insert
  with_config-insert [] al h = refl
  with_config-insert (a ∷ als) al h =
      ground (arith, with_config-insert als al, same_text_iff a al, equal_fold_self a)

  claim-Inv : (s : Claims) (al : Text) → Inv s → Inv (claim config_of s al)
  claim-Inv s al i = elim (Bool-cases (has_key s.claimed (to_lower al))) [
    | inl e ↦ rw e i
    | inr e ↦ rw e (record {
      keyed =
          ap (insert al (config_of al)) i.keyed
          ∙ with_config-insert s.hosts.order al (sym (i.folded al) ∙ e);
      folded = λ x. ground (
        arith,
        any-append (λ a. equal_fold a x) s.hosts.order (al ∷ []),
        i.folded x,
        equal_fold_lem al x,
      );
    })
  ]

  claim_all-Inv : (s : Claims) (als : List Text) → Inv s → Inv (claim_all s als)
  unfolding claim_all
  claim_all-Inv s [] i = i
  claim_all-Inv s (al ∷ als) i = claim_all-Inv (claim config_of s al) als (claim-Inv s al i)

  claim_all_order :
      (s : Claims) (als : List Text)
      → Inv s
      → (claim_all s als).hosts.order
        ≡ s.hosts.order ++ drop_known s.hosts.order (first_spellings als)
  unfolding claim_all
  claim_all_order s [] i = unfold drop_known in sym (append-nil s.hosts.order)
  claim_all_order s (al ∷ als) i =
      let ih = claim_all_order (claim config_of s al) als (claim-Inv s al i) in
      elim (Bool-cases (has_key s.claimed (to_lower al))) [
        | inl e ↦
            rw
              (
                drop_known_old s.hosts.order al (first_spellings als) (sym (i.folded al) ∙ e),
                claim_all,
                e,
              )
              (rw e at ih)
        | inr e ↦
            rw
              (
                drop_known_new s.hosts.order al (first_spellings als) (sym (i.folded al) ∙ e),
                claim_all,
                e,
              )
              (rw e at ih ∙ append_assoc s.hosts.order (al ∷ []) _)
      ]

initial-Inv :
    (config_of : Text → SshConfig) → Inv config_of (record { hosts = no_hosts; claimed = [] })
initial-Inv config_of = record { keyed = refl; folded = λ al. refl }

-- The hosts are the first spellings, case aside, of the aliases that the `Host` lines name
-- literally, in file order, and the map holds for each of them its resolved entry and nothing
-- else.
pub resolve_all-first_spellings :
    (home : Option Text) (bs : List HostBlock)
    → resolve_all home bs ≡ record {
      configs = with_config (resolve home bs) (first_spellings (literals bs));
      order = first_spellings (literals bs);
    }
unfolding resolve_all
resolve_all-first_spellings home bs =
    λ i. record { configs = (keyed ∙ ap (with_config config_of) ordered) i; order = ordered i }
  where
    config_of : Text → SshConfig
    config_of = resolve home bs

    begin : Claims
    begin = record { hosts = no_hosts; claimed = [] }

    inv : Inv config_of (claim_blocks config_of begin bs)
    inv =
        rw (claim_blocks_lem config_of begin bs)
          (claim_all-Inv config_of begin (literals bs) (initial-Inv config_of))

    keyed :
        (claim_blocks config_of begin bs).hosts.configs
        ≡ with_config config_of (claim_blocks config_of begin bs).hosts.order
    keyed = inv.keyed

    ordered : (claim_blocks config_of begin bs).hosts.order ≡ first_spellings (literals bs)
    ordered = rw (claim_blocks_lem config_of begin bs) (
        claim_all_order config_of begin (literals bs) (initial-Inv config_of)
        ∙ drop_known-nil (first_spellings (literals bs)))
