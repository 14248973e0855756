-- ===== src/Config/Resolve/Lookup.antt =====
-- `OrderedConfigs` and `GetConfig` on what `resolveAll` leaves.
use mathlib.Core.List.{map}
use kimi_ssh.Base.{
  true, false, ◌&&◌, not, ◌≡◌, refl, ap, inl, inr, Option, none, some, List, [], ◌∷◌, arith,
  if◌then◌else◌, Bool-cases, Option-cases,
}
use kimi_ssh.Base.Dict.{lookup}
use kimi_ssh.Base.Text.{
  Text, same_text_iff, same_text_self, equal_fold, equal_fold_iff, equal_fold_self, equal_fold_lem,
}
use kimi_ssh.Config.Block.{HostBlock}
use kimi_ssh.Config.Settings.{SshConfig}
use kimi_ssh.Config.Resolve.{
  has_key, resolve, resolve_all, ordered_configs, configs_of, get_config, find_fold,
}
use kimi_ssh.Config.Resolve.Aliases.{
  literals, drop_fold, first_spellings, with_config, resolve_all-first_spellings,
}

module _ (config_of : Text → SshConfig) where
  pub lookup-with_config :
      (als : List Text) (al : Text)
      → lookup al (with_config config_of als)
        ≡ (if has_key als al then some (config_of al) else none)
  unfolding lookup
  lookup-with_config [] al = refl
  lookup-with_config (a ∷ als) al = ground (arith, same_text_iff a al, lookup-with_config als al)

  configs_of_lem :
      (order als : List Text)
      → ((al : Text) → has_key als al ≡ true → has_key order al ≡ true)
      → configs_of (record { configs = with_config config_of order; order = order }) als
        ≡ map (λ al. some (config_of al)) als
  unfolding configs_of
  configs_of_lem order [] h = refl
  configs_of_lem order (al ∷ als) h =
      let found : has_key order al ≡ true = h al (rw same_text_self) in
      rw (lookup-with_config order al, found)
        (ap (◌∷◌ (some (config_of al))) (configs_of_lem order als λ x k. h x (ground arith)))

-- The list of hosts has an entry for every alias, in order, and no nil pointer.
pub ordered_configs-resolve_all :
    (home : Option Text) (bs : List HostBlock)
    → ordered_configs (resolve_all home bs)
      ≡ map (λ al. some (resolve home bs al)) (first_spellings (literals bs))
unfolding ordered_configs
ordered_configs-resolve_all home bs = rw (resolve_all-first_spellings home bs) (
    configs_of_lem (resolve home bs) (first_spellings (literals bs)) (first_spellings (literals bs))
      λ al h. h)

has_key-drop_fold :
    (al : Text) (xs : List Text) (x : Text)
    → has_key (drop_fold al xs) x ≡ (has_key xs x && not (equal_fold al x))
has_key-drop_fold al [] x = refl
has_key-drop_fold al (y ∷ xs) x = ground (arith, same_text_iff y x, has_key-drop_fold al xs x)

-- The first spelling that equals a text, case aside.
abbrev pub spelling : List Text → Text → Option Text
spelling [] host = none
spelling (al ∷ als) host = if equal_fold al host then some al else spelling als host

find_fold_lem : (als : List Text) (host : Text) → find_fold als host ≡ spelling als host
unfolding find_fold
find_fold_lem [] host = refl
find_fold_lem (al ∷ als) host = ground (arith, find_fold_lem als host)

fold_same : (a b x : Text) → equal_fold a b ≡ true → equal_fold a x ≡ equal_fold b x
fold_same a b x h = rw (equal_fold_lem a x, equal_fold_lem b x, (equal_fold_iff a b).0 h)

spelling-drop_fold :
    (al : Text) (xs : List Text) (host : Text)
    → equal_fold al host ≡ false
    → spelling (drop_fold al xs) host ≡ spelling xs host
spelling-drop_fold al [] host h = refl
spelling-drop_fold al (x ∷ xs) host h =
    ground (arith, spelling-drop_fold al xs host h, fold_same al x host)

spelling-first_spellings :
    (als : List Text) (host : Text) → spelling (first_spellings als) host ≡ spelling als host
spelling-first_spellings [] host = refl
spelling-first_spellings (al ∷ als) host =
    ground
      (arith, spelling-first_spellings als host, spelling-drop_fold al (first_spellings als) host)

-- An exact spelling among the first ones is what the search would find.
exact_spelling :
    (als : List Text) (host : Text)
    → has_key (first_spellings als) host ≡ true
    → spelling als host ≡ some host
exact_spelling [] host h = ground arith
exact_spelling (al ∷ als) host h = ground (
  arith,
  same_text_iff al host,
  equal_fold_self al,
  exact_spelling als host,
  has_key-drop_fold al (first_spellings als) host,
)

abbrev pub config_at : (Text → SshConfig) → Option Text → Option SshConfig
config_at config_of none = none
config_at config_of (some al) = some (config_of al)

spelling_known :
    (als : List Text) (host al : Text) → spelling als host ≡ some al → has_key als al ≡ true
spelling_known [] host al h = ground arith
spelling_known (a ∷ als) host al h = ground (arith, spelling_known als host al, same_text_self a)

get_config_lem :
    (config_of : Text → SshConfig) (als : List Text) (host : Text)
    → get_config
        (record {
          configs = with_config config_of (first_spellings als);
          order = first_spellings als;
        })
        host
      ≡ config_at config_of (spelling als host)
unfolding get_config
get_config_lem config_of als host = elim (Bool-cases (has_key (first_spellings als) host)) [
  | inl e ↦
      ground
        (arith, lookup-with_config config_of (first_spellings als) host, exact_spelling als host e)
  | inr e ↦ elim (Option-cases (spelling als host)) [
    | inl n ↦ ground (
      arith,
      lookup-with_config config_of (first_spellings als) host,
      find_fold_lem (first_spellings als) host,
      spelling-first_spellings als host,
    )
    | inr (al, s) ↦ ground (
      arith,
      lookup-with_config config_of (first_spellings als) host,
      lookup-with_config config_of (first_spellings als) al,
      find_fold_lem (first_spellings als) host,
      spelling-first_spellings als host,
      spelling_known (first_spellings als) host al,
    )
  ]
]

-- `get_config` finds the first literal alias of the files that equals the name, case aside, and
-- returns the entry of that spelling; it fails when there is none.
pub get_config-resolve_all :
    (home : Option Text) (bs : List HostBlock) (host : Text)
    → get_config (resolve_all home bs) host
      ≡ config_at (resolve home bs) (spelling (literals bs) host)
get_config-resolve_all home bs host =
    rw (resolve_all-first_spellings home bs) (get_config_lem (resolve home bs) (literals bs) host)
