-- ===== src/Config/Resolve.antt =====
-- `resolve`, `resolveAll`, `OrderedConfigs`, `GetAllConfigs` and `GetConfig` of
-- internal/ssh/config.go: the folding of the blocks into one entry per alias.
pub mod FirstObtained
pub mod Aliases
pub mod Lookup
pub mod Repeat
use kimi_ssh.Base.{
  ℕ, Bool, true, false, Option, none, some, List, [], ◌∷◌, ◌++◌, if◌then◌else◌, any,
}
use kimi_ssh.Base.Dict.{Dict, lookup, insert}
use kimi_ssh.Base.Text.{Text, same_text, to_lower, equal_fold}
use kimi_ssh.Config.Block.{Setting, HostBlock, applies_to, literal_alias}
use kimi_ssh.Config.Settings.{SshConfig, initial_config, apply_setting}

-- A Go map from texts to `true`, as the list of its keys.
abbrev pub has_key : List Text → Text → Bool
has_key keys k = any (λ j. same_text j k) keys

-- The local variables `config` and `assigned` of `resolve`.
pub record Resolving : Type 0 where
  pub config : SshConfig
  pub assigned : List Text

module _ (home : Option Text) where
  -- The body of the inner loop.
  unfoldable pub obtain : Resolving → Text → Text → Resolving
  obtain s keyword value =
      if has_key s.assigned keyword
      then s
      else let (config, understood) = apply_setting home s.config keyword value in
        record {
          config = config;
          assigned = if understood then keyword ∷ s.assigned else s.assigned;
        }

  unfoldable pub obtain_all : Resolving → List Setting → Resolving
  obtain_all s [] = s
  obtain_all s (d ∷ ds) = obtain_all (obtain s d.keyword d.value) ds

  unfoldable pub resolve_blocks : Text → Resolving → List HostBlock → Resolving
  resolve_blocks al s [] = s
  resolve_blocks al s (b ∷ bs) =
      resolve_blocks al (if applies_to b al then obtain_all s b.directives else s) bs

  unfoldable pub resolve : List HostBlock → Text → SshConfig
  unfolding resolve_blocks obtain_all obtain
  resolve blocks al =
      (resolve_blocks al (record { config = initial_config al; assigned = [] }) blocks).config

-- The result of `resolveAll`: `configs` and `order`.
pub record Hosts : Type 0 where
  pub configs : Dict SshConfig
  pub order : List Text

-- The local variables of `resolveAll`.
pub record Claims : Type 0 where
  pub hosts : Hosts
  pub claimed : List Text

abbrev pub claim : (Text → SshConfig) → Claims → Text → Claims
claim config_of s al = if has_key s.claimed (to_lower al) then s else record {
  hosts = record {
    configs = insert al (config_of al) s.hosts.configs;
    order = s.hosts.order ++ al ∷ [];
  };
  claimed = to_lower al ∷ s.claimed;
}

abbrev pub claim_literal : (Text → SshConfig) → Claims → Option Text → Claims
claim_literal config_of s none = s
claim_literal config_of s (some al) = claim config_of s al

unfoldable pub claim_patterns : (Text → SshConfig) → Claims → List Text → Claims
claim_patterns config_of s [] = s
claim_patterns config_of s (p ∷ ps) =
    claim_patterns config_of (claim_literal config_of s (literal_alias p)) ps

unfoldable pub claim_blocks : (Text → SshConfig) → Claims → List HostBlock → Claims
unfolding claim_patterns
claim_blocks config_of s [] = s
claim_blocks config_of s (b ∷ bs) =
    claim_blocks config_of (claim_patterns config_of s b.patterns) bs

abbrev pub no_hosts : Hosts
no_hosts = record { configs = []; order = [] }

unfoldable pub resolve_all : Option Text → List HostBlock → Hosts
unfolding claim_blocks resolve
resolve_all home blocks =
    (claim_blocks (resolve home blocks) (record { hosts = no_hosts; claimed = [] }) blocks).hosts

pub configs_of : Hosts → List Text → List (Option SshConfig)
configs_of h [] = []
configs_of h (al ∷ order) = lookup al h.configs ∷ configs_of h order

-- `none` is the nil pointer of a missing key.
unfoldable pub ordered_configs : Hosts → List (Option SshConfig)
unfolding configs_of
ordered_configs h = configs_of h h.order

unfoldable pub find_fold : List Text → Text → Option Text
find_fold [] host = none
find_fold (al ∷ order) host = if equal_fold al host then some al else find_fold order host

-- `GetConfig`: the exact key first, then the first alias that differs in case only.
unfoldable pub get_config : Hosts → Text → Option SshConfig
get_config h host = elim (lookup host h.configs) [
  | some config ↦ some config
  | none ↦ elim (find_fold h.order host) [ some al ↦ lookup al h.configs | none ↦ none ]
]
