-- ===== src/Config/Load.antt =====
-- `ParseConfigFiles`, `confFiles`, `loadFile`, `loadIncludes`, `includeTargets` and `openBlock` of
-- internal/ssh/config.go. The file system is a record of functions. `state.current` is a pointer into
-- `p.blocks`, kept here as an index. A function returns the state it leaves together with the error,
-- as the blocks that were read before an error stay in the parser.
pub mod Again
pub mod Grouped
pub mod Induction
pub mod Once
pub mod Flat
use kimi_ssh.Base.{
  ℕ, zero, suc, ◌+◌, Bool, true, false, not, ◌&&◌, ◌||◌, Option, none, some, List, [], ◌∷◌, ◌++◌,
  if◌then◌else◌, length,
}
use kimi_ssh.Base.Text.{Text, codes, same_text, contains_any, has_suffix}
use kimi_ssh.Base.Text.Fields.{fields}
use kimi_ssh.Base.FilePath.{path_join, is_abs}
use kimi_ssh.Base.Sort.{sort_texts}
use kimi_ssh.Config.Block.{Setting, HostBlock}
use kimi_ssh.Config.Directive.{split_directive}
use kimi_ssh.Base.Dict.{Dict}
use kimi_ssh.Config.Settings.{SshConfig, expand_tilde}
use kimi_ssh.Config.Resolve.{has_key, Hosts, no_hosts, resolve_all}

-- `missing` is the one error for which `os.IsNotExist` answers true; it does not look into `wrapped`.
pub data LoadError : Type 0 where
  missing failed no_home : LoadError
  wrapped : Text → LoadError → LoadError

abbrev pub is_not_exist : LoadError → Bool
is_not_exist missing = true
is_not_exist _ = false

-- What `os.Open` and the scanner give: the lines, and the error that ends them, or an error at once.
pub data Opened : Type 0 where
  readable : List Text → Option LoadError → Opened
  refused : LoadError → Opened

-- What `os.ReadDir` gives: each entry's name, and whether it is a directory.
pub data Listing : Type 0 where
  entries : List (Text × Bool) → Listing
  unlisted : LoadError → Listing

-- The calls of the packages os and path/filepath whose results depend on the machine. `none` is the
-- error of UserHomeDir, Abs or Glob.
pub record FileSystem : Type 0 where
  pub home : Option Text
  pub absolute : Text → Option Text
  pub open_file : Text → Opened
  pub read_dir : Text → Listing
  pub glob : Text → Option (List Text)

-- `p.blocks`, `state.current` and `loaded`; and the files that `os.Open` was called on, the latest
-- first, each by its absolute path, or none if it has none.
pub record Loading : Type 0 where
  pub blocks : List HostBlock
  pub current : Option ℕ
  pub loaded : List Text
  pub opened : List (Option Text)

abbrev pub Load : Type 0
Load = Loading × Option LoadError

abbrev pub max_include_depth : ℕ
max_include_depth = 8

unfoldable pub open_block : Loading → Text → Loading
open_block s patterns = record s {
  blocks = s.blocks ++ record { patterns = fields patterns; directives = [] } ∷ [];
  current = some (length s.blocks);
}

unfoldable pub append_directive : List HostBlock → ℕ → Setting → List HostBlock
append_directive [] i d = []
append_directive (b ∷ bs) zero d = record b { directives = b.directives ++ d ∷ [] } ∷ bs
append_directive (b ∷ bs) (suc i) d = b ∷ append_directive bs i d

-- The default case of the switch: text before the first block has nowhere to go.
unfoldable pub add_directive : Loading → Setting → Loading
unfolding append_directive
add_directive s d = elim s.current [
  | none ↦ s
  | some i ↦ record s { blocks = append_directive s.blocks i d }
]

module _ (fs : FileSystem) where
  unfoldable pub include_targets : Text → Text → List Text
  include_targets ssh_dir pattern =
      let expanded = expand_tilde fs.home pattern in
      let path = if is_abs expanded then expanded else path_join (ssh_dir ∷ expanded ∷ []) in
      if not (contains_any path (codes "*?["))
      then path ∷ []
      else elim (fs.glob path) [ none ↦ path ∷ [] | some matches ↦ matches ]

-- The inner loop of `loadIncludes`, over the files that one pattern names.
unfoldable pub load_targets : (Loading → Text → Load) → Loading → List Text → Load
load_targets load s [] = (s, none)
load_targets load s (target ∷ rest) = elim (load s target).1 [
  | none ↦ load_targets load (load s target).0 rest
  | some e ↦ elim (is_not_exist e) [
    | true ↦ load_targets load (load s target).0 rest
    | false ↦ ((load s target).0, some (wrapped target e))
  ]
]

-- The outer loop of `loadIncludes`, over the fields of the value.
unfoldable pub load_patterns :
    (Text → List Text) → (Loading → Text → Load) → Loading → List Text → Load
unfolding load_targets
load_patterns targets load s [] = (s, none)
load_patterns targets load s (pattern ∷ rest) = elim (load_targets load s (targets pattern)).1 [
  | none ↦ load_patterns targets load (load_targets load s (targets pattern)).0 rest
  | some e ↦ ((load_targets load s (targets pattern)).0, some e)
]

-- The loop of `loadFile` over the lines; `include` is `loadIncludes` one level down.
unfoldable pub load_lines : (Loading → Text → Load) → Loading → List Text → Option LoadError → Load
load_lines include s [] end = (s, end)
load_lines include s (line ∷ lines) end = elim (split_directive line) [
  | none ↦ load_lines include s lines end
  | some d ↦ elim (same_text d.keyword (codes "host")) [
    | true ↦ load_lines include (open_block s d.value) lines end
    | false ↦ elim (same_text d.keyword (codes "include")) [
      | true ↦ elim (include s d.value).1 [
        | none ↦ load_lines include (include s d.value).0 lines end
        | some e ↦ ((include s d.value).0, some e)
      ]
      | false ↦ load_lines include (add_directive s d) lines end
    ]
  ]
]

-- The file's lines, or the error of opening it.
abbrev pub read_opened : (Loading → Text → Load) → Loading → Opened → Load
read_opened include s (readable lines end) = load_lines include s lines end
read_opened include s (refused e) = (s, some e)

-- A path that can be made absolute is read only once.
abbrev pub read_once : (Loading → Text → Load) → Loading → Option Text → Opened → Load
read_once include s none opened = read_opened include (record s { opened = none ∷ s.opened }) opened
read_once include s (some absolute) opened =
    if has_key s.loaded absolute
    then (s, none)
    else read_opened include
        (record s { loaded = absolute ∷ s.loaded; opened = some absolute ∷ s.opened }) opened

module _ (fs : FileSystem) (ssh_dir : Text) where
  -- `loadFile` at depth `max_include_depth + 1 - left`: with no level left it stops descending.
  unfoldable pub load_file : ℕ → Loading → Text → Load
  unfolding load_lines load_patterns include_targets
  load_file zero s path = (s, none)
  load_file (suc left) s path =
      read_once
        (λ t value. load_patterns (include_targets fs ssh_dir) (load_file left) t (fields value)) s
        (fs.absolute path) (fs.open_file path)

  -- The loop of `ParseConfigFiles` over its sources.
  unfoldable pub load_sources : Loading → List Text → Load
  unfolding load_file load_targets
  load_sources = load_targets (load_file (max_include_depth + 1))

abbrev pub is_conf : Text × Bool → Bool
is_conf (name, is_dir) = not is_dir && has_suffix name (codes ".conf")

unfoldable pub conf_paths : Text → List (Text × Bool) → List Text
conf_paths dir [] = []
conf_paths dir (entry ∷ rest) =
    let more = conf_paths dir rest in
    if is_conf entry then path_join (dir ∷ entry.0 ∷ []) ∷ more else more

-- The names, or the error.
pub data Files : Type 0 where
  files : List Text → Files
  files_failed : LoadError → Files

unfoldable pub conf_files : Text → Listing → Files
unfolding conf_paths sort_texts
conf_files dir (entries es) = files (sort_texts (conf_paths dir es))
conf_files dir (unlisted e) = if is_not_exist e then files [] else files_failed (wrapped dir e)

-- `ConfigParser`: the blocks, and the result of the last successful parse.
pub record ConfigParser : Type 0 where
  pub blocks : List HostBlock
  pub hosts : Hosts

abbrev pub new_config_parser : ConfigParser
new_config_parser = record { blocks = []; hosts = no_hosts }

-- `GetAllConfigs`
abbrev pub all_configs : ConfigParser → Dict SshConfig
all_configs p = p.hosts.configs

-- After the loop: `resolveAll`, unless a source failed.
abbrev pub finish : Option Text → ConfigParser → Load → ConfigParser × Option LoadError
finish home p (s, none) = (record { blocks = s.blocks; hosts = resolve_all home s.blocks }, none)
finish home p (s, some e) = (record p { blocks = s.blocks }, some e)

abbrev pub parse_sources :
    FileSystem → ConfigParser → Text → Files → ConfigParser × Option LoadError
parse_sources fs p ssh_dir (files_failed e) = (p, some e)
parse_sources fs p ssh_dir (files extra) = finish fs.home p (
    load_sources fs ssh_dir (record { blocks = p.blocks; current = none; loaded = []; opened = [] })
      (path_join (ssh_dir ∷ codes "config" ∷ []) ∷ extra))

abbrev pub parse_at : FileSystem → ConfigParser → Option Text → ConfigParser × Option LoadError
parse_at fs p none = (p, some no_home)
parse_at fs p (some home) =
    let ssh_dir = path_join (home ∷ codes ".ssh" ∷ []) in
    let conf_dir = path_join (ssh_dir ∷ codes "config.d" ∷ []) in
    parse_sources fs p ssh_dir (conf_files conf_dir (fs.read_dir conf_dir))

unfoldable pub parse_config_files : FileSystem → ConfigParser → ConfigParser × Option LoadError
unfolding load_sources conf_files
parse_config_files fs p = parse_at fs p fs.home
