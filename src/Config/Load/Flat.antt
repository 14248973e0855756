-- ===== src/Config/Load/Flat.antt =====
-- `loadFile` and `ParseConfigFiles` on a file without `Include`.
use kimi_ssh.Base.{ℕ, suc, true, ◌≡◌, refl, ap, ◌∙◌, Option, none, some, List, [], ◌∷◌, ◌++◌, arith}
use kimi_ssh.Base.Text.{Text, codes}
use kimi_ssh.Base.FilePath.{path_join}
use kimi_ssh.Base.Text.Fields.{fields}
use kimi_ssh.Config.Block.{HostBlock}
use kimi_ssh.Config.Resolve.{resolve_all}
use kimi_ssh.Config.Load.{
  Load, missing, FileSystem, readable, unlisted, Loading, include_targets, load_patterns, finish,
  load_lines, read_once, load_file, load_targets, conf_files, load_sources, ConfigParser,
  new_config_parser, parse_at, parse_config_files,
}
use kimi_ssh.Config.Load.Grouped.{
  settings_of, lacks_include, grouped, load_lines-take_settings, take_settings-fresh,
}

-- What a file without `Include` leaves, before any file was read.
abbrev IsFlat : List HostBlock → List Text → Load → Type 0
IsFlat blocks lines r = (r.0.blocks ≡ blocks ++ grouped (settings_of lines)) × (r.1 ≡ none)

abbrev unopened : List HostBlock → List Text → List (Option Text) → Loading
unopened blocks loaded opened = record {
  blocks = blocks;
  current = none;
  loaded = loaded;
  opened = opened;
}

load_lines-IsFlat :
    (include : Loading → Text → Load) (blocks : List HostBlock) (loaded : List Text)
    (opened : List (Option Text)) (lines : List Text)
    → lacks_include (settings_of lines) ≡ true
    → IsFlat blocks lines (load_lines include (unopened blocks loaded opened) lines none)
load_lines-IsFlat include blocks loaded opened lines h =
    rw (load_lines-take_settings include (unopened blocks loaded opened) lines none h)
      (take_settings-fresh blocks loaded opened (settings_of lines), refl)

read_once-IsFlat :
    (include : Loading → Text → Load) (blocks : List HostBlock) (path : Option Text)
    (lines : List Text)
    → lacks_include (settings_of lines) ≡ true
    → IsFlat blocks lines (read_once include (unopened blocks [] []) path (readable lines none))
read_once-IsFlat include blocks none lines h =
    load_lines-IsFlat include blocks [] (none ∷ []) lines h
read_once-IsFlat include blocks (some a) lines h =
    load_lines-IsFlat include blocks (a ∷ []) (some a ∷ []) lines h

load_file-IsFlat :
    (fs : FileSystem) (ssh_dir : Text) (left : ℕ) (blocks : List HostBlock) (path : Text)
    (lines : List Text)
    → fs.open_file path ≡ readable lines none
    → lacks_include (settings_of lines) ≡ true
    → IsFlat blocks lines (load_file fs ssh_dir (suc left) (unopened blocks [] []) path)
unfolding load_file
load_file-IsFlat fs ssh_dir left blocks path lines e h =
    rw (e, load_file)
      (read_once-IsFlat
        (λ t value.
          load_patterns (include_targets fs ssh_dir) (load_file fs ssh_dir left) t (fields value))
        blocks (fs.absolute path) lines h)

-- One source, that is all that there is.
one_source-IsFlat :
    (load : Loading → Text → Load) (blocks : List HostBlock) (path : Text) (lines : List Text)
    → IsFlat blocks lines (load (unopened blocks [] []) path)
    → IsFlat blocks lines (load_targets load (unopened blocks [] []) (path ∷ []))
unfolding load_targets
one_source-IsFlat load blocks path lines h = rw (h.1, load_targets) (h.0, refl)

-- What is left of a parser after another file without `Include`.
abbrev pub flat_after : ConfigParser → Option Text → List Text → ConfigParser
flat_after p home lines = record {
  blocks = p.blocks ++ grouped (settings_of lines);
  hosts = resolve_all home (p.blocks ++ grouped (settings_of lines));
}

finish-IsFlat :
    (p : ConfigParser) (home : Option Text) (lines : List Text) (r : Load)
    → IsFlat p.blocks lines r
    → finish home p r ≡ (flat_after p home lines, none)
finish-IsFlat p home lines (s, none) h = rw h.0 refl
finish-IsFlat p home lines (s, some e) h = ground (arith, h.1)

abbrev pub config_path : Text → Text
config_path dir = path_join (path_join (dir ∷ codes ".ssh" ∷ []) ∷ codes "config" ∷ [])

abbrev pub config_dir : Text → Text
config_dir dir = path_join (path_join (dir ∷ codes ".ssh" ∷ []) ∷ codes "config.d" ∷ [])

-- What is left of a parser after one file without `Include`.
abbrev pub flat_parser : Option Text → List Text → ConfigParser
flat_parser home lines = record {
  blocks = grouped (settings_of lines);
  hosts = resolve_all home (grouped (settings_of lines));
}

parse_at-flat :
    (fs : FileSystem) (p : ConfigParser) (dir : Text) (lines : List Text)
    → fs.read_dir (config_dir dir) ≡ unlisted missing
    → fs.open_file (config_path dir) ≡ readable lines none
    → lacks_include (settings_of lines) ≡ true
    → parse_at fs p (some dir) ≡ (flat_after p fs.home lines, none)
unfolding load_sources conf_files
parse_at-flat fs p dir lines no_dir file h =
    let ssh_dir = path_join (dir ∷ codes ".ssh" ∷ []) in
    rw (no_dir, conf_files)
      (finish-IsFlat p fs.home lines
        (load_targets (load_file fs ssh_dir 9) (unopened p.blocks [] []) (config_path dir ∷ []))
        (one_source-IsFlat (load_file fs ssh_dir 9) p.blocks (config_path dir) lines
          (load_file-IsFlat fs ssh_dir 8 p.blocks (config_path dir) lines file h)))

-- One file without `Include`, and nothing beside it.
pub record IsFlatDisk (fs : FileSystem) (dir : Text) (lines : List Text) : Type 0 where
  pub home : fs.home ≡ some dir
  pub no_dir : fs.read_dir (config_dir dir) ≡ unlisted missing
  pub file : fs.open_file (config_path dir) ≡ readable lines none
  pub no_include : lacks_include (settings_of lines) ≡ true

pub parse_config_files-flat_after :
    (fs : FileSystem) (p : ConfigParser) (dir : Text) (lines : List Text)
    → IsFlatDisk fs dir lines
    → parse_config_files fs p ≡ (flat_after p (some dir) lines, none)
unfolding parse_config_files
parse_config_files-flat_after fs p dir lines h =
    ap (parse_at fs p) h.home
    ∙ parse_at-flat fs p dir lines h.no_dir h.file h.no_include
    ∙ rw h.home refl

-- When the one config file has no `Include` and there is no config.d directory, a first parse
-- succeeds and yields one block for each `Host` line, with the directives up to the next one, and
-- the hosts that are resolved from these blocks; the directives in front of the first `Host` line
-- are dropped.
pub parse_config_files-flat :
    (fs : FileSystem) (dir : Text) (lines : List Text)
    → fs.home ≡ some dir
    → fs.read_dir (config_dir dir) ≡ unlisted missing
    → fs.open_file (config_path dir) ≡ readable lines none
    → lacks_include (settings_of lines) ≡ true
    → parse_config_files fs new_config_parser ≡ (flat_parser fs.home lines, none)
parse_config_files-flat fs dir lines home no_dir file h =
    parse_config_files-flat_after fs new_config_parser dir lines
      (record { home = home; no_dir = no_dir; file = file; no_include = h })
    ∙ rw home refl
