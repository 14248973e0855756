-- ===== src/Examples/Parsing.antt =====
-- The theorems about the ssh config at concrete files, patterns and names.
use kimi_ssh.Base.{
  ap, ◌∙◌, Bool, true, ◌&&◌, not, ◌≡◌, ◌↔◌, refl, none, some, List, [], ◌∷◌, ◌++◌, any, All, arith,
}
use kimi_ssh.Base.Text.{
  Text, trim_prefix, codes, to_lower, has_prefix, contains_any, same_text, join,
}
use kimi_ssh.Base.Text.Fields.{fields, is_space, IsWord}
use kimi_ssh.Config.Glob.{glob_match, glob_run}
use kimi_ssh.Config.Glob.Matches.{Matches}
use kimi_ssh.Config.Glob.Meaning.{glob_match-Matches, glob_run_total}
use kimi_ssh.Config.Block.{HostBlock, applies_to, literal_alias}
use kimi_ssh.Config.Block.Coverage.{names, excludes, applies_to_lem}
use kimi_ssh.Base.Dict.{lookup, insert}
use kimi_ssh.Config.Settings.{SshConfig, initial_config, apply_setting}
use kimi_ssh.Config.Directive.{split_directive, until_comment}
use kimi_ssh.Config.Directive.RoundTrip.{split_directive_line}
use kimi_ssh.Config.Load.{
  Loading, load_sources, new_config_parser, parse_config_files, FileSystem, readable, unlisted,
  missing,
}
use kimi_ssh.Config.Load.Once.{
  IsLoading, load_sources-IsLoading, ParseResult, parse_config_files-ParseResult,
}
use kimi_ssh.Config.Resolve.{resolve, resolve_all, get_config}
use kimi_ssh.Config.Resolve.FirstObtained.{
  covered, first_obtained, first_obtained_config, resolve-first_obtained,
}
use kimi_ssh.Config.Resolve.Aliases.{
  literals, first_spellings, with_config, resolve_all-first_spellings,
}
use kimi_ssh.Config.Resolve.Lookup.{spelling, config_at, get_config-resolve_all}
use kimi_ssh.Config.Settings.Fields.{port_field}
use kimi_ssh.Config.Load.Grouped.{grouped, settings_of, lacks_include}
use kimi_ssh.Config.Load.Flat.{IsFlatDisk, flat_parser, parse_config_files-flat}
use kimi_ssh.Config.Load.Again.{parse_twice-flat, parse_twice, parse_twice_stale_port}
use kimi_ssh.Examples.Data.{home, web, db, blocks, disk}

-- The user of the first block wins, and the second block gives the port.
resolve-web : (resolve home blocks web).user ≡ codes "deploy"
unfolding resolve applies_to has_prefix glob_match trim_prefix apply_setting same_text
resolve-web = refl

resolve-web_port : (resolve home blocks web).port ≡ codes "2222"
unfolding resolve applies_to has_prefix glob_match trim_prefix apply_setting same_text
resolve-web_port = refl

web-lacks_star : literal_alias web ≡ some web
unfolding literal_alias same_text has_prefix contains_any
web-lacks_star = refl

resolve-first_obtained_example :
    resolve home blocks web ≡ first_obtained_config home web (covered web blocks)
resolve-first_obtained_example = resolve-first_obtained home blocks web

glob_match-Matches_example :
    (glob_match (codes "W?*b") web ≡ true) ↔ Matches (to_lower (codes "W?*b")) (to_lower web)
glob_match-Matches_example =
    glob_match-Matches (codes "W?*b") web
      ((λ e. ground arith), ((λ e. ground arith), ((λ e. ground arith), tt)))

glob_run_total_example : (b : Bool) × (glob_run (codes "*a*b") (codes "aab") ≡ some b)
glob_run_total_example = glob_run_total (codes "*a*b") (codes "aab")

abbrev first_block : HostBlock
first_block = record { patterns = codes "w*" ∷ codes "!web" ∷ []; directives = [] }

applies_to_lem_example :
    applies_to first_block web
    ≡ (any (names web) first_block.patterns && not (any (excludes web) first_block.patterns))
applies_to_lem_example = applies_to_lem first_block web

resolve_all-first_spellings_example : resolve_all home blocks ≡ record {
  configs = with_config (resolve home blocks) (first_spellings (literals blocks));
  order = first_spellings (literals blocks);
}
resolve_all-first_spellings_example = resolve_all-first_spellings home blocks

get_config-resolve_all_example :
    get_config (resolve_all home blocks) (codes "DB")
    ≡ config_at (resolve home blocks) (spelling (literals blocks) (codes "DB"))
get_config-resolve_all_example = get_config-resolve_all home blocks (codes "DB")

-- The words of the line.
line_words : All IsWord (codes "Host" ∷ web ∷ db ∷ [])
unfolding is_space
line_words = (
  ((λ e. ground arith), (refl, (refl, (refl, (refl, tt))))),
  (
    ((λ e. ground arith), (refl, (refl, (refl, tt)))),
    (((λ e. ground arith), (refl, (refl, tt))), tt),
  ),
)

comment_words : All IsWord (codes "#" ∷ [])
unfolding is_space
comment_words = (((λ e. ground arith), (refl, tt)), tt)

split_directive_line_example :
    split_directive (codes " " ++ join (codes "Host" ∷ web ∷ db ∷ codes "#" ∷ []) (codes " "))
    ≡ some (record { keyword = to_lower (codes "Host"); value = join (web ∷ db ∷ []) (codes " ") })
unfolding is_space has_prefix
split_directive_line_example =
    split_directive_line (codes " ") (codes "Host") web (db ∷ []) (codes "#" ∷ []) (refl, tt)
      line_words (refl, (refl, (refl, tt))) comment_words refl

-- Nothing has been read yet.
abbrev nothing_read : Loading
nothing_read = record { blocks = []; current = none; loaded = []; opened = [] }

nothing_read-IsLoading : IsLoading nothing_read
nothing_read-IsLoading = record {
  opened_once = tt;
  marked = λ path e. refl;
  current_is_last = λ i e. ground arith;
}

load_sources-IsLoading_example :
    IsLoading (load_sources disk (codes "/s") nothing_read (codes "/s/config" ∷ [])).0
load_sources-IsLoading_example =
    load_sources-IsLoading disk (codes "/s") (codes "/s/config" ∷ []) nothing_read
      nothing_read-IsLoading

parse_config_files-ParseResult_example :
    ParseResult home new_config_parser (parse_config_files disk new_config_parser)
parse_config_files-ParseResult_example = parse_config_files-ParseResult disk new_config_parser

abbrev flat_lines : List Text
flat_lines = codes "User root" ∷ codes "Host web" ∷ codes "  Port 2222" ∷ []

-- One file, and no directory beside it.
abbrev flat_disk : FileSystem
flat_disk = record disk {
  open_file = λ path. readable flat_lines none;
  read_dir = λ dir. unlisted missing;
}

flat_lines-lacks_include : lacks_include (settings_of flat_lines) ≡ true
unfolding split_directive until_comment same_text fields to_lower
flat_lines-lacks_include = refl

parse_config_files-flat_example :
    parse_config_files flat_disk new_config_parser ≡ (flat_parser flat_disk.home flat_lines, none)
parse_config_files-flat_example =
    parse_config_files-flat flat_disk (codes "/home/al") flat_lines refl refl refl
      flat_lines-lacks_include

flat_disk-IsFlatDisk : IsFlatDisk flat_disk (codes "/home/al") flat_lines
flat_disk-IsFlatDisk = record {
  home = refl;
  no_dir = refl;
  file = refl;
  no_include = flat_lines-lacks_include;
}

-- The port has changed.
abbrev changed_lines : List Text
changed_lines = codes "Host web" ∷ codes "  Port 22" ∷ []

abbrev changed_disk : FileSystem
changed_disk = record flat_disk { open_file = λ path. readable changed_lines none }

changed_disk-IsFlatDisk : IsFlatDisk changed_disk (codes "/home/al") changed_lines
unfolding split_directive until_comment same_text fields to_lower
changed_disk-IsFlatDisk = record { home = refl; no_dir = refl; file = refl; no_include = refl }

abbrev stale_entry : SshConfig
stale_entry = record (initial_config web) { port = codes "2222" }

old_port :
    first_obtained
      (port_field (some (codes "/home/al")))
      (covered web (grouped (settings_of flat_lines)))
    ≡ some (codes "2222")
unfolding applies_to glob_match has_prefix trim_prefix same_text split_directive until_comment
    fields to_lower
old_port = refl

stale_entry-resolved :
    lookup web
      (resolve_all home
        (grouped (settings_of flat_lines) ++ grouped (settings_of changed_lines))).configs
    ≡ some stale_entry
unfolding applies_to glob_match has_prefix trim_prefix same_text split_directive until_comment
    fields to_lower resolve_all resolve lookup apply_setting literal_alias contains_any insert
stale_entry-resolved = refl

stale_entry-there : lookup web (parse_twice flat_disk changed_disk).hosts.configs ≡ some stale_entry
stale_entry-there =
    ap (λ p. lookup web p.hosts.configs)
      (parse_twice-flat flat_disk changed_disk (codes "/home/al") flat_lines changed_lines
        flat_disk-IsFlatDisk changed_disk-IsFlatDisk)
    ∙ stale_entry-resolved

parse_twice_stale_port_example : stale_entry.port ≡ codes "2222"
parse_twice_stale_port_example =
    parse_twice_stale_port flat_disk changed_disk (codes "/home/al") flat_lines changed_lines
      flat_disk-IsFlatDisk changed_disk-IsFlatDisk web (codes "2222") stale_entry old_port
      stale_entry-there
