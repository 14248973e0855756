-- ===== src/Config/Load/Again.antt =====
-- `ParseConfigFiles` when it runs a second time: the blocks of every run are kept.
use kimi_ssh.Base.{◌≡◌, sym, ap, ◌∙◌, Option, some, List, arith}
use kimi_ssh.Base.Dict.{lookup}
use kimi_ssh.Base.Text.{Text}
use kimi_ssh.Config.Block.{HostBlock}
use kimi_ssh.Config.Load.{FileSystem, ConfigParser, new_config_parser, parse_config_files}
use kimi_ssh.Config.Load.Flat.{IsFlatDisk, flat_after, parse_config_files-flat_after}
use kimi_ssh.Config.Load.Grouped.{settings_of, grouped}
use kimi_ssh.Config.Resolve.{resolve, resolve_all}
use kimi_ssh.Config.Resolve.Aliases.{
  first_spellings, literals, with_config, resolve_all-first_spellings,
}
use kimi_ssh.Config.Resolve.FirstObtained.{covered, first_obtained}
use kimi_ssh.Config.Resolve.Lookup.{lookup-with_config}
use kimi_ssh.Config.Resolve.Repeat.{resolve_stale_port}
use kimi_ssh.Config.Settings.{SshConfig}
use kimi_ssh.Config.Settings.Fields.{port_field}

-- The parser after two runs, on the files as they are at each.
abbrev pub parse_twice : FileSystem → FileSystem → ConfigParser
parse_twice old new = (parse_config_files new (parse_config_files old new_config_parser).0).0

pub parse_twice-flat :
    (old new : FileSystem) (dir : Text) (before after : List Text)
    → IsFlatDisk old dir before
    → IsFlatDisk new dir after
    → parse_twice old new
      ≡ flat_after (flat_after new_config_parser (some dir) before) (some dir) after
parse_twice-flat old new dir before after h k =
    ap (λ p. (parse_config_files new p.0).0)
      (parse_config_files-flat_after old new_config_parser dir before h)
    ∙ ap (λ p. p.0)
        (parse_config_files-flat_after new (flat_after new_config_parser (some dir) before) dir
          after k)

-- The entries of the map are those of `resolve`.
resolved :
    (home : Option Text) (bs : List HostBlock) (al : Text) (c : SshConfig)
    → lookup al (resolve_all home bs).configs ≡ some c
    → resolve home bs al ≡ c
resolved home bs al c e =
    let found : lookup al (with_config (resolve home bs) (first_spellings (literals bs))) ≡ some c =
      ap (λ h. lookup al h.configs) (sym (resolve_all-first_spellings home bs)) ∙ e in
    ground (arith, lookup-with_config (resolve home bs) (first_spellings (literals bs)) al, found)

-- When the config file changes between two parses, the port that an alias obtains from the old
-- lines is the port of its entry after the second parse, whatever the new lines say; for one
-- config file without `Include` and no config.d directory.
pub parse_twice_stale_port :
    (old new : FileSystem) (dir : Text) (before after : List Text)
    → IsFlatDisk old dir before
    → IsFlatDisk new dir after
    → (al port : Text) (c : SshConfig)
    → first_obtained (port_field (some dir)) (covered al (grouped (settings_of before))) ≡ some port
    → lookup al (parse_twice old new).hosts.configs ≡ some c
    → c.port ≡ port
parse_twice_stale_port old new dir before after h k al port c first e =
    let there =
      ap (λ p. lookup al p.hosts.configs) (sym (parse_twice-flat old new dir before after h k))
      ∙ e in
    ap (λ x. x.port) (sym (resolved (some dir) _ al c there))
    ∙ resolve_stale_port (some dir) (grouped (settings_of before)) (grouped (settings_of after)) al
        port first
