-- ===== src/Login/HostKey/Files.antt =====
-- `knownHostsPaths`, `existingKnownHostsFiles`, `userKnownHostsFile` and `recordHostKey` of
-- internal/ssh/hostkey.go.
use kimi_ssh.Base.{Bool, true, false, not, Option, none, some, List, [], ◌∷◌, ◌++◌, if◌then◌else◌}
use kimi_ssh.Base.Dict.{Dict, lookup, insert}
use kimi_ssh.Base.FilePath.{path_join}
use kimi_ssh.Base.Text.{Text, codes}
use kimi_ssh.Base.{get_or}
use kimi_ssh.Login.HostKey.{Callback, host_key_callback}

abbrev pub home_paths : Option Text → List Text
home_paths none = []
home_paths (some home) =
    path_join (home ∷ codes ".ssh" ∷ codes "known_hosts" ∷ [])
    ∷ path_join (home ∷ codes ".ssh" ∷ codes "known_hosts2" ∷ [])
    ∷ []

-- `knownHostsPaths`, of the home directory, if there is one.
abbrev pub known_hosts_paths : Option Text → List Text
known_hosts_paths home =
    home_paths home ++ codes "/etc/ssh/ssh_known_hosts" ∷ codes "/etc/ssh/ssh_known_hosts2" ∷ []

-- What `os.Stat` says of a path.
pub data Stat : Type 0 where
  absent a_file a_directory : Stat

abbrev pub is_file : Stat → Bool
is_file a_file = true
is_file _ = false

unfoldable pub existing_files : (Text → Stat) → List Text → List Text
existing_files stat [] = []
existing_files stat (path ∷ paths) =
    let rest = existing_files stat paths in if is_file (stat path) then path ∷ rest else rest

-- `existingKnownHostsFiles`
abbrev pub existing_known_hosts_files : (Text → Stat) → Option Text → List Text
existing_known_hosts_files stat home = existing_files stat (known_hosts_paths home)

-- `userKnownHostsFile`, of the home directory and the variable `HOME`.
abbrev pub user_known_hosts_file : Option Text → Text → Text
user_known_hosts_file none variable = path_join (variable ∷ codes ".ssh" ∷ codes "known_hosts" ∷ [])
user_known_hosts_file (some home) variable =
    path_join (home ∷ codes ".ssh" ∷ codes "known_hosts" ∷ [])

pub data RecordError : Type 0 where
  not_created not_opened not_written : RecordError

-- Whether the directory can be made, the file opened for appending, and the line written; and the
-- line that the package knownhosts makes of a host and a key.
pub record Disk : Type 0 where
  pub makes_dir : Text → Bool
  pub opens : Text → Bool
  pub writes : Text → Bool
  pub line : Text → Text → Text

-- `recordHostKey`: the contents of the files afterwards, and the error. A file that is missing is
-- created when it is opened; a write that fails is taken to write nothing.
unfoldable pub record_host_key :
    Disk → Dict Text → Text → Text → Text → Dict Text × Option RecordError
record_host_key d contents path host key =
    if not (d.makes_dir path)
    then (contents, some not_created)
    else if not (d.opens path)
    then (contents, some not_opened)
    else if not (d.writes path)
    then (insert path (get_or [] (lookup path contents)) contents, some not_written)
    else (
      insert path (get_or [] (lookup path contents) ++ (d.line host key ++ 10 ∷ [])) contents,
      none,
    )

-- `hostKeyCallback` on a machine: the files that exist, whether they can be read, and the variable.
abbrev pub machine_callback : (Text → Stat) → Option Text → Bool → Text → Callback
machine_callback stat home readable value =
    host_key_callback (existing_known_hosts_files stat home) readable value
