-- ===== src/Examples/Data.antt =====
-- The configurations, file system, managers and attempts that the examples share.
use kimi_ssh.Base.{true, false, Option, none, some, List, [], ◌∷◌}
use kimi_ssh.Base.Int.{ℤ, pos}
use kimi_ssh.Base.Text.{Text, codes}
use kimi_ssh.Config.Block.{Setting, HostBlock}
use kimi_ssh.Config.Settings.{initial_config}
use kimi_ssh.Config.Load.{FileSystem, readable, entries}
use kimi_ssh.Connection.{Manager, new_manager, connect_publish}
use kimi_ssh.Session.{Session, Dial}
use kimi_ssh.Exec.Run.{Attempt, Remote, accepted, exited, finished, overdue}

abbrev pub home : Option Text
home = some (codes "/home/al")

abbrev pub web : Text
web = codes "web"

abbrev pub db : Text
db = codes "db"

abbrev pub setting : Text → Text → Setting
setting keyword value = record { keyword = keyword; value = value }

-- `Host web db !old` with a user, then `Host *` with a user and a port.
abbrev pub blocks : List HostBlock
blocks =
    record {
      patterns = web ∷ db ∷ codes "!old" ∷ [];
      directives = setting (codes "user") (codes "deploy") ∷ [];
    }
    ∷ record {
      patterns = codes "*" ∷ [];
      directives =
          setting (codes "user") (codes "root") ∷ setting (codes "port") (codes "2222") ∷ [];
    }
    ∷ []

-- The main file includes itself.
abbrev pub disk : FileSystem
disk = record {
  home = home;
  absolute = some;
  open_file =
      λ path. readable (codes "Host web" ∷ codes "Include config" ∷ codes "  Port 2222" ∷ []) none;
  read_dir = λ dir. entries ((codes "a.conf", false) ∷ []);
  glob = λ pattern. none;
}

abbrev pub one_host : Manager
one_host = connect_publish new_manager web (initial_config web)

abbrev pub two_hosts : Manager
two_hosts = connect_publish one_host db (initial_config db)

abbrev pub on_web : Session
on_web = record { manager = two_hosts; active_host = web }

-- A client is there at once, and no other call runs meanwhile.
abbrev pub dial_at_once : Dial
dial_at_once = record { reach = λ m host config. (m, true); others = λ host. host }

abbrev pub ends_with : ℤ → Text → Attempt
ends_with code stderr = record {
  session_opens = true;
  stdout_opens = true;
  stderr_opens = true;
  start = accepted;
  end = finished (exited code);
  stdout_chunks = [];
  stderr_chunks = stderr ∷ [];
}

-- A server without `timeout`, and one that hangs.
abbrev pub no_timeout : Remote
no_timeout = record {
  first = λ command. ends_with (pos 127) (codes "sh: timeout: not found");
  second = λ command. ends_with (pos 0) [];
}

abbrev pub hanging_attempt : Attempt
hanging_attempt = record (ends_with (pos 0) []) { end = overdue true }

abbrev pub hanging : Remote
hanging = record { first = λ command. hanging_attempt; second = λ command. ends_with (pos 0) [] }
