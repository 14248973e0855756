-- ===== src/Login/HostKey.antt =====
-- `hostKeyCallback` and `acceptNewHostKey` of internal/ssh/hostkey.go. What the package knownhosts says
-- of a host's key, the fingerprint of a key, and whether a line can be appended to the user's file
-- are given; a key is its bytes.
pub mod Safety
pub mod Files
pub mod Appended
use kimi_ssh.Base.{
  ℕ, Bool, true, false, not, ◌||◌, ◌≡◌, Option, none, some, List, [], ◌∷◌, ◌++◌, if◌then◌else◌,
}
use kimi_ssh.Base.Text.{Text, codes, same_text, equal_fold}
use kimi_ssh.Config.Resolve.{has_key}

-- What the files say of a key: it is recorded for the host, or nothing is recorded for the host (a
-- `KeyError` without `Want`), or it is refused for another reason.
pub data Verdict : Type 0 where
  recorded unrecorded mismatched : Verdict

pub record KnownHosts : Type 0 where
  pub verify : Text → Text → Verdict
  pub fingerprint : Text → Text
  -- `recordHostKey`, of the host and the key.
  pub can_record : Text → Text → Bool

-- The variable `trusted`, and the lines that were appended to the user's file.
pub record Trust : Type 0 where
  pub trusted : List Text
  pub appended : List (Text × Text)

abbrev pub no_trust : Trust
no_trust = record { trusted = []; appended = [] }

-- The results of `hostKeyCallback`: its two errors, the strict verification, and the one that trusts
-- an unknown host when it is first used.
pub data Callback : Type 0 where
  no_files unreadable strict trusting : Callback

unfoldable pub accept_new_host_key : Text → Bool
accept_new_host_key value = same_text value (codes "1") || equal_fold value (codes "true")

-- `hostKeyCallback`, of the files that exist, whether they can be read, and the raw variable.
unfoldable pub host_key_callback : List Text → Bool → Text → Callback
host_key_callback [] readable value = no_files
host_key_callback (f ∷ fs) readable value =
    if not readable
    then unreadable
    else if not (accept_new_host_key value)
    then strict
    else trusting

-- `hostname + " " + ssh.FingerprintSHA256(key)`
abbrev pub trust_key : KnownHosts → Text → Text → Text
trust_key k host key = host ++ b' ' ∷ k.fingerprint key

-- What is left to do once the files have answered.
abbrev pub judge : KnownHosts → Trust → Text → Text → Verdict → Trust × Bool
judge k t host key recorded = (t, true)
judge k t host key mismatched = (t, false)
judge k t host key unrecorded =
    if k.can_record host key
    then (
      record {
        trusted = trust_key k host key ∷ t.trusted;
        appended = t.appended ++ (host, key) ∷ [];
      },
      true,
    )
    else (t, false)

-- The function that `hostKeyCallback` returns when unknown hosts are trusted: the trust it leaves,
-- and whether it accepts the key.
unfoldable pub check_trusting : KnownHosts → Trust → Text → Text → Trust × Bool
check_trusting k t host key =
    if has_key t.trusted (trust_key k host key)
    then (t, true)
    else judge k t host key (k.verify host key)

abbrev pub is_recorded : Verdict → Bool
is_recorded recorded = true
is_recorded _ = false

-- The callback of one connection. Without a callback the connection is not made.
unfoldable pub check_host_key : Callback → KnownHosts → Trust → Text → Text → Trust × Bool
check_host_key no_files k t host key = (t, false)
check_host_key unreadable k t host key = (t, false)
check_host_key strict k t host key = (t, is_recorded (k.verify host key))
check_host_key trusting k t host key = check_trusting k t host key

-- One callback over the hosts and keys of the handshakes that it is used for.
unfoldable pub check_all : Callback → KnownHosts → Trust → List (Text × Text) → Trust
check_all c k t [] = t
check_all c k t ((host, key) ∷ rest) = check_all c k (check_host_key c k t host key).0 rest

-- One dial after the other. Each reads the files anew, as earlier ones have left them, and makes a
-- callback of its own, which has trusted nothing yet.
unfoldable pub check_dials :
    (List (Text × Text) → KnownHosts)
    → List (Text × Text)
    → List (Callback × List (Text × Text))
    → List (Text × Text)
check_dials read appended [] = appended
check_dials read appended ((c, checks) ∷ rest) =
    check_dials read
      (check_all c (read appended) (record { trusted = []; appended = appended }) checks).appended
      rest
