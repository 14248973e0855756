-- ===== src/Lib.antt =====
-- kimi-ssh: an MCP server that runs commands over ssh on the hosts of the user's ssh config.
--
-- The program's parts, and the files that model them:
--
-- * internal/ssh/config.go reads the ssh config and folds its `Host` blocks into one entry per alias.
--   Config/Glob is `globMatch` with its four cursors, Config/Block `appliesTo` and `literalAlias`,
--   Config/Settings `applySetting` and `expandTilde`, Config/Directive `splitDirective`, Config/Load
--   `loadFile`, `loadIncludes`, `includeTargets`, `confFiles` and `ParseConfigFiles`, and
--   Config/Resolve `resolve`, `resolveAll`, `OrderedConfigs` and `GetConfig`.
-- * internal/ssh/connection.go keeps the open connections. Connection is its `ConnectionManager`,
--   with `forget` of internal/ssh/exec.go. A `*Connection` is an index into a heap, since the map and
--   a running command share it. Each critical section is a function, and a call that runs alone is
--   their composition. Connection/Calls lets the critical sections of several calls interleave, and
--   what they do between two locks, each write of `close` by itself: a step relation over the manager
--   and the calls on their way. It says which steps may come next, not that a call goes on, since
--   dialing or a command may block.
--   Connection/Pings is the goroutine of the keepalive next to `close`.
-- * internal/session/manager.go keeps the active host. Session is its `SessionManager`; the dialing of
--   `Connect` is a parameter that gives the manager and the active host as other calls have left
--   them meanwhile.
-- * internal/ssh/exec.go runs a command. Exec/Quote wraps it for the remote shell, Exec/Deadline
--   computes the deadlines, Exec/Buffer caps the output, Exec/Missing recognises a host without
--   `timeout`, and Exec/Run is `run` and `Execute`. The server and the clock are a record `Attempt`:
--   which calls fail, what arrives on the streams, and which of the waits ends first. Exec/Clock
--   computes that record from the moments of the events, with the time that the waits take.
-- * internal/mcp/server.go dispatches the requests of the client. Server is its `HandleRequest`, the
--   handlers and the tools; JSON is decoded outside, so a call arrives with its decoded arguments or
--   as one that does not decode.
-- * internal/ssh/hostkey.go and internal/ssh/auth.go decide whom to trust and how to log in.
--   Login/HostKey is `hostKeyCallback`, over what the package knownhosts answers, and Login/Auth the
--   order of the methods of `clientSettingsFor`, the sources of a password, and the callbacks that
--   share it. Login/Agent is `agentAuthMethod`.
-- * `dial` of internal/ssh/connection.go and internal/ssh/proxy.go reach a host. Login/Target is
--   `resolveTarget`, Login/Proxy `proxyCommandConn` and its connection, and Login/Dial `dial`,
--   `openClient` and `openThroughProxy`; what `ssh.Dial`, the process and the handshake do at each
--   attempt is a record `Network`. Its `dial_with` is what Session and Server take as the dialing.
--
-- Refinement is an abstract specification of the connection manager, a set of connected hosts, with the
-- calls of a client that makes them one after the other; Refinement/Active is the same for the session
-- manager, a set of hosts with an active one.
--
-- Base holds what all of them share: lists and maps, texts, signed integers, `path/filepath`,
-- decimal numbers, sorting. Examples holds runs at concrete inputs.
--
-- Bounds and fuel: texts are lists of bytes and meant as ASCII where case or blanks matter, a Go
-- `int64` wraps at 2^64 where it is computed, and lengths are natural numbers. `globMatch` runs on fuel
-- `(length alias + 1) * (length pattern + 1) + 1`, as a round either moves on in the alias or takes up
-- another byte of the pattern for one start of the saved star. `loadFile` recurs on
-- the levels that are left, 9 in all, as in the source. `dial` makes three attempts.
--
-- Not modelled: the ssh library, the agent's socket, the parsing of keys and knownhosts, which are
-- parameters; the reading and writing of a proxy's pipes; the time before the session of a command is
-- open, which has no bound in the source; what the scheduler does when an event and a timer come at the
-- same moment; log lines on standard error; JSON.
pub mod Base
pub mod Config
pub mod Connection
pub mod Exec
pub mod Login
pub mod Session
pub mod Refinement
pub mod Server
pub mod Examples
