-- ===== src/Lib.antt =====
-- taildog: the relay of a self-hosted tunnel service (the program calls itself renode).
--
-- A client daemon behind a firewall keeps a connection to the relay. The relay opens public ports
-- and carries what arrives there to the daemon. An operator logs in to a REST API, which creates
-- and deletes tunnels; dashboards follow the changes over WebSockets.
--
-- How the parts call each other: relay/internal/api/handlers.go answers requests over a database
-- (relay/internal/db), tokens and passwords (relay/internal/auth), the registry of clients and
-- tunnels with its port pool (relay/internal/tunnel), the event hub (relay/internal/api/events.go)
-- and, by two callbacks, the store of listeners (relay/server/proxy.go) with its firewall rules
-- (relay/server/ufw.go). One value of `Server` in Api holds the state of all of them, and each
-- handler takes it and returns it with the response. A daemon's control connection has a session
-- (relay/server/session.go), through which bytes from outside reach it and come back.
--
-- Files and code:
--   Pool         relay/internal/tunnel/pool.go. The map of taken ports is an association list. The
--                loop of Allocate is recursion on the number of ports in range, which is its bound
--                in the source.
--   Registry     relay/internal/tunnel/registry.go. Each method is a function on the registry.
--                Registry/System has the step relation of concurrent callers, in which AddTunnel is
--                two steps, since it takes its port before it takes the registry's lock.
--   Db           relay/internal/db/db.go. A table is a list of rows; a statement is a function on
--                the tables that may fail as `faults` says. Times are whole seconds.
--   Auth         relay/internal/auth/auth.go; Auth/Secret has LoadSecret, Auth/Password and
--                Auth/Wizard relay/internal/auth/wizard.go.
--   Hub          relay/internal/api/events.go. Send buffers hold at most 64 messages.
--   Proxies      relay/server/proxy.go (the store) and relay/server/ufw.go.
--   Sessions     relay/server/session.go. What is written to outside connections is a log.
--   Control      relay/server/control.go and the store of sessions of relay/server/proxy.go, over a
--                heap of sessions; Control/Bridges has the rounds of the TCP and UDP loops.
--   Certs        relay/internal/tls/tls.go: the two files and the template, with every step
--                that may fail.
--   Startup      relay/server/run.go: Run with each way that it returns and its deferred cleanup.
--   Client       client/: Client/Config has internal/config/config.go, Client/Commands the commands
--                of main.go that change it, Client/Daemon Connect and the backoff of
--                internal/daemon/daemon.go, Client/Process the PID file, Start and Stop with
--                proc_unix.go, and proc_windows.go in its child Windows, Client/Foreground
--                RunForeground and ufw.go, Client/Files the rest.
--                What the daemon's goroutines do is a list of events in any order.
--   Pipe         the relay and a daemon at the two ends of a control connection.
--   Api          relay/internal/api/handlers.go: Api/Session, Api/Tunnels and Api/Admin have the
--                handlers, Api/Router the route table and the middleware.
--   Dict         Go's built-in maps; Prelude has the shared helpers.
-- Each component's Samples module has its tests and its theorems at concrete inputs.
--
-- Loops are structural recursion; the wait of Stop has its fifty rounds as the bound. Go's int is
-- unbounded here: ports and counters stay far below its bounds, and strconv.Atoi, in Prelude/Text,
-- refuses what is outside of 64 bits.
--
-- Parameters, since their code is not part of the repository: golang-jwt and bcrypt (Auth), the
-- classes of package unicode, SHA-256, net.SplitHostPort and the texts that fmt makes (Api), x509 and
-- pem (Certs), yaml and strings.ToLower and TrimSpace (Client), and json with base64 between the two
-- ends of a connection (Pipe).
-- Arguments, since the system decides them: the clock, new identifiers, whether a port can be
-- opened or dialled, which files can be read and written, whether a frame can be written, which ready
-- case a select takes, and which statements of the driver fail.
--
-- Not modelled: the transport (HTTP, JSON, TLS, WebSocket frames, sockets), which is system calls and
-- other packages; the embedded dashboard; the flags of the programs; the autostart entries and the
-- checks for an administrator, which are calls of the operating system; and the loop of TailLog, which
-- follows a file for ever.
pub mod Prelude
pub mod Dict
pub mod Pool
pub mod Registry
pub mod Db
pub mod Auth
pub mod Hub
pub mod Proxies
pub mod Sessions
pub mod Control
pub mod Client
pub mod Pipe
pub mod Certs
pub mod Startup
pub mod Api
