-- ===== src/Lib.antt =====
-- A model of binboi-go, a tunnel server: clients register local services over a stream connection,
-- the daemon gives each a public host, forwards requests to it and accounts for their use.
--
-- Parts, and the files that model them:
-- - Usage: internal/usage. Usage/Model is model.go, Usage/Tracker and its children are the
--   operations of tracker.go, Usage/Flush is Flush of tracker.go and Usage/Store is store.go. A
--   tracker is a record of maps; each method is one function from the tracker to its answer and the
--   next tracker, since each holds the mutex throughout. Flush gives the mutex back around the
--   write and is therefore two functions, flush_collect and write_items, which share no state but the
--   items. Usage/Quota and Usage/Tunnels give the histories of calls as step relations; Usage/Admission
--   looks at one call.
-- - Disk: loadLocked and saveLocked, which internal/usage/store.go, internal/tunnel/store.go and
--   internal/auth/store.go hold in the same form. A disk is what stands at the path; which system
--   calls of a save fail is an argument.
-- - Tunnel: internal/tunnel. Tunnel/Engine is tunnel.go (sanitizeLabel, HostForSubdomain,
--   ExtractSubdomain and the rest), Tunnel/Store is store.go.
-- - Api: pkg/api. Api/Protocol is the register payload and the flow control of protocol.go;
--   Api/Dispatcher is dispatcher.go, with one function for each critical section and each operation on
--   a channel, and a step relation in which callers and the loop interleave in any way.
-- - Transport: internal/transport/transport.go and internal/proxy/proxy.go.
-- - Session: internal/session/session.go. Session/Manager has the routing maps, detach, heartbeat
--   and lookup; Session/Plan has the draw of a subdomain and the first half of storeSession,
--   Session/Register its second half, Create, RegisterTunnel and resumeTunnel. Session/Routing gives
--   the histories of calls.
-- - Auth: internal/auth. Auth/Token is token.go, Auth/Store is store.go, Auth/Validator is
--   validator.go, Auth/Remote is remote_validator.go.
-- - Config: internal/config/config.go.
-- - Client: the loop of TunnelClient.Run and backoffDelay, in pkg/client/tunnel.go.
-- - Control: internal/control. Control/Pending is the pendingRequest of protocol_peer.go, with one
--   function for each part of a method between its waits, and Control/Pending/Events all calls in any
--   order. Control/Daemon puts the requests of all peers together with
--   their slots and the usage tracker: ForwardRequest from its reservation on, forwardHTTP with the
--   failure of its send, the two halves of finish and removePending are the steps. Control/Server is the registration of a client, the end of its
--   handler and the choice of a peer, in protocol_server.go; it composes Auth, Usage and Session.
-- Base and Go hold what these share: Go's int64 as bit patterns with wrap-around (Go/Word), strings
-- as lists of code points (Go/Text) and maps as association lists (Go/Map). Tests runs the model.
--
-- A request is admitted by Usage, forwarded to the session that Session finds for its host and
-- completed by Usage; Session takes hosts from Tunnel and writes each change to Tunnel's store; a
-- connection is let in by Auth before it registers.
--
-- Parameters stand for code of other packages: Calendar (time), Unicode (unicode, with its ASCII
-- range), Std (net/url and strconv), Crypto (crypto/sha256, encoding/base32), Json (encoding/json),
-- Faults (os). Random bytes, readings of the clock and the answers of the frontend are arguments.
-- Time is a natural number of nanoseconds.
--
-- Bounds: every loop of the source is a recursion on a list, but for the one over subdomains, which
-- makes 32 attempts; no function runs on fuel. Sums of int64 wrap as they do in Go, and a result
-- that needs a bound on them says so.
--
-- Not modelled: the message codec (pkg/api/codec.go), which is encoding/json; the read loop of a
-- handler, the control API and upgraded connections (internal/control/server.go, upgrade.go); the
-- client's sessions and requests (pkg/client); local credentials (internal/auth); the listings of the
-- stores; and the programs under cmd. `finish` has two halves, before and after its wait for the pump;
-- the closing of the channel of chunks is taken together with the critical section before it, and the
-- slot's release with the completion after it. A message that a late caller of EnqueueStream puts into
-- a stream that has left the map is not followed. Log lines are left out. An error keeps its kind and
-- loses its text.
pub mod Base
pub mod Go
pub mod Disk
pub mod Usage
pub mod Tunnel
pub mod Api
pub mod Transport
pub mod Session
pub mod Auth
pub mod Config
pub mod Control
pub mod Client
mod Tests
