-- ===== src/Control/Server.antt =====
-- internal/control/protocol_server.go: how a client is let in and registered, how its connection is
-- given up, and which peer a request goes to. The server has a validator and a tracker, as
-- cmd/binboid/main.go gives it.
pub mod Room
pub mod Admits
pub mod Resumes
pub mod Routes
use binboi_go.Base.{
  ℕ, Bool, true, false, not, ◌&&◌, ◌||◌, List, [], ◌∷◌, Option, none, some, Result, ok, err,
  if◌then◌else◌, ite, ◌==◌,
}
use binboi_go.Go.Word.{Int64}
use binboi_go.Go.Text.{Str, lit, is_empty, str_discrete, trim_space}
use binboi_go.Go.Map.{Map, get, put, delete}
use binboi_go.Go.Unicode.{to_lower}
use binboi_go.Disk.{Disk, Faults}
use binboi_go.Transport.{Std}
use binboi_go.Api.Protocol.{RegisterPayload, ProtocolError, validate_register}
use binboi_go.Usage.Model.{LimitError}
use binboi_go.Usage.Tracker.{Calendar, Tracker}
use binboi_go.Usage.Tracker.Tunnels.{
  TunnelReservation, no_tunnel_reservation, reserve_tunnel, release_tunnel_reservation,
  confirm_tunnel, restore_tunnel, track_tunnel_closed,
}
use binboi_go.Auth.Token
use binboi_go.Auth.Token.{Crypto, Time, Principal, AuthError}
use binboi_go.Auth.Validator.{Validator, validate_token}
use binboi_go.Session.Manager.{
  Conn, ClientMetadata, Session, Manager, lookup_by_host, detach_connection,
}
use binboi_go.Session.Plan.{Random, SessionError}
use binboi_go.Session.Register.{RegisterRequest, ResumeResult, is_connected, register_tunnel}

-- What the server stands on: the libraries, and what the system calls under the two stores do.
pub record Env : Type 0 where
  pub std : Std
  pub crypto : Crypto
  pub calendar : Calendar
  pub random : Random
  pub token_faults : Faults
  pub tunnel_faults : Faults
  -- net.SplitHostPort: the host, if there is no error.
  pub split_host_port : Str → Option Str

-- protocolServer, and what it calls. A peer is named by its connection.
pub record Server : Type 0 where
  pub manager : Manager
  pub tracker : Tracker
  pub validator : Validator
  pub tokens : Disk Token.Record
  pub peers : Map ℕ

-- normalizeHost
abbrev pub or_whole : Str → Option Str → Str
or_whole host none = host
or_whole host (some h) = h

unfoldable pub normalize_host : Env → Str → Str
normalize_host env raw =
    let host = trim_space (to_lower env.std.unicode raw) in
    if is_empty host then [] else or_whole host (env.split_host_port host)

pub data RouteError : Type 0 where
  not_found unavailable unsupported : RouteError

abbrev pub is_http : Str → Bool
is_http p = ite (str_discrete p (lit "http")) true (ite (str_discrete p (lit "https")) true false)

-- ForwardRequest from its start to the call of ReserveRequest: the session, and its peer.
abbrev pub peer_of : Session → Option ℕ → Result RouteError (Session × ℕ)
peer_of s none = err unavailable
peer_of s (some n) = ok (s, n)

abbrev pub routed_to : Map ℕ → Option Session → Result RouteError (Session × ℕ)
routed_to peers none = err not_found
routed_to peers (some s) =
    if not (is_connected s.connection)
    then err unavailable
    else if not (is_http s.protocol)
    then err unsupported
    else peer_of s (get peers s.id)

unfoldable pub route : Env → Server → Str → Result RouteError (Session × ℕ)
unfolding normalize_host
route env sv raw =
    let host = normalize_host env raw in
    if is_empty host
    then err not_found
    else routed_to sv.peers (lookup_by_host env.std sv.manager host)

-- addPeer; the peer that it replaces is failed and closed by Control.Daemon's steps.
unfoldable pub add_peer : Map ℕ → Str → ℕ → Map ℕ
add_peer peers session_id n = put peers session_id n

-- removePeer, for a handler that has its peer
unfoldable pub remove_peer : Map ℕ → Str → ℕ → Map ℕ
remove_peer peers session_id n = elim (get peers session_id) [
  | none ↦ peers
  | some current ↦ if current == n then delete peers session_id else peers
]

-- The error codes that the handler sends before a registration.
pub data Refusal : Type 0 where
  invalid_register token_required invalid_token revoked_token : Refusal
  usage_limit_exceeded invalid_resume registration_failed : Refusal

abbrev pub token_refusal : AuthError → Refusal
token_refusal AuthError.token_required = Refusal.token_required
token_refusal AuthError.revoked_token = Refusal.revoked_token
token_refusal AuthError.invalid_token = Refusal.invalid_token
token_refusal AuthError.user_required = Refusal.invalid_token
token_refusal AuthError.generate_failed = Refusal.invalid_token
token_refusal (AuthError.store_failed _) = Refusal.invalid_token

abbrev pub session_refusal : SessionError → Refusal
session_refusal SessionError.invalid_resume = Refusal.invalid_resume
session_refusal _ = Refusal.registration_failed

-- The reservation of a tunnel, for a registration that is no resume.
unfoldable pub reserve_new : Tracker → Str → Str → Result LimitError TunnelReservation × Tracker
reserve_new t resume_tunnel_id user =
    if is_empty resume_tunnel_id then reserve_tunnel t user else (ok no_tunnel_reservation, t)

abbrev pub request_of : RegisterPayload → ClientMetadata → Principal → Conn → RegisterRequest
request_of p metadata who conn = record {
  protocol = p.protocol;
  local_port = p.local_port;
  user_id = who.user_id;
  token_id = who.token_id;
  token_prefix = who.prefix;
  metadata = metadata;
  conn = some conn;
  resume_tunnel_id = p.resume_tunnel_id;
  resume_token = p.resume_token;
}

-- What the tracker is told of a registered session.
abbrev pub confirmed : Calendar → Tracker → TunnelReservation → ResumeResult → Time → Time → Tracker
confirmed cal t r result now later =
    if result.resumed
    then restore_tunnel cal t result.session.user_id result.session.id now later
    else confirm_tunnel cal t r result.session.id now later

-- The end of the registration: on an error the reservation is given back.
abbrev pub settled :
    Env
    → Server
    → Conn
    → TunnelReservation
    → Time
    → Time
    → Result SessionError ResumeResult × Manager
    → Result Refusal ResumeResult × Server
settled env sv conn r now later (err e, m) = (
  err (session_refusal e),
  record sv { manager = m; tracker = release_tunnel_reservation sv.tracker r },
)
settled env sv conn r now later (ok result, m) = (
  ok result,
  record sv {
    manager = m;
    tracker = confirmed env.calendar sv.tracker r result now later;
    peers = add_peer sv.peers result.session.id conn.handle;
  },
)

abbrev pub reserved_for :
    Env
    → Server
    → Conn
    → RegisterPayload
    → ClientMetadata
    → Principal
    → Time
    → Time
    → Result LimitError TunnelReservation × Tracker
    → Result Refusal ResumeResult × Server
reserved_for env sv conn p metadata who now later (err e, t) =
    (err Refusal.usage_limit_exceeded, record sv { tracker = t })
reserved_for env sv conn p metadata who now later (ok r, t) =
    settled env (record sv { tracker = t }) conn r now later
      (register_tunnel env.std env.tunnel_faults sv.manager env.random
        (request_of p metadata who conn) now)

-- From the answer of the validator on.
abbrev pub admitted :
    Env
    → Server
    → Conn
    → RegisterPayload
    → ClientMetadata
    → Time
    → Time
    → Result AuthError Principal × Validator × Disk Token.Record
    → Result Refusal ResumeResult × Server
admitted env sv conn p metadata now later (err e, v, d) =
    (err (token_refusal e), record sv { validator = v; tokens = d })
admitted env sv conn p metadata now later (ok who, v, d) =
    reserved_for env (record sv { validator = v; tokens = d }) conn p metadata who now later
      (reserve_new sv.tracker p.resume_tunnel_id who.user_id)

-- handleConnection, from the decoded register message to the registered peer.
abbrev pub checked :
    Env
    → Server
    → Conn
    → RegisterPayload
    → ClientMetadata
    → Time
    → Time
    → Option ProtocolError
    → Result Refusal ResumeResult × Server
checked env sv conn p metadata now later (some e) = (err Refusal.invalid_register, sv)
checked env sv conn p metadata now later none =
    admitted env sv conn p metadata now later
      (validate_token env.crypto env.token_faults sv.validator sv.tokens p.auth_token now later)

unfoldable pub register :
    Env
    → Server
    → Conn
    → RegisterPayload
    → ClientMetadata
    → Time
    → Time
    → Result Refusal ResumeResult × Server
register env sv conn p metadata now later =
    checked env sv conn p metadata now later (validate_register env.std.unicode p)

-- The deferred end of a handler that had registered a session.
unfoldable pub hang_up : Env → Server → Str → Str → ℕ → Time → Time → Server
unfolding remove_peer
hang_up env sv session_id user_id n now later = record sv {
  peers = remove_peer sv.peers session_id n;
  manager = detach_connection env.std env.tunnel_faults sv.manager session_id now;
  tracker =
      if is_empty user_id
      then sv.tracker
      else track_tunnel_closed env.calendar sv.tracker user_id session_id now later;
}
