-- ===== src/Session/Manager.antt =====
-- The state of internal/session/session.go, its routing maps and its persistence.
use binboi_go.Base.{ℕ, Bool, true, false, Option, none, some, [], if◌then◌else◌, ite}
use binboi_go.Go.Word.{Int64}
use binboi_go.Go.Text.{Str, str_discrete, is_empty, trim_space}
use binboi_go.Go.Map.{Map, get, put, delete, empty}
use binboi_go.Go.Unicode.{to_lower}
use binboi_go.Disk.{Disk, Faults, StoreError}
use binboi_go.Tunnel.Engine.{Route, extract_subdomain}
use binboi_go.Tunnel.Store.{Time, Status, disconnected, connected, upsert}
use binboi_go.Tunnel.Store
use binboi_go.Transport.{Std}

-- net.Conn: which connection it is, and its remote address.
pub record Conn : Type 0 where
  pub handle : ℕ
  pub remote_addr : Str

pub record ClientMetadata : Type 0 where
  pub client_version : Str
  pub hostname : Str
  pub os : Str
  pub arch : Str

-- api.Session of pkg/api/types.go
pub record Session : Type 0 where
  pub id : Str
  pub name : Str
  pub user_id : Str
  pub token_id : Str
  pub subdomain : Str
  pub protocol : Str
  pub target : Str
  pub local_port : Int64
  pub public_url : Str
  pub status : Status
  pub connection : Status
  pub created_at : Time
  pub last_seen : Option Time
  pub last_heartbeat : Option Time
  pub in_flight : Int64
  pub route : Route

-- The manager's `record`.
pub record Entry : Type 0 where
  pub session : Session
  pub tunnel : Store.Record
  pub conn : Option Conn
  pub remote_addr : Str
  pub user_id : Str
  pub token_id : Str
  pub token_prefix : Str
  pub metadata : ClientMetadata
  pub resume_token : Str

pub record Manager : Type 0 where
  pub public_host : Str
  pub forwarded_header : Str
  pub store : Option (Disk Store.Record)
  pub sessions : Map Entry
  pub by_host : Map Str
  pub by_subdomain : Map Str
  pub active_by_host : Map Str
  pub active_by_subdomain : Map Str
  pub by_resume : Map Str

-- NewManagerWithStore
abbrev pub new_manager : Str → Str → Option (Disk Store.Record) → Manager
new_manager public_host forwarded_header store = record {
  public_host = public_host;
  forwarded_header = forwarded_header;
  store = store;
  sessions = empty;
  by_host = empty;
  by_subdomain = empty;
  active_by_host = empty;
  active_by_subdomain = empty;
  by_resume = empty;
}

-- hostFromPublicURL
unfoldable pub host_from_public_url : Std → Str → Str
host_from_public_url std public_url = elim (std.parse_url public_url) [
  | none ↦ []
  | some url ↦ trim_space (to_lower std.unicode url.hostname)
]

-- `if k != "" { m[k] = v }`
abbrev pub put_named : Map Str → Str → Str → Map Str
put_named m k v = if is_empty k then m else put m k v

-- `if current, ok := m[k]; ok && current == v { delete(m, k) }`, for a key that is not empty
abbrev pub delete_if : Map Str → Str → Str → Map Str
delete_if m k v =
    if is_empty k
    then m
    else elim (get m k) [ none ↦ m | some current ↦ ite (str_discrete current v) (delete m k) m ]

-- activateRoutingLocked
unfoldable pub activate_routing : Std → Manager → Str → Str → Str → Manager
activate_routing std m session_id public_url subdomain = record m {
  active_by_host = put_named m.active_by_host (host_from_public_url std public_url) session_id;
  active_by_subdomain = put_named m.active_by_subdomain subdomain session_id;
}

-- deactivateRoutingLocked
unfoldable pub deactivate_routing : Std → Manager → Str → Str → Str → Manager
deactivate_routing std m session_id public_url subdomain = record m {
  active_by_host = delete_if m.active_by_host (host_from_public_url std public_url) session_id;
  active_by_subdomain = delete_if m.active_by_subdomain subdomain session_id;
}

-- persistTunnelLocked: the error, and the manager with the store after the write.
unfoldable pub persist_tunnel : Faults → Manager → Entry → Option StoreError × Manager
persist_tunnel f m e = elim m.store [
  | none ↦ (none, m)
  | some d ↦ let (x, d') = upsert f d e.tunnel in (x, record m { store = some d' })
]

-- removeSessionLocked
unfoldable pub remove_session : Std → Manager → Str → Entry → Manager
unfolding deactivate_routing
remove_session std m session_id e =
    let cleared = record m {
      by_resume = delete m.by_resume e.resume_token;
      by_host = delete m.by_host (host_from_public_url std e.session.public_url);
      by_subdomain = delete m.by_subdomain e.session.subdomain;
    } in
    let quiet =
      deactivate_routing std cleared session_id e.session.public_url e.session.subdomain in
    record quiet { sessions = delete quiet.sessions session_id }

-- `m.sessions[id] = e`, the routing of the session switched on, and the tunnel written, whose error
-- is dropped.
abbrev pub routed : Std → Faults → Manager → Str → Entry → Manager
routed std f m session_id e =
    let active =
      activate_routing std (record m { sessions = put m.sessions session_id e }) e.session.id
        e.session.public_url e.session.subdomain in
    (persist_tunnel f active e).1

-- DetachConnection
unfoldable pub detach_connection : Std → Faults → Manager → Str → Time → Manager
unfolding deactivate_routing persist_tunnel
detach_connection std f m session_id at = elim (get m.sessions session_id) [
  | none ↦ m
  | some e ↦
      let e' = record e {
        session = record e.session {
          status = disconnected;
          connection = disconnected;
          last_seen = some at;
          in_flight = 0;
        };
        tunnel = record e.tunnel { status = disconnected; last_seen = some at };
        conn = none;
        remote_addr = [];
      } in
      let quiet =
        deactivate_routing std (record m { sessions = put m.sessions session_id e' }) e'.session.id
          e'.session.public_url e'.session.subdomain in
      (persist_tunnel f quiet e').1
]

-- TouchHeartbeat: whether the session was found, and the manager.
unfoldable pub touch_heartbeat : Std → Faults → Manager → Str → Time → Bool × Manager
unfolding activate_routing persist_tunnel
touch_heartbeat std f m session_id at = elim (get m.sessions session_id) [
  | none ↦ (false, m)
  | some e ↦
      let e' = record e {
        session = record e.session {
          status = connected;
          connection = connected;
          last_seen = some at;
          last_heartbeat = some at;
        };
        tunnel = record e.tunnel { status = connected; last_seen = some at };
      } in
      (true, routed std f m session_id e')
]

-- SetInFlight
unfoldable pub set_in_flight : Manager → Str → Int64 → Manager
set_in_flight m session_id count = elim (get m.sessions session_id) [
  | none ↦ m
  | some e ↦ record m {
    sessions =
        put m.sessions session_id (record e { session = record e.session { in_flight = count } });
  }
]

-- The four lookups of LookupByHost, in their order.
abbrev or_else : Option Str → Option Str → Option Str
or_else none o = o
or_else (some x) o = some x

abbrev by_label : Map Str → Str → Option Str
by_label m subdomain = if is_empty subdomain then none else get m subdomain

-- LookupByHost
unfoldable pub lookup_by_host : Std → Manager → Str → Option Session
unfolding extract_subdomain
lookup_by_host std m host =
    let subdomain = extract_subdomain std.unicode host m.public_host in
    elim (or_else (get m.active_by_host host) (
      or_else (by_label m.active_by_subdomain subdomain)
        (or_else (get m.by_host host) (by_label m.by_subdomain subdomain)))) [
          | none ↦ none
          | some session_id ↦ elim (get m.sessions session_id) [
            | none ↦ none
            | some e ↦ some e.session
          ]
        ]

-- ResumeToken
unfoldable pub resume_token_of : Manager → Str → Option Str
resume_token_of m session_id = elim (get m.sessions session_id) [
  | none ↦ none
  | some e ↦ some e.resume_token
]
