-- ===== src/Session/Register.antt =====
-- internal/session/session.go: how a session comes to be, or is resumed.
use binboi_go.Base.{
  Bool, true, false, not, ◌&&◌, ◌||◌, Option, none, some, [], ◌∷◌, ◌++◌, Result, ok, err,
  if◌then◌else◌, ite, ◌==◌,
}
use binboi_go.Go.Word.{Int64}
use binboi_go.Go.Text.{Str, str_discrete, is_empty, trim_space}
use binboi_go.Go.Map.{get, put}
use binboi_go.Disk.{Faults, StoreError}
use binboi_go.Tunnel.Store.{Time, Status, ready, idle, connected}
use binboi_go.Api.Protocol.{normalize_tunnel_protocol}
use binboi_go.Transport.{Std, Url, Target, parse_target, local_target}
use binboi_go.Session.Manager.{
  Conn, ClientMetadata, Session, Entry, Manager, host_from_public_url, put_named, activate_routing,
  persist_tunnel, remove_session, routed,
}
use binboi_go.Session.Plan.{
  Random, SessionError, SessionParams, host_connected, invalid_resume, name_required, no_connection,
  persist_failed, plan_session, target_failed, target_required, unsupported_protocol,
}

pub record RegisterRequest : Type 0 where
  pub protocol : Str
  pub local_port : Int64
  pub user_id : Str
  pub token_id : Str
  pub token_prefix : Str
  pub metadata : ClientMetadata
  pub conn : Option Conn
  pub resume_tunnel_id : Str
  pub resume_token : Str

-- `existing.session.Connection == "connected"`
abbrev pub is_connected : Status → Bool
is_connected connected = true
is_connected _ = false

-- The session that holds the host now: none, or its id and entry.
abbrev pub holder : Manager → Str → Option (Str × Entry)
holder m host = elim (get m.by_host host) [
  | none ↦ none
  | some id ↦ elim (get m.sessions id) [ none ↦ none | some e ↦ some (id, e) ]
]

-- The entry in the maps, its routing switched on if it is connected.
unfoldable pub add_entry : Std → Manager → Entry → Manager
unfolding activate_routing
add_entry std m e =
    let s = e.session in
    let host = host_from_public_url std s.public_url in
    let added = record m {
      sessions = put m.sessions s.id e;
      by_host = put_named m.by_host host s.id;
      by_subdomain = put_named m.by_subdomain s.subdomain s.id;
    } in
    let active =
      if is_connected s.connection
      then activate_routing std added s.id s.public_url s.subdomain
      else added in
    record active { by_resume = put active.by_resume e.resume_token s.id }

-- What storeSession does once the host is free: it adds the entry, and takes it out again if the
-- tunnel cannot be written.
abbrev pub or_rolled_back :
    Std → Entry → Option StoreError × Manager → Result SessionError Session × Manager
or_rolled_back std e (none, m) = (ok e.session, m)
or_rolled_back std e (some x, m) = (err (persist_failed x), remove_session std m e.session.id e)

unfoldable pub add_and_persist :
    Std → Faults → Manager → Entry → Result SessionError Session × Manager
unfolding add_entry persist_tunnel remove_session
add_and_persist std f m e = or_rolled_back std e (persist_tunnel f (add_entry std m e) e)

-- The second half of storeSession, under the lock.
unfoldable pub insert_session :
    Std → Faults → Manager → Entry → Result SessionError Session × Manager
unfolding add_and_persist
insert_session std f m e = elim (holder m (host_from_public_url std e.session.public_url)) [
  | none ↦ add_and_persist std f m e
  | some (id, existing) ↦
      if is_connected existing.session.connection
      then (err host_connected, m)
      else add_and_persist std f (remove_session std m id existing) e
]

-- storeSession, with no other operation between its halves.
unfoldable pub store_session :
    Std
    → Faults
    → Manager
    → Random
    → Target
    → SessionParams
    → Time
    → Result SessionError Session × Manager
unfolding plan_session insert_session
store_session std f m random target params now =
    elim (plan_session std m random target params now) [
      | err e ↦ (err e, m)
      | ok e ↦ insert_session std f m e
    ]

abbrev pub no_metadata : ClientMetadata
no_metadata = record { client_version = []; hostname = []; os = []; arch = [] }

-- inferLocalPort
unfoldable pub infer_local_port : Std → Url → Int64
infer_local_port std url =
    if is_empty url.port then 0 else elim (std.atoi url.port) [ none ↦ 0 | some n ↦ n ]

-- Create, for the name, target and protocol of the request
unfoldable pub create :
    Std → Faults → Manager → Random → Str → Str → Str → Time → Result SessionError Session × Manager
unfolding store_session
create std f m random name raw_target protocol now =
    if is_empty (trim_space name)
    then (err name_required, m)
    else if is_empty (trim_space raw_target)
    then (err target_required, m)
    else elim (parse_target std raw_target protocol) [
      | err e ↦ (err (target_failed e), m)
      | ok target ↦
          store_session std f m random target
            (record {
              name = name;
              local_port = infer_local_port std target.url;
              status = ready;
              connection = idle;
              last_heartbeat = none;
              last_seen = none;
              conn = none;
              remote_addr = [];
              user_id = [];
              token_id = [];
              token_prefix = [];
              subdomain = [];
              metadata = no_metadata;
              created_at = 0;
            })
            now
    ]

-- `a != b` on strings, and on integers
abbrev pub str_ne : Str → Str → Bool
str_ne a b = ite (str_discrete a b) false true

abbrev pub int_ne : Int64 → Int64 → Bool
int_ne a b = not (a == b)

-- The three tests of resumeTunnel that refuse a resume.
unfoldable pub refuses_resume : Entry → RegisterRequest → Bool
unfolding str_discrete
refuses_resume e req =
    (is_empty e.resume_token || str_ne e.resume_token req.resume_token)
    || (str_ne e.session.protocol req.protocol || int_ne e.session.local_port req.local_port)
    || ((not (is_empty e.token_id)
          || not (is_empty req.token_id)
          || not (is_empty e.user_id)
          || not (is_empty req.user_id))
        && (str_ne e.token_id req.token_id || str_ne e.user_id req.user_id))

-- The entry as a resume leaves it.
abbrev pub resumed_entry : Entry → RegisterRequest → Conn → Time → Entry
resumed_entry e req conn now = record e {
  session = record e.session {
    status = connected;
    connection = connected;
    user_id = req.user_id;
    token_id = req.token_id;
    last_seen = some now;
    last_heartbeat = some now;
  };
  tunnel = record e.tunnel { status = connected; last_seen = some now };
  conn = some conn;
  remote_addr = conn.remote_addr;
  user_id = req.user_id;
  token_id = req.token_id;
  token_prefix = req.token_prefix;
  metadata = req.metadata;
}

-- resumeTunnel
unfoldable pub resume_tunnel :
    Std → Faults → Manager → RegisterRequest → Conn → Time → Result SessionError Session × Manager
resume_tunnel std f m req conn now = elim (get m.sessions req.resume_tunnel_id) [
  | none ↦ (err invalid_resume, m)
  | some e ↦
      if refuses_resume e req
      then (err invalid_resume, m)
      else let e' = resumed_entry e req conn now in
        (ok e'.session, routed std f m req.resume_tunnel_id e')
]

pub record ResumeResult : Type 0 where
  pub session : Session
  pub resumed : Bool

abbrev pub as_result :
    Bool → Result SessionError Session × Manager → Result SessionError ResumeResult × Manager
as_result b (ok s, m) = (ok (record { session = s; resumed = b }), m)
as_result b (err e, m) = (err e, m)

-- The parameters of a new session that RegisterTunnel gives to storeSession.
abbrev pub params_of : Std → RegisterRequest → Conn → Target → Time → SessionParams
params_of std req conn target now = record {
  name = target.protocol ++ (b'-' ∷ std.itoa req.local_port);
  local_port = req.local_port;
  status = connected;
  connection = connected;
  last_heartbeat = some now;
  last_seen = some now;
  conn = some conn;
  remote_addr = conn.remote_addr;
  user_id = req.user_id;
  token_id = req.token_id;
  token_prefix = req.token_prefix;
  subdomain = [];
  metadata = req.metadata;
  created_at = now;
}

-- RegisterTunnel
unfoldable pub register_tunnel :
    Std
    → Faults
    → Manager
    → Random
    → RegisterRequest
    → Time
    → Result SessionError ResumeResult × Manager
unfolding store_session resume_tunnel
register_tunnel std f m random req now = elim req.conn [
  | none ↦ (err no_connection, m)
  | some conn ↦ elim (normalize_tunnel_protocol std.unicode req.protocol) [
    | err _ ↦ (err unsupported_protocol, m)
    | ok _ ↦
        if not (is_empty req.resume_tunnel_id) || not (is_empty req.resume_token)
        then as_result true (resume_tunnel std f m req conn now)
        else elim (local_target std req.protocol req.local_port) [
          | err e ↦ (err (target_failed e), m)
          | ok target ↦
              as_result false
                (store_session std f m random target (params_of std req conn target now) now)
        ]
  ]
]
