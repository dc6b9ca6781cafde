-- ===== src/Session/Plan.antt =====
-- internal/session/session.go: the first half of storeSession, which picks names and builds the
-- entry of a new session.
use binboi_go.Base.{
  ℕ, zero, suc, Option, none, some, List, Result, ok, err, ◌>>=◌, if◌then◌else◌, ◌==◌,
}
use binboi_go.Go.Word.{Int64}
use binboi_go.Go.Text.{Str, is_empty, trim_space}
use binboi_go.Go.Map.{get}
use binboi_go.Go.Unicode.{to_lower}
use binboi_go.Disk.{StoreError}
use binboi_go.Tunnel.Engine.{Route, Descriptor, prepare, generate_subdomain, hex_encode}
use binboi_go.Tunnel.Store.{Time, Status, ready, idle, connected, find_by_subdomain}
use binboi_go.Tunnel.Store
use binboi_go.Transport.{Std, Target, TargetError, plan}
use binboi_go.Session.Manager.{Conn, ClientMetadata, Session, Entry, Manager}

pub data SessionError : Type 0 where
  name_required target_required no_connection unsupported_protocol invalid_resume : SessionError
  random_failed subdomain_empty subdomain_taken exhausted host_connected : SessionError
  target_failed : TargetError → SessionError
  store_failed persist_failed : StoreError → SessionError

pub record SessionParams : Type 0 where
  pub name : Str
  pub local_port : Int64
  pub status : Status
  pub connection : Status
  pub last_heartbeat : Option Time
  pub last_seen : Option Time
  pub conn : Option Conn
  pub remote_addr : Str
  pub user_id : Str
  pub token_id : Str
  pub token_prefix : Str
  pub subdomain : Str
  pub metadata : ClientMetadata
  pub created_at : Time

-- The bytes that crypto/rand gives to one registration: for the session id, for the resume token
-- and for each attempt at a subdomain; `none` where the read fails.
pub record Random : Type 0 where
  pub session_id : Option (List ℕ)
  pub resume_token : Option (List ℕ)
  pub subdomain : ℕ → Option (List ℕ)

-- `ok && record.ID != ""` after FindBySubdomain, or its error.
abbrev free_in_store : Result StoreError (Option Store.Record) → Option SessionError
free_in_store (err e) = some (store_failed e)
free_in_store (ok none) = none
free_in_store (ok (some r)) = if is_empty r.id then none else some subdomain_taken

-- ensureSubdomainAvailable: `none` stands for the nil error.
unfoldable pub ensure_subdomain_available : Std → Manager → Str → Option SessionError
ensure_subdomain_available std m requested =
    let subdomain = trim_space (to_lower std.unicode requested) in
    if is_empty subdomain then some subdomain_empty else elim (get m.by_subdomain subdomain) [
      | some _ ↦ some subdomain_taken
      | none ↦ elim m.store [ none ↦ none | some d ↦ free_in_store (find_by_subdomain d subdomain) ]
    ]

-- The loop of allocateSubdomain: `left` attempts remain, and `attempt` is the next one.
unfoldable pub draw_subdomain :
    Std → Manager → (ℕ → Option (List ℕ)) → ℕ → ℕ → Result SessionError Str
draw_subdomain std m draws zero attempt = err exhausted
draw_subdomain std m draws (suc left) attempt =
    let rest = draw_subdomain std m draws left (suc attempt) in
    elim (generate_subdomain std.unicode (draws attempt)) [
      | none ↦ err random_failed
      | some subdomain ↦ elim (ensure_subdomain_available std m subdomain) [
        | none ↦ ok subdomain
        | some _ ↦ rest
      ]
    ]

abbrev pub max_attempts : ℕ
max_attempts = 32

-- allocateSubdomain
unfoldable pub allocate_subdomain :
    Std → Manager → (ℕ → Option (List ℕ)) → Str → Result SessionError Str
allocate_subdomain std m draws wanted =
    let requested = trim_space (to_lower std.unicode wanted) in
    if is_empty requested
    then draw_subdomain std m draws max_attempts 0
    else elim (ensure_subdomain_available std m requested) [ none ↦ ok requested | some e ↦ err e ]

-- newSessionID and newResumeToken
abbrev pub new_name : Option (List ℕ) → Result SessionError Str
new_name none = err random_failed
new_name (some buf) = ok (hex_encode buf)

abbrev pub new_session : Descriptor → Route → Target → SessionParams → Time → Session
new_session descriptor route target params created_at = record {
  id = descriptor.session_id;
  name = params.name;
  user_id = params.user_id;
  token_id = params.token_id;
  subdomain = descriptor.subdomain;
  protocol = target.protocol;
  target = target.url.text;
  local_port = params.local_port;
  public_url = descriptor.public_url;
  status = params.status;
  connection = params.connection;
  created_at = created_at;
  last_seen = params.last_seen;
  last_heartbeat = params.last_heartbeat;
  in_flight = 0;
  route = route;
}

abbrev pub new_entry : Session → SessionParams → Str → Entry
new_entry s params resume_token = record {
  session = s;
  tunnel = record {
    id = s.id;
    user_id = params.user_id;
    token_id = params.token_id;
    subdomain = s.subdomain;
    protocol = s.protocol;
    port = params.local_port;
    status = params.status;
    public_url = s.public_url;
    created_at = s.created_at;
    last_seen = params.last_seen;
  };
  conn = params.conn;
  remote_addr = params.remote_addr;
  user_id = params.user_id;
  token_id = params.token_id;
  token_prefix = params.token_prefix;
  metadata = params.metadata;
  resume_token = resume_token;
}

-- The first half of storeSession, up to the lock: the new entry.
unfoldable pub plan_session :
    Std → Manager → Random → Target → SessionParams → Time → Result SessionError Entry
plan_session std m random target params now = do
  session_id ← new_name random.session_id
  resume_token ← new_name random.resume_token
  subdomain ← allocate_subdomain std m random.subdomain params.subdomain
  let route = plan m.forwarded_header target session_id
  let descriptor =
      prepare std.unicode m.public_host session_id params.name subdomain target.protocol route
  let created_at = if params.created_at == 0 then now else params.created_at
  ok (new_entry (new_session descriptor route target params created_at) params resume_token)
