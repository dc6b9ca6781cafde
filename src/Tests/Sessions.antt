-- ===== src/Tests/Sessions.antt =====
-- The results on internal/session, internal/tunnel and pkg/api, at one session.
use binboi_go.Base.{
  true, ℕ, ◌≡◌, ◌≤◌, ◌<◌, ◌+◌, ◌*◌, ◌⊎◌, inl, inr, refl, List, [], ◌∷◌, Option, some, none, ok, err,
  arith,
}
use binboi_go.Tests.{std, no_faults}
use binboi_go.Go.Text.{lit, str_discrete, trim_space}
use binboi_go.Go.Map.{put, get, empty}
use binboi_go.Go.Unicode.{ascii_tables}
use binboi_go.Api.Protocol.{FlowControl, normalize_flow, buffered_frame_capacity, body_chunk_size}
use binboi_go.Api.Capacity.{buffered_frame_capacity-least}
use binboi_go.Tunnel.Store.{connected}
use binboi_go.Tunnel.Engine.{host_for_subdomain, extract_subdomain}
use binboi_go.Tunnel.Engine.Labels.{extract-host}
use binboi_go.Session.Manager.{
  Conn, Session, Entry, Manager, new_manager, host_from_public_url, detach_connection, routed,
  activate_routing, persist_tunnel, lookup_by_host,
}
use binboi_go.Session.Plan.{draw_subdomain, invalid_resume}
use binboi_go.Session.Register.{
  RegisterRequest, resume_tunnel, resumed_entry, insert_session, no_metadata, is_connected,
  add_and_persist, add_entry,
}
use binboi_go.Session.Resume.{
  Owns, IsOffline, detached_entry, resume_tunnel-exact, resume_then_late_detach,
}
use binboi_go.Session.Allocate.{Drawn, draw_subdomain-first}
use binboi_go.Session.Routing
use binboi_go.Session.Routing.Reached.{reached-routed}

abbrev pub session : Session
session = record {
  id = lit "sess_1";
  name = lit "http-8080";
  user_id = lit "ann";
  token_id = lit "tok";
  subdomain = lit "demo";
  protocol = lit "http";
  target = lit "http://127.0.0.1:8080";
  local_port = 8080;
  public_url = lit "demo.binboi.test";
  status = connected;
  connection = connected;
  created_at = 7;
  last_seen = some 7;
  last_heartbeat = some 7;
  in_flight = 0;
  route = record { upstream = lit "http://127.0.0.1:8080"; headers = empty };
}

abbrev conn : Conn
conn = record { handle = 1; remote_addr = lit "10.0.0.1:99" }

abbrev pub entry : Entry
entry = record {
  session = session;
  tunnel = record {
    id = session.id;
    user_id = session.user_id;
    token_id = session.token_id;
    subdomain = session.subdomain;
    protocol = session.protocol;
    port = session.local_port;
    status = connected;
    public_url = session.public_url;
    created_at = 7;
    last_seen = some 7;
  };
  conn = some conn;
  remote_addr = conn.remote_addr;
  user_id = lit "ann";
  token_id = lit "tok";
  token_prefix = lit "bb_";
  metadata = no_metadata;
  resume_token = lit "secret";
}

abbrev fresh : Manager
fresh = new_manager (lit "binboi.test") [] none

-- A manager that holds the session.
abbrev pub serving : Manager
serving = record fresh { sessions = (lit "sess_1", entry) ∷ [] }

abbrev pub second_conn : Conn
second_conn = record { handle = 2; remote_addr = lit "10.0.0.1:100" }

-- A request of the session's owner, on a second connection.
abbrev pub request : RegisterRequest
request = record {
  protocol = lit "http";
  local_port = 8080;
  user_id = lit "ann";
  token_id = lit "tok";
  token_prefix = lit "bb_";
  metadata = no_metadata;
  conn = some second_conn;
  resume_tunnel_id = lit "sess_1";
  resume_token = lit "secret";
}

request-Owns : Owns entry request
request-Owns = record {
  has_token = refl;
  token = refl;
  protocol = refl;
  port = refl;
  auth_token = refl;
  user = refl;
}

resume_tunnel-exact_example :
    ((e : Entry) × (get serving.sessions request.resume_tunnel_id ≡ some e)
      × Owns e request
      × (resume_tunnel std no_faults serving request second_conn 9 ≡ (
        ok (resumed_entry e request second_conn 9).session,
        routed std no_faults serving request.resume_tunnel_id
            (resumed_entry e request second_conn 9),
      )))
    ⊎ (((e : Entry) → get serving.sessions request.resume_tunnel_id ≡ some e → ¬ Owns e request)
        × (resume_tunnel std no_faults serving request second_conn 9
            ≡ (err invalid_resume, serving)))
resume_tunnel-exact_example = resume_tunnel-exact std no_faults serving request second_conn 9

resume_then_late_detach_example :
    IsOffline std
      (detach_connection std no_faults
        (resume_tunnel std no_faults serving request second_conn 9).1
        (lit "sess_1")
        10)
      (lit "sess_1")
      (detached_entry (resumed_entry entry request second_conn 9) 10)
unfolding get str_discrete host_from_public_url trim_space
resume_then_late_detach_example =
    resume_then_late_detach std no_faults no_faults serving request second_conn 9 10 entry refl refl
      refl request-Owns

-- The random source gives the attempt's number, four times over.
abbrev draws : ℕ → Option (List ℕ)
draws n = some (n ∷ n ∷ n ∷ n ∷ [])

draw_subdomain-first_example : Drawn std serving draws 0 3 (draw_subdomain std serving draws 3 0)
draw_subdomain-first_example = draw_subdomain-first std serving draws 3 0

extract-host_example :
    extract_subdomain ascii_tables
      (host_for_subdomain ascii_tables (lit "binboi.test") (lit "demo7"))
      (lit "binboi.test")
    ≡ lit "demo7"
unfolding trim_space
extract-host_example =
    extract-host ascii_tables (lit "binboi.test") (lit "demo7")
      (
        inl (omega arith, omega arith),
        (
          inl (omega arith, omega arith),
          (
            inl (omega arith, omega arith),
            (inl (omega arith, omega arith), (inr (omega arith, omega arith), tt)),
          ),
        ),
      )
      (λ e. cc) (λ e. cc) refl refl

-- Settings of which the buffer alone is given, one byte over two chunks.
abbrev settings : FlowControl
settings = record {
  max_concurrent_streams = 0;
  buffered_bytes_per_stream = 65537;
  stream_timeout_seconds = 0;
  stream_idle_timeout_seconds = 0;
}

buffered_frame_capacity-least_example :
    ((normalize_flow settings).buffered_bytes_per_stream
      ≤ buffered_frame_capacity settings * body_chunk_size)
    × (buffered_frame_capacity settings * body_chunk_size
        < (normalize_flow settings).buffered_bytes_per_stream + body_chunk_size)
buffered_frame_capacity-least_example = buffered_frame_capacity-least settings (omega arith)

-- The manager after the insertion of the session.
abbrev inserted : Manager
inserted = (insert_session std no_faults fresh entry).1

abbrev one_session : Routing.Reach std fresh inserted
one_session = Routing.next Routing.here (Routing.inserts no_faults entry (unfold get in refl) refl)

reached-routed_example :
    (s : Session) × (lookup_by_host std inserted (lit "demo.binboi.test") ≡ some s)
    × (s.id ≡ lit "sess_1")
    × (host_from_public_url std s.public_url ≡ lit "demo.binboi.test")
    × (is_connected s.connection ≡ true)
unfolding get put str_discrete insert_session add_and_persist add_entry activate_routing
    host_from_public_url trim_space persist_tunnel
reached-routed_example =
    reached-routed std (lit "binboi.test") [] none inserted one_session (lit "demo.binboi.test")
      (lit "sess_1") refl
