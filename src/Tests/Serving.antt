-- ===== src/Tests/Serving.antt =====
-- The results on internal/control/protocol_server.go, at one session and two connections.
use binboi_go.Base.{◌≡◌, ◌↔◌, ◌+◌, refl, [], ◌∷◌, some, none, ok, err, true, arith}
use binboi_go.Tests.{calendar, config, std, no_faults}
use binboi_go.Tests.Tokens.{crypto, raw}
use binboi_go.Tests.Sessions.{session, entry, serving, second_conn, request}
use binboi_go.Go.Word.{add, slt}
use binboi_go.Go.Text.{Str, lit, trim_space, str_discrete}
use binboi_go.Go.Map.{get}
use binboi_go.Disk.{File}
use binboi_go.Api.Protocol.{RegisterPayload, validate_register, normalize_tunnel_protocol}
use binboi_go.Usage.Model.{Resource}
use binboi_go.Usage.Tracker.{Tracker, new_tracker, active_of}
use binboi_go.Usage.Tracker.Tunnels.{reserve_tunnel}
use binboi_go.Usage.Tunnels.Effects.{active_at}
use binboi_go.Tunnel.Engine.{hex_encode}
use binboi_go.Auth.Token.{Principal, hash_token, prefix_from_raw_token}
use binboi_go.Auth.Validator.{Validator, validate_token}
use binboi_go.Session.Manager.{lookup_by_host}
use binboi_go.Session.Register.{
  register_tunnel, refuses_resume, ResumeResult, resumed_entry, no_metadata,
}
use binboi_go.Control.Server.{Env, Server, Refusal, register, hang_up, reserve_new, route}
use binboi_go.Control.Server.Admits.{Untouched, refused-Untouched}
use binboi_go.Control.Server.Resumes.{resume_ignores_limit, late_hang_up}
use binboi_go.Control.Server.Routes.{Served, route-exact}

abbrev env : Env
env = record {
  std = std;
  crypto = crypto;
  calendar = calendar;
  random = record { subdomain = λ n. none; session_id = none; resume_token = none };
  token_faults = no_faults;
  tunnel_faults = no_faults;
  split_host_port = λ h. none;
}

-- The token is in the cache until the instant 100.
abbrev validator : Validator
validator = record {
  cache_ttl = 50;
  touch_every = 60;
  cache =
      (
        hash_token crypto (trim_space raw),
        record {
          principal = record { token_id = lit "tok"; user_id = lit "ann"; prefix = lit "bb_" };
          expires_at = 100;
          last_persisted_usage = 5;
        },
      )
      ∷ [];
}

abbrev server : Server
server = record {
  manager = serving;
  tracker = new_tracker config;
  validator = validator;
  tokens = record { path = lit "auth.json"; file = File.missing; temps = 0 };
  peers = (lit "sess_1", 1) ∷ [];
}

-- A resume of the session over the second connection, with one resume token or another.
abbrev payload : Str → RegisterPayload
payload secret = record {
  protocol = lit "http";
  local_port = 8080;
  auth_token = raw;
  resume_tunnel_id = lit "sess_1";
  resume_token = secret;
}

abbrev resumed : ResumeResult
resumed = record { session = (resumed_entry entry request second_conn 9).session; resumed = true }

is_refused :
    (register env server second_conn (payload (lit "guess")) no_metadata 9 10).0
    ≡ err Refusal.invalid_resume
unfolding register validate_register normalize_tunnel_protocol str_discrete trim_space slt
    validate_token hex_encode prefix_from_raw_token get hash_token reserve_new register_tunnel
    refuses_resume
is_refused = refl

refused-Untouched_example :
    Untouched server (register env server second_conn (payload (lit "guess")) no_metadata 9 10).1
unfolding new_tracker get
refused-Untouched_example =
    refused-Untouched env server second_conn (payload (lit "guess")) no_metadata 9 10
      Refusal.invalid_resume (λ k. omega arith) is_refused

-- A user with one active tunnel, under a limit of one.
abbrev full : Tracker
full = record (new_tracker config) { active_tunnels = (lit "ann", (lit "sess_2", tt) ∷ []) ∷ [] }

abbrev crowded : Server
crowded = record server { tracker = full }

abbrev ann : Principal
ann = record { token_id = lit "tok"; user_id = lit "ann"; prefix = lit "bb_" }

resume_ignores_limit_example :
    ((register env crowded second_conn (payload (lit "secret")) no_metadata 9 10).0 ≡ ok resumed)
    × (active_at
          (register env crowded second_conn (payload (lit "secret")) no_metadata 9 10).1.tracker
          (trim_space (lit "ann"))
        ≡ active_at full (trim_space (lit "ann")) + 1)
unfolding new_tracker reserve_tunnel get trim_space str_discrete add validate_register
    normalize_tunnel_protocol slt validate_token hex_encode prefix_from_raw_token hash_token
    register_tunnel refuses_resume
resume_ignores_limit_example =
    resume_ignores_limit env crowded second_conn (payload (lit "secret")) no_metadata 9 10 ann
      validator crowded.tokens resumed _
      (record { user_id = lit "ann"; resource = Resource.active_tunnels; limit = 1; current = 2 })
      refl refl refl refl refl refl refl

-- The second connection has taken the session over.
abbrev moved : Server
moved = record server { tracker = full; peers = (lit "sess_2", 2) ∷ [] }

late_hang_up_example :
    (get (hang_up env moved (lit "sess_2") (lit "ann") 1 9 10).peers (lit "sess_2") ≡ some 2)
    × (get
          (active_of
            (hang_up env moved (lit "sess_2") (lit "ann") 1 9 10).tracker
            (trim_space (lit "ann")))
          (lit "sess_2")
        ≡ none)
unfolding get str_discrete trim_space
late_hang_up_example =
    late_hang_up env moved (lit "sess_2") (lit "ann") 1 2 9 10 refl (λ e. absurd (omega (arith, e)))
      refl refl

-- The session is found for its host.
abbrev hosting : Server
hosting = record server {
  manager = record serving { active_by_host = (lit "demo.binboi.test", lit "sess_1") ∷ [] };
}

hosting_routes : route env hosting (lit "demo.binboi.test") ≡ ok (session, 1)
unfolding route get str_discrete trim_space lookup_by_host
hosting_routes = refl

route-exact_example :
    (route env hosting (lit "demo.binboi.test") ≡ ok (session, 1))
    ↔ Served env hosting (lit "demo.binboi.test") session 1
route-exact_example = route-exact env hosting (lit "demo.binboi.test") session 1
