-- ===== src/Tests/Reconnecting.antt =====
-- The results on pkg/client/tunnel.go, at one client that loses its session.
use binboi_go.Base.{◌≡◌, ◌≤◌, ◌*◌, refl, List, [], ◌∷◌, none, false, All, arith}
use binboi_go.Go.Text.{lit}
use binboi_go.Go.Unicode.{ascii_tables}
use binboi_go.Api.Protocol.{RegisterPayload, validate_register}
use binboi_go.Client.{Outcome, refused, unreachable, served, second, backoff_delay, run}
use binboi_go.Client.Payloads.{run-valid}
use binboi_go.Client.Backoff.{backoff_delay-monotone}

abbrev payload : RegisterPayload
payload = record {
  protocol = lit "http";
  local_port = 8080;
  auth_token = [];
  resume_tunnel_id = [];
  resume_token = [];
}

-- The server is away, comes, restarts without the session, and takes a new one.
abbrev history : List Outcome
history =
    unreachable false
    ∷ served (lit "sess_1") (lit "secret") false
    ∷ refused (lit "invalid_resume") false
    ∷ served (lit "sess_2") (lit "other") false
    ∷ refused (lit "revoked_token") false
    ∷ []

run-valid_example :
    All (λ q. validate_register ascii_tables q ≡ none) (run ascii_tables payload history).0
run-valid_example =
    run-valid ascii_tables payload history (tt, ((refl, refl), (tt, ((refl, refl), (tt, tt)))))

backoff_delay-monotone_example :
    (second ≤ backoff_delay 1)
    × (backoff_delay 1 ≤ backoff_delay 4)
    × (backoff_delay 4 ≤ 10 * second)
backoff_delay-monotone_example = backoff_delay-monotone 1 4 (omega arith) (omega arith)
