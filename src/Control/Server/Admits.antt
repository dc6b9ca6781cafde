-- ===== src/Control/Server/Admits.antt =====
-- Who is registered, and what a refused client leaves behind.
use binboi_go.Base.{◌+◌, ◌<◌, ◌≡◌, refl, Option, none, some, Result, ok, err, ◌⊎◌, false, not, ◌||◌}
use binboi_go.Go.Word.{sign_bit}
use binboi_go.Go.Text.{Str, is_empty, trim_space}
use binboi_go.Go.Map.{get}
use binboi_go.Disk.{Disk}
use binboi_go.Api.Protocol.{RegisterPayload, ProtocolError, validate_register}
use binboi_go.Usage.Model.{LimitError}
use binboi_go.Usage.Tracker.{Tracker, reserved_of}
use binboi_go.Usage.Tracker.Tunnels.{TunnelReservation, release_tunnel_reservation}
use binboi_go.Auth.Token
use binboi_go.Auth.Token.{Time, Principal, AuthError, hash_token, prefix_from_raw_token}
use binboi_go.Auth.Validator.{Validator}
use binboi_go.Auth.Sound.{IsVouched}
use binboi_go.Session.Manager.{Conn, ClientMetadata, Manager}
use binboi_go.Session.Plan.{SessionError}
use binboi_go.Session.Register.{ResumeResult}
use binboi_go.Session.Owner.{IsOf}
use binboi_go.Control.Server.{
  Env, Server, Refusal, reserve_new, settled, reserved_for, admitted, checked, register,
}
use binboi_go.Control.Server.Room.{
  SameTunnels, SameTunnels-refl, given_back, new_given_back-SameTunnels, HasRoom,
}

-- What a client that is refused leaves as it was.
pub record Untouched (sv sv' : Server) : Type 0 where
  pub peers : sv'.peers ≡ sv.peers
  pub tunnels : SameTunnels sv.tracker sv'.tracker

settled-Untouched :
    (env : Env) (sv : Server) (t : Tracker) (conn : Conn) (r : TunnelReservation) (now later : Time)
    (o : Result SessionError ResumeResult × Manager) (x : Refusal)
    → SameTunnels sv.tracker (release_tunnel_reservation t r)
    → (settled env (record sv { tracker = t }) conn r now later o).0 ≡ err x
    → Untouched sv (settled env (record sv { tracker = t }) conn r now later o).1
settled-Untouched env sv t conn r now later (err e, m) x s h = record { peers = refl; tunnels = s }
settled-Untouched env sv t conn r now later (ok a, m) x s h = absurd (cc)

reserved_for-Untouched :
    (env : Env) (sv : Server) (conn : Conn) (p : RegisterPayload) (metadata : ClientMetadata)
    (who : Principal) (now later : Time) (o : Result LimitError TunnelReservation × Tracker)
    (x : Refusal)
    → SameTunnels sv.tracker (given_back o)
    → (reserved_for env sv conn p metadata who now later o).0 ≡ err x
    → Untouched sv (reserved_for env sv conn p metadata who now later o).1
reserved_for-Untouched env sv conn p metadata who now later (err e, t) x s h = record {
  peers = refl;
  tunnels = s;
}
reserved_for-Untouched env sv conn p metadata who now later (ok r, t) x s h =
    settled-Untouched env sv t conn r now later _ x s h

admitted-Untouched :
    (env : Env) (sv : Server) (conn : Conn) (p : RegisterPayload) (metadata : ClientMetadata)
    (now later : Time) (o : Result AuthError Principal × Validator × Disk Token.Record)
    (x : Refusal)
    → ((k : Str) → reserved_of sv.tracker k + 1 < sign_bit)
    → (admitted env sv conn p metadata now later o).0 ≡ err x
    → Untouched sv (admitted env sv conn p metadata now later o).1
admitted-Untouched env sv conn p metadata now later (err e, v, d) x s h = record {
  peers = refl;
  tunnels = SameTunnels-refl sv.tracker;
}
admitted-Untouched env sv conn p metadata now later (ok who, v, d) x s h =
    let u =
      reserved_for-Untouched env (record sv { validator = v; tokens = d }) conn p metadata who now
        later (reserve_new sv.tracker p.resume_tunnel_id who.user_id) x
        (new_given_back-SameTunnels sv.tracker p.resume_tunnel_id who.user_id s) h in
    record { peers = u.peers; tunnels = u.tunnels }

checked-Untouched :
    (env : Env) (sv : Server) (conn : Conn) (p : RegisterPayload) (metadata : ClientMetadata)
    (now later : Time) (o : Option ProtocolError) (x : Refusal)
    → ((k : Str) → reserved_of sv.tracker k + 1 < sign_bit)
    → (checked env sv conn p metadata now later o).0 ≡ err x
    → Untouched sv (checked env sv conn p metadata now later o).1
checked-Untouched env sv conn p metadata now later (some e) x s h = record {
  peers = refl;
  tunnels = SameTunnels-refl sv.tracker;
}
checked-Untouched env sv conn p metadata now later none x s h =
    admitted-Untouched env sv conn p metadata now later _ x s h

-- A client that is refused, at whatever check: for its payload, its token, the tunnel limit, a resume
-- that does not hold or a session that cannot be made. It is no peer, no active tunnel has come or
-- gone, and every user has as many reserved tunnels as before, as a reservation that was taken for
-- it has been given back. The condition is that no user has 2^63 - 2 reservations.
pub refused-Untouched :
    (env : Env) (sv : Server) (conn : Conn) (p : RegisterPayload) (metadata : ClientMetadata)
    (now later : Time) (x : Refusal)
    → ((k : Str) → reserved_of sv.tracker k + 1 < sign_bit)
    → (register env sv conn p metadata now later).0 ≡ err x
    → Untouched sv (register env sv conn p metadata now later).1
unfolding register
refused-Untouched env sv conn p metadata now later x s h =
    checked-Untouched env sv conn p metadata now later _ x s h

-- What stands behind a registered session.
pub record Admission (env : Env) (sv sv' : Server) (conn : Conn) (p : RegisterPayload) (now : Time)
    (a : ResumeResult) : Type 0 where
  pub payload : validate_register env.std.unicode p ≡ none
  pub who : Principal
  pub prefix : Str
  pub has_prefix : prefix_from_raw_token (trim_space p.auth_token) ≡ ok prefix
  pub vouched :
      IsVouched sv.validator sv.tokens prefix
        (hash_token env.crypto (trim_space p.auth_token))
        now
        who
  pub within_limit : (is_empty p.resume_tunnel_id ≡ false) ⊎ HasRoom sv.tracker who.user_id
  pub owner : IsOf who.user_id who.token_id a.session
  pub resumed : a.resumed ≡ not (is_empty p.resume_tunnel_id) || not (is_empty p.resume_token)
  pub peer : get sv'.peers a.session.id ≡ some conn.handle
