-- ===== src/Control/Server/Resumes.antt =====
-- Resumed sessions and the tunnel limit, and the end of a handler whose connection a resume has
-- replaced.
use binboi_go.Base.{
  ℕ, ◌+◌, ◌≡◌, ◌≢◌, refl, sym, ap, ◌∙◌, true, false, [], ◌∷◌, Result, none, some, ok, err, arith,
  Bool-cases, Option-cases, inl, inr, length,
}
use binboi_go.Go.Text.{Str, is_empty, trim_space}
use binboi_go.Go.Map.{Map, get, put, delete, empty, get-put_self, get-delete, length-put_new}
use binboi_go.Usage.Model.{LimitError, Time}
use binboi_go.Usage.Tracker.{Calendar, Tracker, active_of, or_empty, ensure_active_set}
use binboi_go.Usage.Tracker.Tunnels.{
  reserve_tunnel, mark_active, mark_closed, restore_tunnel, track_tunnel_closed,
}
use binboi_go.Usage.Tunnels.Effects.{active_at, touch_bucket-SameTunnels}
use binboi_go.Disk.{Disk}
use binboi_go.Api.Protocol.{RegisterPayload, validate_register}
use binboi_go.Auth.Token
use binboi_go.Auth.Token.{Principal}
use binboi_go.Auth.Validator.{Validator, validate_token}
use binboi_go.Session.Manager.{Conn, ClientMetadata, Manager}
use binboi_go.Session.Plan.{SessionError}
use binboi_go.Session.Register.{ResumeResult, register_tunnel}
use binboi_go.Session.Owner.{register_tunnel-IsOf}
use binboi_go.Control.Server.{Env, Server, reserve_new, request_of, register, remove_peer, hang_up}

mark_active-new :
    (t : Tracker) (u id : Str)
    → get (active_of t u) id ≡ none
    → active_at (mark_active t u id) u ≡ active_at t u + 1
mark_active-new t u id e = elim (Option-cases (get t.active_tunnels u)) [
  | inl f ↦
      unfold mark_active ensure_active_set put in
      ground (arith, f, get-put_self (put t.active_tunnels u empty) u (put empty id tt))
  | inr (active, f) ↦
      unfold mark_active ensure_active_set in
      ground (
        arith,
        f,
        get-put_self t.active_tunnels u (put active id tt),
        length-put_new active id tt (ap (λ o. get (or_empty o) id) (sym f) ∙ e),
      )
]

get-empty : (id : Str) → get {V = Unit {0}} empty id ≡ none
unfolding get
get-empty id = refl

get-delete_self : (m : Map (Unit {0})) (id : Str) → get (delete m id) id ≡ none
get-delete_self m id = ground (arith, get-delete m id id)

mark_closed-none : (t : Tracker) (u id : Str) → get (active_of (mark_closed t u id) u) id ≡ none
mark_closed-none t u id = elim (Option-cases (get t.active_tunnels u)) [
  | inl f ↦ unfold mark_closed get in ground (arith, f)
  | inr (active, f) ↦
      unfold mark_closed in
      ground (
        arith,
        f,
        get-put_self t.active_tunnels u (delete active id),
        get-delete (put t.active_tunnels u (delete active id)) u u,
        get-delete_self active id,
        get-empty id,
      )
]

refused_named :
    (t : Tracker) (user : Str) (e : LimitError)
    → (reserve_tunnel t user).0 ≡ err e
    → is_empty (trim_space user) ≡ false
unfolding reserve_tunnel
refused_named t user e h = elim (Bool-cases (is_empty (trim_space user))) [
  | inl y ↦ absurd (cc (rw y at h))
  | inr n ↦ n
]

named : (user : Str) → is_empty (trim_space user) ≡ false → is_empty user ≡ false
unfolding trim_space
named [] h = h
named (c ∷ user) h = refl

restored :
    (cal : Calendar) (t : Tracker) (user id : Str) (now later : Time)
    → is_empty (trim_space user) ≡ false
    → is_empty id ≡ false
    → get (active_of t (trim_space user)) id ≡ none
    → active_at (restore_tunnel cal t user id now later) (trim_space user)
      ≡ active_at t (trim_space user) + 1
unfolding restore_tunnel
restored cal t user id now later u n g =
    rw (u, n)
      (ap (λ m. length (or_empty (get m (trim_space user))))
          (touch_bucket-SameTunnels cal (mark_active t (trim_space user) id) (trim_space user) now
            later).active
        ∙ mark_active-new t (trim_space user) id g)

resume_registers :
    (env : Env) (sv : Server) (conn : Conn) (p : RegisterPayload) (metadata : ClientMetadata)
    (now later : Time) (who : Principal) (v : Validator) (d : Disk Token.Record) (a : ResumeResult)
    (m : Manager)
    → validate_register env.std.unicode p ≡ none
    → validate_token env.crypto env.token_faults sv.validator sv.tokens p.auth_token now later
      ≡ (ok who, v, d)
    → is_empty p.resume_tunnel_id ≡ false
    → register_tunnel env.std env.tunnel_faults sv.manager env.random
        (request_of p metadata who conn)
        now
      ≡ (ok a, m)
    → a.resumed ≡ true
    → a.session.user_id ≡ who.user_id
    → ((register env sv conn p metadata now later).0 ≡ ok a)
      × ((register env sv conn p metadata now later).1.tracker
          ≡ restore_tunnel env.calendar sv.tracker who.user_id a.session.id now later)
unfolding register reserve_new
resume_registers env sv conn p metadata now later who v d a m valid token n made r u =
    rw (valid, token, n, made, r, u) (refl, refl)

-- The tunnel limit is not asked when a client resumes. Take a valid payload with a resume id, whose
-- token the validator accepts, of a user to whom ReserveTunnel refuses another tunnel, and let the
-- session manager grant the resume of a session, with an id that is not empty, that is not among
-- the user's active tunnels. Then the handler registers the session, and the user has one active
-- tunnel more.
pub resume_ignores_limit :
    (env : Env) (sv : Server) (conn : Conn) (p : RegisterPayload) (metadata : ClientMetadata)
    (now later : Time) (who : Principal) (v : Validator) (d : Disk Token.Record) (a : ResumeResult)
    (m : Manager) (e : LimitError)
    → validate_register env.std.unicode p ≡ none
    → validate_token env.crypto env.token_faults sv.validator sv.tokens p.auth_token now later
      ≡ (ok who, v, d)
    → (reserve_tunnel sv.tracker who.user_id).0 ≡ err e
    → is_empty p.resume_tunnel_id ≡ false
    → register_tunnel env.std env.tunnel_faults sv.manager env.random
        (request_of p metadata who conn)
        now
      ≡ (ok a, m)
    → is_empty a.session.id ≡ false
    → get (active_of sv.tracker (trim_space who.user_id)) a.session.id ≡ none
    → ((register env sv conn p metadata now later).0 ≡ ok a)
      × (active_at (register env sv conn p metadata now later).1.tracker (trim_space who.user_id)
          ≡ active_at sv.tracker (trim_space who.user_id) + 1)
resume_ignores_limit env sv conn p metadata now later who v d a m e valid token h n made i g =
    let (owner, r) =
      register_tunnel-IsOf env.std env.tunnel_faults sv.manager env.random
        (request_of p metadata who conn) now a
        (ap (λ (x : Result SessionError ResumeResult × Manager). x.0) made) in
    let (answer, t) =
      resume_registers env sv conn p metadata now later who v d a m valid token n made
        (ground (arith, r, n)) owner.0 in
    (
      answer,
      ap (λ x. active_at x (trim_space who.user_id)) t
          ∙ restored env.calendar sv.tracker who.user_id a.session.id now later
              (refused_named sv.tracker who.user_id e h) i g,
    )

-- A client has resumed its session over a new connection, and the handler of the old one ends
-- later. The peer under the session's id is still the new one, but the tunnel is no more among the
-- active tunnels of the user, and so does not count towards the limit.
pub late_hang_up :
    (env : Env) (sv : Server) (id user : Str) (old new : ℕ) (now later : Time)
    → get sv.peers id ≡ some new
    → new ≢ old
    → is_empty id ≡ false
    → is_empty (trim_space user) ≡ false
    → (get (hang_up env sv id user old now later).peers id ≡ some new)
      × (get (active_of (hang_up env sv id user old now later).tracker (trim_space user)) id ≡ none)
unfolding hang_up remove_peer track_tunnel_closed
late_hang_up env sv id user old new now later p d n u = (
  ground (arith, p, d),
  rw (named user u, u, n)
      (ap (λ m. get (or_empty (get m (trim_space user))) id)
          (touch_bucket-SameTunnels env.calendar (mark_closed sv.tracker (trim_space user) id)
            (trim_space user) now later).active
        ∙ mark_closed-none sv.tracker (trim_space user) id),
)
