-- ===== src/Session/Resume.antt =====
-- When a session may be resumed, and what a late disconnect of its old connection does.
use binboi_go.Base.{
  ◌≡◌, ◌≢◌, refl, sym, ap, ◌∙◌, true, false, none, some, [], ◌∷◌, Result, ok, err, arith,
  Option-cases, Bool-cases, ◌⊎◌, inl, inr, subst,
}
use binboi_go.Go.Text.{Str, is_empty}
use binboi_go.Go.Map.{Map, get, put, get-delete, get-put_self}
use binboi_go.Disk.{Faults}
use binboi_go.Tunnel.Store.{Time, disconnected}
use binboi_go.Transport.{Std}
use binboi_go.Session.Manager.{
  Conn, Session, Entry, Manager, host_from_public_url, delete_if, activate_routing,
  deactivate_routing, persist_tunnel, routed, detach_connection,
}
use binboi_go.Session.Plan.{SessionError, invalid_resume}
use binboi_go.Session.Register.{RegisterRequest, refuses_resume, resume_tunnel, resumed_entry}

-- The request proves that it owns the session: the resume token is not empty, and it and the
-- protocol, the port, the auth token and the user are those of the session.
pub record Owns (e : Entry) (req : RegisterRequest) : Type 0 where
  pub has_token : is_empty e.resume_token ≡ false
  pub token : e.resume_token ≡ req.resume_token
  pub protocol : e.session.protocol ≡ req.protocol
  pub port : e.session.local_port ≡ req.local_port
  pub auth_token : e.token_id ≡ req.token_id
  pub user : e.user_id ≡ req.user_id

empty_nil : (s : Str) → is_empty s ≡ true → s ≡ []
empty_nil [] h = refl
empty_nil (c ∷ s) h = cc

refuses_resume-Owns :
    (e : Entry) (req : RegisterRequest) → refuses_resume e req ≡ false → Owns e req
unfolding refuses_resume
refuses_resume-Owns e req h = record {
  has_token = ground arith;
  token = ground arith;
  protocol = ground arith;
  port = ground arith;
  auth_token = ground (arith, empty_nil e.token_id, empty_nil req.token_id);
  user = ground (arith, empty_nil e.user_id, empty_nil req.user_id);
}

Owns-refuses_resume :
    (e : Entry) (req : RegisterRequest) → Owns e req → refuses_resume e req ≡ false
unfolding refuses_resume
Owns-refuses_resume e req o =
    ground (arith, o.has_token, o.token, o.protocol, o.port, o.auth_token, o.user)

resume_none :
    (std : Std) (f : Faults) (m : Manager) (req : RegisterRequest) (conn : Conn) (now : Time)
    → get m.sessions req.resume_tunnel_id ≡ none
    → resume_tunnel std f m req conn now ≡ (err invalid_resume, m)
unfolding resume_tunnel
resume_none std f m req conn now e = rw (e, resume_tunnel)

resume_refused :
    (std : Std) (f : Faults) (m : Manager) (req : RegisterRequest) (conn : Conn) (now : Time)
    (e : Entry)
    → get m.sessions req.resume_tunnel_id ≡ some e
    → refuses_resume e req ≡ true
    → resume_tunnel std f m req conn now ≡ (err invalid_resume, m)
unfolding resume_tunnel
resume_refused std f m req conn now e g h = rw (g, resume_tunnel) (rw h)

resume_accepted :
    (std : Std) (f : Faults) (m : Manager) (req : RegisterRequest) (conn : Conn) (now : Time)
    (e : Entry)
    → get m.sessions req.resume_tunnel_id ≡ some e
    → refuses_resume e req ≡ false
    → resume_tunnel std f m req conn now ≡ (
      ok (resumed_entry e req conn now).session,
      routed std f m req.resume_tunnel_id (resumed_entry e req conn now),
    )
unfolding resume_tunnel
resume_accepted std f m req conn now e g h = rw (g, resume_tunnel) (rw h)

no_owner :
    (e e' : Entry) (req : RegisterRequest) → e ≡ e' → refuses_resume e req ≡ true → ¬ Owns e' req
no_owner e e' req same r o = cc (Owns-refuses_resume e' req o, ap (λ x. refuses_resume x req) same)

-- resumeTunnel either gives out the session, and then the session exists and the request owns it,
-- or answers `invalid resume` with the manager as it was, and then there is no such session or the
-- request does not own it.
pub resume_tunnel-exact :
    (std : Std) (f : Faults) (m : Manager) (req : RegisterRequest) (conn : Conn) (now : Time)
    → ((e : Entry) × (get m.sessions req.resume_tunnel_id ≡ some e)
        × Owns e req
        × (resume_tunnel std f m req conn now ≡ (
          ok (resumed_entry e req conn now).session,
          routed std f m req.resume_tunnel_id (resumed_entry e req conn now),
        )))
      ⊎ (((e : Entry) → get m.sessions req.resume_tunnel_id ≡ some e → ¬ Owns e req)
          × (resume_tunnel std f m req conn now ≡ (err invalid_resume, m)))
resume_tunnel-exact std f m req conn now =
    elim (Option-cases (get m.sessions req.resume_tunnel_id)) [
      | inl g ↦ inr (λ e h o. cc, resume_none std f m req conn now g)
      | inr (e, g) ↦ elim (Bool-cases (refuses_resume e req)) [
        | inl r ↦ inr (
          λ e' h o. no_owner e e' req (ground arith) r o,
          resume_refused std f m req conn now e g r,
        )
        | inr a ↦
            inl (e, g, refuses_resume-Owns e req a, resume_accepted std f m req conn now e g a)
      ]
    ]

-- A store is not part of the maps.
pub persist-maps :
    (f : Faults) (m : Manager) (e : Entry)
    → ((persist_tunnel f m e).1.sessions ≡ m.sessions)
      × ((persist_tunnel f m e).1.by_host ≡ m.by_host)
      × ((persist_tunnel f m e).1.by_subdomain ≡ m.by_subdomain)
      × ((persist_tunnel f m e).1.active_by_host ≡ m.active_by_host)
      × ((persist_tunnel f m e).1.active_by_subdomain ≡ m.active_by_subdomain)
unfolding persist_tunnel
persist-maps f m e = (ground arith, ground arith, ground arith, ground arith, ground arith)

-- What is left of an entry whose connection is gone.
abbrev pub detached_entry : Entry → Time → Entry
detached_entry e at = record e {
  session = record e.session {
    status = disconnected;
    connection = disconnected;
    last_seen = some at;
    in_flight = 0;
  };
  tunnel = record e.tunnel { status = disconnected; last_seen = some at };
  conn = none;
  remote_addr = [];
}

pub delete_if-gone :
    (m : Map Str) (k v : Str) → is_empty k ≡ false → get (delete_if m k v) k ≢ some v
delete_if-gone m k v h e = ground (arith, get-delete m k k, e)

pub detach_some :
    (std : Std) (f : Faults) (m : Manager) (id : Str) (at : Time) (e : Entry)
    → get m.sessions id ≡ some e
    → detach_connection std f m id at
      ≡ (persist_tunnel f
          (deactivate_routing std
            (record m { sessions = put m.sessions id (detached_entry e at) })
            e.session.id
            e.session.public_url
            e.session.subdomain)
          (detached_entry e at)).1
unfolding detach_connection
detach_some std f m id at e g = rw (g, detach_connection)

-- The session of an id is offline: no connection, not connected, and its host not routed to it.
pub record IsOffline (std : Std) (m : Manager) (id : Str) (e : Entry) : Type 0 where
  pub present : get m.sessions id ≡ some e
  pub no_conn : e.conn ≡ none
  pub status : e.session.connection ≡ disconnected
  pub not_routed : get m.active_by_host (host_from_public_url std e.session.public_url) ≢ some id

detach-IsOffline :
    (std : Std) (f : Faults) (m : Manager) (id : Str) (at : Time) (e : Entry)
    → get m.sessions id ≡ some e
    → e.session.id ≡ id
    → is_empty (host_from_public_url std e.session.public_url) ≡ false
    → IsOffline std (detach_connection std f m id at) id (detached_entry e at)
detach-IsOffline std f m id at e g same h =
    let quiet : Manager =
      deactivate_routing std (record m { sessions = put m.sessions id (detached_entry e at) })
        e.session.id e.session.public_url e.session.subdomain in
    let kept = persist-maps f quiet (detached_entry e at) in
    let host = host_from_public_url std e.session.public_url in
    record {
      present =
          ap (λ (x : Manager). get x.sessions id) (detach_some std f m id at e g)
          ∙ ap (λ x. get x id) kept.0
          ∙ unfold deactivate_routing in get-put_self m.sessions id (detached_entry e at);
      no_conn = refl;
      status = refl;
      not_routed = λ routed_to. delete_if-gone m.active_by_host host id h (
          ap (λ x. get (delete_if m.active_by_host host x) host) (sym same)
          ∙ sym (
              ap (λ (x : Manager). get x.active_by_host host) (detach_some std f m id at e g)
              ∙ ap (λ x. get x host) kept.3
              ∙ unfold deactivate_routing in refl)
          ∙ routed_to);
    }

routed-sessions :
    (std : Std) (f : Faults) (m : Manager) (id : Str) (e : Entry)
    → get (routed std f m id e).sessions id ≡ some e
routed-sessions std f m id e =
    let active : Manager =
      activate_routing std (record m { sessions = put m.sessions id e }) e.session.id
        e.session.public_url e.session.subdomain in
    ap (λ x. get x id) (persist-maps f active e).0
    ∙ unfold activate_routing in get-put_self m.sessions id e

-- A late disconnect takes a resumed session down. Whenever a session is resumed on a new
-- connection, a call of DetachConnection for its id, which the handler of the old connection makes
-- when it ends, leaves the session without a connection, marked disconnected and with its host no
-- longer routed to it, although the new connection is still up.
pub resume_then_late_detach :
    (std : Std) (f g : Faults) (m : Manager) (req : RegisterRequest) (conn : Conn) (now at : Time)
    (e : Entry)
    → get m.sessions req.resume_tunnel_id ≡ some e
    → e.session.id ≡ req.resume_tunnel_id
    → is_empty (host_from_public_url std e.session.public_url) ≡ false
    → Owns e req
    → IsOffline std
        (detach_connection std g (resume_tunnel std f m req conn now).1 req.resume_tunnel_id at)
        req.resume_tunnel_id
        (detached_entry (resumed_entry e req conn now) at)
resume_then_late_detach std f g m req conn now at e found same h owns =
    let id = req.resume_tunnel_id in
    let e' = resumed_entry e req conn now in
    let accepted = resume_accepted std f m req conn now e found (Owns-refuses_resume e req owns) in
    subst
      (λ (x : Result SessionError Session × Manager).
        IsOffline std (detach_connection std g x.1 id at) id (detached_entry e' at))
      (sym accepted)
      (detach-IsOffline std g (routed std f m id e') id at e' (routed-sessions std f m id e') same
        h)
