-- ===== src/Session/Owner.antt =====
-- Whose session RegisterTunnel of internal/session/session.go gives out.
use binboi_go.Base.{
  ◌≡◌, refl, sym, ap, ◌∙◌, Bool, true, false, not, ◌||◌, Option, none, some, Result, ok, err,
  ok-injective, Option-cases, Bool-cases, inl, inr, ◌⊎◌,
}
use binboi_go.Go.Text.{Str, is_empty}
use binboi_go.Go.Map.{get}
use binboi_go.Disk.{Faults, StoreError}
use binboi_go.Tunnel.Store.{Time}
use binboi_go.Api.Protocol.{normalize_tunnel_protocol}
use binboi_go.Transport.{Std, Target, local_target}
use binboi_go.Session.Manager.{Conn, Session, Entry, Manager, persist_tunnel, host_from_public_url}
use binboi_go.Session.Plan.{
  Random, SessionError, SessionParams, plan_session, new_name, allocate_subdomain,
}
use binboi_go.Session.Register.{
  RegisterRequest, ResumeResult, holder, is_connected, add_entry, or_rolled_back, add_and_persist,
  insert_session, store_session, as_result, params_of, refuses_resume, resume_tunnel,
  register_tunnel,
}

-- A result is an error or a value.
Result-cases :
    {E : Type 0} {A : Type 0} (r : Result E A) → ((e : E) × (r ≡ err e)) ⊎ ((a : A) × (r ≡ ok a))
Result-cases (err e) = inl (e, refl)
Result-cases (ok a) = inr (a, refl)

-- The session is the user's and the token's.
abbrev pub IsOf : Str → Str → Session → Type 0
IsOf user token s = (s.user_id ≡ user) × (s.token_id ≡ token)

planned-IsOf :
    (std : Std) (m : Manager) (random : Random) (target : Target) (params : SessionParams)
    (now : Time) (e : Entry)
    → plan_session std m random target params now ≡ ok e
    → IsOf params.user_id params.token_id e.session
unfolding plan_session
planned-IsOf std m random target params now e h = elim (Result-cases (new_name random.session_id)) [
  | inl (x, f) ↦ absurd (cc (rw f at h))
  | inr (id, f) ↦ elim (Result-cases (new_name random.resume_token)) [
    | inl (x, g) ↦ absurd (cc (rw (f, g) at h))
    | inr (token, g) ↦
        elim (Result-cases (allocate_subdomain std m random.subdomain params.subdomain)) [
          | inl (x, k) ↦ absurd (cc (rw (f, g, k) at h))
          | inr (subdomain, k) ↦
              let same = ok-injective (rw (f, g, k) at h) in
              (
                ap (λ (z : Entry). z.session.user_id) (sym same),
                ap (λ (z : Entry). z.session.token_id) (sym same),
              )
        ]
  ]
]

rolled_back-ok :
    (std : Std) (e : Entry) (r : Option StoreError × Manager) (s : Session)
    → (or_rolled_back std e r).0 ≡ ok s
    → e.session ≡ s
rolled_back-ok std e (none, m) s h = ok-injective h
rolled_back-ok std e (some x, m) s h = absurd (cc h)

added-ok :
    (std : Std) (f : Faults) (m : Manager) (e : Entry) (s : Session)
    → (add_and_persist std f m e).0 ≡ ok s
    → e.session ≡ s
unfolding add_and_persist
added-ok std f m e s h = rolled_back-ok std e (persist_tunnel f (add_entry std m e) e) s h

inserted-ok :
    (std : Std) (f : Faults) (m : Manager) (e : Entry) (s : Session)
    → (insert_session std f m e).0 ≡ ok s
    → e.session ≡ s
unfolding insert_session
inserted-ok std f m e s h =
    elim (Option-cases (holder m (host_from_public_url std e.session.public_url))) [
      | inl g ↦ added-ok std f m e s (rw (g, insert_session) at h)
      | inr ((id, x), g) ↦ elim (Bool-cases (is_connected x.session.connection)) [
        | inl y ↦ absurd (cc (rw (g, insert_session, y) at h))
        | inr n ↦ added-ok std f _ e s (rw (g, insert_session, n) at h)
      ]
    ]

stored-IsOf :
    (std : Std) (f : Faults) (m : Manager) (random : Random) (target : Target)
    (params : SessionParams) (now : Time) (s : Session)
    → (store_session std f m random target params now).0 ≡ ok s
    → IsOf params.user_id params.token_id s
unfolding store_session
stored-IsOf std f m random target params now s h =
    elim (Result-cases (plan_session std m random target params now)) [
      | inl (x, g) ↦ absurd (cc (rw (g, store_session) at h))
      | inr (e, g) ↦
          let p = planned-IsOf std m random target params now e g in
          let same = inserted-ok std f m e s (rw (g, store_session) at h) in
          (
            ap (λ (z : Session). z.user_id) (sym same) ∙ p.0,
            ap (λ (z : Session). z.token_id) (sym same) ∙ p.1,
          )
    ]

resumed-IsOf :
    (std : Std) (f : Faults) (m : Manager) (req : RegisterRequest) (conn : Conn) (now : Time)
    (s : Session)
    → (resume_tunnel std f m req conn now).0 ≡ ok s
    → IsOf req.user_id req.token_id s
unfolding resume_tunnel
resumed-IsOf std f m req conn now s h = elim (Option-cases (get m.sessions req.resume_tunnel_id)) [
  | inl g ↦ absurd (cc (rw (g, resume_tunnel) at h))
  | inr (e, g) ↦ elim (Bool-cases (refuses_resume e req)) [
    | inl y ↦ absurd (cc (rw (g, resume_tunnel, y) at h))
    | inr n ↦
        let same = ok-injective (rw (g, resume_tunnel, n) at h) in
        (ap (λ (z : Session). z.user_id) (sym same), ap (λ (z : Session). z.token_id) (sym same))
  ]
]

as_result-ok :
    (b : Bool) (r : Result SessionError Session × Manager) (a : ResumeResult)
    → (as_result b r).0 ≡ ok a
    → (r.0 ≡ ok a.session) × (a.resumed ≡ b)
as_result-ok b (ok s, m) a h =
    let same = ok-injective h in
    (ap (λ (x : ResumeResult). ok x.session) same, ap (λ (x : ResumeResult). x.resumed) (sym same))
as_result-ok b (err e, m) a h = absurd (cc h)

-- RegisterTunnel resumes exactly where the request has a resume id or a resume token.
abbrev pub is_resume : RegisterRequest → Bool
is_resume req = not (is_empty req.resume_tunnel_id) || not (is_empty req.resume_token)

-- The session that RegisterTunnel gives out, made or resumed, is the requester's.
pub register_tunnel-IsOf :
    (std : Std) (f : Faults) (m : Manager) (random : Random) (req : RegisterRequest) (now : Time)
    (a : ResumeResult)
    → (register_tunnel std f m random req now).0 ≡ ok a
    → IsOf req.user_id req.token_id a.session × (a.resumed ≡ is_resume req)
unfolding register_tunnel
register_tunnel-IsOf std f m random req now a h = elim (Option-cases req.conn) [
  | inl g ↦ absurd (cc (rw (g, register_tunnel) at h))
  | inr (conn, g) ↦ elim (Result-cases (normalize_tunnel_protocol std.unicode req.protocol)) [
    | inl (x, n) ↦ absurd (cc (rw (g, register_tunnel, n) at h))
    | inr (p, n) ↦ elim (Bool-cases (is_resume req)) [
      | inl y ↦
          let (k, r) =
            as_result-ok true (resume_tunnel std f m req conn now) a
              (rw (g, register_tunnel, n, y) at h) in
          (resumed-IsOf std f m req conn now a.session k, r ∙ sym y)
      | inr y ↦ elim (Result-cases (local_target std req.protocol req.local_port)) [
        | inl (x, t) ↦ absurd (cc (rw (g, register_tunnel, n, y, t) at h))
        | inr (target, t) ↦
            let (k, r) = as_result-ok false _ a (rw (g, register_tunnel, n, y, t) at h) in
            (
              stored-IsOf std f m random target (params_of std req conn target now) now a.session k,
              r ∙ sym y,
            )
      ]
    ]
  ]
]
