-- ===== src/Control/Server/Routes.antt =====
-- Which requests ForwardRequest brings as far as the reservation, and to which peer.
use binboi_go.Base.{
  ℕ, ◌≡◌, ◌↔◌, refl, ap, true, false, Option, none, some, ok, Bool-cases, inl, inr,
}
use binboi_go.Go.Text.{Str, is_empty}
use binboi_go.Go.Map.{Map, get}
use binboi_go.Session.Manager.{Session, lookup_by_host}
use binboi_go.Session.Register.{is_connected}
use binboi_go.Control.Server.{Env, Server, normalize_host, is_http, peer_of, routed_to, route}

-- The host has a connected HTTP session with a peer.
pub record Served (env : Env) (sv : Server) (raw : Str) (s : Session) (n : ℕ) : Type 0 where
  pub named : is_empty (normalize_host env raw) ≡ false
  pub found : lookup_by_host env.std sv.manager (normalize_host env raw) ≡ some s
  pub connected : is_connected s.connection ≡ true
  pub http : is_http s.protocol ≡ true
  pub peer : get sv.peers s.id ≡ some n

peer_of-ok :
    (s t : Session) (o : Option ℕ) (n : ℕ) → peer_of s o ≡ ok (t, n) → (s ≡ t) × (o ≡ some n)
peer_of-ok s t none n h = absurd (cc)
peer_of-ok s t (some m) n h = (cc, cc)

routed_to-ok :
    (peers : Map ℕ) (o : Option Session) (s : Session) (n : ℕ)
    → routed_to peers o ≡ ok (s, n)
    → (o ≡ some s)
      × (is_connected s.connection ≡ true)
      × (is_http s.protocol ≡ true)
      × (get peers s.id ≡ some n)
routed_to-ok peers none s n h = absurd (cc)
routed_to-ok peers (some t) s n h = elim (Bool-cases (is_connected t.connection)) [
  | inr k ↦ absurd (cc (rw k at h))
  | inl c ↦ elim (Bool-cases (is_http t.protocol)) [
    | inr k ↦ absurd (cc (rw (c, k) at h))
    | inl p ↦
        let (e, q) = peer_of-ok t s (get peers t.id) n (rw (c, p) at h) in
        (ap some e, rw⁻¹ e c, rw⁻¹ e p, rw⁻¹ e q)
  ]
]

-- ForwardRequest gets as far as its reservation, with this session and this peer, exactly when the
-- request's host, normalized, is not empty, LookupByHost finds this session for it, the session is
-- connected and speaks HTTP or HTTPS, and this peer is the one under its id. What ForwardRequest
-- refuses later, for the usage limit, a slot or a failed send, is not in this statement.
pub route-exact :
    (env : Env) (sv : Server) (raw : Str) (s : Session) (n : ℕ)
    → (route env sv raw ≡ ok (s, n)) ↔ Served env sv raw s n
unfolding route
route-exact env sv raw s n = (
  λ h. elim (Bool-cases (is_empty (normalize_host env raw))) [
    | inl y ↦ absurd (cc (rw y at h))
    | inr k ↦
        let (f, c, p, q) = routed_to-ok sv.peers _ s n (rw k at h) in
        record { named = k; found = f; connected = c; http = p; peer = q }
  ],
  λ v. rw (v.named, v.found, v.connected, v.http, v.peer) refl,
)
