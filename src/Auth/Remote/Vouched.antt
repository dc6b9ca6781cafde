-- ===== src/Auth/Remote/Vouched.antt =====
-- Whom the remote validator lets in, over every history of its calls.
use binboi_go.Base.{
  ◌≡◌, ◌⊎◌, refl, ap, ◌∙◌, true, List, Option, none, some, Result, ok, err, ltb, arith, Bool-cases,
  Option-cases, inl, inr, subst, ok-injective, some-injective, ◌==◌,
}
use binboi_go.Go.Text.{Str, is_empty, trim_space}
use binboi_go.Go.Word.{Int64}
use binboi_go.Go.Map.{get}
use binboi_go.Auth.Token.{Crypto, Time, Principal, AuthError, hash_token, prefix_from_raw_token}
use binboi_go.Auth.Remote.{
  Response, Reply, RemoteValidator, new_remote_validator, cached_remote, replied, unless_cached,
  with_prefix, validate_remote, answered,
}
use binboi_go.Auth.Remote.History.{Answer, Vouches, Vouches-weaken, Reach, Backed, reached-Backed}

-- The answer of a call that lets a token in.
abbrev pub Lets : Crypto → Int64 → List Answer → (Str → Reply) → Str → Time → Principal → Type 0
Lets c ttl log frontend raw now p =
    Vouches (hash_token c raw) p ttl now log
    ⊎ (r : Response) × (frontend raw ≡ answered r) × (r.status ≡ 200) × (r.principal ≡ p)

eq-200 : (n : Int64) → (n == 200) ≡ true → n ≡ 200
eq-200 n e = ground arith

replied-ok :
    (v : RemoteValidator) (hash : Str) (now : Time) (reply : Reply) (p : Principal)
    → (replied v hash now reply).0 ≡ ok p
    → (r : Response) × (reply ≡ answered r) × (r.status ≡ 200) × (r.principal ≡ p)
replied-ok v hash now Reply.not_built p h = absurd (cc)
replied-ok v hash now Reply.no_answer p h = absurd (cc)
replied-ok v hash now Reply.undecodable p h = absurd (cc)
replied-ok v hash now (Reply.answered r) p h = elim (Bool-cases (r.status == 200)) [
  | inl y ↦ (r, refl, eq-200 r.status y, ok-injective (rw y at h))
  | inr n ↦ absurd (cc (rw n at h))
]

cached_remote-Vouches :
    (ttl : Int64) (v : RemoteValidator) (log : List Answer) (hash : Str) (now : Time)
    (p : Principal)
    → Backed ttl v log
    → (cached_remote v hash now).0 ≡ some p
    → Vouches hash p ttl now log
unfolding cached_remote
cached_remote-Vouches ttl v log hash now p b h = elim (Option-cases (get v.cache hash)) [
  | inl e ↦ absurd (cc (rw (e, cached_remote) at h))
  | inr (x, e) ↦ elim (Bool-cases (ltb x.expires_at now)) [
    | inl y ↦ absurd (cc (rw (e, cached_remote, y) at h))
    | inr n ↦
        let same : some x.principal ≡ some p = rw (e, cached_remote, n) at h in
        subst (λ q. Vouches hash q ttl now log) (some-injective same)
          (Vouches-weaken hash x.principal ttl x.expires_at now log (ground arith)
            (b.entries hash x e))
  ]
]

unless-Lets :
    (c : Crypto) (ttl : Int64) (v w : RemoteValidator) (log : List Answer) (frontend : Str → Reply)
    (raw : Str) (now later : Time) (p : Principal) (o : Option Principal)
    → Backed ttl v log
    → (cached_remote v (hash_token c raw) now).0 ≡ o
    → (unless_cached (hash_token c raw) later (frontend raw) (o, w)).0 ≡ ok p
    → Lets c ttl log frontend raw now p
unless-Lets c ttl v w log frontend raw now later p (some q) b e h =
    inl (cached_remote-Vouches ttl v log (hash_token c raw) now p b (e ∙ ap some (ok-injective h)))
unless-Lets c ttl v w log frontend raw now later p none b e h =
    inr (replied-ok w (hash_token c raw) later (frontend raw) p h)

with-Lets :
    (c : Crypto) (ttl : Int64) (v : RemoteValidator) (log : List Answer) (frontend : Str → Reply)
    (raw : Str) (now later : Time) (p : Principal) (x : Result AuthError Str)
    → Backed ttl v log
    → (with_prefix c v frontend raw now later x).0 ≡ ok p
    → Lets c ttl log frontend raw now p
with-Lets c ttl v log frontend raw now later p (err e) b h = absurd (cc)
with-Lets c ttl v log frontend raw now later p (ok q) b h =
    unless-Lets c ttl v (cached_remote v (hash_token c raw) now).1 log frontend raw now later p
      (cached_remote v (hash_token c raw) now).0 b refl h

-- Start a remote validator, and let it be called with any tokens, while the frontend answers what it
-- will, at any readings of the clock. Whenever Validate then lets a token in for a principal, the
-- frontend answers this very token, trimmed, with status 200 and that principal; or it has answered
-- so to a token of the same hash before, and no more than the cache's lifetime lies between that
-- answer and now.
pub validate_remote-Lets :
    (c : Crypto) (ttl : Int64) (v : RemoteValidator) (log : List Answer) (frontend : Str → Reply)
    (raw : Str) (now later : Time) (p : Principal)
    → Reach c ttl v log
    → (validate_remote c v frontend raw now later).0 ≡ ok p
    → Lets c (new_remote_validator ttl).cache_ttl log frontend (trim_space raw) now p
unfolding validate_remote
validate_remote-Lets c ttl v log frontend raw now later p r h =
    elim (Bool-cases (is_empty (trim_space raw))) [
      | inl y ↦ absurd (cc (rw y at h))
      | inr n ↦
          with-Lets c _ v log frontend (trim_space raw) now later p
            (prefix_from_raw_token (trim_space raw)) (reached-Backed c ttl r) (rw n at h)
    ]
