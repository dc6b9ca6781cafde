-- ===== src/Auth/Remote/History.antt =====
-- The calls of the remote validator, and what they heard from the frontend; each entry of the cache
-- is one of the answers.
use binboi_go.Base.{
  ◌+◌, ◌≤◌, ◌≡◌, refl, List, [], ◌∷◌, Option, none, some, Result, ok, err, if◌then◌else◌, ltb,
  arith, Bool-cases, Option-cases, inl, inr, subst, some-injective, ◌==◌,
}
use binboi_go.Go.Text.{Str, str_discrete, is_empty, trim_space}
use binboi_go.Go.Word.{Int64}
use binboi_go.Go.Map.{get, put, delete, get-put, get-delete}
use binboi_go.Auth.Token.{Crypto, Time, Principal, AuthError, hash_token, prefix_from_raw_token}
use binboi_go.Auth.Remote.{
  Response, Reply, RemoteEntry, RemoteValidator, new_remote_validator, cached_remote,
  cache_principal, replied, unless_cached, with_prefix, validate_remote,
}

-- The frontend answered 200, with this principal, to a token of this hash at this instant.
pub record Answer : Type 0 where
  pub hash : Str
  pub principal : Principal
  pub at : Time

-- One of the answers is for the hash and the principal, and no older than the lifetime.
pub data Vouches (hash : Str) (p : Principal) (ttl : Int64) (now : Time)
    : List Answer → Type 0 where
  newest :
      {a : Answer} {as' : List Answer}
      → a.hash ≡ hash
      → a.principal ≡ p
      → now ≤ a.at + ttl
      → Vouches hash p ttl now (a ∷ as')
  earlier :
      {a : Answer} {as' : List Answer}
      → Vouches hash p ttl now as'
      → Vouches hash p ttl now (a ∷ as')

pub Vouches-weaken :
    (hash : Str) (p : Principal) (ttl : Int64) (t now : Time) (log : List Answer)
    → now ≤ t
    → Vouches hash p ttl t log
    → Vouches hash p ttl now log
Vouches-weaken hash p ttl t now [] l v = elim v [ ]
Vouches-weaken hash p ttl t now (a ∷ as') l (newest e f g) = newest e f (omega (arith, l, g))
Vouches-weaken hash p ttl t now (a ∷ as') l (earlier v) =
    earlier (Vouches-weaken hash p ttl t now as' l v)

-- What the frontend says in a call that asks it.
abbrev pub heard_in : Str → Time → Reply → List Answer → List Answer
heard_in hash now Reply.not_built log = log
heard_in hash now Reply.no_answer log = log
heard_in hash now Reply.undecodable log = log
heard_in hash now (Reply.answered r) log =
    if r.status == 200 then record { hash = hash; principal = r.principal; at = now } ∷ log else log

abbrev pub heard_unless : Str → Time → Reply → Option Principal → List Answer → List Answer
heard_unless hash now reply (some p) log = log
heard_unless hash now reply none log = heard_in hash now reply log

abbrev pub heard_with :
    Crypto
    → RemoteValidator
    → (Str → Reply)
    → Str
    → Time
    → Time
    → Result AuthError Str
    → List Answer
    → List Answer
heard_with c v frontend raw now later (err e) log = log
heard_with c v frontend raw now later (ok _) log =
    heard_unless (hash_token c raw) later (frontend raw) (cached_remote v (hash_token c raw) now).0
      log

abbrev pub heard :
    Crypto → RemoteValidator → (Str → Reply) → Str → Time → Time → List Answer → List Answer
heard c v frontend raw_token now later log =
    let raw = trim_space raw_token in
    if is_empty raw
    then log
    else heard_with c v frontend raw now later (prefix_from_raw_token raw) log

-- Any calls of Validate, with any tokens, answers and readings of the clock, and what they heard.
pub data Reach (c : Crypto) (ttl : Int64) : RemoteValidator → List Answer → Type 0 where
  start : Reach c ttl (new_remote_validator ttl) []
  calls :
      {v : RemoteValidator} {log : List Answer}
      → Reach c ttl v log
      → (frontend : Str → Reply) (raw : Str) (now later : Time)
      → Reach c ttl
          (validate_remote c v frontend raw now later).1
          (heard c v frontend raw now later log)

pub record Backed (ttl : Int64) (v : RemoteValidator) (log : List Answer) : Type 0 where
  pub lifetime : v.cache_ttl ≡ ttl
  pub entries :
      (h : Str) (e : RemoteEntry)
      → get v.cache h ≡ some e
      → Vouches h e.principal ttl e.expires_at log

Backed-more :
    (ttl : Int64) (v : RemoteValidator) (log : List Answer) (a : Answer)
    → Backed ttl v log
    → Backed ttl v (a ∷ log)
Backed-more ttl v log a b = record {
  lifetime = b.lifetime;
  entries = λ h e g. earlier (b.entries h e g);
}

cached_remote-Backed :
    (ttl : Int64) (v : RemoteValidator) (log : List Answer) (hash : Str) (now : Time)
    → Backed ttl v log
    → Backed ttl (cached_remote v hash now).1 log
unfolding cached_remote
cached_remote-Backed ttl v log hash now b = elim (Option-cases (get v.cache hash)) [
  | inl e ↦ rw (e, cached_remote) b
  | inr (x, e) ↦ elim (Bool-cases (ltb x.expires_at now)) [
    | inl y ↦
        rw (e, cached_remote, y)
          (record { lifetime = b.lifetime; entries = λ h i g. b.entries h i (kept h i g) })
    | inr n ↦ rw (e, cached_remote, n) b
  ]
]
  where
    kept :
        (h : Str) (i : RemoteEntry) → get (delete v.cache hash) h ≡ some i → get v.cache h ≡ some i
    kept h i g = ground (arith, get-delete v.cache hash h, g)

replied-Backed :
    (ttl : Int64) (v : RemoteValidator) (log : List Answer) (hash : Str) (now : Time)
    (reply : Reply)
    → Backed ttl v log
    → Backed ttl (replied v hash now reply).1 (heard_in hash now reply log)
unfolding cache_principal
replied-Backed ttl v log hash now Reply.not_built b = b
replied-Backed ttl v log hash now Reply.no_answer b = b
replied-Backed ttl v log hash now Reply.undecodable b = b
replied-Backed ttl v log hash now (Reply.answered r) b = elim (Bool-cases (r.status == 200)) [
  | inr n ↦ rw n b
  | inl y ↦ rw y (record { lifetime = b.lifetime; entries = added r })
]
  where
    entry : Response → RemoteEntry
    entry r = record { principal = r.principal; expires_at = now + v.cache_ttl }

    added :
        (r : Response) (h : Str) (e : RemoteEntry)
        → get (put v.cache hash (entry r)) h ≡ some e
        → Vouches h e.principal ttl e.expires_at
            (record { hash = hash; principal = r.principal; at = now } ∷ log)
    added r h e g = elim (str_discrete hash h) [
      | yes q ↦
          let same : some (entry r) ≡ some e =
            ground (arith, get-put v.cache hash (entry r) h, g, q) in
          subst
            (λ (x : RemoteEntry).
              Vouches h x.principal ttl x.expires_at
                (record { hash = hash; principal = r.principal; at = now } ∷ log))
            (some-injective same) (newest q refl (omega (arith, b.lifetime)))
      | no n ↦ earlier (b.entries h e (ground (arith, get-put v.cache hash (entry r) h, g, n)))
    ]

unless-Backed :
    (ttl : Int64) (v : RemoteValidator) (log : List Answer) (hash : Str) (now : Time)
    (reply : Reply) (o : Option Principal)
    → Backed ttl v log
    → Backed ttl (unless_cached hash now reply (o, v)).1 (heard_unless hash now reply o log)
unless-Backed ttl v log hash now reply (some p) b = b
unless-Backed ttl v log hash now reply none b = replied-Backed ttl v log hash now reply b

with-Backed :
    (c : Crypto) (ttl : Int64) (v : RemoteValidator) (log : List Answer) (frontend : Str → Reply)
    (raw : Str) (now later : Time) (x : Result AuthError Str)
    → Backed ttl v log
    → Backed ttl
        (with_prefix c v frontend raw now later x).1
        (heard_with c v frontend raw now later x log)
with-Backed c ttl v log frontend raw now later (err e) b = b
with-Backed c ttl v log frontend raw now later (ok q) b =
    unless-Backed ttl (cached_remote v (hash_token c raw) now).1 log (hash_token c raw) later
      (frontend raw) (cached_remote v (hash_token c raw) now).0
      (cached_remote-Backed ttl v log (hash_token c raw) now b)

call-Backed :
    (c : Crypto) (ttl : Int64) (v : RemoteValidator) (log : List Answer) (frontend : Str → Reply)
    (raw : Str) (now later : Time)
    → Backed ttl v log
    → Backed ttl
        (validate_remote c v frontend raw now later).1
        (heard c v frontend raw now later log)
unfolding validate_remote
call-Backed c ttl v log frontend raw now later b = elim (Bool-cases (is_empty (trim_space raw))) [
  | inl y ↦ rw y b
  | inr n ↦ rw n (
      with-Backed c ttl v log frontend (trim_space raw) now later
        (prefix_from_raw_token (trim_space raw)) b)
]

pub reached-Backed :
    (c : Crypto) (ttl : Int64) {v : RemoteValidator} {log : List Answer}
    → Reach c ttl v log
    → Backed (new_remote_validator ttl).cache_ttl v log
unfolding new_remote_validator get
reached-Backed c ttl start = record { lifetime = refl; entries = λ h e g. absurd (cc) }
reached-Backed c ttl (calls {v} {log} r frontend raw now later) =
    call-Backed c _ v log frontend raw now later (reached-Backed c ttl r)
