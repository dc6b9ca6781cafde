-- ===== src/Auth/Remote.antt =====
-- internal/auth/remote_validator.go: tokens validated by the frontend, and the cache of its answers.
-- The frontend is an argument: what it answers to a token.
pub mod History
pub mod Vouched
use binboi_go.Base.{
  ℕ, ◌+◌, ◌*◌, ◌^◌, ◌||◌, ◌==◌, Bool, true, false, [], Option, none, some, Result, ok, err,
  if◌then◌else◌, ite, ltb,
}
use binboi_go.Go.Word.{Int64, slt}
use binboi_go.Go.Text.{Str, lit, str_discrete, is_empty, trim_space}
use binboi_go.Go.Map.{Map, get, put, delete, empty}
use binboi_go.Auth.Token.{Crypto, Time, Principal, AuthError, hash_token, prefix_from_raw_token}

-- remoteValidateResponse; its data are the fields of a Principal.
pub record Response : Type 0 where
  pub status : Int64
  pub error : Str
  pub message : Str
  pub principal : Principal

-- What comes of the request: it cannot be built, it fails, its answer cannot be decoded, or it is
-- answered.
pub data Reply : Type 0 where
  not_built no_answer undecodable : Reply
  answered : Response → Reply

pub data RemoteError : Type 0 where
  auth : AuthError → RemoteError
  not_built no_answer undecodable : RemoteError
  forbidden unauthorized : Str → RemoteError
  unexpected_message : Int64 → Str → RemoteError
  unexpected_status : Int64 → RemoteError

pub record RemoteEntry : Type 0 where
  pub principal : Principal
  pub expires_at : Time

pub record RemoteValidator : Type 0 where
  pub cache_ttl : Int64
  pub cache : Map RemoteEntry

-- NewRemoteValidator, for a cache lifetime in nanoseconds
unfoldable pub new_remote_validator : Int64 → RemoteValidator
new_remote_validator ttl = record {
  cache_ttl = if slt 0 ttl then ttl else 30 * 10 ^ 9;
  cache = empty;
}

-- cached, of the remote validator
unfoldable pub cached_remote : RemoteValidator → Str → Time → Option Principal × RemoteValidator
cached_remote v hash now = elim (get v.cache hash) [
  | none ↦ (none, v)
  | some e ↦
      if ltb e.expires_at now
      then (none, record v { cache = delete v.cache hash })
      else (some e.principal, v)
]

-- cachePrincipal
unfoldable pub cache_principal : RemoteValidator → Str → Principal → Time → RemoteValidator
cache_principal v hash p now = record v {
  cache = put v.cache hash (record { principal = p; expires_at = now + v.cache_ttl });
}

abbrev pub is_text : Str → Str → Bool
is_text a b = ite (str_discrete a b) true false

-- The answer to a status other than 200.
unfoldable pub status_error : Response → RemoteError
unfolding str_discrete
status_error r =
    if r.status == 400
    then auth AuthError.token_required
    else if r.status == 403
    then if is_text r.error (lit "revoked_token")
      then auth AuthError.revoked_token
      else forbidden r.message
    else if r.status == 401
    then if is_text r.error (lit "token_required")
      then auth AuthError.token_required
      else if is_text r.error (lit "invalid_token") || is_empty r.error
      then auth AuthError.invalid_token
      else unauthorized r.message
    else if is_empty r.message
    then unexpected_status r.status
    else unexpected_message r.status r.message

-- Validate, from the reply on
abbrev pub replied :
    RemoteValidator → Str → Time → Reply → Result RemoteError Principal × RemoteValidator
replied v hash now Reply.not_built = (err RemoteError.not_built, v)
replied v hash now Reply.no_answer = (err RemoteError.no_answer, v)
replied v hash now Reply.undecodable = (err RemoteError.undecodable, v)
replied v hash now (Reply.answered r) =
    if r.status == 200
    then (ok r.principal, cache_principal v hash r.principal now)
    else (err (status_error r), v)

abbrev pub unless_cached :
    Str
    → Time
    → Reply
    → Option Principal × RemoteValidator
    → Result RemoteError Principal × RemoteValidator
unless_cached hash now reply (some p, v) = (ok p, v)
unless_cached hash now reply (none, v) = replied v hash now reply

abbrev pub with_prefix :
    Crypto
    → RemoteValidator
    → (Str → Reply)
    → Str
    → Time
    → Time
    → Result AuthError Str
    → Result RemoteError Principal × RemoteValidator
with_prefix c v frontend raw now later (err e) = (err (auth e), v)
with_prefix c v frontend raw now later (ok _) =
    unless_cached (hash_token c raw) later (frontend raw) (cached_remote v (hash_token c raw) now)

-- Validate
unfoldable pub validate_remote :
    Crypto
    → RemoteValidator
    → (Str → Reply)
    → Str
    → Time
    → Time
    → Result RemoteError Principal × RemoteValidator
validate_remote c v frontend raw_token now later =
    let raw = trim_space raw_token in
    if is_empty raw
    then (err (auth AuthError.token_required), v)
    else with_prefix c v frontend raw now later (prefix_from_raw_token raw)
