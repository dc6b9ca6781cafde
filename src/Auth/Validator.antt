-- ===== src/Auth/Validator.antt =====
-- internal/auth/validator.go: the validator, with its cache of tokens that were found valid. The
-- clock is read once by the lookup in the cache and once behind it.
use binboi_go.Base.{
  ◌+◌, ◌*◌, ◌^◌, [], ◌∷◌, Option, none, some, Result, ok, err, if◌then◌else◌, ite, ltb,
}
use binboi_go.Go.Word.{Int64, slt}
use binboi_go.Go.Text.{Str, str_discrete, is_empty, trim_space}
use binboi_go.Go.Map.{Map, get, put, delete, empty}
use binboi_go.Disk.{Disk, Faults, StoreError}
use binboi_go.Auth.Token.{
  Crypto, Time, Record, Principal, AuthError, token_required, invalid_token, revoked_token,
  store_failed, hash_token, prefix_from_raw_token,
}
use binboi_go.Auth.Store.{find_by_prefix, touch_last_used}

pub record CacheEntry : Type 0 where
  pub principal : Principal
  pub expires_at : Time
  pub last_persisted_usage : Time

pub record Validator : Type 0 where
  pub cache_ttl : Int64
  pub touch_every : Int64
  pub cache : Map CacheEntry

-- NewValidator, for a cache lifetime and an update interval in nanoseconds
unfoldable pub new_validator : Int64 → Int64 → Validator
unfolding slt
new_validator ttl touch_every = record {
  cache_ttl = if slt 0 ttl then ttl else 30 * 10 ^ 9;
  touch_every = if slt 0 touch_every then touch_every else 60 * 10 ^ 9;
  cache = empty;
}

-- cached
unfoldable pub cached : Validator → Str → Time → Option Principal × Validator
cached v hash now = elim (get v.cache hash) [
  | none ↦ (none, v)
  | some e ↦
      if ltb e.expires_at now
      then (none, record v { cache = delete v.cache hash })
      else (some e.principal, v)
]

-- The loop of touchIfNeeded.
unfoldable pub entry_of_token : Map CacheEntry → Str → Option (Str × CacheEntry)
entry_of_token [] id = none
entry_of_token ((h, e) ∷ m) id =
    ite (str_discrete e.principal.token_id id) (some (h, e)) (entry_of_token m id)

-- touchIfNeeded; an error of the store is logged only.
unfoldable pub touch_if_needed :
    Faults → Validator → Disk Record → Str → Time → Validator × Disk Record
unfolding entry_of_token
touch_if_needed f v d token_id now = elim (entry_of_token v.cache token_id) [
  | none ↦ (v, d)
  | some (hash, e) ↦ if ltb now (e.last_persisted_usage + v.touch_every) then (v, d) else (
    record v {
      cache =
          put v.cache hash
            (record e { last_persisted_usage = now; expires_at = now + v.cache_ttl });
    },
    (touch_last_used f d token_id now).1,
  )
]

abbrev pub principal_of : Record → Principal
principal_of r = record { token_id = r.id; user_id = r.user_id; prefix = r.prefix }

-- The end of Validate: the use is recorded, and the token goes into the cache.
abbrev pub remember :
    Validator
    → Str
    → Record
    → Time
    → Option StoreError × Disk Record
    → Result AuthError Principal × Validator × Disk Record
remember v hash r now (some e, d) = (err (store_failed e), v, d)
remember v hash r now (none, d) = (
  ok (principal_of r),
  record v {
    cache = put v.cache hash (record {
      principal = principal_of r;
      expires_at = now + v.cache_ttl;
      last_persisted_usage = now;
    });
  },
  d,
)

-- Validate from the lookup in the store on.
unfoldable pub check_stored :
    Faults
    → Validator
    → Disk Record
    → Str
    → Str
    → Time
    → Result AuthError Principal × Validator × Disk Record
check_stored f v d prefix hash now = elim (find_by_prefix d prefix) [
  | err e ↦ (err (store_failed e), v, d)
  | ok none ↦ (err invalid_token, v, d)
  | ok (some r) ↦
      if r.revoked
      then (err revoked_token, v, d)
      else ite (str_discrete r.key_hash hash) (remember v hash r now (touch_last_used f d r.id now))
          (err invalid_token, v, d)
]

-- What Validate does with the answer of the cache.
abbrev pub after_cached :
    Faults
    → Disk Record
    → Str
    → Str
    → Time
    → Option Principal × Validator
    → Result AuthError Principal × Validator × Disk Record
after_cached f d prefix hash now (none, v) = check_stored f v d prefix hash now
after_cached f d prefix hash now (some p, v) =
    let (v', d') = touch_if_needed f v d p.token_id now in (ok p, v', d')

-- Validate
unfoldable pub validate_token :
    Crypto
    → Faults
    → Validator
    → Disk Record
    → Str
    → Time
    → Time
    → Result AuthError Principal × Validator × Disk Record
unfolding cached check_stored touch_if_needed
validate_token c f v d raw_token now later =
    let raw = trim_space raw_token in
    if is_empty raw then (err token_required, v, d) else elim (prefix_from_raw_token raw) [
      | err e ↦ (err e, v, d)
      | ok prefix ↦
          after_cached f d prefix (hash_token c raw) later (cached v (hash_token c raw) now)
    ]
