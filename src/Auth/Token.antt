-- ===== src/Auth/Token.antt =====
-- internal/auth/token.go: the token record, and how a raw token is made and taken apart.
use binboi_go.Base.{
  ℕ, ◌≤◌, ◌≢◌, ◌⊎◌, Bool, true, false, ◌||◌, List, [], ◌∷◌, ◌++◌, Option, none, some, Result, ok,
  err, ◌>>=◌, All, if◌then◌else◌, ◌==◌,
}
use binboi_go.Go.Text.{Str, lit, is_empty, trim_space}
use binboi_go.Go.Unicode.{Unicode, to_lower}
use binboi_go.Tunnel.Engine.{hex_encode}
use binboi_go.Disk.{StoreError}

abbrev pub Time : Type 0
Time = ℕ

-- A character of the base32 alphabet of RFC 4648.
abbrev pub IsBase32 : ℕ → Type 0
IsBase32 c = ((b'A' ≤ c) × (c ≤ b'Z')) ⊎ ((b'2' ≤ c) × (c ≤ b'7'))

-- What the package takes from crypto/sha256, encoding/base32 and unicode: the digest's bytes, and
-- the unpadded encoding, which writes its alphabet and is empty for no bytes only.
pub record Crypto : Type 0 where
  pub unicode : Unicode
  pub sha256 : Str → List ℕ
  pub base32 : List ℕ → Str
  pub base32_alphabet : (bytes : List ℕ) → All IsBase32 (base32 bytes)
  pub base32_not_empty : (bytes : List ℕ) → bytes ≢ [] → base32 bytes ≢ []

pub data AuthError : Type 0 where
  token_required invalid_token revoked_token : AuthError
  user_required generate_failed : AuthError
  store_failed : StoreError → AuthError

pub record Record : Type 0 where
  pub id : Str
  pub user_id : Str
  pub key_hash : Str
  pub prefix : Str
  pub created_at : Time
  pub last_used_at : Option Time
  pub revoked : Bool

pub record Principal : Type 0 where
  pub token_id : Str
  pub user_id : Str
  pub prefix : Str

-- tokenPrefixPrefix
abbrev pub prefix_prefix : Str
prefix_prefix = lit "bin_live"

-- HashToken
unfoldable pub hash_token : Crypto → Str → Str
unfolding hex_encode
hash_token c raw = hex_encode (c.sha256 (trim_space raw))

-- The bytes of the three reads of crypto/rand that GenerateToken makes; `none` where one fails.
pub record TokenBytes : Type 0 where
  pub id : Option (List ℕ)
  pub prefix_suffix : Option (List ℕ)
  pub secret : Option (List ℕ)

abbrev or_failed : Option (List ℕ) → Result AuthError (List ℕ)
or_failed none = err generate_failed
or_failed (some bytes) = ok bytes

-- `prefix` and `rawToken`, for the bytes read
abbrev pub prefix_of : Crypto → List ℕ → Str
prefix_of c suffix = prefix_prefix ++ (b'_' ∷ to_lower c.unicode (hex_encode suffix))

abbrev pub raw_of : Crypto → List ℕ → List ℕ → Str
raw_of c suffix secret = prefix_of c suffix ++ (b'_' ∷ to_lower c.unicode (c.base32 secret))

abbrev pub new_record : Crypto → Str → Time → List ℕ → List ℕ → List ℕ → Record
new_record c user_id now id suffix secret = record {
  id = hex_encode id;
  user_id = user_id;
  key_hash = hash_token c (raw_of c suffix secret);
  prefix = prefix_of c suffix;
  created_at = now;
  last_used_at = none;
  revoked = false;
}

-- GenerateToken, for an instant that is not the zero time
unfoldable pub generate_token : Crypto → TokenBytes → Str → Time → Result AuthError (Record × Str)
generate_token c bytes user now = do
  let user_id = trim_space user
  named ← if is_empty user_id then err user_required else ok user_id
  id ← or_failed bytes.id
  suffix ← or_failed bytes.prefix_suffix
  secret ← or_failed bytes.secret
  ok (new_record c named now id suffix secret, raw_of c suffix secret)

-- strings.LastIndex(s, "_"): what stands before the last underscore, and behind it.
unfoldable pub split_last : Str → Option (Str × Str)
split_last [] = none
split_last (c ∷ s) = elim (split_last s) [
  | some (front, back) ↦ some (c ∷ front, back)
  | none ↦ if c == b'_' then some ([], s) else none
]

-- strings.HasPrefix
unfoldable pub has_prefix : Str → Str → Bool
has_prefix s [] = true
has_prefix [] (d ∷ p) = false
has_prefix (c ∷ s) (d ∷ p) = let rest = has_prefix s p in if c == d then rest else false

abbrev pub checked_prefix : Option (Str × Str) → Result AuthError Str
checked_prefix none = err invalid_token
checked_prefix (some (front, back)) =
    if is_empty front || is_empty back
    then err invalid_token
    else if has_prefix front (prefix_prefix ++ (b'_' ∷ []))
    then ok front
    else err invalid_token

-- PrefixFromRawToken
unfoldable pub prefix_from_raw_token : Str → Result AuthError Str
unfolding split_last has_prefix
prefix_from_raw_token raw =
    let trimmed = trim_space raw in
    if is_empty trimmed then err token_required else checked_prefix (split_last trimmed)
