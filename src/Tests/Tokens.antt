-- ===== src/Tests/Tokens.antt =====
-- The results on internal/auth, at one token.
use binboi_go.Base.{err, ℕ, ◌≡◌, ◌≢◌, ◌+◌, ◌%◌, refl, inl, List, [], ◌∷◌, map, some, ok, All, arith}
use binboi_go.Tests.{no_faults}
use binboi_go.Go.Text.{Str, lit, str_discrete, trim_space}
use binboi_go.Go.Map.{get}
use binboi_go.Go.Unicode.{ascii_tables}
use binboi_go.Disk.{database, Disk, File, load_locked, save_locked}
use binboi_go.Auth.Token.{
  revoked_token, Crypto, IsBase32, TokenBytes, Record, hash_token, raw_of, new_record,
  prefix_from_raw_token, generate_token,
}
use binboi_go.Auth.Store.{
  revoke_token, revoke_row, create_token, first_of_prefix, find_by_prefix, touch_last_used,
  touch_row,
}
use binboi_go.Tunnel.Engine.{hex_encode}
use binboi_go.Auth.Validator.{Validator, new_validator, principal_of, validate_token}
use binboi_go.Auth.Accepted.{calm, create_then_validate}
use binboi_go.Auth.Revoked.{first_of_id, revoke_then_validate}
use binboi_go.Auth.Sound.{IsVouched, validate_token-IsVouched}

-- One letter for a byte.
abbrev letters : List ℕ → Str
letters = map (λ n. b'A' + n % 26)

pub letters-IsBase32 : (bytes : List ℕ) → All IsBase32 (letters bytes)
letters-IsBase32 [] = tt
letters-IsBase32 (n ∷ bytes) = (inl (omega arith, omega arith), letters-IsBase32 bytes)

pub letters-not_empty : (bytes : List ℕ) → bytes ≢ [] → letters bytes ≢ []
letters-not_empty [] h = h
letters-not_empty (n ∷ bytes) h = λ e. cc

-- A digest that is the text itself, and an encoding by letters.
abbrev pub crypto : Crypto
crypto = record {
  unicode = ascii_tables;
  sha256 = λ s. s;
  base32 = letters;
  base32_alphabet = letters-IsBase32;
  base32_not_empty = letters-not_empty;
}

abbrev bytes : TokenBytes
bytes = record { id = some (1 ∷ []); prefix_suffix = some (2 ∷ []); secret = some (3 ∷ 4 ∷ []) }

abbrev new_disk : Disk Record
new_disk = record { path = lit "auth.json"; file = File.missing; temps = 0 }

abbrev token : Record
token = new_record crypto (lit "ann") 7 (1 ∷ []) (2 ∷ []) (3 ∷ 4 ∷ [])

abbrev pub raw : Str
raw = raw_of crypto (2 ∷ []) (3 ∷ 4 ∷ [])

abbrev validator : Validator
validator = new_validator 0 0

create_then_validate_example :
    (validate_token crypto calm validator
      (create_token crypto no_faults new_disk bytes (lit " ann") 7).1
      raw
      8
      9).0
    ≡ ok (principal_of token)
unfolding create_token generate_token load_locked save_locked trim_space first_of_prefix
    new_validator get
create_then_validate_example =
    create_then_validate crypto no_faults validator new_disk [] bytes (lit " ann") 7 8 9 token raw
      refl (λ e. cc) refl refl refl

-- The validator finds the token that was created.
created_accepted :
    (validate_token crypto calm validator
      (create_token crypto no_faults new_disk bytes (lit " ann") 7).1
      raw
      8
      9).0
    ≡ ok (principal_of token)
unfolding create_token validate_token generate_token load_locked save_locked trim_space
    first_of_prefix new_validator get str_discrete hex_encode prefix_from_raw_token find_by_prefix
    hash_token touch_last_used touch_row
created_accepted = refl

validate_token-IsVouched_example :
    (prefix : Str) × (prefix_from_raw_token (trim_space raw) ≡ ok prefix)
    × IsVouched validator
        (create_token crypto no_faults new_disk bytes (lit " ann") 7).1
        prefix
        (hash_token crypto (trim_space raw))
        8
        (principal_of token)
validate_token-IsVouched_example =
    validate_token-IsVouched crypto calm validator
      (create_token crypto no_faults new_disk bytes (lit " ann") 7).1 raw 8 9 (principal_of token)
      created_accepted

-- A store that holds the token.
abbrev issued_disk : Disk Record
issued_disk = record { path = lit "auth.json"; file = File.json (database (token ∷ [])); temps = 0 }

revoke_then_validate_example :
    validate_token crypto no_faults validator
      (revoke_token no_faults issued_disk token.id).1
      raw
      8
      9
    ≡ (err revoked_token, validator, (revoke_token no_faults issued_disk token.id).1)
unfolding first_of_id load_locked save_locked revoke_token revoke_row trim_space first_of_prefix
    new_validator get str_discrete prefix_from_raw_token hex_encode
revoke_then_validate_example =
    revoke_then_validate crypto no_faults no_faults validator issued_disk (token ∷ []) token raw
      token.prefix 8 9 refl refl refl refl refl refl refl
