-- ===== src/Auth/Store.antt =====
-- internal/auth/store.go: the durable tokens.
use binboi_go.Base.{true, List, [], ◌∷◌, ◌++◌, Option, none, some, Result, ok, err, ite}
use binboi_go.Go.Text.{Str, str_discrete}
use binboi_go.Disk.{
  Disk, Faults, StoreError, not_exist, not_found, load_locked, save_locked, database, rows_of,
  contents,
}
use binboi_go.Auth.Token.{Crypto, TokenBytes, Time, Record, AuthError, store_failed, generate_token}

-- Ensure
unfoldable pub ensure : Faults → Disk Record → Option StoreError × Disk Record
ensure f d = elim (load_locked d) [
  | ok db ↦ (none, d)
  | err not_exist ↦ save_locked f d (database [])
  | err e ↦ (some e, d)
]

-- The end of CreateToken: the token and its raw form go out only if they are saved.
abbrev pub created :
    Record × Str → Option StoreError × Disk Record → Result AuthError (Record × Str) × Disk Record
created r (none, d) = (ok r, d)
created r (some e, d) = (err (store_failed e), d)

abbrev pub append_token :
    Faults
    → Disk Record
    → List Record
    → Result AuthError (Record × Str)
    → Result AuthError (Record × Str) × Disk Record
append_token f d rows (err e) = (err e, d)
append_token f d rows (ok r) = created r (save_locked f d (database (rows ++ r.0 ∷ [])))

-- CreateToken; the answer keeps the hash, which the source's public view leaves out.
unfoldable pub create_token :
    Crypto
    → Faults
    → Disk Record
    → TokenBytes
    → Str
    → Time
    → Result AuthError (Record × Str) × Disk Record
unfolding generate_token
create_token c f d bytes user now = elim (contents d) [
  | ok rows ↦ append_token f d rows (generate_token c bytes user now)
  | err e ↦ (err (store_failed e), d)
]

-- The loops of RevokeToken and TouchLastUsed; `none` where no row has the id.
unfoldable pub revoke_row : List Record → Str → Option (List Record)
revoke_row [] id = none
revoke_row (x ∷ xs) id =
    ite (str_discrete x.id id) (some (record x { revoked = true } ∷ xs))
      (elim (revoke_row xs id) [ none ↦ none | some ys ↦ some (x ∷ ys) ])

unfoldable pub touch_row : List Record → Str → Time → Option (List Record)
touch_row [] id at = none
touch_row (x ∷ xs) id at =
    ite (str_discrete x.id id) (some (record x { last_used_at = some at } ∷ xs))
      (elim (touch_row xs id at) [ none ↦ none | some ys ↦ some (x ∷ ys) ])

abbrev pub save_if_found :
    Faults → Disk Record → Option (List Record) → Option StoreError × Disk Record
save_if_found f d none = (some not_found, d)
save_if_found f d (some rows) = save_locked f d (database rows)

-- RevokeToken
unfoldable pub revoke_token : Faults → Disk Record → Str → Option StoreError × Disk Record
revoke_token f d id = elim (load_locked d) [
  | ok db ↦ save_if_found f d (revoke_row (rows_of db) id)
  | err e ↦ (some e, d)
]

-- TouchLastUsed
unfoldable pub touch_last_used : Faults → Disk Record → Str → Time → Option StoreError × Disk Record
touch_last_used f d id at = elim (load_locked d) [
  | ok db ↦ save_if_found f d (touch_row (rows_of db) id at)
  | err e ↦ (some e, d)
]

-- The loop of FindByPrefix.
unfoldable pub first_of_prefix : List Record → Str → Option Record
first_of_prefix [] p = none
first_of_prefix (x ∷ xs) p = ite (str_discrete x.prefix p) (some x) (first_of_prefix xs p)

-- FindByPrefix
unfoldable pub find_by_prefix : Disk Record → Str → Result StoreError (Option Record)
unfolding first_of_prefix
find_by_prefix d p = elim (contents d) [ ok rows ↦ ok (first_of_prefix rows p) | err e ↦ err e ]
