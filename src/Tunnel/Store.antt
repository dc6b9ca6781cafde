-- ===== src/Tunnel/Store.antt =====
-- internal/tunnel/store.go: the durable tunnel records, one row for each tunnel id.
use binboi_go.Base.{ℕ, Option, none, some, List, [], ◌∷◌, Result, ok, err, ite}
use binboi_go.Go.Word.{Int64}
use binboi_go.Go.Text.{Str, str_discrete}
use binboi_go.Disk.{
  Disk, Faults, StoreError, not_exist, not_found, load_locked, save_locked, database, rows_of,
  contents,
}

abbrev pub Time : Type 0
Time = ℕ

pub data Status : Type 0 where
  ready idle connected disconnected : Status

pub record Record : Type 0 where
  pub id : Str
  pub user_id : Str
  pub token_id : Str
  pub subdomain : Str
  pub protocol : Str
  pub port : Int64
  pub status : Status
  pub public_url : Str
  pub created_at : Time
  pub last_seen : Option Time

-- The loop of Upsert.
unfoldable pub upsert_row : List Record → Record → List Record
upsert_row [] r = r ∷ []
upsert_row (x ∷ xs) r = ite (str_discrete x.id r.id) (r ∷ xs) (x ∷ upsert_row xs r)

-- Ensure
unfoldable pub ensure : Faults → Disk Record → Option StoreError × Disk Record
ensure f d = elim (load_locked d) [
  | ok db ↦ (none, d)
  | err not_exist ↦ save_locked f d (database [])
  | err e ↦ (some e, d)
]

-- Upsert
unfoldable pub upsert : Faults → Disk Record → Record → Option StoreError × Disk Record
upsert f d r = elim (load_locked d) [
  | ok db ↦ save_locked f d (database (upsert_row (rows_of db) r))
  | err not_exist ↦ save_locked f d (database (upsert_row [] r))
  | err e ↦ (some e, d)
]

-- The loop of UpdateStatus; `none` where no row has the id.
unfoldable pub update_row : List Record → Str → Status → Option Time → Option (List Record)
update_row [] id status last_seen = none
update_row (x ∷ xs) id status last_seen =
    ite (str_discrete x.id id) (some (record x { status = status; last_seen = last_seen } ∷ xs))
      (elim (update_row xs id status last_seen) [ none ↦ none | some ys ↦ some (x ∷ ys) ])

abbrev save_if_found : Faults → Disk Record → Option (List Record) → Option StoreError × Disk Record
save_if_found f d none = (some not_found, d)
save_if_found f d (some rows) = save_locked f d (database rows)

-- UpdateStatus
unfoldable pub update_status :
    Faults → Disk Record → Str → Status → Option Time → Option StoreError × Disk Record
update_status f d id status last_seen = elim (load_locked d) [
  | ok db ↦ save_if_found f d (update_row (rows_of db) id status last_seen)
  | err e ↦ (some e, d)
]

-- The loop of FindBySubdomain.
unfoldable pub first_of_subdomain : List Record → Str → Option Record
first_of_subdomain [] s = none
first_of_subdomain (x ∷ xs) s = ite (str_discrete x.subdomain s) (some x) (first_of_subdomain xs s)

-- FindBySubdomain
unfoldable pub find_by_subdomain : Disk Record → Str → Result StoreError (Option Record)
find_by_subdomain d s = elim (contents d) [
  | ok rows ↦ ok (first_of_subdomain rows s)
  | err e ↦ err e
]
