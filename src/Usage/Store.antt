-- ===== src/Usage/Store.antt =====
-- internal/usage/store.go: the durable snapshots, one row for each user, period and period start.
pub mod Laws
use binboi_go.Base.{
  Bool, true, false, ◌&&◌, Option, none, some, List, [], ◌∷◌, Result, ok, err, if◌then◌else◌, ite,
  ◌==◌,
}
use binboi_go.Go.Text.{Str, str_discrete}
use binboi_go.Disk.{
  Disk, Database, Faults, StoreError, not_exist, load_locked, save_locked, database, rows_of,
}
use binboi_go.Usage.Model.{Record}

-- The test of UpsertMany's inner loop; `Equal` compares instants.
unfoldable pub same_snapshot : Record → Record → Bool
unfolding str_discrete
same_snapshot a b =
    ite (str_discrete a.user_id b.user_id)
      (ite (str_discrete a.period b.period) (a.period_start == b.period_start) false) false

-- The inner loop of UpsertMany: the first row of the same snapshot is replaced, or the record is
-- appended.
unfoldable pub upsert_row : List Record → Record → List Record
unfolding same_snapshot
upsert_row [] r = r ∷ []
upsert_row (x ∷ xs) r = if same_snapshot x r then r ∷ xs else x ∷ upsert_row xs r

unfoldable pub upsert_rows : List Record → List Record → List Record
unfolding upsert_row
upsert_rows rows [] = rows
upsert_rows rows (r ∷ rs) = upsert_rows (upsert_row rows r) rs

-- Ensure
unfoldable pub ensure : Faults → Disk Record → Option StoreError × Disk Record
ensure f d = elim (load_locked d) [
  | ok db ↦ (none, d)
  | err not_exist ↦ save_locked f d (database [])
  | err e ↦ (some e, d)
]

-- UpsertMany
unfoldable pub upsert_many : Faults → Disk Record → List Record → Option StoreError × Disk Record
upsert_many f d records = elim (load_locked d) [
  | ok db ↦ save_locked f d (database (upsert_rows (rows_of db) records))
  | err not_exist ↦ save_locked f d (database (upsert_rows [] records))
  | err e ↦ (some e, d)
]
