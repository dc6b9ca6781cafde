-- ===== src/Usage/Flush/Rows.antt =====
-- The rows of the usage database as a map from snapshots to records.
use binboi_go.Base.{
  ◌≡◌, refl, true, false, Option, none, some, List, [], ◌∷◌, arith, if◌then◌else◌, All, ◌∙◌,
}
use binboi_go.Usage.Model.{Record}
use binboi_go.Usage.Store.{same_snapshot, upsert_row, upsert_rows}

-- The first row of the same user, period and period start.
unfoldable pub find_row : List Record → Record → Option Record
find_row [] q = none
find_row (x ∷ xs) q = if same_snapshot x q then some x else find_row xs q

pub same_snapshot_refl : (r : Record) → same_snapshot r r ≡ true
unfolding same_snapshot
same_snapshot_refl r = ground arith

pub same_snapshot-sym : (a b : Record) → same_snapshot a b ≡ same_snapshot b a
unfolding same_snapshot
same_snapshot-sym a b = ground arith

pub same_snapshot_trans :
    (a b c : Record) → same_snapshot a b ≡ true → same_snapshot a c ≡ same_snapshot b c
unfolding same_snapshot
same_snapshot_trans a b c h = ground arith

-- A row that is written is found, and no other snapshot is touched.
find_row-upsert_row :
    (rows : List Record) (r q : Record)
    → find_row (upsert_row rows r) q ≡ (if same_snapshot r q then some r else find_row rows q)
unfolding find_row upsert_row
find_row-upsert_row [] r q = refl
find_row-upsert_row (x ∷ xs) r q =
    ground (arith, find_row-upsert_row xs r q, same_snapshot_trans x r q)

-- No two of the records are snapshots of the same user, period and period start.
abbrev pub Apart : List Record → Type 0
Apart [] = Unit {0}
Apart (r ∷ rs) = All (λ q. same_snapshot r q ≡ false) rs × Apart rs

-- A record of the list.
pub data Among (r : Record) : List Record → Type 0 where
  first : {rs : List Record} → Among r (r ∷ rs)
  later : {x : Record} {rs : List Record} → Among r rs → Among r (x ∷ rs)

find_row_kept :
    (rows rs : List Record) (q : Record)
    → All (λ r. same_snapshot q r ≡ false) rs
    → find_row (upsert_rows rows rs) q ≡ find_row rows q
unfolding upsert_rows
find_row_kept rows [] q h = refl
find_row_kept rows (r ∷ rs) q h =
    find_row_kept (upsert_row rows r) rs q h.1
    ∙ find_row-upsert_row rows r q
    ∙ ground (arith, same_snapshot-sym r q, h.0)

pub find_row-upsert_rows :
    (rows rs : List Record) (r : Record)
    → Apart rs
    → Among r rs
    → find_row (upsert_rows rows rs) r ≡ some r
unfolding upsert_rows
find_row-upsert_rows rows [] r h m = elim m [ ]
find_row-upsert_rows rows (x ∷ rs) r h first =
    find_row_kept (upsert_row rows r) rs r h.0
    ∙ find_row-upsert_row rows r r
    ∙ ground (arith, same_snapshot_refl r)
find_row-upsert_rows rows (x ∷ rs) r h (later m) =
    find_row-upsert_rows (upsert_row rows x) rs r h.1 m

-- A snapshot that no record of the list is of stays as it was.
pub find_row-upsert_rows_other :
    (rows rs : List Record) (q : Record)
    → All (λ r. same_snapshot q r ≡ false) rs
    → find_row (upsert_rows rows rs) q ≡ find_row rows q
find_row-upsert_rows_other = find_row_kept
