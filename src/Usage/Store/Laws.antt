-- ===== src/Usage/Store/Laws.antt =====
-- What one write of internal/usage/store.go leaves on the disk.
use binboi_go.Base.{
  ok-injective, ◌≡◌, refl, Option, none, some, List, [], ok, err, Result, inl, inr,
}
use binboi_go.Disk.{
  Disk, Faults, StoreError, not_exist, load_locked, save_locked, contents, database, rows_of,
  Database,
}
use binboi_go.Disk.Atomic.{save_locked-atomic}
use binboi_go.Usage.Model.{Record}
use binboi_go.Usage.Store.{upsert_many, upsert_rows}

-- A write that reports no error leaves the rows it was to leave, one that reports an error leaves
-- the file as it was.
pub record Wrote (d d' : Disk Record) (e : Option StoreError) (after : List Record) : Type 0 where
  pub done : e ≡ none → contents d' ≡ ok after
  pub failed : (x : StoreError) → e ≡ some x → d'.file ≡ d.file

save_locked-Wrote :
    (f : Faults) (d : Disk Record) (rows : List Record)
    → Wrote d (save_locked f d (database rows)).1 (save_locked f d (database rows)).0 rows
save_locked-Wrote f d rows = elim (save_locked-atomic f d (database rows)) [
  | inl h ↦ record { done = λ _. h.2; failed = λ x e. cc (h.1) }
  | inr h ↦ record { done = λ z. cc (h.1.1); failed = λ x _. h.3 }
]

loaded-Wrote :
    (f : Faults) (d : Disk Record) (rows records : List Record)
    (r : Result StoreError (Database Record))
    → load_locked d ≡ r
    → contents d ≡ ok rows
    → Wrote d (upsert_many f d records).1 (upsert_many f d records).0 (upsert_rows rows records)
unfolding upsert_many
loaded-Wrote f d rows records (ok db) e h =
    let same : rows_of db ≡ rows = ok-injective (rw (e, contents) at h) in
    rw (e, upsert_many, same) (save_locked-Wrote f d (upsert_rows rows records))
loaded-Wrote f d rows records (err not_exist) e h =
    let same : List.[] ≡ rows = ok-injective (rw (e, contents) at h) in
    rw (e, upsert_many, ← same) (save_locked-Wrote f d (upsert_rows [] records))
loaded-Wrote f d rows records (err _) e h = cc (rw (e, contents) at h)

-- The whole write, for a disk that can be read.
pub upsert_many-Wrote :
    (f : Faults) (d : Disk Record) (rows records : List Record)
    → contents d ≡ ok rows
    → Wrote d (upsert_many f d records).1 (upsert_many f d records).0 (upsert_rows rows records)
upsert_many-Wrote f d rows records h = loaded-Wrote f d rows records (load_locked d) refl h
