-- ===== src/Usage/Flush/Durable.antt =====
-- No count is lost by Flush of internal/usage/tracker.go, whether the write works or fails.
use binboi_go.Base.{
  ◌≡◌, refl, Bool, true, false, Option, none, some, List, [], ◌∷◌, arith, ok, if◌then◌else◌, All,
  Bool-cases, inl, inr, ◌⊎◌,
}
use binboi_go.Go.Text.{Str}
use binboi_go.Go.Map.{Map, get}
use binboi_go.Disk.{Disk, Faults, StoreError, contents}
use binboi_go.Usage.Model.{Time, Record}
use binboi_go.Usage.Tracker.{Calendar, Bucket, Tracker, bucket_key}
use binboi_go.Usage.Store.{same_snapshot, upsert_rows, upsert_many}
use binboi_go.Usage.Store.Laws.{Wrote, upsert_many-Wrote}
use binboi_go.Usage.Flush.{
  FlushItem, snapshot, flush_items, flush_collect, flush_restore, usages, after_write, write_items,
}
use binboi_go.Usage.Flush.Rows.{find_row, Apart, find_row-upsert_rows}
use binboi_go.Usage.Flush.Keyed.{Distinct, IsKeyed, WellKeyed}
use binboi_go.Usage.Flush.Items.{
  HasItem, at_head, in_tail, Among-usages, dirty-HasItem, get-cleaned, mark_all_dirty_hit,
}

All-if :
    (P : Record → Type 0) (b : Bool) (j : FlushItem) (is : List FlushItem)
    → P j.usage
    → All P (usages is)
    → All P (usages (if b then j ∷ is else is))
All-if P true j is p h = (p, h)
All-if P false j is p h = h

Apart-if :
    (b : Bool) (j : FlushItem) (is : List FlushItem)
    → All (λ q. same_snapshot j.usage q ≡ false) (usages is)
    → Apart (usages is)
    → Apart (usages (if b then j ∷ is else is))
Apart-if true j is p h = (p, h)
Apart-if false j is p h = h

-- Two buckets of one snapshot have one key.
key_of_snapshot :
    (cal : Calendar) (a b : Record)
    → same_snapshot a b ≡ true
    → bucket_key cal a.user_id a.period a.period_start
      ≡ bucket_key cal b.user_id b.period b.period_start
unfolding same_snapshot
key_of_snapshot cal a b h = ground arith

apart_from :
    (cal : Calendar) (t : Tracker) (now : Time) (k : Str) (b : Bucket) (m : Map Bucket)
    → IsKeyed cal (k, b)
    → All (IsKeyed cal) m
    → get m k ≡ none
    → All (λ q. same_snapshot (snapshot t now b) q ≡ false) (usages (flush_items t now m))
unfolding flush_items get
apart_from cal t now k b [] n h e = tt
apart_from cal t now k b ((j, c) ∷ m) n h e =
    All-if _ c.dirty _ _
      (ground (
        arith,
        key_of_snapshot cal (snapshot t now b) (snapshot t now c),
        n,
        h.0,
        Bool-cases (same_snapshot (snapshot t now b) (snapshot t now c)),
      ))
      (apart_from cal t now k b m n h.1 (ground arith))

flush_items-Apart :
    (cal : Calendar) (t : Tracker) (now : Time) (m : Map Bucket)
    → Distinct m
    → All (IsKeyed cal) m
    → Apart (usages (flush_items t now m))
unfolding flush_items
flush_items-Apart cal t now [] d h = tt
flush_items-Apart cal t now ((k, b) ∷ m) d h =
    Apart-if b.dirty _ _ (apart_from cal t now k b m h.0 h.1 d.0)
      (flush_items-Apart cal t now m d.1 h.1)

write_items_some :
    (f : Faults) (t : Tracker) (d : Disk Record) {i : FlushItem} (is : List FlushItem)
    → HasItem i is
    → write_items f t d is ≡ after_write t is (upsert_many f d (usages is))
unfolding write_items
write_items_some f t d [] h = elim h [ ]
write_items_some f t d (i ∷ is) at_head = refl
write_items_some f t d (j ∷ is) (in_tail h) = refl

-- How a bucket fares in the write of its snapshot, when it is `c` by the end of the write.
abbrev pub Fares :
    Tracker
    → Disk Record
    → Record
    → Str
    → Bucket
    → Option StoreError × Tracker × Disk Record
    → Type 0
Fares w d row k c r =
    ((r.0 ≡ none)
      × ((rows' : List Record) × (contents r.2 ≡ ok rows') × (find_row rows' row ≡ some row))
      × (r.1 ≡ w))
    ⊎ ((e : StoreError) × (r.0 ≡ some e)
        × (r.2.file ≡ d.file)
        × (get r.1.buckets k ≡ some (record c { dirty = true })))

module _ (w : Tracker) (d d' : Disk Record) (items : List FlushItem) (after : List Record) (k : Str)
    (row : Record) (c : Bucket) (has : HasItem (record { key = k; usage = row }) items)
    (found : find_row after row ≡ some row) (here : get w.buckets k ≡ some c) where
  after_write-Fares :
      (o : Option StoreError) → Wrote d d' o after → Fares w d row k c (after_write w items (o, d'))
  after_write-Fares none s = inl (refl, (after, s.done refl, found), refl)
  after_write-Fares (some e) s = inr (
    e,
    refl,
    s.failed e refl,
    unfold flush_restore in mark_all_dirty_hit w.buckets items c has here,
  )

-- Flush takes the snapshots in one critical section, gives the mutex back for the write, and takes
-- it again if the write fails. Suppose that the buckets are well keyed at the start and the database
-- file can be read, and take a bucket that is dirty at the start. The first section leaves it clean
-- with all its counters. Whatever the other operations then do to the tracker, let the bucket be `c`
-- and the tracker `w` by the end of the write. Either Flush reports no error, the file holds the
-- snapshot, and the tracker is still `w`, so that what was counted during the write stays dirty; or
-- Flush reports an error, the file is as it was, and the bucket is dirty with all counters of `c`.
pub flush_durable :
    (cal : Calendar) (f : Faults) (t w : Tracker) (d : Disk Record) (now : Time)
    (rows : List Record) (k : Str) (b c : Bucket)
    → WellKeyed cal t.buckets
    → contents d ≡ ok rows
    → get t.buckets k ≡ some b
    → b.dirty ≡ true
    → get w.buckets k ≡ some c
    → (get (flush_collect t now).1.buckets k
        ≡ some (record b { usage = snapshot t now b; dirty = false }))
      × Fares w d (snapshot t now b) k c (write_items f w d (flush_collect t now).0)
unfolding flush_collect
flush_durable cal f t w d now rows k b c wk readable found dirty here =
    let items = flush_items t now t.buckets in
    let has = dirty-HasItem t now t.buckets k b found dirty in
    (
      get-cleaned t now t.buckets k b found dirty,
      rw (write_items_some f w d items has) (
          after_write-Fares w d _ items (upsert_rows rows (usages items)) k (snapshot t now b) c has
            (find_row-upsert_rows rows (usages items) (snapshot t now b)
              (flush_items-Apart cal t now t.buckets wk.distinct wk.keyed) (Among-usages has))
            here _ (upsert_many-Wrote f d rows (usages items) readable)),
    )
