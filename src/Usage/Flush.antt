-- ===== src/Usage/Flush.antt =====
-- Flush of internal/usage/tracker.go. It takes the dirty snapshots under the mutex, gives the mutex
-- back, writes, and on an error takes the mutex again to mark them dirty: two steps on the tracker
-- with one on the disk between them.
pub mod Rows
pub mod Keyed
pub mod Items
pub mod Durable
pub mod Reached
use binboi_go.Base.{
  Bool, true, false, Option, none, some, List, [], ◌∷◌, map, if◌then◌else◌, length,
}
use binboi_go.Go.Text.{Str}
use binboi_go.Go.Map.{Map, get, put}
use binboi_go.Disk.{Disk, Faults, StoreError}
use binboi_go.Usage.Model.{Time, Record}
use binboi_go.Usage.Tracker.{Bucket, Tracker, active_of}
use binboi_go.Usage.Store.{upsert_many}

pub record FlushItem : Type 0 where
  pub key : Str
  pub usage : Record

-- The snapshot that is written for a dirty bucket.
abbrev pub snapshot : Tracker → Time → Bucket → Record
snapshot t now b = record b.usage {
  active_tunnels = length (active_of t b.usage.user_id);
  updated_at = now;
}

-- The first loop of Flush: the snapshots, and the buckets afterwards.
unfoldable pub flush_items : Tracker → Time → Map Bucket → List FlushItem
flush_items t now [] = []
flush_items t now ((k, b) ∷ m) =
    let rest = flush_items t now m in
    if b.dirty then record { key = k; usage = snapshot t now b } ∷ rest else rest

unfoldable pub cleaned : Tracker → Time → Map Bucket → Map Bucket
cleaned t now [] = []
cleaned t now ((k, b) ∷ m) =
    (k, if b.dirty then record b { usage = snapshot t now b; dirty = false } else b)
    ∷ cleaned t now m

unfoldable pub flush_collect : Tracker → Time → List FlushItem × Tracker
unfolding flush_items cleaned
flush_collect t now = (flush_items t now t.buckets, record t { buckets = cleaned t now t.buckets })

-- `if bucket, ok := t.buckets[item.key]; ok { bucket.dirty = true }`
unfoldable pub mark_dirty : Map Bucket → Str → Map Bucket
mark_dirty m k = elim (get m k) [ none ↦ m | some b ↦ put m k (record b { dirty = true }) ]

unfoldable pub mark_all_dirty : Map Bucket → List FlushItem → Map Bucket
unfolding mark_dirty
mark_all_dirty m [] = m
mark_all_dirty m (i ∷ is) = mark_all_dirty (mark_dirty m i.key) is

-- The loop that an error of the write runs.
unfoldable pub flush_restore : Tracker → List FlushItem → Tracker
unfolding mark_all_dirty
flush_restore t items = record t { buckets = mark_all_dirty t.buckets items }

abbrev pub usages : List FlushItem → List Record
usages = map (λ i. i.usage)

-- What Flush does with the answer of the store.
abbrev pub after_write :
    Tracker
    → List FlushItem
    → Option StoreError × Disk Record
    → Option StoreError × Tracker × Disk Record
after_write t items (none, d) = (none, t, d)
after_write t items (some e, d) = (some e, flush_restore t items, d)

-- The second half of Flush: nothing is written when no bucket was dirty.
unfoldable pub write_items :
    Faults → Tracker → Disk Record → List FlushItem → Option StoreError × Tracker × Disk Record
write_items f t d [] = (none, t, d)
write_items f t d (i ∷ is) = after_write t (i ∷ is) (upsert_many f d (usages (i ∷ is)))
