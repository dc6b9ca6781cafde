-- ===== src/Usage/Flush/Items.antt =====
-- The snapshots that Flush of internal/usage/tracker.go takes, and the buckets that it marks.
use binboi_go.Base.{
  ◌≡◌, refl, ap, Bool, true, false, Option, none, some, List, [], ◌∷◌, arith, if◌then◌else◌, inl,
  inr, ◌∙◌, ite, Option-cases,
}
use binboi_go.Go.Text.{Str, str_discrete}
use binboi_go.Go.Map.{Map, get, get-put}
use binboi_go.Usage.Model.{Time}
use binboi_go.Usage.Tracker.{Bucket, Tracker}
use binboi_go.Usage.Flush.{
  FlushItem, snapshot, flush_items, cleaned, mark_dirty, mark_all_dirty, usages,
}
use binboi_go.Usage.Flush.Rows.{Among, first, later}

-- An item of the list.
pub data HasItem (i : FlushItem) : List FlushItem → Type 0 where
  at_head : {is : List FlushItem} → HasItem i (i ∷ is)
  in_tail : {j : FlushItem} {is : List FlushItem} → HasItem i is → HasItem i (j ∷ is)

pub Among-usages : {i : FlushItem} {is : List FlushItem} → HasItem i is → Among i.usage (usages is)
Among-usages at_head = first
Among-usages (in_tail m) = later (Among-usages m)

HasItem-cons :
    {i : FlushItem} (b : Bool) (j : FlushItem) {is : List FlushItem}
    → HasItem i is
    → HasItem i (if b then j ∷ is else is)
HasItem-cons true j h = in_tail h
HasItem-cons false j h = h

HasItem-head :
    {i : FlushItem} (b : Bool) (j : FlushItem) (is : List FlushItem)
    → b ≡ true
    → j ≡ i
    → HasItem i (if b then j ∷ is else is)
HasItem-head b j is h e = rw (h, e) at_head

-- Every dirty bucket is among the items.
pub dirty-HasItem :
    (t : Tracker) (now : Time) (m : Map Bucket) (k : Str) (b : Bucket)
    → get m k ≡ some b
    → b.dirty ≡ true
    → HasItem (record { key = k; usage = snapshot t now b }) (flush_items t now m)
unfolding flush_items get
dirty-HasItem t now [] k b e h = cc
dirty-HasItem t now ((j, c) ∷ m) k b e h = elim (str_discrete j k) [
  | yes p ↦
      let same : c ≡ b = ground arith in
      HasItem-head c.dirty _ _ (ap (λ (x : Bucket). x.dirty) same ∙ h)
        (λ i. record { key = p i; usage = snapshot t now (same i) })
  | no n ↦ HasItem-cons c.dirty _ (dirty-HasItem t now m k b (ground arith) h)
]

-- A dirty bucket is clean afterwards, with the counters that it had.
pub get-cleaned :
    (t : Tracker) (now : Time) (m : Map Bucket) (k : Str) (b : Bucket)
    → get m k ≡ some b
    → b.dirty ≡ true
    → get (cleaned t now m) k ≡ some (record b { usage = snapshot t now b; dirty = false })
unfolding cleaned get
get-cleaned t now [] k b e h = cc
get-cleaned t now ((j, c) ∷ m) k b e h = ground (arith, get-cleaned t now m k b)

-- The bucket, if there is one, marked dirty.
abbrev set_dirty : Option Bucket → Option Bucket
set_dirty none = none
set_dirty (some b) = some (record b { dirty = true })

get-mark_dirty :
    (m : Map Bucket) (j k : Str)
    → get (mark_dirty m j) k ≡ ite (str_discrete j k) (set_dirty (get m k)) (get m k)
unfolding mark_dirty
get-mark_dirty m j k = elim (Option-cases (get m j)) [
  | inl e ↦ rw (e, mark_dirty) (ground (arith, e))
  | inr (b, e) ↦ rw (e, mark_dirty) (ground (arith, e, get-put m j (record b { dirty = true }) k))
]

mark_all_dirty_old :
    (m : Map Bucket) (is : List FlushItem) (k : Str) (b : Bucket)
    → get m k ≡ some b
    → b.dirty ≡ true
    → get (mark_all_dirty m is) k ≡ some b
unfolding mark_all_dirty
mark_all_dirty_old m [] k b e h = e
mark_all_dirty_old m (i ∷ is) k b e h =
    mark_all_dirty_old (mark_dirty m i.key) is k b (ground (arith, get-mark_dirty m i.key k)) h

pub mark_all_dirty_hit :
    (m : Map Bucket) {i : FlushItem} (is : List FlushItem) (b : Bucket)
    → HasItem i is
    → get m i.key ≡ some b
    → get (mark_all_dirty m is) i.key ≡ some (record b { dirty = true })
unfolding mark_all_dirty
mark_all_dirty_hit m [] b h e = elim h [ ]
mark_all_dirty_hit m (i ∷ is) b at_head e =
    mark_all_dirty_old (mark_dirty m i.key) is i.key (record b { dirty = true })
      (ground (arith, get-mark_dirty m i.key i.key)) refl
mark_all_dirty_hit m {i} (j ∷ is) b (in_tail h) e = elim (str_discrete j.key i.key) [
  | yes p ↦
      mark_all_dirty_old (mark_dirty m j.key) is i.key (record b { dirty = true })
        (ground (arith, get-mark_dirty m j.key i.key)) refl
  | no n ↦
      mark_all_dirty_hit (mark_dirty m j.key) {i = i} is b h
        (ground (arith, get-mark_dirty m j.key i.key))
]
