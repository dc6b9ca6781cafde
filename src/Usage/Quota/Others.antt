-- ===== src/Usage/Quota/Others.antt =====
-- The operations on tunnels and the two steps of a flush leave the request counters alone.
use binboi_go.Base.{
  ◌≡◌, refl, Bool, true, false, List, [], ◌∷◌, arith, inl, inr, Option-cases, ◌∙◌, if◌then◌else◌,
}
use binboi_go.Go.Text.{Str, trim_space}
use binboi_go.Go.Map.{Map, get, get-put}
use binboi_go.Usage.Model.{Time}
use binboi_go.Usage.Tracker.{Calendar, Bucket, Tracker}
use binboi_go.Usage.Tracker.Tunnels.{
  TunnelReservation, reserve_tunnel, drop_reserved, release_tunnel_reservation, mark_active,
  confirm_tunnel, restore_tunnel, mark_closed, track_tunnel_closed,
}
use binboi_go.Usage.Flush.{
  FlushItem, cleaned, flush_collect, mark_dirty, mark_all_dirty, flush_restore,
}
use binboi_go.Usage.Quota.Views.{
  SameCounts, SameCounts-refl, SameCounts-trans, touch_bucket-SameCounts, count_of, pending_of,
}

-- Trackers with the same buckets and limits.
SameCounts-buckets : {t u : Tracker} → u.buckets ≡ t.buckets → u.limits ≡ t.limits → SameCounts t u
SameCounts-buckets b l = record { requests = λ k. rw b; pending = λ k. rw b; limits = l }

pub reserve_tunnel-SameCounts : (t : Tracker) (user : Str) → SameCounts t (reserve_tunnel t user).1
unfolding reserve_tunnel
reserve_tunnel-SameCounts t user = SameCounts-buckets (ground arith) (ground arith)

pub drop_reserved-SameCounts :
    (t : Tracker) (user_id : Str) → SameCounts t (drop_reserved t user_id)
unfolding drop_reserved
drop_reserved-SameCounts t user_id = SameCounts-buckets (ground arith) (ground arith)

-- A guarded operation that has the property where the guard lets it run.
guarded-SameCounts : {t u : Tracker} (b : Bool) → SameCounts t u → SameCounts t (if b then t else u)
guarded-SameCounts {t} true s = SameCounts-refl t
guarded-SameCounts false s = s

pub release_tunnel_reservation-SameCounts :
    (t : Tracker) (r : TunnelReservation) → SameCounts t (release_tunnel_reservation t r)
release_tunnel_reservation-SameCounts t r =
    unfold release_tunnel_reservation in guarded-SameCounts _ (drop_reserved-SameCounts t r.user_id)

mark_active-SameCounts :
    (t : Tracker) (user_id tunnel_id : Str) → SameCounts t (mark_active t user_id tunnel_id)
unfolding mark_active
mark_active-SameCounts t user_id tunnel_id = SameCounts-buckets (ground arith) (ground arith)

mark_closed-SameCounts :
    (t : Tracker) (user_id tunnel_id : Str) → SameCounts t (mark_closed t user_id tunnel_id)
unfolding mark_closed
mark_closed-SameCounts t user_id tunnel_id = SameCounts-buckets (ground arith) (ground arith)

pub confirm_tunnel-SameCounts :
    (cal : Calendar) (t : Tracker) (r : TunnelReservation) (tunnel_id : Str) (now later : Time)
    → SameCounts t (confirm_tunnel cal t r tunnel_id now later)
confirm_tunnel-SameCounts cal t r tunnel_id now later =
    unfold confirm_tunnel in
    guarded-SameCounts _ (
      SameCounts-trans (drop_reserved-SameCounts t r.user_id) (
        SameCounts-trans (mark_active-SameCounts _ r.user_id tunnel_id)
          (touch_bucket-SameCounts cal _ r.user_id now later)))

pub restore_tunnel-SameCounts :
    (cal : Calendar) (t : Tracker) (user tunnel_id : Str) (now later : Time)
    → SameCounts t (restore_tunnel cal t user tunnel_id now later)
restore_tunnel-SameCounts cal t user tunnel_id now later =
    unfold restore_tunnel in
    guarded-SameCounts _ (
      SameCounts-trans (mark_active-SameCounts t (trim_space user) tunnel_id)
        (touch_bucket-SameCounts cal _ (trim_space user) now later))

pub track_tunnel_closed-SameCounts :
    (cal : Calendar) (t : Tracker) (user tunnel_id : Str) (now later : Time)
    → SameCounts t (track_tunnel_closed cal t user tunnel_id now later)
track_tunnel_closed-SameCounts cal t user tunnel_id now later =
    unfold track_tunnel_closed in
    guarded-SameCounts _ (
      SameCounts-trans (mark_closed-SameCounts t (trim_space user) tunnel_id)
        (touch_bucket-SameCounts cal _ (trim_space user) now later))

get-cleaned-counts :
    (t : Tracker) (now : Time) (m : Map Bucket) (k : Str)
    → (count_of (get (cleaned t now m) k) ≡ count_of (get m k))
      × (pending_of (get (cleaned t now m) k) ≡ pending_of (get m k))
unfolding cleaned get
get-cleaned-counts t now [] k = (refl, refl)
get-cleaned-counts t now ((j, b) ∷ m) k =
    (ground (arith, get-cleaned-counts t now m k), ground (arith, get-cleaned-counts t now m k))

pub flush_collect-SameCounts : (t : Tracker) (now : Time) → SameCounts t (flush_collect t now).1
unfolding flush_collect
flush_collect-SameCounts t now = record {
  requests = λ k. (get-cleaned-counts t now t.buckets k).0;
  pending = λ k. (get-cleaned-counts t now t.buckets k).1;
  limits = refl;
}

get-mark_dirty-counts :
    (m : Map Bucket) (j k : Str)
    → (count_of (get (mark_dirty m j) k) ≡ count_of (get m k))
      × (pending_of (get (mark_dirty m j) k) ≡ pending_of (get m k))
unfolding mark_dirty
get-mark_dirty-counts m j k = elim (Option-cases (get m j)) [
  | inl e ↦ rw (e, mark_dirty) (refl, refl)
  | inr (b, e) ↦
      rw (e, mark_dirty)
        (
          ground (arith, e, get-put m j (record b { dirty = true }) k),
          ground (arith, e, get-put m j (record b { dirty = true }) k),
        )
]

get-mark_all_dirty-counts :
    (m : Map Bucket) (is : List FlushItem) (k : Str)
    → (count_of (get (mark_all_dirty m is) k) ≡ count_of (get m k))
      × (pending_of (get (mark_all_dirty m is) k) ≡ pending_of (get m k))
unfolding mark_all_dirty
get-mark_all_dirty-counts m [] k = (refl, refl)
get-mark_all_dirty-counts m (i ∷ is) k =
    let rest = get-mark_all_dirty-counts (mark_dirty m i.key) is k in
    let one = get-mark_dirty-counts m i.key k in (rest.0 ∙ one.0, rest.1 ∙ one.1)

pub flush_restore-SameCounts :
    (t : Tracker) (items : List FlushItem) → SameCounts t (flush_restore t items)
unfolding flush_restore
flush_restore-SameCounts t items = record {
  requests = λ k. (get-mark_all_dirty-counts t.buckets items k).0;
  pending = λ k. (get-mark_all_dirty-counts t.buckets items k).1;
  limits = refl;
}
