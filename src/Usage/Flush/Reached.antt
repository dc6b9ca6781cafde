-- ===== src/Usage/Flush/Reached.antt =====
-- Every tracker that a history leads to is well keyed.
use binboi_go.Base.{
  ◌≡◌, refl, Bool, true, false, Option, none, some, arith, if◌then◌else◌, Bool-cases, inl, inr, ◌∙◌,
}
use binboi_go.Go.Word.{Int64}
use binboi_go.Go.Text.{Str, is_empty, trim_space}
use binboi_go.Go.Map.{Map, get}
use binboi_go.Usage.Model.{Time, Config, LimitError}
use binboi_go.Usage.Tracker.{
  Calendar, Bucket, Tracker, new_tracker, current_bucket, current_key, found_or_new, touch_bucket,
}
use binboi_go.Usage.Tracker.Tunnels.{
  reserve_tunnel, drop_reserved, release_tunnel_reservation, mark_active, confirm_tunnel,
  restore_tunnel, mark_closed, track_tunnel_closed,
}
use binboi_go.Usage.Tracker.Requests.{
  RequestReservation, admit, reserve_request, release_request, reserved_bucket, complete_request,
}
use binboi_go.Usage.Flush.{flush_collect, flush_restore}
use binboi_go.Usage.Flush.Keyed.{
  IsKeyed, WellKeyed, put-WellKeyed, get-IsKeyed, cleaned-WellKeyed, mark_all_dirty-WellKeyed,
}
use binboi_go.Usage.Quota.{
  System, Step, reserves, releases, completes, reserves_tunnel, releases_tunnel, confirms_tunnel,
  restores_tunnel, closes_tunnel, flushes, restores_dirty, Reach, here, next,
}
use binboi_go.Usage.Quota.Invariant.{start}

-- The operations on tunnels leave the buckets alone.
mark_active-buckets :
    (t : Tracker) (user_id tunnel_id : Str) → (mark_active t user_id tunnel_id).buckets ≡ t.buckets
unfolding mark_active
mark_active-buckets t user_id tunnel_id = ground arith

mark_closed-buckets :
    (t : Tracker) (user_id tunnel_id : Str) → (mark_closed t user_id tunnel_id).buckets ≡ t.buckets
unfolding mark_closed
mark_closed-buckets t user_id tunnel_id = ground arith

drop_reserved-buckets :
    (t : Tracker) (user_id : Str) → (drop_reserved t user_id).buckets ≡ t.buckets
unfolding drop_reserved
drop_reserved-buckets t user_id = ground arith

module _ (cal : Calendar) where
  abbrev Keyed : Tracker → Type 0
  Keyed t = WellKeyed cal t.buckets

  -- The bucket that `current_bucket` returns lies under the key that it returns.
  abbrev Current : Str × Bucket × Tracker → Type 0
  Current c = IsKeyed cal (c.0, c.1) × Keyed c.2

  found_or_new-IsKeyed :
      (t : Tracker) (user_id : Str) (now : Time) (o : Option Bucket)
      → Keyed t
      → get t.buckets (current_key cal t user_id now) ≡ o
      → IsKeyed cal (current_key cal t user_id now, found_or_new cal t user_id now o)
  found_or_new-IsKeyed t user_id now none w e = refl
  found_or_new-IsKeyed t user_id now (some b) w e =
      get-IsKeyed cal t.buckets (current_key cal t user_id now) b w.keyed e

  current_bucket-Current :
      (t : Tracker) (user_id : Str) (now : Time)
      → Keyed t
      → Current (current_bucket cal t user_id now)
  unfolding current_bucket
  current_bucket-Current t user_id now w =
      let n =
        found_or_new-IsKeyed t user_id now (get t.buckets (current_key cal t user_id now)) w refl in
      (n, put-WellKeyed cal t.buckets _ _ w n)

  touch_bucket-Keyed :
      (t : Tracker) (user_id : Str) (now later : Time)
      → Keyed t
      → Keyed (touch_bucket cal t user_id now later)
  touch_bucket-Keyed t user_id now later w = elim (Bool-cases (is_empty user_id)) [
    | inl y ↦ unfold touch_bucket in rw y w
    | inr n ↦
        let c = current_bucket-Current t user_id now w in
        unfold touch_bucket in rw n (put-WellKeyed cal _ _ _ c.1 c.0)
  ]

  guarded-Keyed : (t u : Tracker) (b : Bool) → Keyed t → Keyed u → Keyed (if b then t else u)
  guarded-Keyed t u true v w = v
  guarded-Keyed t u false v w = w

  admit-Keyed :
      (t : Tracker) (user_id key : Str) (b : Bucket) (estimate : Int64) (o : Option LimitError)
      → IsKeyed cal (key, b)
      → Keyed t
      → Keyed (admit t user_id key b estimate o).1
  admit-Keyed t user_id key b estimate (some e) n w = w
  admit-Keyed t user_id key b estimate none n w = put-WellKeyed cal t.buckets key _ w n

  reserve_request-Keyed :
      (t : Tracker) (user : Str) (estimate : Int64) (now : Time)
      → Keyed t
      → Keyed (reserve_request cal t user estimate now).1
  reserve_request-Keyed t user estimate now w = elim (Bool-cases (is_empty (trim_space user))) [
    | inl y ↦ unfold reserve_request in rw y w
    | inr n ↦
        let c = current_bucket-Current t (trim_space user) now w in
        unfold reserve_request in rw n (admit-Keyed _ _ _ _ _ _ c.0 c.1)
  ]

  released :
      (t : Tracker) (r : RequestReservation) (o : Option Bucket)
      → get t.buckets r.bucket_key ≡ o
      → Keyed t
      → Keyed (release_request t r)
  unfolding release_request
  released t r none e w = rw (e, release_request) (guarded-Keyed _ _ _ w w)
  released t r (some b) e w =
      rw (e, release_request)
        (guarded-Keyed _ _ _ w
          (put-WellKeyed cal t.buckets _ _ w (get-IsKeyed cal t.buckets _ b w.keyed e)))

  reserved_bucket-Current :
      (t : Tracker) (r : RequestReservation) (now : Time) (o : Option Bucket)
      → get t.buckets r.bucket_key ≡ o
      → Keyed t
      → Current (reserved_bucket cal t r now)
  unfolding reserved_bucket
  reserved_bucket-Current t r now none e w =
      rw (e, reserved_bucket) (current_bucket-Current t r.user_id now w)
  reserved_bucket-Current t r now (some b) e w =
      rw (e, reserved_bucket) (get-IsKeyed cal t.buckets r.bucket_key b w.keyed e, w)

  complete_request-Keyed :
      (t : Tracker) (r : RequestReservation) (bytes_in bytes_out : Int64) (now later : Time)
      → Keyed t
      → Keyed (complete_request cal t r bytes_in bytes_out now later)
  unfolding complete_request
  complete_request-Keyed t r bytes_in bytes_out now later w =
      let c = reserved_bucket-Current t r now (get t.buckets r.bucket_key) refl w in
      guarded-Keyed _ _ _ w (put-WellKeyed cal _ _ _ c.1 c.0)

  same-buckets : {m n : Map Bucket} → WellKeyed cal m → n ≡ m → WellKeyed cal n
  same-buckets w e = rw e w

  Step-Keyed : {s s' : System} → Step cal s s' → Keyed s.tracker → Keyed s'.tracker
  Step-Keyed {s} (reserves user estimate now e) w =
      rw e (reserve_request-Keyed s.tracker user estimate now w)
  Step-Keyed {s} (releases xs ys r h e) w = rw e (released s.tracker r _ refl w)
  Step-Keyed {s} (completes xs ys r i o now later h e) w =
      rw e (complete_request-Keyed s.tracker r i o now later w)
  Step-Keyed {s} (reserves_tunnel user e) w =
      rw e (same-buckets w (unfold reserve_tunnel in ground arith))
  Step-Keyed {s} (releases_tunnel r e) w =
      rw e (same-buckets w (unfold release_tunnel_reservation drop_reserved in ground arith))
  Step-Keyed {s} (confirms_tunnel r i now later e) w = rw e (
      unfold confirm_tunnel in
      guarded-Keyed _ _ _ w (
        touch_bucket-Keyed _ r.user_id now later (
          same-buckets w
            (mark_active-buckets _ r.user_id i ∙ drop_reserved-buckets s.tracker r.user_id))))
  Step-Keyed {s} (restores_tunnel user i now later e) w = rw e (
      unfold restore_tunnel in
      guarded-Keyed _ _ _ w (
        touch_bucket-Keyed _ (trim_space user) now later
          (same-buckets w (mark_active-buckets s.tracker (trim_space user) i))))
  Step-Keyed {s} (closes_tunnel user i now later e) w = rw e (
      unfold track_tunnel_closed in
      guarded-Keyed _ _ _ w (
        touch_bucket-Keyed _ (trim_space user) now later
          (same-buckets w (mark_closed-buckets s.tracker (trim_space user) i))))
  Step-Keyed {s} (flushes now e) w =
      rw e (unfold flush_collect in cleaned-WellKeyed cal s.tracker now s.tracker.buckets w)
  Step-Keyed {s} (restores_dirty items e) w =
      rw e (unfold flush_restore in mark_all_dirty-WellKeyed cal s.tracker.buckets items w)

  Reach-Keyed : {s t : System} → Reach cal s t → Keyed s.tracker → Keyed t.tracker
  Reach-Keyed here w = w
  Reach-Keyed (next r st) w = Step-Keyed st (Reach-Keyed r w)

-- After any history of a new tracker, its map holds no bucket key twice, and every bucket lies
-- under the key of its own user, period and period start.
pub reached-WellKeyed :
    (cal : Calendar) (cfg : Config) (s : System)
    → Reach cal (start cfg) s
    → WellKeyed cal s.tracker.buckets
unfolding new_tracker
reached-WellKeyed cal cfg s r = Reach-Keyed cal r (record { distinct = tt; keyed = tt })
