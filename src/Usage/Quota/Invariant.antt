-- ===== src/Usage/Quota/Invariant.antt =====
-- What every step keeps: the pending counters count the open reservations, and no key's counters
-- pass the limit.
use binboi_go.Base.{
  ℕ, ◌+◌, ◌≤◌, ◌<◌, ◌≡◌, List, [], ◌∷◌, ◌++◌, true, false, Result, arith, ite, refl, All, subst,
  sym, ◌∙◌,
}
use binboi_go.Go.Word.{Int64, sign_bit}
use binboi_go.Go.Text.{Str, str_discrete, is_empty}
use binboi_go.Usage.Tracker.{Calendar, Tracker, new_tracker}
use binboi_go.Usage.Model.{Time, Config, LimitError, normalize}
use binboi_go.Go.Map.{get}
use binboi_go.Usage.Tracker.Requests.{RequestReservation, release_request, complete_request}
use binboi_go.Usage.Quota.Views.{
  SameCounts, requests_at, pending_at, Reserved, Answer, skipped, refused, admitted,
  reserve_request-Answer,
}
use binboi_go.Usage.Quota.Settle.{Settled, bucket_of_pending, release-Settled, complete-Settled}
use binboi_go.Usage.Quota.Others.{
  reserve_tunnel-SameCounts, release_tunnel_reservation-SameCounts, confirm_tunnel-SameCounts,
  restore_tunnel-SameCounts, track_tunnel_closed-SameCounts, flush_collect-SameCounts,
  flush_restore-SameCounts,
}
use binboi_go.Usage.Quota.{
  System, opened, Step, reserves, releases, completes, reserves_tunnel, releases_tunnel,
  confirms_tunnel, restores_tunnel, closes_tunnel, flushes, restores_dirty, Reach, here, next,
}

-- The open reservations of a key.
pub count_key : Str → List RequestReservation → ℕ
count_key k [] = 0
count_key k (r ∷ rs) = ite (str_discrete r.bucket_key k) 1 0 + count_key k rs

count_key-middle :
    (k : Str) (xs ys : List RequestReservation) (r : RequestReservation)
    → count_key k (xs ++ r ∷ ys) ≡ count_key k (xs ++ ys) + ite (str_discrete r.bucket_key k) 1 0
unfolding count_key
count_key-middle k [] ys r = omega arith
count_key-middle k (x ∷ xs) ys r = omega (arith, count_key-middle k xs ys r)

-- A reservation that ReserveRequest has given out.
abbrev pub IsOpen : RequestReservation → Type 0
IsOpen r = (r.acquired ≡ true) × (is_empty r.user_id ≡ false)

pub record Inv (limit : ℕ) (s : System) : Type 0 where
  pub capped : s.tracker.limits.max_requests ≡ limit
  pub within : (k : Str) → requests_at s.tracker k + pending_at s.tracker k ≤ limit
  pub counted : (k : Str) → pending_at s.tracker k ≡ count_key k s.open_reservations
  pub are_open : All IsOpen s.open_reservations

All-middle :
    (xs ys : List RequestReservation) (r : RequestReservation)
    → All IsOpen (xs ++ r ∷ ys)
    → IsOpen r × All IsOpen (xs ++ ys)
All-middle [] ys r h = h
All-middle (x ∷ xs) ys r h = let (o, rest) = All-middle xs ys r h.1 in (o, (h.0, rest))

module _ (limit : ℕ) where
  Inv-SameCounts :
      (s : System) (u : Tracker)
      → SameCounts s.tracker u
      → Inv limit s
      → Inv limit (record s { tracker = u })
  Inv-SameCounts s u same v = record {
    capped = rw same.limits v.capped;
    within = λ k. rw (same.requests k, same.pending k) (v.within k);
    counted = λ k. same.pending k ∙ v.counted k;
    are_open = v.are_open;
  }

  Inv-Reserved :
      (s : System) (u : Tracker) (r : RequestReservation)
      → Reserved s.tracker u r
      → Inv limit s
      → Inv limit (record { tracker = u; open_reservations = r ∷ s.open_reservations })
  unfolding count_key
  Inv-Reserved s u r w v = record {
    capped = rw w.limits v.capped;
    within = λ k. ground (arith, w.requests k, w.pending k, w.fits, v.within k, v.capped);
    counted = λ k. omega (arith, w.pending k, v.counted k);
    are_open = ((w.acquired, w.user), v.are_open);
  }

  Inv-Settled :
      (n : ℕ) (s : System) (u : Tracker) (xs ys : List RequestReservation) (r : RequestReservation)
      → n ≤ 1
      → s.open_reservations ≡ xs ++ r ∷ ys
      → Settled n s.tracker u r
      → Inv limit s
      → Inv limit (record { tracker = u; open_reservations = xs ++ ys })
  Inv-Settled n s u xs ys r small e w v = record {
    capped = rw w.limits v.capped;
    within = λ k. ground (arith, w.requests k, w.pending k, v.within k);
    counted = λ k.
        let old : pending_at s.tracker k ≡ count_key k (xs ++ r ∷ ys) =
          subst (λ rs. pending_at s.tracker k ≡ count_key k rs) e (v.counted k) in
        omega (arith, w.pending k, old, count_key-middle k xs ys r);
    are_open = (All-middle xs ys r (subst (All IsOpen) e v.are_open)).1;
  }

  -- The bucket behind an open reservation, with what the limit says of it.
  module _ (s : System) (xs ys : List RequestReservation) (r : RequestReservation)
      (e : s.open_reservations ≡ xs ++ r ∷ ys) (v : Inv limit s) where
    pending_open : 0 < pending_at s.tracker r.bucket_key
    pending_open =
        let old : pending_at s.tracker r.bucket_key ≡ count_key r.bucket_key (xs ++ r ∷ ys) =
          subst (λ rs. pending_at s.tracker r.bucket_key ≡ count_key r.bucket_key rs) e
            (v.counted r.bucket_key) in
        ground (arith, old, count_key-middle r.bucket_key xs ys r)

    IsOpen-middle : IsOpen r
    IsOpen-middle = (All-middle xs ys r (subst (All IsOpen) e v.are_open)).0

    release-Inv :
        limit < sign_bit
        → Inv limit (record { tracker = release_request s.tracker r; open_reservations = xs ++ ys })
    release-Inv below =
        let (b, found) = bucket_of_pending s.tracker r.bucket_key pending_open in
        Inv-Settled 0 s _ xs ys r (omega arith) e
          (release-Settled s.tracker r b IsOpen-middle.0 IsOpen-middle.1 found
            (ground (arith, pending_open, found)) (ground (arith, v.within r.bucket_key, found)))
          v

    complete-Inv :
        (cal : Calendar) (bytes_in bytes_out : Int64) (now later : Time)
        → limit + 1 < sign_bit
        → Inv limit (record {
          tracker = complete_request cal s.tracker r bytes_in bytes_out now later;
          open_reservations = xs ++ ys;
        })
    complete-Inv cal bytes_in bytes_out now later below =
        let (b, found) = bucket_of_pending s.tracker r.bucket_key pending_open in
        Inv-Settled 1 s _ xs ys r (omega arith) e
          (complete-Settled s.tracker r b IsOpen-middle.0 IsOpen-middle.1 found
            (ground (arith, pending_open, found)) (ground (arith, v.within r.bucket_key, found)) cal
            bytes_in bytes_out now later (ground (arith, v.within r.bucket_key, found)))
          v

  reserve-Inv :
      (s : System) (u : Tracker) {o : Result LimitError RequestReservation}
      → Answer s.tracker u o
      → Inv limit s
      → Inv limit (record { tracker = u; open_reservations = opened o s.open_reservations })
  reserve-Inv s u (skipped same) v = Inv-SameCounts s u same v
  reserve-Inv s u (refused same) v = Inv-SameCounts s u same v
  reserve-Inv s u (admitted {r = r} w) v =
      subst
        (λ b. Inv limit (record {
          tracker = u;
          open_reservations = elim b [
            | true ↦ r ∷ s.open_reservations
            | false ↦ s.open_reservations
          ];
        }))
        (sym w.acquired) (Inv-Reserved s u r w v)

  -- Every step keeps the invariant.
  pub Step-Inv :
      (cal : Calendar) {s s' : System}
      → 0 < limit
      → limit + 1 < sign_bit
      → Step cal s s'
      → Inv limit s
      → Inv limit s'
  Step-Inv cal {s} pos below (reserves user estimate now e) v = rw e (
      reserve-Inv s _
        (reserve_request-Answer cal s.tracker user estimate now
          (record { positive = rw v.capped pos; below = rw v.capped below })
          (λ k. rw v.capped (v.within k)))
        v)
  Step-Inv cal {s} pos below (releases xs ys r h e) v =
      rw e (release-Inv s xs ys r h v (omega arith))
  Step-Inv cal {s} pos below (completes xs ys r i o now later h e) v =
      rw e (complete-Inv s xs ys r h v cal i o now later below)
  Step-Inv cal {s} pos below (reserves_tunnel user e) v =
      rw e (Inv-SameCounts s _ (reserve_tunnel-SameCounts s.tracker user) v)
  Step-Inv cal {s} pos below (releases_tunnel r e) v =
      rw e (Inv-SameCounts s _ (release_tunnel_reservation-SameCounts s.tracker r) v)
  Step-Inv cal {s} pos below (confirms_tunnel r i now later e) v =
      rw e (Inv-SameCounts s _ (confirm_tunnel-SameCounts cal s.tracker r i now later) v)
  Step-Inv cal {s} pos below (restores_tunnel user i now later e) v =
      rw e (Inv-SameCounts s _ (restore_tunnel-SameCounts cal s.tracker user i now later) v)
  Step-Inv cal {s} pos below (closes_tunnel user i now later e) v =
      rw e (Inv-SameCounts s _ (track_tunnel_closed-SameCounts cal s.tracker user i now later) v)
  Step-Inv cal {s} pos below (flushes now e) v =
      rw e (Inv-SameCounts s _ (flush_collect-SameCounts s.tracker now) v)
  Step-Inv cal {s} pos below (restores_dirty items e) v =
      rw e (Inv-SameCounts s _ (flush_restore-SameCounts s.tracker items) v)

abbrev pub start : Config → System
start cfg = record { tracker = new_tracker cfg; open_reservations = [] }

start-Inv : (cfg : Config) → Inv cfg.limits.max_requests (start cfg)
unfolding new_tracker normalize count_key get
start-Inv cfg = record {
  capped = refl;
  within = λ k. omega arith;
  counted = λ k. refl;
  are_open = tt;
}

Reach-Inv :
    (cal : Calendar) (limit : ℕ) {s t : System}
    → 0 < limit
    → limit + 1 < sign_bit
    → Reach cal s t
    → Inv limit s
    → Inv limit t
Reach-Inv cal limit pos below here v = v
Reach-Inv cal limit pos below (next r st) v =
    Step-Inv limit cal pos below st (Reach-Inv cal limit pos below r v)

-- Start a tracker under a limit M on requests, 0 < M < 2^63 - 1, and let its clients make any
-- calls, in any order and at any times, and its flush loop run, as long as each acquired
-- reservation is given back or completed at most once. Then under every bucket key the finished
-- requests and the reservations still open together are at most M, and the bucket's count of
-- pending requests is the number of its open reservations.
pub quota_kept :
    (cal : Calendar) (cfg : Config) (s : System)
    → 0 < cfg.limits.max_requests
    → cfg.limits.max_requests + 1 < sign_bit
    → Reach cal (start cfg) s
    → (k : Str)
    → (requests_at s.tracker k + count_key k s.open_reservations ≤ cfg.limits.max_requests)
      × (pending_at s.tracker k ≡ count_key k s.open_reservations)
quota_kept cal cfg s pos below r k =
    let v = Reach-Inv cal _ pos below r (start-Inv cfg) in
    (
      subst (λ n. requests_at s.tracker k + n ≤ cfg.limits.max_requests) (v.counted k) (v.within k),
      v.counted k,
    )
