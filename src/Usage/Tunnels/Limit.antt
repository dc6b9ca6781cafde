-- ===== src/Usage/Tunnels/Limit.antt =====
-- The limit on active tunnels holds after every history.
use binboi_go.Base.{
  ℕ, ◌+◌, ◌≤◌, ◌<◌, ◌≡◌, List, [], ◌∷◌, ◌++◌, true, false, Result, arith, refl, All, subst, sym,
  inl, inr, Bool-cases,
}
use binboi_go.Go.Word.{sign_bit}
use binboi_go.Go.Map.{get}
use binboi_go.Go.Text.{Str, is_empty, trim_space}
use binboi_go.Usage.Model.{Time, Config, LimitError, normalize}
use binboi_go.Usage.Tracker.{Calendar, Tracker, new_tracker, reserved_of}
use binboi_go.Usage.Tracker.Tunnels.{
  TunnelReservation, release_tunnel_reservation, confirm_tunnel, track_tunnel_closed, drop_reserved,
}
use binboi_go.Usage.Tunnels.Effects.{
  active_at, touch_bucket-SameTunnels, Moved, drop_reserved-Moved, mark_active-Moved,
  mark_closed-Moved, TunnelAnswer, skipped, refused, admitted, reserve_tunnel-TunnelAnswer,
}
use binboi_go.Usage.Tunnels.{
  System, taken, Step, reserves, releases, confirms, closes, reserves_request, releases_request,
  completes_request, flushes, restores_dirty, Reach, here, next,
}
use binboi_go.Usage.Tunnels.Invariant.{
  count_user, count_user-middle, IsHeld, Inv, All-middle, Moved-trans, Moved-same, Inv-SameTunnels,
  Inv-admitted, Inv-settled, Inv-closed, reserve_request-SameTunnels, release_request-SameTunnels,
  complete_request-SameTunnels, flush_collect-SameTunnels, flush_restore-SameTunnels,
}

module _ (limit : ℕ) (below : limit + 1 < sign_bit) where
  -- What the invariant says of the user behind a held reservation.
  module _ (s : System) (xs ys : List TunnelReservation) (r : TunnelReservation)
      (e : s.held ≡ xs ++ r ∷ ys) (v : Inv limit s) where
    IsHeld-middle : IsHeld r
    IsHeld-middle = (All-middle xs ys r (subst (All IsHeld) e v.are_held)).0

    dropped : Moved 0 1 0 s.tracker (drop_reserved s.tracker r.user_id) r.user_id
    dropped =
        let old : reserved_of s.tracker r.user_id ≡ count_user r.user_id (xs ++ r ∷ ys) =
          subst (λ rs. reserved_of s.tracker r.user_id ≡ count_user r.user_id rs) e
            (v.counted r.user_id) in
        drop_reserved-Moved s.tracker r.user_id
          (ground (arith, old, count_user-middle r.user_id xs ys r))
          (omega (arith, v.within r.user_id, below))

    release-Inv :
        Inv limit (record { tracker = release_tunnel_reservation s.tracker r; held = xs ++ ys })
    release-Inv =
        Inv-settled limit 0 s _ xs ys r (omega arith) e
          (unfold release_tunnel_reservation in rw (IsHeld-middle.0, IsHeld-middle.1) dropped) v

    confirm-Inv :
        (cal : Calendar) (tunnel_id : Str) (now later : Time)
        → is_empty tunnel_id ≡ false
        → Inv limit (record {
          tracker = confirm_tunnel cal s.tracker r tunnel_id now later;
          held = xs ++ ys;
        })
    confirm-Inv cal tunnel_id now later h =
        Inv-settled limit 1 s _ xs ys r (omega arith) e
          (unfold confirm_tunnel in
            rw (IsHeld-middle.0, IsHeld-middle.1, h)
              (Moved-same
                (Moved-trans dropped
                  (mark_active-Moved (drop_reserved s.tracker r.user_id) r.user_id tunnel_id))
                (touch_bucket-SameTunnels cal _ r.user_id now later)))
          v

  reserve-Inv :
      (s : System) (u : Tracker) {o : Result LimitError TunnelReservation}
      → TunnelAnswer s.tracker u o
      → Inv limit s
      → Inv limit (record { tracker = u; held = taken o s.held })
  reserve-Inv s u (skipped e) v = rw e v
  reserve-Inv s u (refused e over) v = rw e v
  reserve-Inv s u (admitted {r = r} a n m fits) v =
      subst
        (λ b.
          Inv limit (record { tracker = u; held = elim b [ true ↦ r ∷ s.held | false ↦ s.held ] }))
        (sym a) (Inv-admitted limit s u r a n m fits v)

  closed-Inv :
      (cal : Calendar) (s : System) (user tunnel_id : Str) (now later : Time)
      → Inv limit s
      → Inv limit
          (record s { tracker = track_tunnel_closed cal s.tracker user tunnel_id now later })
  unfolding track_tunnel_closed
  closed-Inv cal s user tunnel_id now later v = elim (Bool-cases (is_empty (trim_space user))) [
    | inl y ↦ rw y v
    | inr n ↦ elim (Bool-cases (is_empty tunnel_id)) [
      | inl y ↦ rw (n, y) v
      | inr m ↦
          rw (n, m)
            (Inv-closed limit s _ (trim_space user)
              (Moved-same (mark_closed-Moved s.tracker (trim_space user) tunnel_id)
                (touch_bucket-SameTunnels cal _ (trim_space user) now later))
              v)
    ]
  ]

  -- Every step keeps the invariant.
  Step-Inv :
      (cal : Calendar) {s s' : System} → 0 < limit → Step cal s s' → Inv limit s → Inv limit s'
  Step-Inv cal {s} pos (reserves user e) v = rw e (
      reserve-Inv s _
        (reserve_tunnel-TunnelAnswer s.tracker user
          (record { positive = rw v.capped pos; below = rw v.capped below })
          (λ k. rw v.capped (v.within k)))
        v)
  Step-Inv cal {s} pos (releases xs ys r h e) v = rw e (release-Inv s xs ys r h v)
  Step-Inv cal {s} pos (confirms xs ys r i now later n h e) v =
      rw e (confirm-Inv s xs ys r h v cal i now later n)
  Step-Inv cal {s} pos (closes user i now later e) v = rw e (closed-Inv cal s user i now later v)
  Step-Inv cal {s} pos (reserves_request user estimate now e) v =
      rw e
        (Inv-SameTunnels limit s _ (reserve_request-SameTunnels cal s.tracker user estimate now) v)
  Step-Inv cal {s} pos (releases_request r e) v =
      rw e (Inv-SameTunnels limit s _ (release_request-SameTunnels s.tracker r) v)
  Step-Inv cal {s} pos (completes_request r i o now later e) v =
      rw e
        (Inv-SameTunnels limit s _ (complete_request-SameTunnels cal s.tracker r i o now later) v)
  Step-Inv cal {s} pos (flushes now e) v =
      rw e (Inv-SameTunnels limit s _ (flush_collect-SameTunnels s.tracker now) v)
  Step-Inv cal {s} pos (restores_dirty items e) v =
      rw e (Inv-SameTunnels limit s _ (flush_restore-SameTunnels s.tracker items) v)

  Reach-Inv :
      (cal : Calendar) {s t : System} → 0 < limit → Reach cal s t → Inv limit s → Inv limit t
  Reach-Inv cal pos here v = v
  Reach-Inv cal pos (next r st) v = Step-Inv cal pos st (Reach-Inv cal pos r v)

abbrev pub start : Config → System
start cfg = record { tracker = new_tracker cfg; held = [] }

start-Inv : (cfg : Config) → Inv cfg.limits.max_active_tunnels (start cfg)
unfolding new_tracker normalize count_user get
start-Inv cfg = record {
  capped = refl;
  within = λ k. omega arith;
  counted = λ k. refl;
  are_held = tt;
}

-- Start a tracker under a limit M on active tunnels, 0 < M < 2^63 - 1. Let connections reserve
-- tunnels, each releasing a reservation or confirming it under a nonempty tunnel id at most once,
-- and let tunnels close, requests come and go and the flush loop run, in any order; no tunnel is
-- resumed. Then a user's active tunnels and held reservations together are at most M, and the
-- tracker's reserved count is the number of the user's held reservations.
pub tunnel_limit_kept :
    (cal : Calendar) (cfg : Config) (s : System)
    → 0 < cfg.limits.max_active_tunnels
    → cfg.limits.max_active_tunnels + 1 < sign_bit
    → Reach cal (start cfg) s
    → (u : Str)
    → (active_at s.tracker u + count_user u s.held ≤ cfg.limits.max_active_tunnels)
      × (reserved_of s.tracker u ≡ count_user u s.held)
tunnel_limit_kept cal cfg s pos below r u =
    let v = Reach-Inv _ below cal pos r (start-Inv cfg) in
    (
      subst (λ n. active_at s.tracker u + n ≤ cfg.limits.max_active_tunnels) (v.counted u)
          (v.within u),
      v.counted u,
    )
