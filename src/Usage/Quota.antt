-- ===== src/Usage/Quota.antt =====
-- The limit on requests, over every history of internal/usage/tracker.go in which a reservation is
-- given back or completed once.
pub mod Views
pub mod Settle
pub mod Others
pub mod Invariant
use binboi_go.Base.{
  ℕ, ◌+◌, ◌≤◌, ◌<◌, ◌≡◌, List, [], ◌∷◌, ◌++◌, Bool, true, false, Result, ok, err, none, some, arith,
  ite, refl, All, All-append,
}
use binboi_go.Go.Word.{Int64, sign_bit}
use binboi_go.Go.Text.{Str, str_discrete, is_empty}
use binboi_go.Usage.Model.{Time, Config, LimitError}
use binboi_go.Usage.Tracker.{Calendar, Tracker, new_tracker}
use binboi_go.Usage.Tracker.Tunnels.{
  TunnelReservation, reserve_tunnel, release_tunnel_reservation, confirm_tunnel, restore_tunnel,
  track_tunnel_closed,
}
use binboi_go.Usage.Tracker.Requests.{
  RequestReservation, reserve_request, release_request, complete_request,
}
use binboi_go.Usage.Flush.{FlushItem, flush_collect, flush_restore}
use Views.{
  SameCounts, requests_at, pending_at, Within, IsCapped, Reserved, Answer, skipped, refused,
  admitted, reserve_request-Answer,
}
use Settle.{Settled}

-- The tracker, and the reservations that its clients hold.
pub record System : Type 0 where
  pub tracker : Tracker
  pub open_reservations : List RequestReservation

-- A reservation joins the open ones only if it was acquired.
abbrev pub opened :
    Result LimitError RequestReservation → List RequestReservation → List RequestReservation
opened (err e) rs = rs
opened (ok r) rs = elim r.acquired [ true ↦ r ∷ rs | false ↦ rs ]

-- One operation of the tracker, with any arguments and any readings of the clock. A client settles
-- a reservation that is open, which closes it.
pub data Step (cal : Calendar) (s s' : System) : Type 0 where
  reserves :
      (user : Str) (estimate : Int64) (now : Time)
      → s' ≡ record {
        tracker = (reserve_request cal s.tracker user estimate now).1;
        open_reservations =
            opened (reserve_request cal s.tracker user estimate now).0 s.open_reservations;
      }
      → Step cal s s'
  releases :
      (before after : List RequestReservation) (r : RequestReservation)
      → s.open_reservations ≡ before ++ r ∷ after
      → s' ≡ record { tracker = release_request s.tracker r; open_reservations = before ++ after }
      → Step cal s s'
  completes :
      (before after : List RequestReservation) (r : RequestReservation) (bytes_in bytes_out : Int64)
      (now later : Time)
      → s.open_reservations ≡ before ++ r ∷ after
      → s' ≡ record {
        tracker = complete_request cal s.tracker r bytes_in bytes_out now later;
        open_reservations = before ++ after;
      }
      → Step cal s s'
  reserves_tunnel :
      (user : Str) → s' ≡ record s { tracker = (reserve_tunnel s.tracker user).1 } → Step cal s s'
  releases_tunnel :
      (r : TunnelReservation)
      → s' ≡ record s { tracker = release_tunnel_reservation s.tracker r }
      → Step cal s s'
  confirms_tunnel :
      (r : TunnelReservation) (tunnel_id : Str) (now later : Time)
      → s' ≡ record s { tracker = confirm_tunnel cal s.tracker r tunnel_id now later }
      → Step cal s s'
  restores_tunnel :
      (user tunnel_id : Str) (now later : Time)
      → s' ≡ record s { tracker = restore_tunnel cal s.tracker user tunnel_id now later }
      → Step cal s s'
  closes_tunnel :
      (user tunnel_id : Str) (now later : Time)
      → s' ≡ record s { tracker = track_tunnel_closed cal s.tracker user tunnel_id now later }
      → Step cal s s'
  flushes :
      (now : Time) → s' ≡ record s { tracker = (flush_collect s.tracker now).1 } → Step cal s s'
  restores_dirty :
      (items : List FlushItem)
      → s' ≡ record s { tracker = flush_restore s.tracker items }
      → Step cal s s'

-- A history: any number of steps.
pub data Reach (cal : Calendar) (s : System) : System → Type 0 where
  here : Reach cal s s
  next : {t u : System} → Reach cal s t → Step cal t u → Reach cal s u
