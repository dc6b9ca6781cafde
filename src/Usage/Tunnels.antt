-- ===== src/Usage/Tunnels.antt =====
-- The limit on active tunnels, over every history of internal/usage/tracker.go that resumes no
-- tunnel and in which a reservation is released or confirmed once.
pub mod Effects
pub mod Invariant
pub mod Limit
use binboi_go.Base.{◌≡◌, List, ◌∷◌, ◌++◌, true, false, Result, ok, err}
use binboi_go.Go.Word.{Int64}
use binboi_go.Go.Text.{Str, is_empty}
use binboi_go.Usage.Model.{Time, LimitError}
use binboi_go.Usage.Tracker.{Calendar, Tracker}
use binboi_go.Usage.Tracker.Tunnels.{
  TunnelReservation, reserve_tunnel, release_tunnel_reservation, confirm_tunnel,
  track_tunnel_closed,
}
use binboi_go.Usage.Tracker.Requests.{
  RequestReservation, reserve_request, release_request, complete_request,
}
use binboi_go.Usage.Flush.{FlushItem, flush_collect, flush_restore}

-- The tracker, and the tunnel reservations that connections hold.
pub record System : Type 0 where
  pub tracker : Tracker
  pub held : List TunnelReservation

-- A reservation joins the held ones only if it was acquired.
abbrev pub taken :
    Result LimitError TunnelReservation → List TunnelReservation → List TunnelReservation
taken (err e) rs = rs
taken (ok r) rs = elim r.acquired [ true ↦ r ∷ rs | false ↦ rs ]

-- One operation of the tracker. A connection settles a reservation that it holds.
pub data Step (cal : Calendar) (s s' : System) : Type 0 where
  reserves :
      (user : Str)
      → s' ≡ record {
        tracker = (reserve_tunnel s.tracker user).1;
        held = taken (reserve_tunnel s.tracker user).0 s.held;
      }
      → Step cal s s'
  releases :
      (before after : List TunnelReservation) (r : TunnelReservation)
      → s.held ≡ before ++ r ∷ after
      → s' ≡ record { tracker = release_tunnel_reservation s.tracker r; held = before ++ after }
      → Step cal s s'
  confirms :
      (before after : List TunnelReservation) (r : TunnelReservation) (tunnel_id : Str)
      (now later : Time)
      → is_empty tunnel_id ≡ false
      → s.held ≡ before ++ r ∷ after
      → s' ≡ record {
        tracker = confirm_tunnel cal s.tracker r tunnel_id now later;
        held = before ++ after;
      }
      → Step cal s s'
  closes :
      (user tunnel_id : Str) (now later : Time)
      → s' ≡ record s { tracker = track_tunnel_closed cal s.tracker user tunnel_id now later }
      → Step cal s s'
  reserves_request :
      (user : Str) (estimate : Int64) (now : Time)
      → s' ≡ record s { tracker = (reserve_request cal s.tracker user estimate now).1 }
      → Step cal s s'
  releases_request :
      (r : RequestReservation)
      → s' ≡ record s { tracker = release_request s.tracker r }
      → Step cal s s'
  completes_request :
      (r : RequestReservation) (bytes_in bytes_out : Int64) (now later : Time)
      → s' ≡ record s { tracker = complete_request cal s.tracker r bytes_in bytes_out now later }
      → Step cal s s'
  flushes :
      (now : Time) → s' ≡ record s { tracker = (flush_collect s.tracker now).1 } → Step cal s s'
  restores_dirty :
      (items : List FlushItem)
      → s' ≡ record s { tracker = flush_restore s.tracker items }
      → Step cal s s'

pub data Reach (cal : Calendar) (s : System) : System → Type 0 where
  here : Reach cal s s
  next : {t u : System} → Reach cal s t → Step cal t u → Reach cal s u
