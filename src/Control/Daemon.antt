-- ===== src/Control/Daemon.antt =====
-- The requests of all peers at once: ForwardRequest of internal/control/protocol_server.go from its
-- reservation on, and forwardHTTP, removePending and the handlers of
-- internal/control/protocol_peer.go, with the usage tracker that they share.
pub mod Settle
pub mod Concurrency
pub mod Unsent
use binboi_go.Base.{
  ℕ, zero, suc, ◌+◌, ◌-◌, ◌<◌, ◌≡◌, Bool, true, false, not, ◌&&◌, ◌||◌, List, [], ◌∷◌, ◌++◌, Option,
  none, some, Result, ok, err, if◌then◌else◌, ite, ℕ_discrete,
}
use binboi_go.Go.Word.{Int64}
use binboi_go.Go.Text.{Str}
use binboi_go.Usage.Model.{LimitError}
use binboi_go.Usage.Tracker.{Calendar, Tracker}
use binboi_go.Usage.Tracker.Requests.{
  RequestReservation, reserve_request, release_request, complete_request,
}
use binboi_go.Usage.Tracker.Tunnels.{
  TunnelReservation, reserve_tunnel, release_tunnel_reservation, confirm_tunnel, restore_tunnel,
  track_tunnel_closed,
}
use binboi_go.Usage.Flush.{FlushItem, flush_collect, flush_restore}
use binboi_go.Control.Pending.{
  Time, StreamError, FrameError, ResponseStart, Chunk, Pending, new_pending, handle_response_start,
  write_response_body, pump, mark_request_bytes_sent, Ending, begin_finish, end_finish,
  begin_cancel, release_slot,
}
use binboi_go.Control.Pending.Events.{Event, apply}

-- A caller of ForwardRequest: it holds a reservation and waits for a slot; its request is on its
-- way, and listed in the peer's `pending` map or not; or it has given up.
pub data Phase : Type 0 where
  reserved : Phase
  forwarded : Bool → Pending → Phase
  refused : Phase

pub record Call : Type 0 where
  pub peer : ℕ
  pub reservation : RequestReservation
  pub phase : Phase

-- The `streamSlots` of a peer: how many are taken, of how many.
pub record Slots : Type 0 where
  pub taken : ℕ
  pub max : ℕ

pub record Daemon : Type 0 where
  pub tracker : Tracker
  pub slots : ℕ → Slots
  pub calls : List Call

-- One peer's slots changed.
abbrev pub update : (ℕ → Slots) → ℕ → Slots → ℕ → Slots
update f n s m = ite (ℕ_discrete n m) s (f m)

-- acquireStreamSlot, where there is room, and releaseStreamSlot
abbrev pub acquire : (ℕ → Slots) → ℕ → ℕ → Slots
acquire f n = update f n (record (f n) { taken = (f n).taken + 1 })

abbrev pub give_back : (ℕ → Slots) → ℕ → ℕ → Slots
give_back f n = update f n (record (f n) { taken = (f n).taken - 1 })

abbrev pub give_back_if : Bool → (ℕ → Slots) → ℕ → ℕ → Slots
give_back_if b f n = if b then give_back f n else f

-- ForwardRequest's reservation: on an error there is no call.
abbrev pub joined : ℕ → Result LimitError RequestReservation → List Call → List Call
joined n (err e) cs = cs
joined n (ok r) cs = record { peer = n; reservation = r; phase = reserved } ∷ cs

unfoldable pub arrive : Calendar → Daemon → ℕ → Str → Int64 → Time → Daemon
unfolding reserve_request
arrive cal d n user estimate now =
    let (answer, t) = reserve_request cal d.tracker user estimate now in
    record d { tracker = t; calls = joined n answer d.calls }

-- The first half of `finish`, for the request of a call that is not in the state `reserved`.
unfoldable pub finish_begins :
    Daemon → List Call → List Call → Call → Bool → Pending → Option StreamError → Daemon
unfolding begin_finish
finish_begins d before after c listed p e = record d {
  calls = before ++ record c { phase = forwarded listed (begin_finish e p) } ∷ after;
}

-- The second half: once the pump is done, `finish` gives the slot back, if nothing else has, and
-- completes the reservation with the bytes that it remembered.
abbrev pub settled :
    Calendar
    → Daemon
    → List Call
    → List Call
    → Call
    → Bool
    → Bool
    → Time
    → Time
    → Option Ending × Pending
    → Daemon
settled cal d before after c listed released now later (none, p) = record d {
  calls = before ++ record c { phase = forwarded listed p } ∷ after;
}
settled cal d before after c listed released now later (some x, p) = record {
  tracker = complete_request cal d.tracker c.reservation x.bytes_sent x.bytes_received now later;
  slots = give_back_if (not released) d.slots c.peer;
  calls = before ++ record c { phase = forwarded listed p } ∷ after;
}

unfoldable pub finish_ends :
    Calendar → Daemon → List Call → List Call → Call → Bool → Pending → Time → Time → Daemon
unfolding end_finish complete_request
finish_ends cal d before after c listed p now later =
    settled cal d before after c listed p.released now later (end_finish p)

-- removePending: the request leaves the map, and gives its slot back if it was there.
unfoldable pub remove_pending : Daemon → List Call → List Call → Call → Bool → Pending → Daemon
unfolding release_slot
remove_pending d before after c listed p =
    let (frees, p') = release_slot p in
    if listed
    then record d {
      slots = give_back_if frees d.slots c.peer;
      calls = before ++ record c { phase = forwarded false p' } ∷ after;
    }
    else d

-- The failure of forwardHTTP to send request_start: removePending, and then ReleaseRequest.
unfoldable pub send_fails : Daemon → List Call → List Call → Call → Bool → Pending → Daemon
unfolding remove_pending release_request
send_fails d before after c listed p =
    let d' = remove_pending d before after c listed p in
    record d' { tracker = release_request d'.tracker c.reservation }

-- The calls that reach a request and neither end it nor give its slot back.
pub data IsTouch : Event → Type 0 where
  starts : (s : ResponseStart) (now : Time) → IsTouch (Event.starts s now)
  receives : (k : Chunk) (now : Time) → IsTouch (Event.receives k now)
  queues : (k : Chunk) → IsTouch (Event.queues k)
  pumps : IsTouch Event.pumps
  breaks : IsTouch Event.breaks
  sends : (n : Int64) (now : Time) → IsTouch (Event.sends n now)
  cancels : (now : Time) → IsTouch (Event.cancels now)

-- The operations of the tracker that are not about requests.
pub data Account (cal : Calendar) (t t' : Tracker) : Type 0 where
  reserves_tunnel : (user : Str) → t' ≡ (reserve_tunnel t user).1 → Account cal t t'
  releases_tunnel : (r : TunnelReservation) → t' ≡ release_tunnel_reservation t r → Account cal t t'
  confirms_tunnel :
      (r : TunnelReservation) (tunnel_id : Str) (now later : Time)
      → t' ≡ confirm_tunnel cal t r tunnel_id now later
      → Account cal t t'
  restores_tunnel :
      (user tunnel_id : Str) (now later : Time)
      → t' ≡ restore_tunnel cal t user tunnel_id now later
      → Account cal t t'
  closes_tunnel :
      (user tunnel_id : Str) (now later : Time)
      → t' ≡ track_tunnel_closed cal t user tunnel_id now later
      → Account cal t t'
  flushes : (now : Time) → t' ≡ (flush_collect t now).1 → Account cal t t'
  restores_dirty : (items : List FlushItem) → t' ≡ flush_restore t items → Account cal t t'

-- What any goroutine does next: an operation of the tracker, of the slots or of one request, or a few
-- that follow each other in ForwardRequest, or in one of the two halves of `finish`. Only where `loses` is
-- true can the sending of a request_start fail.
pub data Step (cal : Calendar) (loses : Bool) (d d' : Daemon) : Type 0 where
  arrives :
      (n : ℕ) (user : Str) (estimate : Int64) (now : Time)
      → d' ≡ arrive cal d n user estimate now
      → Step cal loses d d'
  refuses :
      (before after : List Call) (c : Call)
      → d.calls ≡ before ++ c ∷ after
      → c.phase ≡ reserved
      → d' ≡ record d {
        tracker = release_request d.tracker c.reservation;
        calls = before ++ record c { phase = refused } ∷ after;
      }
      → Step cal loses d d'
  forwards :
      (before after : List Call) (c : Call) (now : Time)
      → d.calls ≡ before ++ c ∷ after
      → c.phase ≡ reserved
      → (d.slots c.peer).taken < (d.slots c.peer).max
      → d' ≡ record d {
        slots = acquire d.slots c.peer;
        calls = before ++ record c { phase = forwarded true (new_pending now) } ∷ after;
      }
      → Step cal loses d d'
  touches :
      (before after : List Call) (c : Call) (listed : Bool) (p : Pending) (e : Event)
      → d.calls ≡ before ++ c ∷ after
      → c.phase ≡ forwarded listed p
      → IsTouch e
      → d'
        ≡ record d { calls = before ++ record c { phase = forwarded listed (apply e p) } ∷ after }
      → Step cal loses d d'
  finishes :
      (before after : List Call) (c : Call) (listed takes : Bool) (p : Pending)
      (e : Option StreamError)
      → d.calls ≡ before ++ c ∷ after
      → c.phase ≡ forwarded listed p
      → d' ≡ finish_begins d before after c (listed && not takes) p e
      → Step cal loses d d'
  ends :
      (before after : List Call) (c : Call) (listed : Bool) (p : Pending) (now later : Time)
      → d.calls ≡ before ++ c ∷ after
      → c.phase ≡ forwarded listed p
      → p.completed ≡ true
      → d' ≡ finish_ends cal d before after c listed p now later
      → Step cal loses d d'
  removes :
      (before after : List Call) (c : Call) (listed : Bool) (p : Pending)
      → d.calls ≡ before ++ c ∷ after
      → c.phase ≡ forwarded listed p
      → d' ≡ remove_pending d before after c listed p
      → Step cal loses d d'
  loses_start :
      (before after : List Call) (c : Call) (listed : Bool) (p : Pending)
      → loses ≡ true
      → d.calls ≡ before ++ c ∷ after
      → c.phase ≡ forwarded listed p
      → d' ≡ send_fails d before after c listed p
      → Step cal loses d d'
  accounts :
      (t : Tracker) → Account cal d.tracker t → d' ≡ record d { tracker = t } → Step cal loses d d'

pub data Reach (cal : Calendar) (loses : Bool) (d : Daemon) : Daemon → Type 0 where
  here : Reach cal loses d d
  next : {a b : Daemon} → Reach cal loses d a → Step cal loses a b → Reach cal loses d b
