-- ===== src/Control/Daemon/Unsent.antt =====
-- What happens to the reservation of a request whose request_start could not be sent: forwardHTTP
-- takes the request out of the map, ForwardRequest gives the reservation back, and the timer of the
-- request, which nobody has stopped, ends it later.
use binboi_go.Base.{ℕ, ◌+◌, ◌≤◌, ◌<◌, ◌≡◌, refl, true, false, List, Option, some, arith}
use binboi_go.Go.Word.{sign_bit}
use binboi_go.Go.Text.{is_empty}
use binboi_go.Go.Map.{get}
use binboi_go.Usage.Tracker.{Calendar, Tracker, Bucket}
use binboi_go.Usage.Tracker.Requests.{RequestReservation, release_request, complete_request}
use binboi_go.Usage.Quota.Views.{requests_at, pending_at}
use binboi_go.Usage.Quota.Settle.{Settled, bucket_of_pending, release-Settled, complete-Settled}
use binboi_go.Control.Pending.{Time, StreamError, Pending, pump_done, begin_finish, release_slot}
use binboi_go.Control.Pending.Events.{begin_then_end}
use binboi_go.Control.Daemon.{
  forwarded, Call, Daemon, finish_begins, finish_ends, send_fails, remove_pending,
}

-- The call after the failure, and the daemon once its timer has fired and `finish` has ended.
abbrev pub unsent : Call → Pending → Call
unsent c p = record c { phase = forwarded false (release_slot p).1 }

abbrev pub timed_out :
    Calendar
    → Daemon
    → List Call
    → List Call
    → Call
    → Pending
    → Option StreamError
    → Time
    → Time
    → Daemon
timed_out cal d before after c p e now later =
    let p' = (release_slot p).1 in
    let c' = unsent c p in
    finish_ends cal (finish_begins (send_fails d before after c true p) before after c' false p' e)
      before after (record c' { phase = forwarded false (begin_finish e p') }) false
      (begin_finish e p') now later

timed_out-tracker :
    (cal : Calendar) (d : Daemon) (before after : List Call) (c : Call) (p : Pending)
    (e : Option StreamError) (now later : Time)
    → p.completed ≡ false
    → pump_done p ≡ true
    → (timed_out cal d before after c p e now later).tracker
      ≡ complete_request cal
          (release_request d.tracker c.reservation)
          c.reservation
          p.bytes_sent
          p.bytes_received
          now
          later
unfolding finish_ends finish_begins send_fails remove_pending release_slot
timed_out-tracker cal d before after c p e now later h k =
    rw (begin_then_end e (record p { released = true }) h k) refl

Settled-self :
    (n : ℕ) (t u : Tracker) (r : RequestReservation)
    → Settled n t u r
    → (requests_at u r.bucket_key ≡ requests_at t r.bucket_key + n)
      × (pending_at u r.bucket_key + 1 ≡ pending_at t r.bucket_key)
Settled-self n t u r s =
    (ground (arith, s.requests r.bucket_key), ground (arith, s.pending r.bucket_key))

-- Take an acquired reservation of a named user, under a key with at least two pending requests, and
-- counters below 2^63 - 1; its request is not complete, and its pump has nothing to wait for. If the
-- request_start is not sent, and the timer of the request then ends it, the reservation has been
-- settled twice: the request, which never reached a client, is counted as a finished one, and the
-- pending count has lost the reservation of another request.
pub send_failure_settles_twice :
    (cal : Calendar) (d : Daemon) (before after : List Call) (c : Call) (p : Pending)
    (e : Option StreamError) (now later : Time) (b : Bucket)
    → c.reservation.acquired ≡ true
    → is_empty c.reservation.user_id ≡ false
    → get d.tracker.buckets c.reservation.bucket_key ≡ some b
    → 2 ≤ b.reserved_requests
    → b.reserved_requests < sign_bit
    → b.usage.request_count + 1 < sign_bit
    → p.completed ≡ false
    → pump_done p ≡ true
    → (requests_at (timed_out cal d before after c p e now later).tracker c.reservation.bucket_key
        ≡ requests_at d.tracker c.reservation.bucket_key + 1)
      × (pending_at (timed_out cal d before after c p e now later).tracker c.reservation.bucket_key
            + 2
          ≡ pending_at d.tracker c.reservation.bucket_key)
send_failure_settles_twice cal d before after c p e now later b acquired user found two small room h
      k =
    let r = c.reservation in
    let t = release_request d.tracker r in
    let s =
      Settled-self 0 d.tracker t r
        (release-Settled d.tracker r b acquired user found (ground arith) small) in
    let (b', f) = bucket_of_pending t r.bucket_key (ground arith) in
    let s' = Settled-self 1 t _ r (
      complete-Settled t r b' acquired user f (ground arith) (ground arith) cal p.bytes_sent
        p.bytes_received now later (ground arith)) in
    rw (timed_out-tracker cal d before after c p e now later h k)
      (omega (arith, s.0, s'.0), omega (arith, s.1, s'.1))
