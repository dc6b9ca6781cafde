-- ===== src/Tests/Forwarding.antt =====
-- The results on internal/control, at one request of a small daemon.
use binboi_go.Base.{ℕ, ◌≡◌, ◌≤◌, ◌+◌, refl, [], ◌∷◌, ◌++◌, some, none, false, true, arith, List}
use binboi_go.Tests.{calendar, config}
use binboi_go.Go.Text.{lit, trim_space, str_discrete}
use binboi_go.Go.Word.{slt, add}
use binboi_go.Go.Map.{get, put}
use binboi_go.Usage.Tracker.{Tracker, bucket_key, period_start, new_tracker}
use binboi_go.Usage.Tracker.Requests.{RequestReservation, reserve_request, check_limits}
use binboi_go.Usage.Quota
use binboi_go.Usage.Quota.Views.{requests_at, pending_at}
use binboi_go.Usage.Quota.Invariant.{count_key}
use binboi_go.Control.Pending.{
  ResponseStart, new_pending, begin_finish, idle_timeout, context_canceled,
}
use binboi_go.Control.Pending.Events.{Event, run}
use binboi_go.Control.Pending.Laws.{IsDecided, finish_decides}
use binboi_go.Control.Daemon.{
  Phase, reserved, forwarded, Call, Slots, Daemon, arrive, acquire, finish_begins, finish_ends,
  Step, Reach, here, send_fails, next,
}
use binboi_go.Control.Daemon.Settle.Calls.{view, open_of}
use binboi_go.Control.Daemon.Settle.{refines, forwarded_within_limit}
use binboi_go.Control.Daemon.Unsent.{timed_out, send_failure_settles_twice}

abbrev start_frame : ResponseStart
start_frame = record { status = 200; headers = []; upgrade_type = [] }

-- An answer with one chunk of the body, whose end races with a cancel.
abbrev answered : List Event
answered =
    Event.sends 5 1
    ∷ Event.starts start_frame 2
    ∷ Event.receives (7 ∷ 8 ∷ []) 3
    ∷ Event.queues (7 ∷ 8 ∷ [])
    ∷ Event.pumps
    ∷ Event.finishes none
    ∷ Event.cancels 4
    ∷ Event.ends
    ∷ Event.finishes (some context_canceled)
    ∷ Event.ends
    ∷ []

finish_decides_example :
    IsDecided
      (some idle_timeout)
      (new_pending 0)
      (run answered (begin_finish (some idle_timeout) (new_pending 0)))
unfolding new_pending
finish_decides_example =
    finish_decides (some idle_timeout) answered (new_pending 0) refl (omega arith)

abbrev two_slots : ℕ → Slots
two_slots n = record { taken = 0; max = 2 }

abbrev idle : Daemon
idle = record { tracker = new_tracker config; slots = two_slots; calls = [] }

abbrev asked : Daemon
asked = arrive calendar idle 3 (lit "ann") 100 40

abbrev reservation : RequestReservation
reservation = record {
  user_id = lit "ann";
  bucket_key = bucket_key calendar (lit "ann") (lit "monthly") 61;
  estimated_bytes_in = 100;
  acquired = true;
}

abbrev caller : Phase → Call
caller p = record { peer = 3; reservation = reservation; phase = p }

abbrev busy : Daemon
busy = record asked {
  slots = acquire asked.slots 3;
  calls = caller (forwarded true (new_pending 41)) ∷ [];
}

abbrev fresh : Call
fresh = caller (forwarded true (new_pending 41))

asked-calls : asked.calls ≡ [] ++ caller reserved ∷ []
unfolding arrive reserve_request trim_space check_limits slt new_tracker add get period_start
    str_discrete
asked-calls = refl

-- A request is admitted, forwarded and answered.
abbrev closing : Daemon
closing = finish_begins busy [] [] fresh false (new_pending 41) none

abbrev done : Daemon
done =
    finish_ends calendar closing [] []
      (caller (forwarded false (begin_finish none (new_pending 41)))) false
      (begin_finish none (new_pending 41)) 50 51

history : Reach calendar false idle done
unfolding arrive begin_finish new_pending finish_begins
history =
    next
      (next
        (next (next here (Step.arrives 3 (lit "ann") 100 40 refl))
          (Step.forwards [] [] (caller reserved) 41 asked-calls refl (omega arith) refl))
        (Step.finishes [] [] fresh true true (new_pending 41) none refl refl refl))
      (Step.ends [] [] (caller (forwarded false (begin_finish none (new_pending 41)))) false
        (begin_finish none (new_pending 41)) 50 51 refl refl refl refl)

refines_example : Quota.Reach calendar (view idle) (view done)
refines_example = refines calendar history

forwarded_within_limit_example :
    requests_at done.tracker reservation.bucket_key
      + count_key reservation.bucket_key (open_of done.calls)
    ≤ 2
unfolding new_tracker
forwarded_within_limit_example =
    forwarded_within_limit calendar config two_slots done (omega arith) (omega arith) history
      reservation.bucket_key

-- The same request, not sent.
abbrev lost : Daemon
lost = send_fails busy [] [] fresh true (new_pending 41)

-- Two requests of one user: the first is not sent.
abbrev pair : Tracker
pair = (reserve_request calendar asked.tracker (lit "ann") 100 42).1

abbrev crowded : Daemon
crowded = record busy { tracker = pair }

send_failure_settles_twice_example :
    (requests_at
        (timed_out calendar crowded [] [] fresh (new_pending 41) (some idle_timeout) 50 51).tracker
        reservation.bucket_key
      ≡ requests_at crowded.tracker reservation.bucket_key + 1)
    × (pending_at
            (timed_out calendar crowded [] [] fresh
              (new_pending 41)
              (some idle_timeout)
              50
              51).tracker
            reservation.bucket_key
          + 2
        ≡ pending_at crowded.tracker reservation.bucket_key)
unfolding arrive reserve_request new_pending get trim_space check_limits slt new_tracker add put
    str_discrete bucket_key period_start
send_failure_settles_twice_example =
    send_failure_settles_twice calendar crowded [] [] fresh (new_pending 41) (some idle_timeout) 50
      51 _ refl refl refl (omega arith) (omega arith) (omega arith) refl refl
