-- ===== src/Control/Pending.antt =====
-- The `pendingRequest` of internal/control/protocol_peer.go: one request on its way through a
-- tunnel. A method that holds the request's mutex over its accesses to the fields is one function. The
-- others are cut where they give it back: writeResponseBody is write_response_body and then
-- queue_chunk, `finish` is begin_finish and, after its wait for the pump, end_finish, and `cancel` is
-- begin_cancel and, after a message, `finish`. A channel is the list of what was sent into it.
pub mod Events
pub mod Laws
use binboi_go.Base.{
  ℕ, ◌+◌, Bool, true, false, not, ◌||◌, List, [], ◌∷◌, ◌++◌, Option, none, some, Result, ok, err,
  if◌then◌else◌, length,
}
use binboi_go.Go.Word.{Int64, add}
use binboi_go.Go.Text.{Str}
use binboi_go.Usage.Tracker.Requests.{RequestReservation}

abbrev pub Time : Type 0
Time = ℕ

pub data StreamState : Type 0 where
  waiting active finished canceled failed : StreamState

-- The errors that a stream ends with; `remote` is one that the client reported.
pub data StreamError : Type 0 where
  context_canceled idle_timeout timed_out unavailable backpressured remote other : StreamError

pub data FrameError : Type 0 where
  start_after_completion duplicate_start body_after_completion body_before_start
        send_on_closed_channel :
      FrameError

-- api.ResponseStartPayload
pub record ResponseStart : Type 0 where
  pub status : Int64
  pub headers : List (Str × List Str)
  pub upgrade_type : Str

abbrev pub Chunk : Type 0
Chunk = List ℕ

-- What a call of `finish` has remembered when it waits for the pump.
pub record Ending : Type 0 where
  pub error : Option StreamError
  pub response_started : Bool
  pub bytes_sent : Int64
  pub bytes_received : Int64

pub record Pending : Type 0 where
  pub state : StreamState
  pub response_start : Bool
  pub completed : Bool
  pub cancel_sent : Bool
  pub last_activity : Time
  pub bytes_sent : Int64
  pub bytes_received : Int64
  -- What was sent into startCh and doneCh, each of capacity one.
  pub starts : List (Result (Option StreamError) ResponseStart)
  pub dones : List (Option StreamError)
  -- responseChunks, and what pumpResponseBody has written to the body.
  pub chunks : List Chunk
  pub body : List Chunk
  -- pumpResponseBody has returned, as it could not write.
  pub pump_stopped : Bool
  -- The call of `finish` that waits for pumpDone.
  pub ending : Option Ending
  -- releaseOnce has run.
  pub released : Bool

-- newPendingRequest
unfoldable pub new_pending : Time → Pending
new_pending now = record {
  state = waiting;
  response_start = false;
  completed = false;
  cancel_sent = false;
  last_activity = now;
  bytes_sent = 0;
  bytes_received = 0;
  starts = [];
  dones = [];
  chunks = [];
  body = [];
  pump_stopped = false;
  ending = none;
  released = false;
}

-- touchLocked, without the timer
unfoldable pub touch : Int64 → Int64 → Time → Pending → Pending
unfolding add
touch sent received now p = record p {
  last_activity = now;
  bytes_sent = add p.bytes_sent sent;
  bytes_received = add p.bytes_received received;
}

-- handleResponseStart
unfoldable pub handle_response_start : ResponseStart → Time → Pending → Result FrameError Pending
unfolding touch
handle_response_start start now p =
    if p.completed
    then err start_after_completion
    else if p.response_start
    then err duplicate_start
    else ok (record (touch 0 0 now p) {
      response_start = true;
      state = active;
      starts = p.starts ++ ok start ∷ [];
    })

-- The critical section of writeResponseBody: the bytes are counted.
unfoldable pub write_response_body : Chunk → Time → Pending → Result FrameError Pending
unfolding touch
write_response_body chunk now p =
    if p.completed
    then err body_after_completion
    else if not p.response_start
    then err body_before_start
    else ok (touch 0 (length chunk) now p)

-- The `select` of writeResponseBody, after the mutex has been given back: the chunk goes into the
-- channel, if it is not empty. Where the request's context ends first this does not happen, and the
-- chunk is counted and lost. A send into the channel that `finish` has closed panics.
unfoldable pub queue_chunk : Chunk → Pending → Result FrameError Pending
queue_chunk [] p = ok p
queue_chunk (c ∷ cs) p =
    if p.completed
    then err send_on_closed_channel
    else ok (record p { chunks = p.chunks ++ (c ∷ cs) ∷ [] })

-- One round of pumpResponseBody: the first chunk in the channel is written to the body.
abbrev pub pumped : List Chunk → Pending → Pending
pumped [] p = p
pumped (c ∷ cs) p = record p { chunks = cs; body = p.body ++ c ∷ [] }

unfoldable pub pump : Pending → Pending
pump p = if p.pump_stopped then p else pumped p.chunks p

-- A round whose write fails, since one end of the pipe is closed: the chunk is lost, and the pump
-- returns.
abbrev pub broken : List Chunk → Pending → Pending
broken [] p = p
broken (c ∷ cs) p = record p { chunks = cs; pump_stopped = true }

unfoldable pub break_pump : Pending → Pending
break_pump p = if p.pump_stopped then p else broken p.chunks p

-- markRequestBytesSent
unfoldable pub mark_request_bytes_sent : Int64 → Time → Pending → Pending
unfolding touch
mark_request_bytes_sent n = touch n 0

-- The state that `finish` sets for its error.
unfoldable pub state_of : Option StreamError → StreamState
state_of none = finished
state_of (some context_canceled) = canceled
state_of (some idle_timeout) = canceled
state_of (some timed_out) = canceled
state_of (some _) = failed

-- The first half of `finish`: its critical section, and the closing of the channel of chunks.
unfoldable pub begin_finish : Option StreamError → Pending → Pending
unfolding state_of
begin_finish e p = if p.completed then p else record p {
  completed = true;
  state = state_of e;
  ending = some (record {
    error = e;
    response_started = p.response_start;
    bytes_sent = p.bytes_sent;
    bytes_received = p.bytes_received;
  });
}

-- The second half, after the wait for pumpDone: startCh, doneCh and releaseSlot.
abbrev pub settle : Ending → Pending → Pending
settle x p = record p {
  ending = none;
  starts = if x.response_started then p.starts else p.starts ++ err x.error ∷ [];
  dones = p.dones ++ x.error ∷ [];
  released = true;
}

abbrev pub ended : Option Ending → Pending → Option Ending × Pending
ended none p = (none, p)
ended (some x) p = (some x, settle x p)

-- pumpDone is closed: the pump could not write, or the channel, which is closed, is empty.
abbrev pub pump_done : Pending → Bool
pump_done p = p.pump_stopped || elim p.chunks [ [] ↦ true | _ ∷ _ ↦ false ]

-- What the waiting call of `finish` does next, and what it had remembered, once pumpDone is closed;
-- until then it waits.
unfoldable pub end_finish : Pending → Option Ending × Pending
end_finish p = if pump_done p then ended p.ending p else (none, p)

-- The critical section of `cancel`: whether the call goes on to send a message and to call `finish`.
unfoldable pub begin_cancel : Time → Pending → Bool × Pending
unfolding touch
begin_cancel now p =
    if p.completed || p.cancel_sent
    then (false, p)
    else (true, record (touch 0 0 now p) { cancel_sent = true; state = canceled })

-- releaseSlot: whether this call releases the slot.
unfoldable pub release_slot : Pending → Bool × Pending
release_slot p = (not p.released, record p { released = true })
