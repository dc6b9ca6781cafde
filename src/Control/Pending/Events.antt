-- ===== src/Control/Pending/Events.antt =====
-- The calls that reach a pending request of internal/control/protocol_peer.go, in any order, and the two
-- halves of `finish`.
use binboi_go.Base.{
  ap, if_true, if_false, Option-cases, none, some, ◌⊎◌, inl, inr, Bool-cases, ◌≡◌, ◌∙◌, true, false,
  List, [], ◌∷◌, Option, Result, ok, err,
}
use binboi_go.Go.Word.{Int64}
use binboi_go.Control.Pending.{
  Time, StreamError, ResponseStart, Chunk, Pending, handle_response_start, write_response_body,
  queue_chunk, pump, break_pump, pump_done, mark_request_bytes_sent, state_of, Ending, begin_finish,
  settle, ended, end_finish, begin_cancel, release_slot,
}

-- What one goroutine does to a request under its mutex, at a channel, or after the wait of `finish`.
pub data Event : Type 0 where
  starts : ResponseStart → Time → Event
  receives : Chunk → Time → Event
  queues : Chunk → Event
  pumps breaks : Event
  sends : Int64 → Time → Event
  finishes : Option StreamError → Event
  ends : Event
  cancels : Time → Event
  releases : Event

-- A frame that is refused leaves the request as it was.
abbrev pub or_unchanged {ℓ} : {E : Type ℓ} → Pending → Result E Pending → Pending
or_unchanged p (err _) = p
or_unchanged p (ok q) = q

unfoldable pub apply : Event → Pending → Pending
unfolding handle_response_start write_response_body queue_chunk pump break_pump
    mark_request_bytes_sent begin_finish end_finish begin_cancel release_slot
apply (starts s now) p = or_unchanged p (handle_response_start s now p)
apply (receives c now) p = or_unchanged p (write_response_body c now p)
apply (queues c) p = or_unchanged p (queue_chunk c p)
apply pumps p = pump p
apply breaks p = break_pump p
apply (sends n now) p = mark_request_bytes_sent n now p
apply (finishes e) p = begin_finish e p
apply ends p = (end_finish p).1
apply (cancels now) p = (begin_cancel now p).1
apply releases p = (release_slot p).1

unfoldable pub run : List Event → Pending → Pending
run [] p = p
run (e ∷ es) p = run es (apply e p)

-- The waiting call of `finish` goes on waiting, or there is none; or it ends.
pub end_cases :
    (q : Pending)
    → (end_finish q ≡ (none, q))
      ⊎ ((x : Ending) × (q.ending ≡ some x) × (end_finish q ≡ (some x, settle x q)))
unfolding end_finish
end_cases q = elim (Bool-cases (pump_done q)) [
  | inl y ↦ elim (Option-cases q.ending) [
    | inl n ↦ inl (if_true (ended q.ending q) (none, q) y ∙ ap (λ o. ended o q) n)
    | inr (x, k) ↦ inr (x, k, if_true (ended q.ending q) (none, q) y ∙ ap (λ o. ended o q) k)
  ]
  | inr n ↦ inl (if_false (ended q.ending q) (none, q) n)
]

-- What `finish` of the request remembers.
abbrev pub remembered : Option StreamError → Pending → Ending
remembered e p = record {
  error = e;
  response_started = p.response_start;
  bytes_sent = p.bytes_sent;
  bytes_received = p.bytes_received;
}

-- The request after the first half.
abbrev began : Option StreamError → Pending → Pending
began e p = record p { completed = true; state = state_of e; ending = some (remembered e p) }

-- The two halves of `finish` at once, for a request that is not complete and whose pump is done.
pub begin_then_end :
    (e : Option StreamError) (p : Pending)
    → p.completed ≡ false
    → pump_done p ≡ true
    → (end_finish (begin_finish e p)).0 ≡ some (remembered e p)
unfolding begin_finish end_finish
begin_then_end e p n d =
    ap (λ q. (end_finish q).0) (if_false p _ n)
    ∙ ap (λ (z : Option Ending × Pending). z.0)
        (if_true (ended (some (remembered e p)) (began e p)) (none, began e p) d)
