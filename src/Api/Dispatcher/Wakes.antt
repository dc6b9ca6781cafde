-- ===== src/Api/Dispatcher/Wakes.antt =====
-- No message is stranded: what `scheduled`, `ready`, the token in wakeCh and the calls that are under
-- way say of each other, over every interleaving.
pub mod Covered
mod Calls
mod Loop
use binboi_go.Base.{
  ℕ, ◌+◌, ◌<◌, ◌≡◌, refl, sym, ap, ◌∙◌, Bool, true, false, not, ◌&&◌, ◌||◌, List, [], ◌∷◌, ◌++◌,
  Option, none, some, if◌then◌else◌, ite, length, length-append, ℕ_discrete, ltb, arith, subst,
  Bool-cases, inl, inr, ◌⊎◌, Option-cases, ◌≤◌, All, All-append, All-split, All-weaken, if_true,
  if_false, if_cases,
}
use binboi_go.Go.Text.{Str, str_discrete}
use binboi_go.Go.Map.{Map, get, put, delete, get-put, get-delete}
use binboi_go.Api.Dispatcher.{
  Message, Stream, Consumer, idle, took, got, found_empty, sleeping, stopped, Producer, holding,
  stored, Dispatcher, new_stream, update, new_dispatcher, enqueue_control, attached, attach, offer,
  announce, turned, picked, take_next, taken_from, receive, is_none, requeued, after_message,
  drained, after_empty, close, Step, Reach, here, next,
}
use Covered.{
  is_in, is_in-append, serving, owed_by, owed, or_assoc, owed-append, OnMapped, key_of, handle_of,
  Owns, Owns-update, Owns-next, Owns-drop, Owns-here, Inv,
}
use Calls.{new-Inv, controls-Inv, offer-Inv, leave-Inv, announce-Inv, OnMapped-put, attached-Inv}
use Loop.{
  turned-Inv, picked-Inv, taken_from-Inv, dropped-Inv, resumed-Inv, requeue-Inv, serving-at,
  not-and, after_message-Inv, after_empty-Inv,
}

closed-Inv :
    (c : Consumer) (wake : Bool) (d : Dispatcher)
    → OnMapped d.streams c
    → Inv d
    → Inv (record d { closed = true; wake = wake; consumer = c })
closed-Inv c wake d o v = record {
  named = v.named;
  listed = v.listed;
  owned = v.owned;
  current = o;
  covered = λ k. absurd (cc);
  awake = λ s k. absurd (cc);
}

stops-Inv : (d : Dispatcher) → d.closed ≡ true → Inv d → Inv (record d { consumer = stopped })
stops-Inv d c v = record {
  named = v.named;
  listed = v.listed;
  owned = v.owned;
  current = tt;
  covered = λ k. absurd (cc);
  awake = λ s. absurd (cc);
}

wakes-Inv :
    (d : Dispatcher)
    → d.consumer ≡ sleeping
    → Inv d
    → Inv (record d { consumer = idle; wake = false })
wakes-Inv d c v = record {
  named = v.named;
  listed = v.listed;
  owned = v.owned;
  current = tt;
  covered = λ o j i g n. ground (arith, v.covered o j i g n, ap (serving i) c);
  awake = λ s. absurd (cc);
}

Step-Inv : {d d' : Dispatcher} → Inv d → Step d d' → Inv d'
unfolding attach take_next receive close
Step-Inv {d} {d'} v (Step.controls m o e) = rw e (controls-Inv m d v)
Step-Inv {d} {d'} v (Step.attaches id m final o e) =
    rw e (attached-Inv (get d.streams id) id m final d refl v)
Step-Inv {d} {d'} v (Step.offers before after id h m final p room e) =
    rw e (offer-Inv before after id h m final d p v)
Step-Inv {d} {d'} v (Step.gives_up before after id h m final p e) =
    rw e (leave-Inv before after (holding id h m final) d p (λ i c. refl) v)
Step-Inv {d} {d'} v (Step.announces before after id h final p e) =
    rw e (announce-Inv before after id h final d p v)
Step-Inv {d} {d'} v (Step.takes c e) = rw e (picked-Inv d.control d.ready d refl refl c v)
Step-Inv {d} {d'} v (Step.receives id h c e) =
    rw e (taken_from-Inv (d.heap h).queue id h d refl c v)
Step-Inv {d} {d'} v (Step.settles id h m c e) = rw e (after_message-Inv id h m d c v)
Step-Inv {d} {d'} v (Step.skips id h c e) = rw e (after_empty-Inv id h d c v)
Step-Inv {d} {d'} v (Step.wakes c w e) = rw e (wakes-Inv d c v)
Step-Inv {d} {d'} v (Step.stops c o e) = rw e (stops-Inv d o v)
Step-Inv {d} {d'} v (Step.closes e) = rw e (closed-Inv d.consumer true d v.current v)
Step-Inv {d} {d'} v (Step.fails c e) = rw e (closed-Inv stopped true d tt v)

reached-Inv : (capacity : ℕ) {d : Dispatcher} → Reach (new_dispatcher capacity) d → Inv d
reached-Inv capacity here = new-Inv capacity
reached-Inv capacity (next r st) = Step-Inv (reached-Inv capacity r) st

-- Over every interleaving of the loop with any callers, from a new dispatcher: when the loop sleeps
-- with no token in wakeCh and the dispatcher is open, no control message waits, no stream is ready,
-- and each stream in the map whose queue is not empty has a caller of EnqueueStream that has put its
-- message there and has still to schedule the stream and to leave the token. So no wake-up for a
-- stream of the map is lost. A message that a late caller puts into the queue of a stream that has
-- left the map, as its final message was sent, is not covered.
pub sleeping-nothing_waits :
    (capacity : ℕ) (d : Dispatcher)
    → Reach (new_dispatcher capacity) d
    → d.consumer ≡ sleeping
    → d.closed ≡ false
    → d.wake ≡ false
    → (d.control ≡ [])
      × (d.ready ≡ [])
      × ((id : Str) (h : ℕ)
          → get d.streams id ≡ some h
          → is_none (d.heap h).queue ≡ false
          → owed h d.producers ≡ true)
sleeping-nothing_waits capacity d r c o w =
    let v = reached-Inv capacity r in
    let (empty, none_left) = v.awake c o w in
    (
      none_left,
      empty,
      λ id h g q.
          ground
            (arith, v.covered o id h g q, ap (serving h) c, v.listed id h g, ap (is_in id) empty),
    )
