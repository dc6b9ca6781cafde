-- ===== src/Tests/Dispatching.antt =====
-- The results on pkg/api/dispatcher.go, at two streams with a message each.
use binboi_go.Base.{ℕ, ◌≡◌, refl, [], some, false, true, arith}
use binboi_go.Go.Text.{Str, lit, str_discrete}
use binboi_go.Go.Map.{get, put}
use binboi_go.Api.Dispatcher.{
  Dispatcher, idle, took, new_dispatcher, attach, offer, announce, take_next, receive,
  after_message, is_none, Step, Reach, here, next,
}
use binboi_go.Api.Dispatcher.Wakes.Covered.{owed}
use binboi_go.Api.Dispatcher.Wakes.{sleeping-nothing_waits}
use binboi_go.Api.Dispatcher.Turns.{Turns, front, behind, served_in_turn}

-- Messages 7 and 8, to streams `a` and `b`.
abbrev first_stored : Dispatcher
first_stored = offer [] [] (lit "a") 0 7 false (attach (lit "a") 7 false (new_dispatcher 4))

abbrev one_ready : Dispatcher
one_ready = announce [] [] (lit "a") 0 false first_stored

abbrev two_ready : Dispatcher
two_ready =
    announce [] [] (lit "b") 1 false
      (offer [] [] (lit "b") 1 8 false (attach (lit "b") 8 false one_ready))

abbrev one_served : Dispatcher
one_served = after_message (lit "a") 7 (receive (lit "a") 0 (take_next two_ready))

abbrev asleep : Dispatcher
asleep =
    take_next
      (record (take_next (after_message (lit "a") 7 (receive (lit "a") 0 (take_next one_ready)))) {
        consumer = idle;
        wake = false;
      })

to_one_ready : Reach (new_dispatcher 4) one_ready
unfolding new_dispatcher attach offer announce take_next receive after_message get put str_discrete
to_one_ready =
    next
      (next (next here (Step.attaches (lit "a") 7 false refl refl))
        (Step.offers [] [] (lit "a") 0 7 false refl (omega arith) refl))
      (Step.announces [] [] (lit "a") 0 false refl refl)

to_asleep : Reach (new_dispatcher 4) asleep
unfolding new_dispatcher attach offer announce take_next receive after_message get put str_discrete
to_asleep =
    next
      (next
        (next
          (next
            (next (next to_one_ready (Step.takes refl refl)) (Step.receives (lit "a") 0 refl refl))
            (Step.settles (lit "a") 0 7 refl refl))
          (Step.takes refl refl))
        (Step.wakes refl refl refl))
      (Step.takes refl refl)

sleeping-nothing_waits_example :
    (asleep.control ≡ [])
    × (asleep.ready ≡ [])
    × ((id : Str) (h : ℕ)
        → get asleep.streams id ≡ some h
        → is_none (asleep.heap h).queue ≡ false
        → owed h asleep.producers ≡ true)
unfolding new_dispatcher attach offer announce take_next receive after_message get put str_discrete
sleeping-nothing_waits_example = sleeping-nothing_waits 4 asleep to_asleep refl refl refl

one_turn : Turns two_ready 1 one_served
unfolding new_dispatcher attach offer announce take_next receive after_message get put str_discrete
one_turn =
    Turns.next
      (Turns.next (Turns.next Turns.here (Step.takes refl refl))
        (Step.receives (lit "a") 0 refl refl))
      (Step.settles (lit "a") 0 7 refl refl)

served_in_turn_example : (take_next one_served).consumer ≡ took (lit "b") 1
unfolding new_dispatcher attach offer announce take_next receive after_message get put str_discrete
served_in_turn_example =
    served_in_turn two_ready one_served (lit "b") 1 1 (behind front) one_turn refl refl
