-- ===== src/Api/Dispatcher/Turns.antt =====
-- How long a stream that is ready waits for its turn.
use binboi_go.Base.{
  ℕ, zero, suc, ◌+◌, ◌≡◌, refl, Bool, not, List, [], ◌∷◌, ◌++◌, Option, none, some, if_cases, arith,
  subst, inl, inr, Bool-cases, ◌&&◌,
}
use binboi_go.Go.Text.{Str}
use binboi_go.Go.Map.{get}
use binboi_go.Api.Dispatcher.{
  Message, took, Producer, Dispatcher, enqueue_control, attached, attach, offer, announce, turned,
  picked, take_next, taken_from, receive, is_none, requeued, after_message, drained, after_empty,
  close, Step,
}

-- Whether a step takes a stream out of `ready`.
abbrev pub turn_at : List Message → List Str → ℕ
turn_at (m ∷ ms) ids = 0
turn_at [] [] = 0
turn_at [] (id ∷ ids) = 1

abbrev pub turn_of : {d d' : Dispatcher} → Step d d' → ℕ
turn_of (Step.controls _ _ _) = 0
turn_of (Step.attaches _ _ _ _ _) = 0
turn_of (Step.offers _ _ _ _ _ _ _ _ _) = 0
turn_of (Step.gives_up _ _ _ _ _ _ _ _) = 0
turn_of (Step.announces _ _ _ _ _ _ _) = 0
turn_of {d} (Step.takes _ _) = turn_at d.control d.ready
turn_of (Step.receives _ _ _ _) = 0
turn_of (Step.settles _ _ _ _ _) = 0
turn_of (Step.skips _ _ _ _) = 0
turn_of (Step.wakes _ _ _) = 0
turn_of (Step.stops _ _ _) = 0
turn_of (Step.closes _) = 0
turn_of (Step.fails _ _) = 0

-- A history with its number of turns.
pub data Turns (d : Dispatcher) : ℕ → Dispatcher → Type 0 where
  here : Turns d 0 d
  next : {n : ℕ} {a b : Dispatcher} → Turns d n a → (st : Step a b) → Turns d (n + turn_of st) b

-- `id` stands in the list behind `k` others.
pub data At (id : Str) : ℕ → List Str → Type 0 where
  front : {ids : List Str} → At id 0 (id ∷ ids)
  behind : {k : ℕ} {x : Str} {ids : List Str} → At id k ids → At id (suc k) (x ∷ ids)

At-append : (id : Str) (k : ℕ) (xs ys : List Str) → At id k xs → At id k (xs ++ ys)
At-append id k [] ys a = elim a [ ]
At-append id zero (x ∷ xs) ys front = front
At-append id (suc k) (x ∷ xs) ys (behind a) = behind (At-append id k xs ys a)

-- The dispatcher has `id` behind `k` others.
record Stands (id : Str) (k : ℕ) (d : Dispatcher) : Type 0 where
  standing : At id k d.ready

At-tail : (id x : Str) (k : ℕ) (xs : List Str) → At id (k + 1) (x ∷ xs) → At id k xs
At-tail id x k xs a = tail_of (subst (λ n. At id n (x ∷ xs)) (omega arith) a)
  where
    tail_of : At id (suc k) (x ∷ xs) → At id k xs
    tail_of (behind b) = b

At-zero : (id : Str) (k : ℕ) (xs : List Str) → At id (k + 0) xs → At id k xs
At-zero id k xs a = subst (λ n. At id n xs) (omega arith) a

attached-At :
    (found : Option ℕ) (id' : Str) (m : Message) (final : Bool) (d : Dispatcher) (id : Str) (k : ℕ)
    → At id k d.ready
    → At id k (attached found id' m final d).ready
attached-At (some h) id' m final d id k a = a
attached-At none id' m final d id k a = a

turned-At :
    (found : Option ℕ) (x : Str) (rest : List Str) (d : Dispatcher) (id : Str) (k : ℕ)
    → At id k rest
    → At id k (turned found x rest d).ready
turned-At (some h) x rest d id k a = a
turned-At none x rest d id k a = a

picked-At :
    (ms : List Message) (ids : List Str) (d : Dispatcher) (id : Str) (k : ℕ)
    → d.ready ≡ ids
    → At id (k + turn_at ms ids) ids
    → At id k (picked ms ids d).ready
picked-At (m ∷ ms) ids d id k e a = rw e (At-zero id k ids a)
picked-At [] [] d id k e a = rw e (At-zero id k [] a)
picked-At [] (x ∷ rest) d id k e a =
    turned-At (get d.streams x) x rest d id k (At-tail id x k rest a)

taken_from-At :
    (ms : List Message) (id' : Str) (h : ℕ) (d : Dispatcher) (id : Str) (k : ℕ)
    → At id k d.ready
    → At id k (taken_from ms id' h d).ready
taken_from-At [] id' h d id k a = a
taken_from-At (m ∷ ms) id' h d id k a = a

drained-At :
    (found : Option ℕ) (id' : Str) (d : Dispatcher) (id : Str) (k : ℕ)
    → At id k d.ready
    → Stands id k (drained found id' d)
drained-At none id' d id k a = record { standing = a }
drained-At (some h) id' d id k a =
    elim (Bool-cases (is_none (d.heap h).queue && (d.heap h).draining)) [
      | inl y ↦ rw y (record { standing = a })
      | inr n ↦ rw n (record { standing = a })
    ]

requeued-At :
    (found : Option ℕ) (id' : Str) (d : Dispatcher) (id : Str) (k : ℕ)
    → At id k d.ready
    → Stands id k (requeued found id' d)
requeued-At none id' d id k a = record { standing = a }
requeued-At (some h) id' d id k a =
    elim (Bool-cases (not (is_none (d.heap h).queue) && not (d.heap h).scheduled)) [
      | inl y ↦ rw y (record { standing = At-append id k d.ready (id' ∷ []) a })
      | inr n ↦ rw n (drained-At (some h) id' d id k a)
    ]

announce-At :
    (before after : List Producer) (id' : Str) (h : ℕ) (final : Bool) (d : Dispatcher) (id : Str)
    (k : ℕ)
    → At id k d.ready
    → Stands id k (announce before after id' h final d)
unfolding announce
announce-At before after id' h final d id k a = elim (Bool-cases d.closed) [
  | inl y ↦ rw y (record { standing = a })
  | inr n ↦ rw n (record {
    standing =
        if_cases (At id k) (d.heap h).scheduled d.ready (d.ready ++ id' ∷ []) (λ y. a)
          (λ o. At-append id k d.ready (id' ∷ []) a);
  })
]

Step-At :
    {a b : Dispatcher} (st : Step a b) (id : Str) (k : ℕ)
    → At id (k + turn_of st) a.ready
    → At id k b.ready
unfolding enqueue_control attach offer take_next receive after_message after_empty close
Step-At {a} {b} (Step.controls m o e) id k w = rw e (At-zero id k _ w)
Step-At {a} {b} (Step.attaches j m final o e) id k w =
    rw e (attached-At (get a.streams j) j m final a id k (At-zero id k _ w))
Step-At {a} {b} (Step.offers before after j h m final p room e) id k w = rw e (At-zero id k _ w)
Step-At {a} {b} (Step.gives_up before after j h m final p e) id k w = rw e (At-zero id k _ w)
Step-At {a} {b} (Step.announces before after j h final p e) id k w =
    rw e (announce-At before after j h final a id k (At-zero id k _ w)).standing
Step-At {a} {b} (Step.takes c e) id k w = rw e (picked-At a.control a.ready a id k refl w)
Step-At {a} {b} (Step.receives j h c e) id k w =
    rw e (taken_from-At (a.heap h).queue j h a id k (At-zero id k _ w))
Step-At {a} {b} (Step.settles j h m c e) id k w =
    rw e (requeued-At (get a.streams j) j a id k (At-zero id k _ w)).standing
Step-At {a} {b} (Step.skips j h c e) id k w =
    rw e (drained-At (get a.streams j) j a id k (At-zero id k _ w)).standing
Step-At {a} {b} (Step.wakes c x e) id k w = rw e (At-zero id k _ w)
Step-At {a} {b} (Step.stops c o e) id k w = rw e (At-zero id k _ w)
Step-At {a} {b} (Step.closes e) id k w = rw e (At-zero id k _ w)
Step-At {a} {b} (Step.fails c e) id k w = rw e (At-zero id k _ w)

Turns-At :
    {d e : Dispatcher} {n : ℕ} (id : Str) (k : ℕ)
    → Turns d n e
    → At id (k + n) d.ready
    → At id k e.ready
Turns-At {d} id k here a = At-zero id k _ a
Turns-At {d} id k (next {n} r st) a =
    Step-At st id k (Turns-At id (k + turn_of st) r (subst (λ i. At id i d.ready) (omega arith) a))

picked_front :
    (ms : List Message) (ids : List Str) (d : Dispatcher) (id : Str) (h : ℕ)
    → ms ≡ []
    → At id 0 ids
    → get d.streams id ≡ some h
    → (picked ms ids d).consumer ≡ took id h
picked_front (m ∷ ms) ids d id h c a e = absurd (cc)
picked_front [] [] d id h c a e = elim a [ ]
picked_front [] (x ∷ rest) d id h c front e = rw e refl

-- Round-robin: a stream that is ready behind k others waits for k turns at most. Take any
-- interleaving in which the loop takes k times from `ready`, whatever else the callers and the loop
-- do meanwhile. If no control message waits and the stream is in the map, the loop's next look at
-- the queues takes this stream.
pub served_in_turn :
    (d e : Dispatcher) (id : Str) (h k : ℕ)
    → At id k d.ready
    → Turns d k e
    → e.control ≡ []
    → get e.streams id ≡ some h
    → (take_next e).consumer ≡ took id h
unfolding take_next
served_in_turn d e id h k a r c m =
    picked_front e.control e.ready e id h c
      (Turns-At id 0 r (subst (λ i. At id i d.ready) (omega arith) a)) m
