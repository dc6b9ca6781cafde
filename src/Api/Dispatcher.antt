-- ===== src/Api/Dispatcher.antt =====
-- pkg/api/dispatcher.go: fair delivery of the messages of many streams over one connection. Each
-- critical section, and each operation on a channel, is one function on the dispatcher, so that the
-- steps of the producers and of the loop `run` can be interleaved in any way. A stream object has a
-- handle, since a producer keeps its pointer to one that has left the map.
pub mod Wakes
pub mod Turns
use binboi_go.Base.{
  ℕ, ◌+◌, ◌<◌, ◌≡◌, Bool, true, false, not, ◌&&◌, ◌||◌, List, [], ◌∷◌, ◌++◌, Option, none, some,
  if◌then◌else◌, ite, length, ℕ_discrete, ltb,
}
use binboi_go.Go.Text.{Str}
use binboi_go.Go.Map.{Map, get, put, delete}

-- A message is a number: the dispatcher does not look into it.
abbrev pub Message : Type 0
Message = ℕ

-- dispatchStream. `accepted` and `received` are all that was ever put into the queue, and taken
-- out of it, and `name` is its key; the source does not keep them.
pub record Stream : Type 0 where
  pub queue : List Message
  pub scheduled : Bool
  pub draining : Bool
  pub name : Str

-- Where the goroutine of `run` is: before `next`, or in it, with a stream to receive from, a
-- message received, an empty queue found; or it waits for a token, or has returned.
pub data Consumer : Type 0 where
  idle : Consumer
  took : Str → ℕ → Consumer
  got : Str → ℕ → Message → Consumer
  found_empty : Str → ℕ → Consumer
  sleeping : Consumer
  stopped : Consumer

-- A caller of EnqueueStream, before and after the message is in the queue.
pub data Producer : Type 0 where
  holding : Str → ℕ → Message → Bool → Producer
  stored : Str → ℕ → Bool → Producer

pub record Dispatcher : Type 0 where
  pub capacity : ℕ
  pub control : List Message
  pub streams : Map ℕ
  pub ready : List Str
  pub closed : Bool
  pub wake : Bool
  pub heap : ℕ → Stream
  pub fresh : ℕ
  pub consumer : Consumer
  pub producers : List Producer
  pub sent : List Message

abbrev pub new_stream : Str → Stream
new_stream id = record { queue = []; scheduled = false; draining = false; name = id }

-- The heap with one object changed.
abbrev pub update : (ℕ → Stream) → ℕ → Stream → ℕ → Stream
update f h s i = ite (ℕ_discrete h i) s (f i)

-- NewMessageDispatcher
unfoldable pub new_dispatcher : ℕ → Dispatcher
new_dispatcher capacity = record {
  capacity = if ltb 0 capacity then capacity else 1;
  control = [];
  streams = [];
  ready = [];
  closed = false;
  wake = false;
  heap = λ h. new_stream [];
  fresh = 0;
  consumer = idle;
  producers = [];
  sent = [];
}

-- EnqueueControl, where the dispatcher is open
unfoldable pub enqueue_control : Message → Dispatcher → Dispatcher
enqueue_control m d = record d { control = d.control ++ m ∷ []; wake = true }

-- The first critical section of EnqueueStream, where the dispatcher is open: the stream of this
-- name, or a new one.
abbrev pub attached : Option ℕ → Str → Message → Bool → Dispatcher → Dispatcher
attached (some h) id m final d = record d { producers = holding id h m final ∷ d.producers }
attached none id m final d = record d {
  streams = put d.streams id d.fresh;
  heap = update d.heap d.fresh (new_stream id);
  fresh = d.fresh + 1;
  producers = holding id d.fresh m final ∷ d.producers;
}

unfoldable pub attach : Str → Message → Bool → Dispatcher → Dispatcher
attach id m final d = attached (get d.streams id) id m final d

-- stream.queue <- message, where the queue has room; the producers around this one stay.
unfoldable pub offer :
    List Producer → List Producer → Str → ℕ → Message → Bool → Dispatcher → Dispatcher
offer before after id h m final d = record d {
  heap = update d.heap h (record (d.heap h) { queue = (d.heap h).queue ++ m ∷ [] });
  producers = before ++ stored id h final ∷ after;
}

-- The second critical section of EnqueueStream
unfoldable pub announce : List Producer → List Producer → Str → ℕ → Bool → Dispatcher → Dispatcher
announce before after id h final d =
    if d.closed then record d { producers = before ++ after } else record d {
      heap =
          update d.heap h
            (record (d.heap h) { draining = (d.heap h).draining || final; scheduled = true });
      ready = if (d.heap h).scheduled then d.ready else d.ready ++ id ∷ [];
      wake = d.wake || not (d.heap h).scheduled;
      producers = before ++ after;
    }

-- The critical section at the head of the loop of `next`
abbrev pub turned : Option ℕ → Str → List Str → Dispatcher → Dispatcher
turned none id rest d = record d { ready = rest }
turned (some h) id rest d = record d {
  ready = rest;
  heap = update d.heap h (record (d.heap h) { scheduled = false });
  consumer = took id h;
}

abbrev pub picked : List Message → List Str → Dispatcher → Dispatcher
picked (m ∷ ms) ids d = record d { control = ms; sent = d.sent ++ m ∷ [] }
picked [] (id ∷ rest) d = turned (get d.streams id) id rest d
picked [] [] d = record d { consumer = if d.closed then stopped else sleeping }

unfoldable pub take_next : Dispatcher → Dispatcher
take_next d = picked d.control d.ready d

-- The receive of `next`, with its default case
abbrev pub taken_from : List Message → Str → ℕ → Dispatcher → Dispatcher
taken_from [] id h d = record d { consumer = found_empty id h }
taken_from (m ∷ ms) id h d = record d {
  heap = update d.heap h (record (d.heap h) { queue = ms });
  consumer = got id h m;
}

unfoldable pub receive : Str → ℕ → Dispatcher → Dispatcher
receive id h d = taken_from (d.heap h).queue id h d

abbrev pub is_none {ℓ} : {A : Type ℓ} → List A → Bool
is_none [] = true
is_none (x ∷ xs) = false

-- afterStreamMessage: a stream that has more joins the end of `ready`, and one that is drained
-- leaves the map.
abbrev pub requeued : Option ℕ → Str → Dispatcher → Dispatcher
requeued none id d = d
requeued (some h) id d =
    if not (is_none (d.heap h).queue) && not (d.heap h).scheduled
    then record d {
      heap = update d.heap h (record (d.heap h) { scheduled = true });
      ready = d.ready ++ id ∷ [];
      wake = true;
    }
    else if is_none (d.heap h).queue && (d.heap h).draining
    then record d { streams = delete d.streams id }
    else d

unfoldable pub after_message : Str → Message → Dispatcher → Dispatcher
after_message id m d =
    let d' = requeued (get d.streams id) id d in
    record d' { consumer = idle; sent = d'.sent ++ m ∷ [] }

-- afterEmptyStream
abbrev pub drained : Option ℕ → Str → Dispatcher → Dispatcher
drained none id d = d
drained (some h) id d =
    if is_none (d.heap h).queue && (d.heap h).draining
    then record d { streams = delete d.streams id }
    else d

unfoldable pub after_empty : Str → Dispatcher → Dispatcher
after_empty id d = record (drained (get d.streams id) id d) { consumer = idle }

-- Close; what is still queued stays where it is.
unfoldable pub close : Dispatcher → Dispatcher
close d = record d { closed = true; wake = true }

-- One step of a producer or of the loop.
pub data Step (d d' : Dispatcher) : Type 0 where
  controls : (m : Message) → d.closed ≡ false → d' ≡ enqueue_control m d → Step d d'
  attaches :
      (id : Str) (m : Message) (final : Bool)
      → d.closed ≡ false
      → d' ≡ attach id m final d
      → Step d d'
  offers :
      (before after : List Producer) (id : Str) (h : ℕ) (m : Message) (final : Bool)
      → d.producers ≡ before ++ holding id h m final ∷ after
      → length (d.heap h).queue < d.capacity
      → d' ≡ offer before after id h m final d
      → Step d d'
  -- The context of the caller ends, or the dispatcher is closed, before the queue has room.
  gives_up :
      (before after : List Producer) (id : Str) (h : ℕ) (m : Message) (final : Bool)
      → d.producers ≡ before ++ holding id h m final ∷ after
      → d' ≡ record d { producers = before ++ after }
      → Step d d'
  announces :
      (before after : List Producer) (id : Str) (h : ℕ) (final : Bool)
      → d.producers ≡ before ++ stored id h final ∷ after
      → d' ≡ announce before after id h final d
      → Step d d'
  takes : d.consumer ≡ idle → d' ≡ take_next d → Step d d'
  receives : (id : Str) (h : ℕ) → d.consumer ≡ took id h → d' ≡ receive id h d → Step d d'
  settles :
      (id : Str) (h : ℕ) (m : Message)
      → d.consumer ≡ got id h m
      → d' ≡ after_message id m d
      → Step d d'
  skips : (id : Str) (h : ℕ) → d.consumer ≡ found_empty id h → d' ≡ after_empty id d → Step d d'
  wakes :
      d.consumer ≡ sleeping
      → d.wake ≡ true
      → d' ≡ record d { consumer = idle; wake = false }
      → Step d d'
  -- A sleeping loop sees that the dispatcher is closed.
  stops : d.consumer ≡ sleeping → d.closed ≡ true → d' ≡ record d { consumer = stopped } → Step d d'
  closes : d' ≡ close d → Step d d'
  -- `send` fails on the message that `next` has returned.
  fails : d.consumer ≡ idle → d' ≡ record (close d) { consumer = stopped } → Step d d'

pub data Reach (d : Dispatcher) : Dispatcher → Type 0 where
  here : Reach d d
  next : {a b : Dispatcher} → Reach d a → Step a b → Reach d b
