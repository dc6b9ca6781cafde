-- ===== src/Api/Dispatcher/Wakes/Covered.antt =====
-- What is kept of the streams, the ready list, the calls of EnqueueStream and the loop.
use binboi_go.Base.{
  ℕ, ◌<◌, ◌≡◌, refl, sym, ap, ◌∙◌, Bool, true, false, ◌||◌, List, [], ◌∷◌, ◌++◌, some, ite,
  ℕ_discrete, arith, All, All-append, All-split, All-weaken,
}
use binboi_go.Go.Text.{Str, str_discrete}
use binboi_go.Go.Map.{Map, get}
use binboi_go.Api.Dispatcher.{
  Stream, Consumer, idle, took, got, found_empty, sleeping, stopped, Producer, holding, stored,
  Dispatcher, update, is_none,
}

abbrev pub is_in : Str → List Str → Bool
is_in id [] = false
is_in id (x ∷ xs) = ite (str_discrete x id) true (is_in id xs)

pub is_in-append :
    (id : Str) (xs ys : List Str) → is_in id (xs ++ ys) ≡ (is_in id xs || is_in id ys)
is_in-append id [] ys = refl
is_in-append id (x ∷ xs) ys = ground (arith, is_in-append id xs ys)

-- The loop is about to look into the queue again.
abbrev pub serving : ℕ → Consumer → Bool
serving h (took _ i) = ite (ℕ_discrete i h) true false
serving h (got _ i _) = ite (ℕ_discrete i h) true false
serving h idle = false
serving h (found_empty _ _) = false
serving h sleeping = false
serving h stopped = false

-- A call of EnqueueStream that has put its message into this queue, and has not announced it.
abbrev pub owed_by : ℕ → Producer → Bool
owed_by h (holding _ _ _ _) = false
owed_by h (stored _ i _) = ite (ℕ_discrete i h) true false

abbrev pub owed : ℕ → List Producer → Bool
owed h [] = false
owed h (p ∷ ps) = owed_by h p || owed h ps

pub or_assoc : (a b c : Bool) → ((a || b) || c) ≡ (a || (b || c))
or_assoc true b c = refl
or_assoc false b c = refl

pub owed-append : (h : ℕ) (xs ys : List Producer) → owed h (xs ++ ys) ≡ (owed h xs || owed h ys)
owed-append h [] ys = refl
owed-append h (x ∷ xs) ys =
    ap (λ b. owed_by h x || b) (owed-append h xs ys)
    ∙ sym (or_assoc (owed_by h x) (owed h xs) (owed h ys))

-- The stream that the loop works on is in the map.
abbrev pub OnMapped : Map ℕ → Consumer → Type 0
OnMapped s (took id h) = get s id ≡ some h
OnMapped s (got id h _) = get s id ≡ some h
OnMapped s (found_empty id h) = get s id ≡ some h
OnMapped s idle = Unit
OnMapped s sleeping = Unit
OnMapped s stopped = Unit

abbrev pub key_of : Producer → Str
key_of (holding id _ _ _) = id
key_of (stored id _ _) = id

abbrev pub handle_of : Producer → ℕ
handle_of (holding _ h _ _) = h
handle_of (stored _ h _) = h

-- A call of EnqueueStream points to an object of its stream.
abbrev pub Owns : (ℕ → Stream) → ℕ → Producer → Type 0
Owns f n p = ((f (handle_of p)).name ≡ key_of p) × (handle_of p < n)

pub Owns-update :
    (f : ℕ → Stream) (n h : ℕ) (s : Stream)
    → s.name ≡ (f h).name
    → (p : Producer) → Owns f n p
    → Owns (update f h s) n p
Owns-update f n h s e p o = ground arith

-- One call in the place of another, with the same stream, or in no call's place.
pub Owns-next :
    (f : ℕ → Stream) (n h : ℕ) (s : Stream) (before after : List Producer) (p q : Producer)
    → s.name ≡ (f h).name
    → handle_of q ≡ handle_of p
    → key_of q ≡ key_of p
    → All (Owns f n) (before ++ p ∷ after)
    → All (Owns (update f h s) n) (before ++ q ∷ after)
      × All (Owns (update f h s) n) (before ++ after)
Owns-next f n h s before after p q e k l o =
    let (a, b) = All-split (Owns f n) before (p ∷ after) o in
    let w = Owns-update f n h s e in
    let a' = All-weaken (Owns f n) (Owns (update f h s) n) before w a in
    let b' = All-weaken (Owns f n) (Owns (update f h s) n) after w b.1 in
    (All-append _ before (q ∷ after) a' (w q (rw (k, l) b.0), b'), All-append _ before after a' b')

pub Owns-drop :
    (f : ℕ → Stream) (n : ℕ) (before after : List Producer) (p : Producer)
    → All (Owns f n) (before ++ p ∷ after)
    → All (Owns f n) (before ++ after)
Owns-drop f n before after p o =
    let (a, b) = All-split (Owns f n) before (p ∷ after) o in All-append _ before after a b.1

pub Owns-here :
    (f : ℕ → Stream) (n : ℕ) (before after : List Producer) (p : Producer)
    → All (Owns f n) (before ++ p ∷ after)
    → Owns f n p
Owns-here f n before after p o = (All-split (Owns f n) before (p ∷ after) o).1.0

pub record Inv (d : Dispatcher) : Type 0 where
  pub named :
      (id : Str) (h : ℕ) → get d.streams id ≡ some h → ((d.heap h).name ≡ id) × (h < d.fresh)
  pub listed :
      (id : Str) (h : ℕ)
      → get d.streams id ≡ some h
      → (d.heap h).scheduled ≡ true
      → is_in id d.ready ≡ true
  pub owned : All (Owns d.heap d.fresh) d.producers
  pub current : OnMapped d.streams d.consumer
  pub covered :
      d.closed ≡ false
      → (id : Str) (h : ℕ) → get d.streams id ≡ some h
      → is_none (d.heap h).queue ≡ false
      → ((d.heap h).scheduled || serving h d.consumer || owed h d.producers) ≡ true
  pub awake :
      d.consumer ≡ sleeping → d.closed ≡ false → d.wake ≡ false → (d.ready ≡ []) × (d.control ≡ [])
