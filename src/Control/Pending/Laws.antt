-- ===== src/Control/Pending/Laws.antt =====
-- What holds of a pending request after any sequence of the calls that reach it.
use mathlib.Core.List.{append_assoc, append-nil}
use binboi_go.Base.{
  ap, subst, sym, Bool, ◌||◌, if_true, if_false, none, some, ◌++◌, ◌⊎◌, inl, inr, if◌then◌else◌,
  if_cases, Bool-cases, refl, ◌<◌, ◌≡◌, true, false, List, [], ◌∷◌, Option, Result, err, arith,
}
use binboi_go.Go.Word.{add, modulus}
use binboi_go.Control.Pending.{
  StreamError, FrameError, Chunk, Pending, touch, handle_response_start, write_response_body,
  queue_chunk, pumped, pump, broken, break_pump, pump_done, mark_request_bytes_sent, state_of,
  Ending, begin_finish, settle, ended, end_finish, begin_cancel, release_slot,
}
use binboi_go.Control.Pending.Events.{
  Event, starts, receives, queues, pumps, breaks, sends, finishes, ends, cancels, releases,
  or_unchanged, apply, run, remembered,
}

-- The call of `finish` for `e` that came first, to the request `p`, still waits, or has ended.
abbrev pub Waits : Option StreamError → Pending → Pending → Type 0
Waits e p q = (q.ending ≡ some (remembered e p)) × (q.starts ≡ p.starts) × (q.dones ≡ p.dones)

abbrev pub HasEnded : Option StreamError → Pending → Pending → Type 0
HasEnded e p q =
    (q.ending ≡ none)
    × (q.starts ≡ (if p.response_start then p.starts else p.starts ++ err e ∷ []))
    × (q.dones ≡ p.dones ++ e ∷ [])
    × (q.released ≡ true)
    × ((q.pump_stopped ≡ true) ⊎ ((q.chunks ≡ []) × (q.body ≡ p.body ++ p.chunks)))

-- What that call decides of the request `q` as it is later.
pub record IsDecided (e : Option StreamError) (p q : Pending) : Type 0 where
  pub completed : q.completed ≡ true
  pub state : q.state ≡ state_of e
  pub bytes_received : q.bytes_received ≡ p.bytes_received
  pub content : (q.pump_stopped ≡ true) ⊎ (q.body ++ q.chunks ≡ p.body ++ p.chunks)
  pub end : Waits e p q ⊎ HasEnded e p q

begin-IsDecided :
    (e : Option StreamError) (p : Pending) → p.completed ≡ false → IsDecided e p (begin_finish e p)
unfolding begin_finish
begin-IsDecided e p n = rw n (record {
  completed = refl;
  state = refl;
  bytes_received = refl;
  content = inr refl;
  end = inl (refl, refl, refl);
})

pumped-IsDecided :
    (e : Option StreamError) (p q : Pending) (cs : List Chunk)
    → q.chunks ≡ cs
    → IsDecided e p q
    → IsDecided e p (pumped cs q)
pumped-IsDecided e p q [] h v = v
pumped-IsDecided e p q (c ∷ cs) h v = record {
  completed = v.completed;
  state = v.state;
  bytes_received = v.bytes_received;
  content = ground (arith, v.content, append_assoc q.body (c ∷ []) cs, h);
  end = ground (arith, v.end, h);
}

broken-IsDecided :
    (e : Option StreamError) (p q : Pending) (cs : List Chunk)
    → IsDecided e p q
    → IsDecided e p (broken cs q)
broken-IsDecided e p q [] v = v
broken-IsDecided e p q (c ∷ cs) v = record {
  completed = v.completed;
  state = v.state;
  bytes_received = v.bytes_received;
  content = inl refl;
  end = ground (arith, v.end);
}

List-cases : {A : Type 0} (l : List A) → (l ≡ []) ⊎ ((x : A) × (xs : List A) × (l ≡ x ∷ xs))
List-cases [] = inl refl
List-cases (x ∷ xs) = inr (x, xs, refl)

nil_left : (q : Pending) → pump_done q ≡ true → (q.pump_stopped ≡ true) ⊎ (q.chunks ≡ [])
nil_left q h = elim (Bool-cases q.pump_stopped) [
  | inl y ↦ inl y
  | inr n ↦ elim (List-cases q.chunks) [
    | inl y ↦ inr y
    | inr (c, cs, y) ↦ absurd (cc (rw (n, y) at h))
  ]
]

settle-IsDecided :
    (e : Option StreamError) (p q : Pending)
    → (q.pump_stopped ≡ true) ⊎ (q.chunks ≡ [])
    → IsDecided e p q
    → Waits e p q
    → IsDecided e p (settle (remembered e p) q)
settle-IsDecided e p q d v (w, s, n) = record {
  completed = v.completed;
  state = v.state;
  bytes_received = v.bytes_received;
  content = v.content;
  end = inr (
    refl,
    ap (λ x. if p.response_start then x else x ++ err e ∷ []) s,
    ap (λ x. x ++ e ∷ []) n,
    refl,
    ground (arith, d, v.content, append-nil q.body),
  );
}

ended-IsDecided :
    (e : Option StreamError) (p q : Pending)
    → (q.pump_stopped ≡ true) ⊎ (q.chunks ≡ [])
    → IsDecided e p q
    → IsDecided e p (ended q.ending q).1
ended-IsDecided e p q d v = elim v.end [
  | inl w ↦ subst (λ o. IsDecided e p (ended o q).1) (sym w.0) (settle-IsDecided e p q d v w)
  | inr x ↦ subst (λ o. IsDecided e p (ended o q).1) (sym x.0) v
]

or_true : (a b : Bool) → a ≡ true → (a || b) ≡ true
or_true a b h = rw h refl

-- A complete request refuses a frame.
refused-IsDecided :
    (e : Option StreamError) (p q : Pending) (x : FrameError) (r : Result FrameError Pending)
    (b : Bool)
    → b ≡ true
    → IsDecided e p q
    → IsDecided e p (or_unchanged q (if b then err x else r))
refused-IsDecided e p q x r true h v = v
refused-IsDecided e p q x r false h v = absurd (cc)

apply-IsDecided :
    (ev : Event) (e : Option StreamError) (p q : Pending)
    → p.bytes_received < modulus
    → IsDecided e p q
    → IsDecided e p (apply ev q)
unfolding apply handle_response_start write_response_body queue_chunk pump break_pump
    mark_request_bytes_sent touch add begin_finish end_finish begin_cancel release_slot
apply-IsDecided (starts s now) e p q b v = refused-IsDecided e p q _ _ q.completed v.completed v
apply-IsDecided (receives k now) e p q b v = refused-IsDecided e p q _ _ q.completed v.completed v
apply-IsDecided (queues []) e p q b v = v
apply-IsDecided (queues (k ∷ ks)) e p q b v = refused-IsDecided e p q _ _ q.completed v.completed v
apply-IsDecided pumps e p q b v =
    if_cases (IsDecided e p) q.pump_stopped _ _ (λ y. v)
      (λ n. pumped-IsDecided e p q q.chunks refl v)
apply-IsDecided breaks e p q b v =
    if_cases (IsDecided e p) q.pump_stopped _ _ (λ y. v) (λ n. broken-IsDecided e p q q.chunks v)
apply-IsDecided (sends n now) e p q b v = record {
  completed = v.completed;
  state = v.state;
  bytes_received = ground (arith, v.bytes_received);
  content = v.content;
  end = v.end;
}
apply-IsDecided (finishes x) e p q b v =
    if_cases (IsDecided e p) q.completed q _ (λ y. v) (λ n. absurd (ground (arith, v.completed)))
apply-IsDecided ends e p q b v = elim (Bool-cases (pump_done q)) [
  | inl y ↦
      subst (λ (z : Option Ending × Pending). IsDecided e p z.1)
        (sym (if_true (ended q.ending q) (none, q) y)) (ended-IsDecided e p q (nil_left q y) v)
  | inr n ↦
      subst (λ (z : Option Ending × Pending). IsDecided e p z.1)
        (sym (if_false (ended q.ending q) (none, q) n)) v
]
apply-IsDecided (cancels now) e p q b v =
    subst (λ (z : Bool × Pending). IsDecided e p z.1)
      (sym (if_true (false, q) _ (or_true q.completed q.cancel_sent v.completed))) v
apply-IsDecided releases e p q b v = record {
  completed = v.completed;
  state = v.state;
  bytes_received = v.bytes_received;
  content = v.content;
  end = elim v.end [ inl w ↦ inl w | inr (x, s, n, r, c) ↦ inr (x, s, n, refl, c) ];
}

run-IsDecided :
    (es : List Event) (e : Option StreamError) (p q : Pending)
    → p.bytes_received < modulus
    → IsDecided e p q
    → IsDecided e p (run es q)
unfolding run
run-IsDecided [] e p q b v = v
run-IsDecided (x ∷ es) e p q b v = run-IsDecided es e p (apply x q) b (apply-IsDecided x e p q b v)

-- The first `finish` of a request that is not complete, and whose count of bytes received is a
-- 64-bit number, decides its outcome. Whatever other calls then reach the request, and in whatever
-- order (a late frame, a chunk, a timeout, a cancel, another `finish`), it is complete, in the
-- state that belongs to the error, and its count of bytes received stays. Either that call still
-- waits for the pump, with the bytes that it remembered and with startCh and doneCh as they were;
-- or it has put its error into doneCh, once, and into startCh if no response had started, and the
-- slot is free. Then, unless a write of the pump has failed, the body consists of the chunks that
-- were written or in the channel at the start, and the channel is empty.
pub finish_decides :
    (e : Option StreamError) (es : List Event) (p : Pending)
    → p.completed ≡ false
    → p.bytes_received < modulus
    → IsDecided e p (run es (begin_finish e p))
finish_decides e es p n b = run-IsDecided es e p (begin_finish e p) b (begin-IsDecided e p n)
