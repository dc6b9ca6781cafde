-- ===== src/Control/Daemon/Settle.antt =====
-- Every reservation that ForwardRequest takes is settled once: the daemon's requests refine the
-- clients of the usage tracker in Usage.Quota, so that the request limit holds for what is
-- forwarded.
pub mod Calls
use binboi_go.Base.{
  ℕ, ◌+◌, ◌≤◌, ◌<◌, ◌≡◌, refl, sym, ap, ◌∙◌, Bool, true, false, not, ◌&&◌, List, [], ◌∷◌, ◌++◌,
  Option, Result, ok, err, if_true, if_cases, ◌||◌, Bool-cases, inl, inr, arith, subst,
}
use mathlib.Core.List.{append_assoc}
use binboi_go.Go.Word.{Int64, sign_bit}
use binboi_go.Go.Text.{Str}
use binboi_go.Usage.Model.{Config, LimitError}
use binboi_go.Usage.Tracker.{Calendar, Tracker, new_tracker}
use binboi_go.Usage.Tracker.Requests.{RequestReservation, release_request, complete_request}
use binboi_go.Usage.Quota
use binboi_go.Usage.Quota.{System, opened}
use binboi_go.Usage.Quota.Views.{requests_at}
use binboi_go.Usage.Quota.Invariant.{quota_kept, count_key}
use binboi_go.Control.Pending.{
  Time, StreamError, Pending, new_pending, begin_finish, settle, release_slot, Chunk, pumped, pump,
  broken, break_pump, touch, handle_response_start, write_response_body, queue_chunk,
  mark_request_bytes_sent, begin_cancel,
}
use binboi_go.Control.Pending.Events.{Event, apply, end_cases}
use binboi_go.Control.Daemon.{
  Phase, reserved, forwarded, refused, Call, Slots, Daemon, joined, arrive, finish_begins,
  finish_ends, remove_pending, IsTouch, Account, Step, Reach, here, next,
}
use Calls.{
  owes_phase, owes, owed_of, open_of, view, open_of-append, open_of-same, open_of-owes,
  open_of-settled, stutter, once, Reach-trans, sys_ap, release_unacquired, complete_unacquired,
  and_false, owes_paid, owes_free, released_call, completed_call, same_call, begin_finish-owes,
  is_some,
}

owed_of-elim :
    (a : Bool) (r : RequestReservation) (l : List RequestReservation)
    → owed_of (a && true) r ++ l ≡ elim a [ true ↦ r ∷ l | false ↦ l ]
owed_of-elim true r l = refl
owed_of-elim false r l = refl

joined-opened :
    (n : ℕ) (a : Result LimitError RequestReservation) (cs : List Call)
    → open_of (joined n a cs) ≡ opened a (open_of cs)
joined-opened n (err e) cs = refl
joined-opened n (ok r) cs = owed_of-elim r.acquired r (open_of cs)

arrive-Reach :
    (cal : Calendar) (d : Daemon) (n : ℕ) (user : Str) (estimate : Int64) (now : Time)
    → Quota.Reach cal (view d) (view (arrive cal d n user estimate now))
unfolding arrive
arrive-Reach cal d n user estimate now =
    once (Quota.reserves user estimate now (rw (joined-opened n _ d.calls) refl))

-- A touch neither completes a request nor ends its `finish`.
abbrev SameDebt : Pending → Pending → Type 0
SameDebt p q = (q.completed ≡ p.completed) × (q.ending ≡ p.ending)

pumped-SameDebt : (cs : List Chunk) (p : Pending) → SameDebt p (pumped cs p)
pumped-SameDebt [] p = (refl, refl)
pumped-SameDebt (c ∷ cs) p = (refl, refl)

broken-SameDebt : (cs : List Chunk) (p : Pending) → SameDebt p (broken cs p)
broken-SameDebt [] p = (refl, refl)
broken-SameDebt (c ∷ cs) p = (refl, refl)

IsTouch-SameDebt : (e : Event) (p : Pending) → IsTouch e → SameDebt p (apply e p)
unfolding apply handle_response_start write_response_body queue_chunk touch mark_request_bytes_sent
    begin_cancel pump break_pump
IsTouch-SameDebt (Event.starts s now) p i = (ground arith, ground arith)
IsTouch-SameDebt (Event.receives k now) p i = (ground arith, ground arith)
IsTouch-SameDebt (Event.queues []) p i = (refl, refl)
IsTouch-SameDebt (Event.queues (b ∷ k)) p i = (ground arith, ground arith)
IsTouch-SameDebt Event.pumps p i =
    if_cases (SameDebt p) p.pump_stopped _ _ (λ y. (refl, refl)) (λ n. pumped-SameDebt p.chunks p)
IsTouch-SameDebt Event.breaks p i =
    if_cases (SameDebt p) p.pump_stopped _ _ (λ y. (refl, refl)) (λ n. broken-SameDebt p.chunks p)
IsTouch-SameDebt (Event.sends n now) p i = (refl, refl)
IsTouch-SameDebt (Event.finishes e) p i = elim i [ ]
IsTouch-SameDebt Event.ends p i = elim i [ ]
IsTouch-SameDebt Event.releases p i = elim i [ ]
IsTouch-SameDebt (Event.cancels now) p i = (ground arith, ground arith)

finish_begins-Reach :
    (cal : Calendar) (d : Daemon) (bs ys : List Call) (c : Call) (was is : Bool) (p : Pending)
    (e : Option StreamError)
    → d.calls ≡ bs ++ c ∷ ys
    → c.phase ≡ forwarded was p
    → Quota.Reach cal (view d) (view (finish_begins d bs ys c is p e))
unfolding finish_begins
finish_begins-Reach cal d bs ys c was is p e l q = rw l (
    same_call cal d.tracker bs ys c (record c { phase = forwarded is (begin_finish e p) })
      (ap (λ b. c.reservation.acquired && b) (begin_finish-owes e p is was ∙ ap owes_phase (sym q)))
      refl)

or_true : (b : Bool) → (b || true) ≡ true
or_true true = refl
or_true false = refl

finish_ends-Reach :
    (cal : Calendar) (d : Daemon) (bs ys : List Call) (c : Call) (listed : Bool) (p : Pending)
    (now later : Time)
    → d.calls ≡ bs ++ c ∷ ys
    → c.phase ≡ forwarded listed p
    → p.completed ≡ true
    → Quota.Reach cal (view d) (view (finish_ends cal d bs ys c listed p now later))
unfolding finish_ends
finish_ends-Reach cal d bs ys c listed p now later l q f = elim (end_cases p) [
  | inl k ↦
      rw (k, l)
        (same_call cal d.tracker bs ys c (record c { phase = forwarded listed p }) (rw q refl) refl)
  | inr (x, o, k) ↦
      rw (k, l)
        (completed_call cal d.tracker bs ys c (record c { phase = forwarded listed (settle x p) })
          x.bytes_sent x.bytes_received now later
          (ap owes_phase q ∙ ap (λ y. not p.completed || is_some y) o ∙ or_true (not p.completed))
          (rw f (and_false c.reservation.acquired)))
]

remove_pending-Reach :
    (cal : Calendar) (d : Daemon) (bs ys : List Call) (c : Call) (listed : Bool) (p : Pending)
    → d.calls ≡ bs ++ c ∷ ys
    → c.phase ≡ forwarded listed p
    → Quota.Reach cal (view d) (view (remove_pending d bs ys c listed p))
unfolding remove_pending release_slot
remove_pending-Reach cal d bs ys c true p l q = rw l (
    same_call cal d.tracker bs ys c
      (record c { phase = forwarded false (record p { released = true }) }) (rw q refl) refl)
remove_pending-Reach cal d bs ys c false p l q = Quota.here

account-Reach :
    (cal : Calendar) (d : Daemon) (t : Tracker)
    → Account cal d.tracker t
    → Quota.Reach cal (view d) (view (record d { tracker = t }))
account-Reach cal d t (Account.reserves_tunnel user e) =
    once (Quota.reserves_tunnel user (rw e refl))
account-Reach cal d t (Account.releases_tunnel r e) = once (Quota.releases_tunnel r (rw e refl))
account-Reach cal d t (Account.confirms_tunnel r id now later e) =
    once (Quota.confirms_tunnel r id now later (rw e refl))
account-Reach cal d t (Account.restores_tunnel user id now later e) =
    once (Quota.restores_tunnel user id now later (rw e refl))
account-Reach cal d t (Account.closes_tunnel user id now later e) =
    once (Quota.closes_tunnel user id now later (rw e refl))
account-Reach cal d t (Account.flushes now e) = once (Quota.flushes now (rw e refl))
account-Reach cal d t (Account.restores_dirty items e) =
    once (Quota.restores_dirty items (rw e refl))

step-Reach :
    (cal : Calendar) {d d' : Daemon} → Step cal false d d' → Quota.Reach cal (view d) (view d')
unfolding new_pending
step-Reach cal {d} {d'} (Step.arrives n user estimate now e) =
    rw e (arrive-Reach cal d n user estimate now)
step-Reach cal {d} {d'} (Step.refuses before after c l q e) =
    rw (e, l)
      (released_call cal d.tracker before after c (record c { phase = refused }) (rw q refl)
        (and_false c.reservation.acquired))
step-Reach cal {d} {d'} (Step.forwards before after c now l q room e) =
    rw (e, l)
      (same_call cal d.tracker before after c
        (record c { phase = forwarded true (new_pending now) }) (rw q refl) refl)
step-Reach cal {d} {d'} (Step.touches before after c listed p ev l q i e) =
    rw (e, l)
      (same_call cal d.tracker before after c (record c { phase = forwarded listed (apply ev p) })
        (let s = IsTouch-SameDebt ev p i in rw (q, s.0, s.1) refl) refl)
step-Reach cal {d} {d'} (Step.finishes before after c listed takes p x l q e) =
    rw e (finish_begins-Reach cal d before after c listed (listed && not takes) p x l q)
step-Reach cal {d} {d'} (Step.ends before after c listed p now later l q f e) =
    rw e (finish_ends-Reach cal d before after c listed p now later l q f)
step-Reach cal {d} {d'} (Step.removes before after c listed p l q e) =
    rw e (remove_pending-Reach cal d before after c listed p l q)
step-Reach cal {d} {d'} (Step.accounts t a e) = rw e (account-Reach cal d t a)
step-Reach cal {d} {d'} (Step.loses_start before after c listed p lost l q e) = absurd (cc)

-- Every history of the daemon, with the request_start of each forwarded request sent, is a history of
-- the usage tracker and of clients that keep to its contract: a reservation is taken, and given back
-- or completed at most once, however the ends of a request (its last frame, an error, a timeout, a
-- cancel, the closing of the peer) race; between those steps the tracker does not change, but for
-- the operations on tunnels and the flushes.
pub refines :
    (cal : Calendar) {d d' : Daemon} → Reach cal false d d' → Quota.Reach cal (view d) (view d')
refines cal here = Quota.here
refines cal (next r st) = Reach-trans (refines cal r) (step-Reach cal st)

-- A new daemon under a limit M on requests, 0 < M < 2^63 - 1: in every history in which the
-- request_start of each forwarded request is sent, under every bucket key, the finished requests and
-- those that were admitted and neither refused nor ended, whether they wait for a slot or are on
-- their way, are at most M.
pub forwarded_within_limit :
    (cal : Calendar) (cfg : Config) (slots : ℕ → Slots) (d : Daemon)
    → 0 < cfg.limits.max_requests
    → cfg.limits.max_requests + 1 < sign_bit
    → Reach cal false (record { tracker = new_tracker cfg; slots = slots; calls = [] }) d
    → (k : Str) → requests_at d.tracker k + count_key k (open_of d.calls) ≤ cfg.limits.max_requests
forwarded_within_limit cal cfg slots d pos below r k =
    (quota_kept cal cfg (view d) pos below (refines cal r) k).0
