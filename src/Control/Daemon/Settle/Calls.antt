-- ===== src/Control/Daemon/Settle/Calls.antt =====
-- What each call owes to the tracker, and how it is settled.
use binboi_go.Base.{
  ◌≡◌, refl, sym, ap, ◌∙◌, Bool, true, false, not, ◌&&◌, List, [], ◌∷◌, ◌++◌, Option, none, some,
  ◌||◌, if_true, if_false, Bool-cases, inl, inr, subst,
}
use mathlib.Core.List.{append_assoc}
use binboi_go.Go.Word.{Int64}
use binboi_go.Usage.Tracker.{Calendar, Tracker}
use binboi_go.Usage.Tracker.Requests.{RequestReservation, release_request, complete_request}
use binboi_go.Usage.Quota
use binboi_go.Usage.Quota.{System, opened}
use binboi_go.Control.Pending.{Time, StreamError, Pending, Ending, begin_finish}
use binboi_go.Control.Daemon.{Phase, reserved, forwarded, refused, Call, Daemon}

abbrev pub is_some : Option Ending → Bool
is_some none = false
is_some (some _) = true

-- The call owes its reservation to the tracker: a request does until `finish` has ended.
abbrev pub owes_phase : Phase → Bool
owes_phase reserved = true
owes_phase (forwarded _ p) = not p.completed || is_some p.ending
owes_phase refused = false

abbrev pub owes : Call → Bool
owes c = c.reservation.acquired && owes_phase c.phase

-- The reservations that are open.
abbrev pub owed_of : Bool → RequestReservation → List RequestReservation
owed_of true r = r ∷ []
owed_of false r = []

abbrev pub open_of : List Call → List RequestReservation
open_of [] = []
open_of (c ∷ cs) = owed_of (owes c) c.reservation ++ open_of cs

-- What the tracker and its clients see of the daemon.
abbrev pub view : Daemon → System
view d = record { tracker = d.tracker; open_reservations = open_of d.calls }

pub open_of-append : (xs ys : List Call) → open_of (xs ++ ys) ≡ open_of xs ++ open_of ys
open_of-append [] ys = refl
open_of-append (c ∷ xs) ys =
    ap (λ l. owed_of (owes c) c.reservation ++ l) (open_of-append xs ys)
    ∙ sym (append_assoc (owed_of (owes c) c.reservation) (open_of xs) (open_of ys))

-- A call that owes as much as before in its place.
pub open_of-same :
    (xs ys : List Call) (c c' : Call)
    → owes c' ≡ owes c
    → c'.reservation ≡ c.reservation
    → open_of (xs ++ c' ∷ ys) ≡ open_of (xs ++ c ∷ ys)
open_of-same [] ys c c' e r = rw (e, r) refl
open_of-same (x ∷ xs) ys c c' e r =
    ap (λ l. owed_of (owes x) x.reservation ++ l) (open_of-same xs ys c c' e r)

pub open_of-owes :
    (xs ys : List Call) (c : Call)
    → owes c ≡ true
    → open_of (xs ++ c ∷ ys) ≡ open_of xs ++ c.reservation ∷ open_of ys
open_of-owes xs ys c e = open_of-append xs (c ∷ ys) ∙ rw e refl

pub open_of-settled :
    (xs ys : List Call) (c : Call)
    → owes c ≡ false
    → open_of (xs ++ c ∷ ys) ≡ open_of xs ++ open_of ys
open_of-settled xs ys c e = open_of-append xs (c ∷ ys) ∙ rw e refl

abbrev sys : Tracker → List Call → System
sys t cs = record { tracker = t; open_reservations = open_of cs }

pub stutter : {cal : Calendar} {s s' : System} → s' ≡ s → Quota.Reach cal s s'
stutter {cal} {s} {s'} e = subst (λ x. Quota.Reach cal s x) (sym e) Quota.here

pub once : {cal : Calendar} {s s' : System} → Quota.Step cal s s' → Quota.Reach cal s s'
once st = Quota.next Quota.here st

pub Reach-trans :
    {cal : Calendar} {a b c : System}
    → Quota.Reach cal a b
    → Quota.Reach cal b c
    → Quota.Reach cal a c
Reach-trans r Quota.here = r
Reach-trans r (Quota.next q st) = Quota.next (Reach-trans r q) st

pub sys_ap :
    {t t' : Tracker} {l l' : List RequestReservation}
    → t ≡ t'
    → l ≡ l'
    → Path System
        (record { tracker = t; open_reservations = l })
        (record { tracker = t'; open_reservations = l' })
sys_ap e f = rw (e, f) refl

pub release_unacquired :
    (t : Tracker) (r : RequestReservation) → r.acquired ≡ false → release_request t r ≡ t
unfolding release_request
release_unacquired t r e = rw e refl

pub complete_unacquired :
    (cal : Calendar) (t : Tracker) (r : RequestReservation) (i o : Int64) (now later : Time)
    → r.acquired ≡ false
    → complete_request cal t r i o now later ≡ t
unfolding complete_request
complete_unacquired cal t r i o now later e = rw e refl

pub and_false : (b : Bool) → (b && false) ≡ false
and_false true = refl
and_false false = refl

pub owes_paid :
    (c : Call) → owes_phase c.phase ≡ true → c.reservation.acquired ≡ true → owes c ≡ true
owes_paid c e a = rw (a, e) refl

pub owes_free : (c : Call) → c.reservation.acquired ≡ false → owes c ≡ false
owes_free c a = rw a refl

-- A call that gives its reservation back.
pub released_call :
    (cal : Calendar) (t : Tracker) (bs ys : List Call) (c c' : Call)
    → owes_phase c.phase ≡ true
    → owes c' ≡ false
    → Quota.Reach cal (sys t (bs ++ c ∷ ys)) (sys (release_request t c.reservation) (bs ++ c' ∷ ys))
released_call cal t bs ys c c' o n = elim (Bool-cases c.reservation.acquired) [
  | inl a ↦ once (
      Quota.releases (open_of bs) (open_of ys) c.reservation
        (open_of-owes bs ys c (owes_paid c o a)) (rw (open_of-settled bs ys c' n) refl))
  | inr a ↦ stutter (
      sys_ap (release_unacquired t c.reservation a)
        (open_of-settled bs ys c' n ∙ sym (open_of-settled bs ys c (owes_free c a))))
]

-- A call whose request ends.
pub completed_call :
    (cal : Calendar) (t : Tracker) (bs ys : List Call) (c c' : Call) (i o : Int64)
    (now later : Time)
    → owes_phase c.phase ≡ true
    → owes c' ≡ false
    → Quota.Reach cal
        (sys t (bs ++ c ∷ ys))
        (sys (complete_request cal t c.reservation i o now later) (bs ++ c' ∷ ys))
completed_call cal t bs ys c c' i o now later w n = elim (Bool-cases c.reservation.acquired) [
  | inl a ↦ once (
      Quota.completes (open_of bs) (open_of ys) c.reservation i o now later
        (open_of-owes bs ys c (owes_paid c w a)) (rw (open_of-settled bs ys c' n) refl))
  | inr a ↦ stutter (
      sys_ap (complete_unacquired cal t c.reservation i o now later a)
        (open_of-settled bs ys c' n ∙ sym (open_of-settled bs ys c (owes_free c a))))
]

-- A call that owes what it owed.
pub same_call :
    (cal : Calendar) (t : Tracker) (bs ys : List Call) (c c' : Call)
    → owes c' ≡ owes c
    → c'.reservation ≡ c.reservation
    → Quota.Reach cal (sys t (bs ++ c ∷ ys)) (sys t (bs ++ c' ∷ ys))
same_call cal t bs ys c c' o r = stutter (sys_ap refl (open_of-same bs ys c c' o r))

-- `finish` owes the reservation until its end.
pub begin_finish-owes :
    (e : Option StreamError) (p : Pending) (is was : Bool)
    → owes_phase (forwarded is (begin_finish e p)) ≡ owes_phase (forwarded was p)
unfolding begin_finish
begin_finish-owes e p is was = elim (Bool-cases p.completed) [
  | inl f ↦ ap (λ (q : Pending). owes_phase (forwarded is q)) (if_true p _ f)
  | inr f ↦ ap (λ (q : Pending). owes_phase (forwarded is q)) (if_false p _ f) ∙ sym (rw f refl)
]
