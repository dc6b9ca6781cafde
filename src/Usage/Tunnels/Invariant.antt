-- ===== src/Usage/Tunnels/Invariant.antt =====
-- What every step keeps: a user's reserved tunnels count the reservations that are held, and with
-- the active ones they stay within the limit.
use binboi_go.Base.{ℕ, ◌+◌, ◌≤◌, ◌≡◌, List, [], ◌∷◌, ◌++◌, true, false, arith, ite, All, subst, ◌∙◌}
use binboi_go.Go.Word.{Int64}
use binboi_go.Go.Text.{Str, str_discrete, is_empty, trim_space}
use binboi_go.Usage.Model.{Time}
use binboi_go.Usage.Tracker.{Calendar, Tracker, reserved_of, current_bucket}
use binboi_go.Usage.Tracker.Tunnels.{TunnelReservation}
use binboi_go.Usage.Tracker.Requests.{
  RequestReservation, reserve_request, release_request, complete_request, reserved_bucket,
}
use binboi_go.Usage.Flush.{FlushItem, flush_collect, flush_restore}
use binboi_go.Usage.Tunnels.Effects.{active_at, SameTunnels, Moved}
use binboi_go.Usage.Tunnels.{System}

-- The held reservations of a user.
unfoldable pub count_user : Str → List TunnelReservation → ℕ
count_user u [] = 0
count_user u (r ∷ rs) = ite (str_discrete r.user_id u) 1 0 + count_user u rs

pub count_user-middle :
    (u : Str) (xs ys : List TunnelReservation) (r : TunnelReservation)
    → count_user u (xs ++ r ∷ ys) ≡ count_user u (xs ++ ys) + ite (str_discrete r.user_id u) 1 0
unfolding count_user
count_user-middle u [] ys r = omega arith
count_user-middle u (x ∷ xs) ys r = omega (arith, count_user-middle u xs ys r)

abbrev pub IsHeld : TunnelReservation → Type 0
IsHeld r = (r.acquired ≡ true) × (is_empty r.user_id ≡ false)

pub record Inv (limit : ℕ) (s : System) : Type 0 where
  pub capped : s.tracker.limits.max_active_tunnels ≡ limit
  pub within : (u : Str) → active_at s.tracker u + reserved_of s.tracker u ≤ limit
  pub counted : (u : Str) → reserved_of s.tracker u ≡ count_user u s.held
  pub are_held : All IsHeld s.held

pub All-middle :
    (xs ys : List TunnelReservation) (r : TunnelReservation)
    → All IsHeld (xs ++ r ∷ ys)
    → IsHeld r × All IsHeld (xs ++ ys)
All-middle [] ys r h = h
All-middle (x ∷ xs) ys r h = let (o, rest) = All-middle xs ys r h.1 in (o, (h.0, rest))

pub Moved-trans :
    {i j k l m n : ℕ} {t u v : Tracker} {user_id : Str}
    → Moved i j k t u user_id
    → Moved l m n u v user_id
    → Moved (i + l) (j + m) (k + n) t v user_id
Moved-trans a b = record {
  active = λ x. ground (arith, a.active x, b.active x);
  reserved = λ x. ground (arith, a.reserved x, b.reserved x);
  limits = b.limits ∙ a.limits;
}

pub Moved-same :
    {i j k : ℕ} {t u v : Tracker} {user_id : Str}
    → Moved i j k t u user_id
    → SameTunnels u v
    → Moved i j k t v user_id
Moved-same a s = record {
  active = λ x. rw s.active (a.active x);
  reserved = λ x. rw s.reserved (a.reserved x);
  limits = s.limits ∙ a.limits;
}

-- The request operations and the flush leave the tunnels alone.
current_bucket-SameTunnels :
    (cal : Calendar) (t : Tracker) (user_id : Str) (now : Time)
    → SameTunnels t (current_bucket cal t user_id now).2
unfolding current_bucket
current_bucket-SameTunnels cal t user_id now = ground arith

pub reserve_request-SameTunnels :
    (cal : Calendar) (t : Tracker) (user : Str) (estimate : Int64) (now : Time)
    → SameTunnels t (reserve_request cal t user estimate now).1
unfolding reserve_request
reserve_request-SameTunnels cal t user estimate now =
    ground (arith, current_bucket-SameTunnels cal t (trim_space user) now)

pub release_request-SameTunnels :
    (t : Tracker) (r : RequestReservation) → SameTunnels t (release_request t r)
unfolding release_request
release_request-SameTunnels t r = ground arith

reserved_bucket-SameTunnels :
    (cal : Calendar) (t : Tracker) (r : RequestReservation) (now : Time)
    → SameTunnels t (reserved_bucket cal t r now).2
unfolding reserved_bucket
reserved_bucket-SameTunnels cal t r now =
    ground (arith, current_bucket-SameTunnels cal t r.user_id now)

pub complete_request-SameTunnels :
    (cal : Calendar) (t : Tracker) (r : RequestReservation) (bytes_in bytes_out : Int64)
    (now later : Time)
    → SameTunnels t (complete_request cal t r bytes_in bytes_out now later)
unfolding complete_request
complete_request-SameTunnels cal t r bytes_in bytes_out now later =
    ground (arith, reserved_bucket-SameTunnels cal t r now)

pub flush_collect-SameTunnels : (t : Tracker) (now : Time) → SameTunnels t (flush_collect t now).1
unfolding flush_collect
flush_collect-SameTunnels t now = ground arith

pub flush_restore-SameTunnels :
    (t : Tracker) (items : List FlushItem) → SameTunnels t (flush_restore t items)
unfolding flush_restore
flush_restore-SameTunnels t items = ground arith

module _ (limit : ℕ) where
  pub Inv-SameTunnels :
      (s : System) (u : Tracker)
      → SameTunnels s.tracker u
      → Inv limit s
      → Inv limit (record s { tracker = u })
  Inv-SameTunnels s u same v = record {
    capped = rw same.limits v.capped;
    within = λ k. rw (same.active, same.reserved) (v.within k);
    counted = λ k. rw same.reserved (v.counted k);
    are_held = v.are_held;
  }

  pub Inv-admitted :
      (s : System) (u : Tracker) (r : TunnelReservation)
      → r.acquired ≡ true
      → is_empty r.user_id ≡ false
      → Moved 0 0 1 s.tracker u r.user_id
      → active_at s.tracker r.user_id + reserved_of s.tracker r.user_id + 1
        ≤ s.tracker.limits.max_active_tunnels
      → Inv limit s
      → Inv limit (record { tracker = u; held = r ∷ s.held })
  unfolding count_user
  Inv-admitted s u r a n m fits v = record {
    capped = rw m.limits v.capped;
    within = λ k. ground (arith, m.active k, m.reserved k, fits, v.within k, v.capped);
    counted = λ k. ground (arith, m.reserved k, v.counted k);
    are_held = ((a, n), v.are_held);
  }

  pub Inv-settled :
      (n : ℕ) (s : System) (u : Tracker) (xs ys : List TunnelReservation) (r : TunnelReservation)
      → n ≤ 1
      → s.held ≡ xs ++ r ∷ ys
      → Moved n 1 0 s.tracker u r.user_id
      → Inv limit s
      → Inv limit (record { tracker = u; held = xs ++ ys })
  Inv-settled n s u xs ys r small e m v = record {
    capped = rw m.limits v.capped;
    within = λ k. ground (arith, m.active k, m.reserved k, v.within k);
    counted = λ k.
        let old : reserved_of s.tracker k ≡ count_user k (xs ++ r ∷ ys) =
          subst (λ rs. reserved_of s.tracker k ≡ count_user k rs) e (v.counted k) in
        ground (arith, m.reserved k, old, count_user-middle k xs ys r);
    are_held = (All-middle xs ys r (subst (All IsHeld) e v.are_held)).1;
  }

  pub Inv-closed :
      (s : System) (u : Tracker) (user_id : Str)
      → Moved 0 0 0 s.tracker u user_id
      → Inv limit s
      → Inv limit (record s { tracker = u })
  Inv-closed s u user_id m v = record {
    capped = rw m.limits v.capped;
    within = λ k. ground (arith, m.active k, m.reserved k, v.within k);
    counted = λ k. ground (arith, m.reserved k, v.counted k);
    are_held = v.are_held;
  }
