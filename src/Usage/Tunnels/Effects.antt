-- ===== src/Usage/Tunnels/Effects.antt =====
-- What each operation of internal/usage/tracker.go does to the tunnels of a user: those that are
-- active, and those that are reserved.
use binboi_go.Base.{
  ℕ, ◌+◌, ◌≤◌, ◌<◌, ◌≡◌, refl, Bool, true, false, some, Result, ok, err, arith, ite, length,
  Bool-cases, Option-cases, inl, inr, ◌∙◌, ◌&&◌, ltb, ltb→lt, sym,
}
use binboi_go.Go.Word.{add, sub, slt, sign_bit}
use binboi_go.Go.Text.{Str, str_discrete, is_empty, trim_space}
use binboi_go.Go.Map.{
  Map, get, put, delete, get-put, get-delete, length-put-le, length-delete-le, empty,
}
use binboi_go.Usage.Model.{Time, LimitError}
use binboi_go.Usage.Tracker.{
  Calendar, Tracker, active_of, reserved_of, touch_bucket, ensure_active_set,
}
use binboi_go.Usage.Tracker.Tunnels.{
  TunnelReservation, reserve_tunnel, drop_reserved, mark_active, mark_closed, no_tunnel_reservation,
}

-- The active and the reserved tunnels of a user, counted.
abbrev pub active_at : Tracker → Str → ℕ
active_at t u = length (active_of t u)

-- Trackers with the same tunnels and limits.
pub record SameTunnels (t u : Tracker) : Type 0 where
  pub active : u.active_tunnels ≡ t.active_tunnels
  pub reserved : u.reserved_tunnels ≡ t.reserved_tunnels
  pub limits : u.limits ≡ t.limits

pub touch_bucket-SameTunnels :
    (cal : Calendar) (t : Tracker) (user_id : Str) (now later : Time)
    → SameTunnels t (touch_bucket cal t user_id now later)
unfolding touch_bucket
touch_bucket-SameTunnels cal t user_id now later = ground arith

-- `up` more tunnels at most are active for the user, `back` of the reserved ones are given back and
-- `more` are new; nothing changes for other users.
pub record Moved (up back more : ℕ) (t u : Tracker) (user_id : Str) : Type 0 where
  pub active : (k : Str) → active_at u k ≤ active_at t k + ite (str_discrete user_id k) up 0
  pub reserved :
      (k : Str)
      → reserved_of u k + ite (str_discrete user_id k) back 0
        ≡ reserved_of t k + ite (str_discrete user_id k) more 0
  pub limits : u.limits ≡ t.limits

pub drop_reserved-Moved :
    (t : Tracker) (user_id : Str)
    → 0 < reserved_of t user_id
    → reserved_of t user_id < sign_bit
    → Moved 0 1 0 t (drop_reserved t user_id) user_id
unfolding drop_reserved slt sub
drop_reserved-Moved t user_id pos small = record {
  active = λ k. ground arith;
  reserved =
      λ k. ground (arith, get-put t.reserved_tunnels user_id (sub (reserved_of t user_id) 1) k);
  limits = ground arith;
}

mark_active_old :
    (t : Tracker) (user_id tunnel_id : Str) (active : Map (Unit {0}))
    → get t.active_tunnels user_id ≡ some active
    → mark_active t user_id tunnel_id
      ≡ record t { active_tunnels = put t.active_tunnels user_id (put active tunnel_id tt) }
unfolding mark_active ensure_active_set
mark_active_old t user_id tunnel_id active e = rw (e, mark_active, ensure_active_set)

pub mark_active-Moved :
    (t : Tracker) (user_id tunnel_id : Str)
    → Moved 1 0 0 t (mark_active t user_id tunnel_id) user_id
mark_active-Moved t user_id tunnel_id = elim (Option-cases (get t.active_tunnels user_id)) [
  | inl e ↦
      unfold mark_active ensure_active_set in
      record {
        active = λ k. ground (
          arith,
          e,
          get-put t.active_tunnels user_id empty k,
          get-put (put t.active_tunnels user_id empty) user_id (put empty tunnel_id tt) k,
          length-put-le {0} {V = Unit {0}} empty tunnel_id tt,
        );
        reserved = λ k. ground arith;
        limits = ground arith;
      }
  | inr (active, e) ↦ rw (mark_active_old t user_id tunnel_id active e) (record {
    active = λ k. ground (
      arith,
      e,
      get-put t.active_tunnels user_id (put active tunnel_id tt) k,
      length-put-le active tunnel_id tt,
    );
    reserved = λ k. ground arith;
    limits = refl;
  })
]

pub mark_closed-Moved :
    (t : Tracker) (user_id tunnel_id : Str)
    → Moved 0 0 0 t (mark_closed t user_id tunnel_id) user_id
mark_closed-Moved t user_id tunnel_id = elim (Option-cases (get t.active_tunnels user_id)) [
  | inl e ↦
      unfold mark_closed in
      record {
        active = λ k. ground (arith, e);
        reserved = λ k. ground (arith, e);
        limits = ground (arith, e);
      }
  | inr (active, e) ↦
      unfold mark_closed in
      record {
        active = λ k. ground (
          arith,
          e,
          get-put t.active_tunnels user_id (delete active tunnel_id) k,
          get-delete (put t.active_tunnels user_id (delete active tunnel_id)) user_id k,
          length-delete-le active tunnel_id,
        );
        reserved = λ k. ground (arith, e);
        limits = ground (arith, e);
      }
]

-- What ReserveTunnel can answer.
pub data TunnelAnswer (t u : Tracker) : Result LimitError TunnelReservation → Type 0 where
  skipped : u ≡ t → TunnelAnswer t u (ok no_tunnel_reservation)
  refused :
      {e : LimitError}
      → u ≡ t
      → t.limits.max_active_tunnels < active_at t e.user_id + reserved_of t e.user_id + 1
      → TunnelAnswer t u (err e)
  admitted :
      {r : TunnelReservation}
      → r.acquired ≡ true
      → is_empty r.user_id ≡ false
      → Moved 0 0 1 t u r.user_id
      → active_at t r.user_id + reserved_of t r.user_id + 1 ≤ t.limits.max_active_tunnels
      → TunnelAnswer t u (ok r)

-- A limit that is set, and that is not the greatest `int`.
pub record IsCapped (t : Tracker) : Type 0 where
  pub positive : 0 < t.limits.max_active_tunnels
  pub below : t.limits.max_active_tunnels + 1 < sign_bit

reserved-Moved :
    (t : Tracker) (user_id : Str)
    → reserved_of t user_id + 1 < sign_bit
    → Moved 0 0 1 t
        (record t {
          reserved_tunnels = put t.reserved_tunnels user_id (add (reserved_of t user_id) 1);
        })
        user_id
unfolding add
reserved-Moved t user_id small = record {
  active = λ k. ground arith;
  reserved =
      λ k. ground (arith, get-put t.reserved_tunnels user_id (add (reserved_of t user_id) 1) k);
  limits = refl;
}

-- The two tests of ReserveTunnel, as it makes them.
abbrev over_limit : Tracker → Str → Bool
over_limit t user_id =
    let current_active = add (active_at t user_id) (reserved_of t user_id) in
    slt 0 t.limits.max_active_tunnels && slt t.limits.max_active_tunnels (add current_active 1)

over_limit_exact :
    (t : Tracker) (user_id : Str)
    → IsCapped t
    → active_at t user_id + reserved_of t user_id ≤ t.limits.max_active_tunnels
    → over_limit t user_id
      ≡ ltb t.limits.max_active_tunnels (active_at t user_id + reserved_of t user_id + 1)
unfolding add slt
over_limit_exact t user_id c w = ground (arith, c.positive, c.below)

pub reserve_tunnel-TunnelAnswer :
    (t : Tracker) (user : Str)
    → IsCapped t
    → ((u : Str) → active_at t u + reserved_of t u ≤ t.limits.max_active_tunnels)
    → TunnelAnswer t (reserve_tunnel t user).1 (reserve_tunnel t user).0
reserve_tunnel-TunnelAnswer t user c w =
    let u = trim_space user in
    let exact = over_limit_exact t u c (w u) in
    elim (Bool-cases (is_empty u)) [
      | inl y ↦ unfold reserve_tunnel in rw y (skipped refl)
      | inr n ↦ elim (Bool-cases (over_limit t u)) [
        | inl over ↦
            unfold reserve_tunnel in rw (n, over) (refused refl (ltb→lt _ _ (sym exact ∙ over)))
        | inr room ↦
            let fits : active_at t u + reserved_of t u + 1 ≤ t.limits.max_active_tunnels =
              ground (arith, sym exact ∙ room) in
            let small : reserved_of t u + 1 < sign_bit = omega (arith, c.below) in
            unfold reserve_tunnel in rw (n, room) (admitted refl n (reserved-Moved t u small) fits)
      ]
    ]
