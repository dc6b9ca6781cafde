-- ===== src/Control/Server/Room.antt =====
-- The tunnel reservation of a registration: when there is room for it, and that giving it back undoes
-- it.
use binboi_go.Base.{
  ◌+◌, ◌<◌, ◌≡◌, refl, Bool, ◌&&◌, Result, ok, err, arith, Bool-cases, inl, inr, length, ◌⊎◌, true,
  false,
}
use binboi_go.Go.Word.{add, sub, slt, sign_bit}
use binboi_go.Go.Text.{Str, is_empty, trim_space}
use binboi_go.Go.Map.{put, get-put, get-put_self}
use binboi_go.Usage.Model.{LimitError}
use binboi_go.Usage.Tracker.{Tracker, active_of, reserved_of}
use binboi_go.Usage.Tracker.Tunnels.{
  TunnelReservation, reserve_tunnel, release_tunnel_reservation, drop_reserved,
}
use binboi_go.Control.Server.{reserve_new}

-- The active tunnels, and every user's count of reserved ones, are the same.
pub record SameTunnels (t u : Tracker) : Type 0 where
  pub active : u.active_tunnels ≡ t.active_tunnels
  pub reserved : (k : Str) → reserved_of u k ≡ reserved_of t k

pub SameTunnels-refl : (t : Tracker) → SameTunnels t t
SameTunnels-refl t = record { active = refl; reserved = λ k. refl }

-- A reservation that is given back at once.
abbrev pub given_back : Result LimitError TunnelReservation × Tracker → Tracker
given_back (ok r, t) = release_tunnel_reservation t r
given_back (err e, t) = t

abbrev over : Tracker → Str → Bool
over t u =
    slt 0 t.limits.max_active_tunnels
    && slt t.limits.max_active_tunnels (add (add (length (active_of t u)) (reserved_of t u)) 1)

dropped-SameTunnels :
    (t : Tracker) (u : Str)
    → reserved_of t u + 1 < sign_bit
    → SameTunnels t (
        drop_reserved
          (record t { reserved_tunnels = put t.reserved_tunnels u (add (reserved_of t u) 1) })
          u)
unfolding drop_reserved add sub slt
dropped-SameTunnels t u small = record {
  active = ground (arith, get-put_self t.reserved_tunnels u (add (reserved_of t u) 1));
  reserved = λ k. ground (
    arith,
    get-put_self t.reserved_tunnels u (add (reserved_of t u) 1),
    get-put t.reserved_tunnels u (add (reserved_of t u) 1) k,
    get-put (put t.reserved_tunnels u (add (reserved_of t u) 1)) u (sub (add (reserved_of t u) 1) 1)
        k,
  );
}

given_back-SameTunnels :
    (t : Tracker) (user : Str)
    → ((k : Str) → reserved_of t k + 1 < sign_bit)
    → SameTunnels t (given_back (reserve_tunnel t user))
unfolding reserve_tunnel release_tunnel_reservation
given_back-SameTunnels t user small = elim (Bool-cases (is_empty (trim_space user))) [
  | inl y ↦ rw y (SameTunnels-refl t)
  | inr n ↦ elim (Bool-cases (over t (trim_space user))) [
    | inl o ↦ rw (n, o) (SameTunnels-refl t)
    | inr f ↦ rw (n, f) (rw n (dropped-SameTunnels t (trim_space user) (small (trim_space user))))
  ]
]

pub new_given_back-SameTunnels :
    (t : Tracker) (id user : Str)
    → ((k : Str) → reserved_of t k + 1 < sign_bit)
    → SameTunnels t (given_back (reserve_new t id user))
unfolding reserve_new release_tunnel_reservation
new_given_back-SameTunnels t id user small = elim (Bool-cases (is_empty id)) [
  | inl y ↦ rw y (given_back-SameTunnels t user small)
  | inr n ↦ rw n (SameTunnels-refl t)
]

-- ReserveTunnel's test, on the numbers: the user is nobody, there is no limit, or active and reserved
-- tunnels and one more do not exceed it.
abbrev pub HasRoom : Tracker → Str → Type 0
HasRoom t user =
    (is_empty (trim_space user) ≡ true)
    ⊎ (slt 0 t.limits.max_active_tunnels ≡ false)
    ⊎ (slt t.limits.max_active_tunnels
          (add (add (length (active_of t (trim_space user))) (reserved_of t (trim_space user))) 1)
        ≡ false)

and_false : (a b : Bool) → (a && b) ≡ false → (a ≡ false) ⊎ (b ≡ false)
and_false true b h = inr h
and_false false b h = inl refl

reserved-HasRoom :
    (t : Tracker) (user : Str) (r : TunnelReservation)
    → (reserve_tunnel t user).0 ≡ ok r
    → HasRoom t user
unfolding reserve_tunnel
reserved-HasRoom t user r h = elim (Bool-cases (is_empty (trim_space user))) [
  | inl y ↦ inl y
  | inr n ↦ elim (Bool-cases (over t (trim_space user))) [
    | inl o ↦ absurd (cc (rw (n, o) at h))
    | inr f ↦ inr (and_false _ _ f)
  ]
]

pub new-HasRoom :
    (t : Tracker) (id user : Str) (r : TunnelReservation)
    → (reserve_new t id user).0 ≡ ok r
    → (is_empty id ≡ false) ⊎ HasRoom t user
unfolding reserve_new
new-HasRoom t id user r h = elim (Bool-cases (is_empty id)) [
  | inl y ↦ inr (reserved-HasRoom t user r (rw y at h))
  | inr n ↦ inl n
]
