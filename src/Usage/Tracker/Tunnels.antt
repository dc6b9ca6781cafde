-- ===== src/Usage/Tracker/Tunnels.antt =====
-- Reservations of active tunnels: ReserveTunnel, ReleaseTunnelReservation, ConfirmTunnel,
-- RestoreTunnel and TrackTunnelClosed.
use binboi_go.Base.{
  Bool, true, false, not, ◌&&◌, ◌||◌, [], Result, ok, err, if◌then◌else◌, length, ◌==◌, none, some,
}
use binboi_go.Go.Word.{add, sub, slt}
use binboi_go.Go.Text.{Str, is_empty, trim_space}
use binboi_go.Go.Map.{get, put, delete}
use binboi_go.Usage.Model.{Time, LimitError, Resource}
use binboi_go.Usage.Tracker.{
  Calendar, Tracker, active_of, reserved_of, touch_bucket, ensure_active_set,
}

pub record TunnelReservation : Type 0 where
  pub user_id : Str
  pub acquired : Bool

abbrev pub no_tunnel_reservation : TunnelReservation
no_tunnel_reservation = record { user_id = []; acquired = false }

-- ReserveTunnel
unfoldable pub reserve_tunnel : Tracker → Str → Result LimitError TunnelReservation × Tracker
reserve_tunnel t user =
    let user_id = trim_space user in
    let limit = t.limits.max_active_tunnels in
    let current_active = add (length (active_of t user_id)) (reserved_of t user_id) in
    if is_empty user_id
    then (ok no_tunnel_reservation, t)
    else if slt 0 limit && slt limit (add current_active 1)
    then (
      err (record {
        user_id = user_id;
        resource = Resource.active_tunnels;
        limit = limit;
        current = add current_active 1;
      }),
      t,
    )
    else (
      ok (record { user_id = user_id; acquired = true }),
      record t {
        reserved_tunnels = put t.reserved_tunnels user_id (add (reserved_of t user_id) 1);
      },
    )

-- `if t.reservedTunnels[id] > 0 { t.reservedTunnels[id]-- }`
unfoldable pub drop_reserved : Tracker → Str → Tracker
drop_reserved t user_id =
    if slt 0 (reserved_of t user_id)
    then record t {
      reserved_tunnels = put t.reserved_tunnels user_id (sub (reserved_of t user_id) 1);
    }
    else t

-- ReleaseTunnelReservation
unfoldable pub release_tunnel_reservation : Tracker → TunnelReservation → Tracker
release_tunnel_reservation t r =
    if not r.acquired || is_empty r.user_id then t else drop_reserved t r.user_id

-- `active := t.ensureActiveSetLocked(id); active[tunnelID] = struct{}{}`
unfoldable pub mark_active : Tracker → Str → Str → Tracker
unfolding ensure_active_set
mark_active t user_id tunnel_id =
    let (active, t') = ensure_active_set t user_id in
    record t' { active_tunnels = put t'.active_tunnels user_id (put active tunnel_id tt) }

-- ConfirmTunnel
unfoldable pub confirm_tunnel : Calendar → Tracker → TunnelReservation → Str → Time → Time → Tracker
confirm_tunnel cal t r tunnel_id now later =
    if not r.acquired || is_empty r.user_id || is_empty tunnel_id
    then t
    else touch_bucket cal (mark_active (drop_reserved t r.user_id) r.user_id tunnel_id) r.user_id
        now later

-- RestoreTunnel
unfoldable pub restore_tunnel : Calendar → Tracker → Str → Str → Time → Time → Tracker
restore_tunnel cal t user tunnel_id now later =
    let user_id = trim_space user in
    if is_empty user_id || is_empty tunnel_id
    then t
    else touch_bucket cal (mark_active t user_id tunnel_id) user_id now later

-- The user's set without the tunnel; a set that is empty then leaves the map.
unfoldable pub mark_closed : Tracker → Str → Str → Tracker
mark_closed t user_id tunnel_id = elim (get t.active_tunnels user_id) [
  | none ↦ t
  | some active ↦
      let rest = delete active tunnel_id in
      if length rest == 0
      then record t { active_tunnels = delete (put t.active_tunnels user_id rest) user_id }
      else record t { active_tunnels = put t.active_tunnels user_id rest }
]

-- TrackTunnelClosed
unfoldable pub track_tunnel_closed : Calendar → Tracker → Str → Str → Time → Time → Tracker
track_tunnel_closed cal t user tunnel_id now later =
    let user_id = trim_space user in
    if is_empty user_id || is_empty tunnel_id
    then t
    else touch_bucket cal (mark_closed t user_id tunnel_id) user_id now later
