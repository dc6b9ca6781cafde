-- ===== src/Tests/Accounting.antt =====
-- The results on internal/usage, at a small tracker.
use binboi_go.Base.{
  ◌≡◌, ◌≤◌, if◌then◌else◌, ◌+◌, refl, [], ◌∷◌, ◌++◌, ◌-◌, ◌⊎◌, ◌↔◌, some, none, ok, false, true,
  arith,
}
use binboi_go.Tests.{calendar, config, limits, no_faults}
use binboi_go.Go.Word.{sign_bit, slt}
use binboi_go.Go.Text.{Str, lit, str_discrete, trim_space}
use binboi_go.Go.Map.{get}
use binboi_go.Disk.{Disk, File, Faults, contents, load_locked, save_locked, database, StoreError}
use binboi_go.Disk.Atomic.{works, save_locked-atomic}
use binboi_go.Usage.Model.{Record, normalize}
use binboi_go.Usage.Tracker.{Bucket, Tracker, bucket_key, period_start, new_tracker, reserved_of}
use binboi_go.Usage.Tracker.Requests.{RequestReservation, reserve_request}
use binboi_go.Usage.Tracker.Tunnels.{reserve_tunnel}
use binboi_go.Usage.Quota
use binboi_go.Usage.Quota.{opened}
use binboi_go.Usage.Quota.Views.{requests_at, pending_at}
use binboi_go.Usage.Quota.Invariant.{quota_kept, count_key}
use binboi_go.Usage.Quota.Invariant
use binboi_go.Usage
use binboi_go.Usage.Tunnels.{taken}
use binboi_go.Usage.Tunnels.Effects.{active_at}
use binboi_go.Usage.Tunnels.Invariant.{count_user}
use binboi_go.Usage.Tunnels.Limit.{tunnel_limit_kept}
use binboi_go.Usage.Tunnels.Limit
use binboi_go.Usage.Flush.{flush_collect, write_items, snapshot}
use binboi_go.Usage.Flush.Keyed.{WellKeyed}
use binboi_go.Usage.Flush.Durable.{Fares, flush_durable}
use binboi_go.Usage.Flush.Reached.{reached-WellKeyed}
use binboi_go.Usage.Admission.{Fits, reserve_request-exact, reserve_request_overflow}

-- One request reserved by a new tracker.
abbrev first_request : Quota.System
first_request = record {
  tracker = (reserve_request calendar (new_tracker config) (lit "ann") 100 40).1;
  open_reservations =
      opened (reserve_request calendar (new_tracker config) (lit "ann") 100 40).0 [];
}

abbrev one_request : Quota.Reach calendar (Quota.Invariant.start config) first_request
one_request = Quota.next Quota.here (Quota.reserves (lit "ann") 100 40 refl)

abbrev first_key : Str
first_key = bucket_key calendar (lit "ann") (lit "monthly") 61

-- The finished requests and the reservations under a key together stay within two.
quota_kept_example :
    (requests_at first_request.tracker first_key
        + count_key first_key first_request.open_reservations
      ≤ 2)
    × (pending_at first_request.tracker first_key
        ≡ count_key first_key first_request.open_reservations)
unfolding new_tracker normalize
quota_kept_example =
    quota_kept calendar config first_request (omega arith) (omega arith) one_request first_key

reached-WellKeyed_example : WellKeyed calendar first_request.tracker.buckets
reached-WellKeyed_example = reached-WellKeyed calendar config first_request one_request

-- One tunnel reserved by a new tracker.
abbrev first_tunnel : Usage.Tunnels.System
first_tunnel = record {
  tracker = (reserve_tunnel (new_tracker config) (lit "ann")).1;
  held = taken (reserve_tunnel (new_tracker config) (lit "ann")).0 [];
}

abbrev one_tunnel : Usage.Tunnels.Reach calendar (Limit.start config) first_tunnel
one_tunnel = Usage.Tunnels.next Usage.Tunnels.here (Usage.Tunnels.reserves (lit "ann") refl)

tunnel_limit_kept_example :
    (active_at first_tunnel.tracker (lit "ann") + count_user (lit "ann") first_tunnel.held ≤ 1)
    × (reserved_of first_tunnel.tracker (lit "ann") ≡ count_user (lit "ann") first_tunnel.held)
tunnel_limit_kept_example =
    tunnel_limit_kept calendar config first_tunnel (omega arith) (omega arith) one_tunnel
      (lit "ann")

-- A disk whose database does not exist yet.
abbrev new_disk : Disk Record
new_disk = record { path = lit "usage.json"; file = File.missing; temps = 0 }

-- A bucket with one finished request that no write has seen.
abbrev busy : Bucket
busy = record {
  usage = record {
    user_id = lit "ann";
    period = lit "monthly";
    period_start = 61;
    request_count = 1;
    bytes_in = 10;
    bytes_out = 20;
    active_tunnels = 0;
    updated_at = 40;
  };
  reserved_requests = 0;
  reserved_bytes_in = 0;
  dirty = true;
}

abbrev busy_key : Str
busy_key = lit "ann|monthly|" ++ 61 ∷ []

abbrev busy_tracker : Tracker
busy_tracker = record (new_tracker config) { buckets = (busy_key, busy) ∷ [] }

busy-WellKeyed : WellKeyed calendar busy_tracker.buckets
unfolding bucket_key get
busy-WellKeyed = record { distinct = (refl, tt); keyed = (refl, tt) }

-- During the write a second request is counted.
abbrev busier : Bucket
busier = record busy { usage = record busy.usage { request_count = 2 } }

abbrev meanwhile : Tracker
meanwhile = record busy_tracker { buckets = (busy_key, busier) ∷ [] }

flush_durable_example :
    (get (flush_collect busy_tracker 50).1.buckets busy_key
      ≡ some (record busy { usage = snapshot busy_tracker 50 busy; dirty = false }))
    × Fares meanwhile new_disk
        (snapshot busy_tracker 50 busy)
        busy_key
        busier
        (write_items no_faults meanwhile new_disk (flush_collect busy_tracker 50).0)
unfolding get str_discrete load_locked
flush_durable_example =
    flush_durable calendar no_faults busy_tracker meanwhile new_disk 50 [] busy_key busy busier
      busy-WellKeyed refl refl refl refl

-- The temporary file can neither take the place of the database nor be removed.
abbrev stuck : Faults
stuck = record no_faults { rename = true; remove = true }

save_locked-atomic_example :
    ((works stuck new_disk ≡ true)
      × ((save_locked stuck new_disk (database [])).0 ≡ none)
      × (contents (save_locked stuck new_disk (database [])).1 ≡ ok [])
      × ((save_locked stuck new_disk (database [])).1.path ≡ new_disk.path)
      × ((save_locked stuck new_disk (database [])).1.temps ≡ new_disk.temps))
    ⊎ ((works stuck new_disk ≡ false)
        × ((e : StoreError) × ((save_locked stuck new_disk (database [])).0 ≡ some e))
        × ((save_locked stuck new_disk (database [])).1.path ≡ new_disk.path)
        × ((save_locked stuck new_disk (database [])).1.file ≡ new_disk.file)
        × (new_disk.temps ≤ (save_locked stuck new_disk (database [])).1.temps)
        × ((save_locked stuck new_disk (database [])).1.temps
            ≤ new_disk.temps + (if stuck.remove then 1 else 0)))
save_locked-atomic_example = save_locked-atomic stuck new_disk (database [])

-- The bucket has room for one more request, so ReserveRequest admits it.
reserve_request-exact_example :
    ((r : RequestReservation) × ((reserve_request calendar busy_tracker (lit " ann") 5 40).0
        ≡ ok r))
    ↔ Fits busy_tracker busy 5
unfolding trim_space get str_discrete bucket_key period_start new_tracker normalize slt
reserve_request-exact_example =
    reserve_request-exact calendar busy_tracker (lit " ann") 40 busy 5 refl refl
      (record { requests = omega arith; bytes_in = omega arith; bytes_out = omega arith })
      (record { requests = omega arith; bytes_in = omega arith; bytes_out = omega arith })

-- A tracker with a limit on the bytes read alone.
abbrev narrow_tracker : Tracker
narrow_tracker = record busy_tracker {
  limits = record limits { max_requests = 0; max_bytes_in = 1000; max_active_tunnels = 0 };
}

-- An estimate of 2^63 - 1 bytes passes a limit of 1000.
reserve_request_overflow_example :
    (r : RequestReservation) × ((reserve_request calendar narrow_tracker
        (lit "ann")
        (sign_bit - 1)
        40).0
      ≡ ok r)
unfolding trim_space get str_discrete bucket_key period_start new_tracker normalize
reserve_request_overflow_example =
    reserve_request_overflow calendar narrow_tracker (lit "ann") 40 busy (sign_bit - 1) refl refl
      refl refl (omega arith) (omega arith) (omega arith) (omega arith)
