-- ===== src/Usage/Tracker.antt =====
-- internal/usage/tracker.go: the in-memory aggregation. Each operation holds the tracker's mutex
-- from its first access to its last, so it is one function on the state; a reading of the clock is
-- an argument. `Flush` gives the mutex back around the write: see Usage.Flush.
pub mod Tunnels
pub mod Requests
use binboi_go.Base.{
  ℕ, Bool, true, false, Option, none, some, List, [], ◌∷◌, ◌++◌, if◌then◌else◌, ite, length,
}
use binboi_go.Go.Word.{Int64, add, sub, slt}
use binboi_go.Go.Text.{Str, lit, str_discrete, is_empty}
use binboi_go.Go.Map.{Map, get, put, delete, empty}
use binboi_go.Usage.Model.{Time, Limits, Config, Record, normalize, period_daily}

-- What the program takes from package time: the civil date in UTC and its RFC 3339 form.
pub record Calendar : Type 0 where
  pub year : Time → ℕ
  pub month : Time → ℕ
  pub day : Time → ℕ
  pub date : ℕ → ℕ → ℕ → Time
  pub format_rfc3339 : Time → Str

pub record Bucket : Type 0 where
  pub usage : Record
  pub reserved_requests : Int64
  pub reserved_bytes_in : Int64
  pub dirty : Bool

pub record Tracker : Type 0 where
  pub period : Str
  pub flush_interval_seconds : Int64
  pub limits : Limits
  pub buckets : Map Bucket
  pub active_tunnels : Map (Map (Unit {0}))
  pub reserved_tunnels : Map Int64

-- NewTracker
unfoldable pub new_tracker : Config → Tracker
unfolding normalize
new_tracker cfg =
    let normalized = normalize cfg in
    record {
      period = normalized.period;
      flush_interval_seconds = normalized.flush_interval_seconds;
      limits = normalized.limits;
      buckets = empty;
      active_tunnels = empty;
      reserved_tunnels = empty;
    }

-- A missing entry of a map of maps, or of numbers, reads as the zero value.
abbrev pub or_empty : Option (Map (Unit {0})) → Map (Unit {0})
or_empty none = empty
or_empty (some s) = s

abbrev pub or_zero : Option Int64 → Int64
or_zero none = 0
or_zero (some n) = n

-- t.activeTunnels[userID], t.reservedTunnels[userID]
abbrev pub active_of : Tracker → Str → Map (Unit {0})
active_of t user_id = or_empty (get t.active_tunnels user_id)

abbrev pub reserved_of : Tracker → Str → Int64
reserved_of t user_id = or_zero (get t.reserved_tunnels user_id)

-- bucketKey
unfoldable pub bucket_key : Calendar → Str → Str → Time → Str
bucket_key cal user_id period start =
    user_id ++ (lit "|" ++ (period ++ (lit "|" ++ cal.format_rfc3339 start)))

-- periodStart
unfoldable pub period_start : Calendar → Str → Time → Time
period_start cal period now =
    ite (str_discrete period period_daily) (cal.date (cal.year now) (cal.month now) (cal.day now))
      (cal.date (cal.year now) (cal.month now) 1)

abbrev pub current_key : Calendar → Tracker → Str → Time → Str
current_key cal t user_id now = bucket_key cal user_id t.period (period_start cal t.period now)

-- The bucket that `currentBucketLocked` finds, brought up to date, or makes.
abbrev pub found_or_new : Calendar → Tracker → Str → Time → Option Bucket → Bucket
found_or_new cal t user_id now (some b) = record b {
  usage = record b.usage { active_tunnels = length (active_of t user_id) };
}
found_or_new cal t user_id now none = record {
  usage = record {
    user_id = user_id;
    period = t.period;
    period_start = period_start cal t.period now;
    request_count = 0;
    bytes_in = 0;
    bytes_out = 0;
    active_tunnels = length (active_of t user_id);
    updated_at = now;
  };
  reserved_requests = 0;
  reserved_bytes_in = 0;
  dirty = false;
}

-- currentBucketLocked: the key, the bucket and the tracker whose map holds it.
unfoldable pub current_bucket : Calendar → Tracker → Str → Time → Str × Bucket × Tracker
current_bucket cal t user_id now =
    let key = current_key cal t user_id now in
    let bucket = found_or_new cal t user_id now (get t.buckets key) in
    (key, bucket, record t { buckets = put t.buckets key bucket })

-- touchBucketLocked, which reads the clock twice.
unfoldable pub touch_bucket : Calendar → Tracker → Str → Time → Time → Tracker
unfolding current_bucket
touch_bucket cal t user_id now later =
    if is_empty user_id
    then t
    else let (key, bucket, t') = current_bucket cal t user_id now in
      let touched = record bucket {
        usage = record bucket.usage {
          active_tunnels = length (active_of t user_id);
          updated_at = later;
        };
        dirty = true;
      } in
      record t' { buckets = put t'.buckets key touched }

-- ensureActiveSetLocked: the user's set, which the map holds afterwards.
unfoldable pub ensure_active_set : Tracker → Str → Map (Unit {0}) × Tracker
ensure_active_set t user_id = elim (get t.active_tunnels user_id) [
  | some active ↦ (active, t)
  | none ↦ (empty, record t { active_tunnels = put t.active_tunnels user_id empty })
]
