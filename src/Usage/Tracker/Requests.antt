-- ===== src/Usage/Tracker/Requests.antt =====
-- Reservations of requests: ReserveRequest, ReleaseRequest and CompleteRequest.
use binboi_go.Base.{
  Bool, true, false, not, ◌&&◌, ◌||◌, [], Result, ok, err, if◌then◌else◌, length, Option, none,
  some,
}
use binboi_go.Go.Word.{Int64, add, sub, slt}
use binboi_go.Go.Text.{Str, is_empty, trim_space}
use binboi_go.Go.Map.{get, put}
use binboi_go.Usage.Model.{Time, LimitError, Resource}
use binboi_go.Usage.Tracker.{Calendar, Bucket, Tracker, active_of, current_bucket}

pub record RequestReservation : Type 0 where
  pub user_id : Str
  pub bucket_key : Str
  pub estimated_bytes_in : Int64
  pub acquired : Bool

abbrev pub no_request_reservation : RequestReservation
no_request_reservation = record {
  user_id = [];
  bucket_key = [];
  estimated_bytes_in = 0;
  acquired = false;
}

-- A negative count of bytes is taken for zero.
abbrev pub clamp : Int64 → Int64
clamp n = if slt n 0 then 0 else n

-- The three tests of ReserveRequest on the user's bucket, in their order.
unfoldable pub check_limits : Tracker → Str → Bucket → Int64 → Option LimitError
check_limits t user_id b estimate =
    let projected = add (add b.usage.request_count b.reserved_requests) 1 in
    let projected_bytes = add (add b.usage.bytes_in b.reserved_bytes_in) estimate in
    if slt 0 t.limits.max_requests && slt t.limits.max_requests projected
    then some (record {
      user_id = user_id;
      resource = Resource.requests;
      limit = t.limits.max_requests;
      current = projected;
    })
    else if slt 0 t.limits.max_bytes_in && slt t.limits.max_bytes_in projected_bytes
    then some (record {
      user_id = user_id;
      resource = Resource.bytes_in;
      limit = t.limits.max_bytes_in;
      current = projected_bytes;
    })
    else if slt 0 t.limits.max_bytes_out && not (slt b.usage.bytes_out t.limits.max_bytes_out)
    then some (record {
      user_id = user_id;
      resource = Resource.bytes_out;
      limit = t.limits.max_bytes_out;
      current = b.usage.bytes_out;
    })
    else none

abbrev pub reserved : Bucket → Int64 → Bucket
reserved b estimate = record b {
  reserved_requests = add b.reserved_requests 1;
  reserved_bytes_in = add b.reserved_bytes_in estimate;
}

-- What ReserveRequest answers once its tests are made.
abbrev pub admit :
    Tracker
    → Str
    → Str
    → Bucket
    → Int64
    → Option LimitError
    → Result LimitError RequestReservation × Tracker
admit t user_id key b estimate (some e) = (err e, t)
admit t user_id key b estimate none = (
  ok (record {
    user_id = user_id;
    bucket_key = key;
    estimated_bytes_in = estimate;
    acquired = true;
  }),
  record t { buckets = put t.buckets key (reserved b estimate) },
)

-- ReserveRequest
unfoldable pub reserve_request :
    Calendar → Tracker → Str → Int64 → Time → Result LimitError RequestReservation × Tracker
unfolding current_bucket
reserve_request cal t user estimated_bytes_in now =
    let user_id = trim_space user in
    let estimate = clamp estimated_bytes_in in
    let (key, bucket, t') = current_bucket cal t user_id now in
    if is_empty user_id
    then (ok no_request_reservation, t)
    else admit t' user_id key bucket estimate (check_limits t' user_id bucket estimate)

-- The reservation's request and bytes go back, neither below zero.
unfoldable pub unreserve : Bucket → Int64 → Bucket
unreserve b estimate = record b {
  reserved_requests =
      if slt 0 b.reserved_requests then sub b.reserved_requests 1 else b.reserved_requests;
  reserved_bytes_in =
      if not (slt b.reserved_bytes_in estimate) then sub b.reserved_bytes_in estimate else 0;
}

-- ReleaseRequest
unfoldable pub release_request : Tracker → RequestReservation → Tracker
unfolding unreserve
release_request t r =
    if not r.acquired || is_empty r.user_id then t else elim (get t.buckets r.bucket_key) [
      | none ↦ t
      | some b ↦ record t {
        buckets = put t.buckets r.bucket_key (unreserve b r.estimated_bytes_in);
      }
    ]

-- The bucket with one more finished request.
unfoldable pub finished : Bucket → Int64 → Int64 → Int64 → Time → Bucket
finished b bytes_in bytes_out active now = record b {
  usage = record b.usage {
    request_count = add b.usage.request_count 1;
    bytes_in = add b.usage.bytes_in bytes_in;
    bytes_out = add b.usage.bytes_out bytes_out;
    active_tunnels = active;
    updated_at = now;
  };
  dirty = true;
}

-- The bucket of the reservation, or the current one if it is gone.
unfoldable pub reserved_bucket :
    Calendar → Tracker → RequestReservation → Time → Str × Bucket × Tracker
unfolding current_bucket
reserved_bucket cal t r now = elim (get t.buckets r.bucket_key) [
  | some b ↦ (r.bucket_key, b, t)
  | none ↦ current_bucket cal t r.user_id now
]

-- CompleteRequest
unfoldable pub complete_request :
    Calendar → Tracker → RequestReservation → Int64 → Int64 → Time → Time → Tracker
unfolding reserved_bucket unreserve finished
complete_request cal t r bytes_in bytes_out now later =
    let (key, bucket, t') = reserved_bucket cal t r now in
    let done =
      finished (unreserve bucket r.estimated_bytes_in) (clamp bytes_in) (clamp bytes_out)
        (length (active_of t' r.user_id)) later in
    if not r.acquired || is_empty r.user_id
    then t
    else record t' { buckets = put t'.buckets key done }
