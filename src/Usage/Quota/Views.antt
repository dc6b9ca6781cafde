-- ===== src/Usage/Quota/Views.antt =====
-- The two request counters of a bucket key, and what each tracker operation does to them.
use binboi_go.Base.{
  ℕ, ◌+◌, ◌≤◌, ◌<◌, ◌≡◌, refl, true, false, Option, none, some, Result, ok, err, arith, ite, ◌∙◌,
  Bool-cases, inl, inr,
}
use binboi_go.Go.Word.{Int64, add, slt, sign_bit}
use binboi_go.Go.Text.{Str, str_discrete, is_empty, trim_space}
use binboi_go.Go.Map.{get, put, get-put, get-put_self}
use binboi_go.Usage.Model.{Time, LimitError}
use binboi_go.Usage.Tracker.{
  Calendar, Bucket, Tracker, current_key, current_bucket, touch_bucket, found_or_new,
}
use binboi_go.Usage.Tracker.Requests.{
  RequestReservation, check_limits, reserved, admit, no_request_reservation, reserve_request,
}

-- Finished requests, and requests that are reserved, under a key; none where there is no bucket.
abbrev pub count_of : Option Bucket → ℕ
count_of none = 0
count_of (some b) = b.usage.request_count

abbrev pub pending_of : Option Bucket → ℕ
pending_of none = 0
pending_of (some b) = b.reserved_requests

abbrev pub requests_at : Tracker → Str → ℕ
requests_at t k = count_of (get t.buckets k)

abbrev pub pending_at : Tracker → Str → ℕ
pending_at t k = pending_of (get t.buckets k)

-- Two trackers that agree on both counters under every key and on the limits.
pub record SameCounts (t u : Tracker) : Type 0 where
  pub requests : (k : Str) → requests_at u k ≡ requests_at t k
  pub pending : (k : Str) → pending_at u k ≡ pending_at t k
  pub limits : u.limits ≡ t.limits

pub current_bucket-SameCounts :
    (cal : Calendar) (t : Tracker) (user_id : Str) (now : Time)
    → SameCounts t (current_bucket cal t user_id now).2
unfolding current_bucket
current_bucket-SameCounts cal t user_id now = record {
  requests = λ k. ground (
    arith,
    get-put t.buckets (current_key cal t user_id now)
        (found_or_new cal t user_id now (get t.buckets (current_key cal t user_id now))) k,
  );
  pending = λ k. ground (
    arith,
    get-put t.buckets (current_key cal t user_id now)
        (found_or_new cal t user_id now (get t.buckets (current_key cal t user_id now))) k,
  );
  limits = refl;
}

SameCounts-put :
    (t : Tracker) (key : Str) (b : Bucket)
    → b.usage.request_count ≡ requests_at t key
    → b.reserved_requests ≡ pending_at t key
    → SameCounts t (record t { buckets = put t.buckets key b })
SameCounts-put t key b c p = record {
  requests = λ k. ground (arith, get-put t.buckets key b k);
  pending = λ k. ground (arith, get-put t.buckets key b k);
  limits = refl;
}

pub SameCounts-refl : (t : Tracker) → SameCounts t t
SameCounts-refl t = record { requests = λ k. refl; pending = λ k. refl; limits = refl }

pub SameCounts-trans : {t u v : Tracker} → SameCounts t u → SameCounts u v → SameCounts t v
SameCounts-trans a b = record {
  requests = λ k. b.requests k ∙ a.requests k;
  pending = λ k. b.pending k ∙ a.pending k;
  limits = b.limits ∙ a.limits;
}

-- The bucket that `current_bucket` returns is the one that its tracker holds.
pub current_bucket-counts :
    (cal : Calendar) (t : Tracker) (user_id : Str) (now : Time)
    → ((current_bucket cal t user_id now).1.usage.request_count
        ≡ requests_at (current_bucket cal t user_id now).2 (current_bucket cal t user_id now).0)
      × ((current_bucket cal t user_id now).1.reserved_requests
          ≡ pending_at (current_bucket cal t user_id now).2 (current_bucket cal t user_id now).0)
unfolding current_bucket
current_bucket-counts cal t user_id now =
    let key = current_key cal t user_id now in
    let b = found_or_new cal t user_id now (get t.buckets key) in
    (rw (get-put_self t.buckets key b), rw (get-put_self t.buckets key b))

touched-SameCounts :
    (cal : Calendar) (t : Tracker) (user_id : Str) (now later : Time)
    → is_empty user_id ≡ false
    → SameCounts (current_bucket cal t user_id now).2 (touch_bucket cal t user_id now later)
unfolding touch_bucket
touched-SameCounts cal t user_id now later h =
    let c = current_bucket-counts cal t user_id now in
    rw h (
      SameCounts-put (current_bucket cal t user_id now).2 (current_bucket cal t user_id now).0 _ c.0
        c.1)

pub touch_bucket-SameCounts :
    (cal : Calendar) (t : Tracker) (user_id : Str) (now later : Time)
    → SameCounts t (touch_bucket cal t user_id now later)
touch_bucket-SameCounts cal t user_id now later = elim (Bool-cases (is_empty user_id)) [
  | inl y ↦ unfold touch_bucket in rw y (SameCounts-refl t)
  | inr n ↦
      SameCounts-trans (current_bucket-SameCounts cal t user_id now)
        (touched-SameCounts cal t user_id now later n)
]

-- What an admitted reservation leaves behind.
pub record Reserved (t u : Tracker) (r : RequestReservation) : Type 0 where
  pub acquired : r.acquired ≡ true
  pub user : is_empty r.user_id ≡ false
  pub requests : (k : Str) → requests_at u k ≡ requests_at t k
  pub pending : (k : Str) → pending_at u k ≡ pending_at t k + ite (str_discrete r.bucket_key k) 1 0
  pub limits : u.limits ≡ t.limits
  pub fits : requests_at u r.bucket_key + pending_at u r.bucket_key ≤ t.limits.max_requests

-- A limit that is set, and that is not the greatest `int64`.
pub record IsCapped (t : Tracker) : Type 0 where
  pub positive : 0 < t.limits.max_requests
  pub below : t.limits.max_requests + 1 < sign_bit

check_limits-fits :
    (t : Tracker) (user_id : Str) (b : Bucket) (estimate : Int64)
    → IsCapped t
    → b.usage.request_count + b.reserved_requests ≤ t.limits.max_requests
    → check_limits t user_id b estimate ≡ none
    → b.usage.request_count + b.reserved_requests + 1 ≤ t.limits.max_requests
unfolding check_limits slt add
check_limits-fits t user_id b estimate cap within e = ground arith

-- The counters of every key together stay within the limit on requests.
abbrev pub Within : Tracker → Type 0
Within t = (k : Str) → requests_at t k + pending_at t k ≤ t.limits.max_requests

Within-SameCounts : {t u : Tracker} → SameCounts t u → Within t → Within u
Within-SameCounts {t} {u} s w k = rw (s.requests k, s.pending k, s.limits) (w k)

IsCapped-limits : {t u : Tracker} → u.limits ≡ t.limits → IsCapped t → IsCapped u
IsCapped-limits e c = record { positive = rw e c.positive; below = rw e c.below }

reserved-Reserved :
    (t : Tracker) (user_id key : Str) (b : Bucket) (estimate : Int64)
    → is_empty user_id ≡ false
    → b.usage.request_count ≡ requests_at t key
    → b.reserved_requests ≡ pending_at t key
    → t.limits.max_requests < sign_bit
    → requests_at t key + pending_at t key + 1 ≤ t.limits.max_requests
    → Reserved t
        (record t { buckets = put t.buckets key (reserved b estimate) })
        (record {
          user_id = user_id;
          bucket_key = key;
          estimated_bytes_in = estimate;
          acquired = true;
        })
unfolding add
reserved-Reserved t user_id key b estimate h c p below fits = record {
  acquired = refl;
  user = h;
  requests = λ k. ground (arith, get-put t.buckets key (reserved b estimate) k);
  pending = λ k. ground (arith, get-put t.buckets key (reserved b estimate) k);
  limits = refl;
  fits = ground (arith, get-put t.buckets key (reserved b estimate) key);
}

-- What ReserveRequest can answer: no reservation for the empty user, an error, both with every
-- counter as it was, or an admitted reservation.
pub data Answer (t u : Tracker) : Result LimitError RequestReservation → Type 0 where
  skipped : SameCounts t u → Answer t u (ok no_request_reservation)
  refused : {e : LimitError} → SameCounts t u → Answer t u (err e)
  admitted : {r : RequestReservation} → Reserved t u r → Answer t u (ok r)

admit-Answer :
    (t : Tracker) (user_id key : Str) (b : Bucket) (estimate : Int64) (o : Option LimitError)
    → is_empty user_id ≡ false
    → b.usage.request_count ≡ requests_at t key
    → b.reserved_requests ≡ pending_at t key
    → IsCapped t
    → Within t
    → check_limits t user_id b estimate ≡ o
    → Answer t (admit t user_id key b estimate o).1 (admit t user_id key b estimate o).0
admit-Answer t user_id key b estimate (some e) h c p cap w eq = refused (SameCounts-refl t)
admit-Answer t user_id key b estimate none h c p cap w eq =
    let below : t.limits.max_requests < sign_bit = omega (arith, cap.below) in
    let room = check_limits-fits t user_id b estimate cap (rw (c, p) (w key)) eq in
    admitted (reserved-Reserved t user_id key b estimate h c p below (omega (arith, room, c, p)))

Reserved-after :
    {t t' u : Tracker} {r : RequestReservation} → SameCounts t t' → Reserved t' u r → Reserved t u r
Reserved-after s v = record {
  acquired = v.acquired;
  user = v.user;
  requests = λ k. v.requests k ∙ s.requests k;
  pending = λ k. rw (← s.pending k) (v.pending k);
  limits = v.limits ∙ s.limits;
  fits = rw (← s.limits) v.fits;
}

Answer-after :
    {t t' u : Tracker} {o : Result LimitError RequestReservation}
    → SameCounts t t'
    → Answer t' u o
    → Answer t u o
Answer-after s (skipped v) = skipped (SameCounts-trans s v)
Answer-after s (refused v) = refused (SameCounts-trans s v)
Answer-after s (admitted v) = admitted (Reserved-after s v)

-- Every answer of ReserveRequest, under a limit that the counters keep.
pub reserve_request-Answer :
    (cal : Calendar) (t : Tracker) (user : Str) (estimate : Int64) (now : Time)
    → IsCapped t
    → Within t
    → Answer t
        (reserve_request cal t user estimate now).1
        (reserve_request cal t user estimate now).0
reserve_request-Answer cal t user estimate now cap w =
    let same = current_bucket-SameCounts cal t (trim_space user) now in
    let counts = current_bucket-counts cal t (trim_space user) now in
    elim (Bool-cases (is_empty (trim_space user))) [
      | inl y ↦ unfold reserve_request in rw y (skipped (SameCounts-refl t))
      | inr n ↦
          unfold reserve_request in
          rw n (
            Answer-after same (
              admit-Answer _ _ _ _ _ _ n counts.0 counts.1 (IsCapped-limits same.limits cap)
                (Within-SameCounts same w) refl))
    ]
