-- ===== src/Usage/Quota/Settle.antt =====
-- What giving a reservation back, or completing it, does to the request counters.
use binboi_go.Base.{
  ℕ, ◌+◌, ◌<◌, ◌≡◌, refl, true, false, some, arith, ite, inl, inr, Option-cases, length, ap,
}
use binboi_go.Go.Word.{Int64, add, sub, slt, sign_bit}
use binboi_go.Go.Text.{Str, str_discrete, is_empty}
use binboi_go.Go.Map.{get, get-put}
use binboi_go.Usage.Model.{Time, Record}
use binboi_go.Usage.Tracker.{Calendar, Bucket, Tracker, active_of}
use binboi_go.Usage.Tracker.Requests.{
  RequestReservation, unreserve, release_request, finished, reserved_bucket, complete_request,
  clamp,
}
use binboi_go.Usage.Quota.Views.{requests_at, pending_at}

-- One reservation less under the key of `r`, and `n` more finished requests there.
pub record Settled (n : ℕ) (t u : Tracker) (r : RequestReservation) : Type 0 where
  pub requests :
      (k : Str) → requests_at u k ≡ requests_at t k + ite (str_discrete r.bucket_key k) n 0
  pub pending : (k : Str) → pending_at u k + ite (str_discrete r.bucket_key k) 1 0 ≡ pending_at t k
  pub limits : u.limits ≡ t.limits

-- A key with a pending request has a bucket.
pub bucket_of_pending :
    (t : Tracker) (k : Str) → 0 < pending_at t k → (b : Bucket) × (get t.buckets k ≡ some b)
bucket_of_pending t k h = elim (Option-cases (get t.buckets k)) [
  | inl e ↦ absurd (ground arith)
  | inr f ↦ f
]

unreserve-pending :
    (b : Bucket) (estimate : Int64)
    → 0 < b.reserved_requests
    → b.reserved_requests < sign_bit
    → ((unreserve b estimate).reserved_requests + 1 ≡ b.reserved_requests)
      × ((unreserve b estimate).usage ≡ b.usage)
unfolding unreserve slt sub
unreserve-pending b estimate h l = (ground arith, refl)

module _ (t : Tracker) (r : RequestReservation) (b : Bucket) (acquired : r.acquired ≡ true)
    (user : is_empty r.user_id ≡ false) (found : get t.buckets r.bucket_key ≡ some b)
    (some_pending : 0 < b.reserved_requests) (small : b.reserved_requests < sign_bit) where
  pub release-Settled : Settled 0 t (release_request t r) r
  unfolding release_request
  release-Settled =
      let u = unreserve-pending b r.estimated_bytes_in some_pending small in
      rw (acquired, user, found)
        (record {
          requests = λ k.
              ground
                (arith, get-put t.buckets r.bucket_key (unreserve b r.estimated_bytes_in) k, u.1);
          pending = λ k.
              ground
                (arith, get-put t.buckets r.bucket_key (unreserve b r.estimated_bytes_in) k, u.0);
          limits = refl;
        })

  reserved_bucket-found :
      (cal : Calendar) (now : Time) → reserved_bucket cal t r now ≡ (r.bucket_key, b, t)
  unfolding reserved_bucket
  reserved_bucket-found cal now = rw (found, reserved_bucket)

  pub complete-Settled :
      (cal : Calendar) (bytes_in bytes_out : Int64) (now later : Time)
      → b.usage.request_count + 1 < sign_bit
      → Settled 1 t (complete_request cal t r bytes_in bytes_out now later) r
  unfolding complete_request
  complete-Settled cal bytes_in bytes_out now later room =
      let u = unreserve-pending b r.estimated_bytes_in some_pending small in
      rw (reserved_bucket-found cal now, acquired, user)
        (unfold finished add in
          record {
            requests = λ k. ground (
              arith,
              get-put t.buckets r.bucket_key
                  (finished (unreserve b r.estimated_bytes_in) (clamp bytes_in) (clamp bytes_out)
                    (length (active_of t r.user_id)) later)
                  k,
              ap (λ (x : Record). x.request_count) u.1,
            );
            pending = λ k. ground (
              arith,
              get-put t.buckets r.bucket_key
                  (finished (unreserve b r.estimated_bytes_in) (clamp bytes_in) (clamp bytes_out)
                    (length (active_of t r.user_id)) later)
                  k,
              u.0,
            );
            limits = refl;
          })
