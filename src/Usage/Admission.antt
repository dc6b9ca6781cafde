-- ===== src/Usage/Admission.antt =====
-- Exactly which requests ReserveRequest of internal/usage/tracker.go admits, where no sum of
-- `int64` numbers overflows, and what happens where the projected bytes do.
use binboi_go.Base.{
  ℕ, ◌+◌, ◌≤◌, ◌<◌, ◌≡◌, ◌↔◌, refl, false, Option, none, some, ok, arith, sym, subst,
}
use binboi_go.Go.Word.{Int64, IsNat, add, slt, sign_bit}
use binboi_go.Go.Text.{Str, is_empty, trim_space}
use binboi_go.Go.Map.{get}
use binboi_go.Usage.Model.{Time}
use binboi_go.Usage.Tracker.{Calendar, Bucket, Tracker, current_key, current_bucket}
use binboi_go.Usage.Tracker.Requests.{RequestReservation, check_limits, reserve_request, clamp}

-- The limits, each a number that is not negative.
pub record AreNat (t : Tracker) : Type 0 where
  pub requests : IsNat t.limits.max_requests
  pub bytes_in : IsNat t.limits.max_bytes_in
  pub bytes_out : IsNat t.limits.max_bytes_out

-- What each limit asks of a bucket and an estimate; a limit of zero asks nothing.
pub record Fits (t : Tracker) (b : Bucket) (estimate : ℕ) : Type 0 where
  pub requests :
      0 < t.limits.max_requests
      → b.usage.request_count + b.reserved_requests + 1 ≤ t.limits.max_requests
  pub bytes_in :
      0 < t.limits.max_bytes_in
      → b.usage.bytes_in + b.reserved_bytes_in + estimate ≤ t.limits.max_bytes_in
  pub bytes_out : 0 < t.limits.max_bytes_out → b.usage.bytes_out < t.limits.max_bytes_out

-- No sum that ReserveRequest forms overflows.
pub record NoOverflow (b : Bucket) (estimate : ℕ) : Type 0 where
  pub requests : b.usage.request_count + b.reserved_requests + 1 < sign_bit
  pub bytes_in : b.usage.bytes_in + b.reserved_bytes_in + estimate < sign_bit
  pub bytes_out : IsNat b.usage.bytes_out

check_limits-none :
    (t : Tracker) (user_id : Str) (b : Bucket) (estimate : Int64)
    → AreNat t
    → NoOverflow b estimate
    → check_limits t user_id b estimate ≡ none
    → Fits t b estimate
unfolding check_limits slt add
check_limits-none t user_id b estimate n o e = ground arith

check_limits-Fits :
    (t : Tracker) (user_id : Str) (b : Bucket) (estimate : Int64)
    → AreNat t
    → NoOverflow b estimate
    → Fits t b estimate
    → check_limits t user_id b estimate ≡ none
unfolding check_limits slt add
check_limits-Fits t user_id b estimate n o f = ground (arith, f.requests, f.bytes_in, f.bytes_out)

-- The user's bucket, as ReserveRequest finds it.
abbrev pub held_bucket : Calendar → Tracker → Str → Time → Option Bucket
held_bucket cal t user now = get t.buckets (current_key cal t (trim_space user) now)

-- The bucket's counters are those that the limits are checked on.
checked :
    (cal : Calendar) (t : Tracker) (user : Str) (now : Time) (b : Bucket) (estimate : Int64)
    → held_bucket cal t user now ≡ some b
    → check_limits
        (current_bucket cal t (trim_space user) now).2
        (trim_space user)
        (current_bucket cal t (trim_space user) now).1
        estimate
      ≡ check_limits t (trim_space user) b estimate
unfolding current_bucket check_limits
checked cal t user now b estimate e = rw e

-- The answer is a reservation exactly when the tests pass.
answer_iff :
    (cal : Calendar) (t : Tracker) (user : Str) (now : Time) (b : Bucket) (estimate : Int64)
    → is_empty (trim_space user) ≡ false
    → held_bucket cal t user now ≡ some b
    → ((r : RequestReservation) × ((reserve_request cal t user estimate now).0 ≡ ok r))
      ↔ (check_limits t (trim_space user) b (clamp estimate) ≡ none)
unfolding reserve_request
answer_iff cal t user now b estimate n e = (
  λ h. ground (arith, checked cal t user now b (clamp estimate) e),
  λ c. rw (n, checked cal t user now b (clamp estimate) e, c) (_, refl),
)

-- Suppose that no sum overflows and that the user has a bucket. Then ReserveRequest gives out a
-- reservation exactly when every limit that is set leaves room: the finished and the pending
-- requests and this one, the bytes read and reserved and the estimate, each at most its limit, and
-- the bytes written below theirs.
pub reserve_request-exact :
    (cal : Calendar) (t : Tracker) (user : Str) (now : Time) (b : Bucket) (estimate : Int64)
    → is_empty (trim_space user) ≡ false
    → held_bucket cal t user now ≡ some b
    → AreNat t
    → NoOverflow b (clamp estimate)
    → ((r : RequestReservation) × ((reserve_request cal t user estimate now).0 ≡ ok r))
      ↔ Fits t b (clamp estimate)
reserve_request-exact cal t user now b estimate n e nat o = (
  λ h.
      check_limits-none t (trim_space user) b (clamp estimate) nat o
        ((answer_iff cal t user now b estimate n e).0 h),
  λ f.
      (answer_iff cal t user now b estimate n e).1
        (check_limits-Fits t (trim_space user) b (clamp estimate) nat o f),
)

clamp_nat : (n : Int64) → IsNat n → clamp n ≡ n
unfolding slt
clamp_nat n h = ground arith

overflow_passes :
    (t : Tracker) (user_id : Str) (b : Bucket) (estimate : Int64)
    → t.limits.max_requests ≡ 0
    → t.limits.max_bytes_out ≡ 0
    → IsNat t.limits.max_bytes_in
    → b.usage.bytes_in + b.reserved_bytes_in < sign_bit
    → IsNat estimate
    → sign_bit ≤ b.usage.bytes_in + b.reserved_bytes_in + estimate
    → check_limits t user_id b estimate ≡ none
unfolding check_limits slt add
overflow_passes t user_id b estimate r o n small e big = ground arith

-- The limit on bytes read does not hold where the projected sum leaves the range of `int64`: with
-- no limit on requests or on bytes written, whatever the limit on bytes read, ReserveRequest
-- admits every request whose estimate takes the bytes of the user's bucket to 2^63 or more.
pub reserve_request_overflow :
    (cal : Calendar) (t : Tracker) (user : Str) (now : Time) (b : Bucket) (estimate : Int64)
    → is_empty (trim_space user) ≡ false
    → held_bucket cal t user now ≡ some b
    → t.limits.max_requests ≡ 0
    → t.limits.max_bytes_out ≡ 0
    → IsNat t.limits.max_bytes_in
    → b.usage.bytes_in + b.reserved_bytes_in < sign_bit
    → IsNat estimate
    → sign_bit ≤ b.usage.bytes_in + b.reserved_bytes_in + estimate
    → (r : RequestReservation) × ((reserve_request cal t user estimate now).0 ≡ ok r)
reserve_request_overflow cal t user now b estimate n e r o nat small en big =
    (answer_iff cal t user now b estimate n e).1 (
      subst (λ x. check_limits t (trim_space user) b x ≡ none) (sym (clamp_nat estimate en))
        (overflow_passes t (trim_space user) b estimate r o nat small en big))
