-- ===== src/Client/Backoff.antt =====
-- How long Run waits.
use binboi_go.Base.{◌≤◌, ◌<◌, ◌*◌, arith}
use binboi_go.Go.Word.{Int64, slt, sign_bit}
use binboi_go.Client.{second, backoff_delay}

-- For attempts that are not negative, a later attempt waits at least as long, and every attempt waits
-- between one and ten seconds.
pub backoff_delay-monotone :
    (a b : Int64)
    → a ≤ b
    → b < sign_bit
    → (second ≤ backoff_delay a)
      × (backoff_delay a ≤ backoff_delay b)
      × (backoff_delay b ≤ 10 * second)
unfolding backoff_delay slt
backoff_delay-monotone a b l h = (ground arith, ground arith, ground arith)
