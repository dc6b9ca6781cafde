-- ===== src/Api/Capacity.antt =====
-- How many frames BufferedFrameCapacity of pkg/api/protocol.go gives to a stream.
use binboi_go.Base.{ℕ, ◌+◌, ◌*◌, ◌/◌, ◌%◌, ◌≤◌, ◌<◌, not, arith, ◌==◌, if◌then◌else◌}
use binboi_go.Go.Word.{slt, add, modulus, sign_bit}
use binboi_go.Api.Protocol.{FlowControl, normalize_flow, buffered_frame_capacity, body_chunk_size}

-- Normalize leaves a positive number of buffered bytes.
buffered-range :
    (f : FlowControl)
    → f.buffered_bytes_per_stream < modulus
    → (0 < (normalize_flow f).buffered_bytes_per_stream)
      × ((normalize_flow f).buffered_bytes_per_stream < sign_bit)
unfolding normalize_flow slt
buffered-range f h = (ground arith, ground arith)

ceil : ℕ → ℕ
unfolding add slt
ceil n =
    let whole = n / body_chunk_size in
    let capacity = if not (n % body_chunk_size == 0) then add whole 1 else whole in
    if slt capacity 1 then 1 else capacity

ceil-least :
    (n : ℕ)
    → 0 < n
    → n < sign_bit
    → (n ≤ ceil n * body_chunk_size) × (ceil n * body_chunk_size < n + body_chunk_size)
unfolding ceil add slt
ceil-least n p h = (ground arith, ground arith)

-- BufferedFrameCapacity is the least number of body chunks that hold the buffered bytes of a
-- stream, for every setting, a negative or missing one included.
pub buffered_frame_capacity-least :
    (f : FlowControl)
    → f.buffered_bytes_per_stream < modulus
    → ((normalize_flow f).buffered_bytes_per_stream ≤ buffered_frame_capacity f * body_chunk_size)
      × (buffered_frame_capacity f * body_chunk_size
          < (normalize_flow f).buffered_bytes_per_stream + body_chunk_size)
unfolding buffered_frame_capacity ceil
buffered_frame_capacity-least f h =
    let r = buffered-range f h in ceil-least (normalize_flow f).buffered_bytes_per_stream r.0 r.1
