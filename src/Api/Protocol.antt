-- ===== src/Api/Protocol.antt =====
-- pkg/api/protocol.go: protocol names, the register payload, flow control and upgrade headers.
use binboi_go.Base.{
  ℕ, ◌*◌, ◌/◌, ◌%◌, Bool, true, false, not, ◌||◌, Option, none, some, Result, ok, err,
  if◌then◌else◌, ite, ◌==◌,
}
use binboi_go.Go.Word.{Int64, slt, add}
use binboi_go.Go.Text.{Str, lit, str_discrete, is_empty, trim_space}
use binboi_go.Go.Unicode.{Unicode, to_lower}

pub data ProtocolError : Type 0 where
  unsupported_protocol local_port_range resume_incomplete : ProtocolError
  buffered_bytes_too_small streams_not_positive timeout_not_positive : ProtocolError
  idle_timeout_not_positive : ProtocolError

abbrev pub is_tunnel_protocol : Str → Bool
is_tunnel_protocol p =
    ite (str_discrete p (lit "http")) true
      (ite (str_discrete p (lit "https")) true (ite (str_discrete p (lit "tcp")) true false))

-- NormalizeTunnelProtocol
unfoldable pub normalize_tunnel_protocol : Unicode → Str → Result ProtocolError Str
normalize_tunnel_protocol u protocol =
    let normalized = to_lower u (trim_space protocol) in
    if is_tunnel_protocol normalized then ok normalized else err unsupported_protocol

pub record RegisterPayload : Type 0 where
  pub protocol : Str
  pub local_port : Int64
  pub auth_token : Str
  pub resume_tunnel_id : Str
  pub resume_token : Str

-- `p < 1 || p > 65535`
abbrev pub port_out_of_range : Int64 → Bool
port_out_of_range p = slt p 1 || slt 65535 p

-- `a != b` on Booleans
abbrev differ : Bool → Bool → Bool
differ true b = not b
differ false b = b

-- RegisterPayload.Validate: `none` stands for the nil error.
unfoldable pub validate_register : Unicode → RegisterPayload → Option ProtocolError
validate_register u p = elim (normalize_tunnel_protocol u p.protocol) [
  | err e ↦ some e
  | ok _ ↦
      if port_out_of_range p.local_port
      then some local_port_range
      else if differ (is_empty p.resume_tunnel_id) (is_empty p.resume_token)
      then some resume_incomplete
      else none
]

pub record FlowControl : Type 0 where
  pub max_concurrent_streams : Int64
  pub buffered_bytes_per_stream : Int64
  pub stream_timeout_seconds : Int64
  pub stream_idle_timeout_seconds : Int64

abbrev pub body_chunk_size : ℕ
body_chunk_size = 32 * 1024

-- A setting that is not positive takes its default.
abbrev pub default_to : Int64 → Int64 → Int64
default_to d n = if slt 0 n then n else d

-- FlowControl.Normalize
unfoldable pub normalize_flow : FlowControl → FlowControl
unfolding slt
normalize_flow f = record {
  max_concurrent_streams = default_to 100 f.max_concurrent_streams;
  buffered_bytes_per_stream = default_to (128 * 1024) f.buffered_bytes_per_stream;
  stream_timeout_seconds = default_to 60 f.stream_timeout_seconds;
  stream_idle_timeout_seconds = default_to 15 f.stream_idle_timeout_seconds;
}

abbrev pub check_flow : FlowControl → Option ProtocolError
check_flow n =
    if not (slt 0 n.max_concurrent_streams)
    then some streams_not_positive
    else if slt n.buffered_bytes_per_stream body_chunk_size
    then some buffered_bytes_too_small
    else if not (slt 0 n.stream_timeout_seconds)
    then some timeout_not_positive
    else if not (slt 0 n.stream_idle_timeout_seconds)
    then some idle_timeout_not_positive
    else none

-- FlowControl.Validate
unfoldable pub validate_flow : FlowControl → Option ProtocolError
unfolding normalize_flow
validate_flow f = check_flow (normalize_flow f)

-- BufferedFrameCapacity; the dividend is positive, so `/` and `%` are those of Go.
unfoldable pub buffered_frame_capacity : FlowControl → Int64
unfolding normalize_flow
buffered_frame_capacity f =
    let bytes = (normalize_flow f).buffered_bytes_per_stream in
    let whole = bytes / body_chunk_size in
    let capacity = if not (bytes % body_chunk_size == 0) then add whole 1 else whole in
    if slt capacity 1 then 1 else capacity
