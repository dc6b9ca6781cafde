-- ===== src/Transport.antt =====
-- internal/transport/transport.go and internal/proxy/proxy.go: upstream targets and their routes.
use binboi_go.Base.{◌++◌, Option, none, some, Result, ok, err, if◌then◌else◌, ite}
use binboi_go.Go.Word.{Int64}
use binboi_go.Go.Text.{Str, lit, str_discrete, is_empty, trim_space}
use binboi_go.Go.Map.{put, empty}
use binboi_go.Go.Unicode.{Unicode, to_lower}
use binboi_go.Api.Protocol.{normalize_tunnel_protocol, port_out_of_range}
use binboi_go.Tunnel.Engine.{Route}

-- A parsed URL: the fields and methods of `*url.URL` that the program reads.
pub record Url : Type 0 where
  pub scheme : Str
  pub host : Str
  pub hostname : Str
  pub port : Str
  pub text : Str

-- What the program takes from net/url, strconv and unicode.
pub record Std : Type 0 where
  pub unicode : Unicode
  pub parse_url : Str → Option Url
  pub atoi : Str → Option Int64
  pub itoa : Int64 → Str

pub data TargetError : Type 0 where
  parse_failed missing_scheme missing_host unsupported_protocol local_port_range : TargetError

pub record Target : Type 0 where
  pub raw : Str
  pub url : Url
  pub protocol : Str

-- inferProtocol
unfoldable pub infer_protocol : Std → Str → Str
infer_protocol std scheme =
    let s = to_lower std.unicode scheme in
    ite (str_discrete s (lit "https")) (lit "https")
      (ite (str_discrete s (lit "tcp")) (lit "tcp") (lit "http"))

-- The protocol is checked, and kept as it was computed.
abbrev checked_target : Std → Str → Url → Str → Result TargetError Target
checked_target std raw url protocol = elim (normalize_tunnel_protocol std.unicode protocol) [
  | err _ ↦ err unsupported_protocol
  | ok _ ↦ ok (record { raw = raw; url = url; protocol = protocol })
]

-- ParseTarget
unfoldable pub parse_target : Std → Str → Str → Result TargetError Target
unfolding infer_protocol normalize_tunnel_protocol
parse_target std raw explicit = elim (std.parse_url raw) [
  | none ↦ err parse_failed
  | some url ↦
      let given = to_lower std.unicode (trim_space explicit) in
      let protocol = if is_empty given then infer_protocol std url.scheme else given in
      if is_empty url.scheme
      then err missing_scheme
      else if is_empty url.host
      then err missing_host
      else checked_target std raw url protocol
]

-- LocalTarget
unfoldable pub local_target : Std → Str → Int64 → Result TargetError Target
unfolding parse_target
local_target std protocol port = elim (normalize_tunnel_protocol std.unicode protocol) [
  | err _ ↦ err unsupported_protocol
  | ok normalized ↦
      if port_out_of_range port
      then err local_port_range
      else parse_target std (normalized ++ (lit "://127.0.0.1:" ++ std.itoa port)) normalized
]

-- Planner.Plan, for the planner of a forwarded header
unfoldable pub plan : Str → Target → Str → Route
plan forwarded_header target session_id = record {
  upstream = target.url.text;
  headers = if is_empty forwarded_header then empty else put empty forwarded_header session_id;
}
