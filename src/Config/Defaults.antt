-- ===== src/Config/Defaults.antt =====
-- The settings of internal/config/config.go that encoding/json leaves out when they are zero, and their
-- defaults.
use binboi_go.Base.{
  ◌≡◌, refl, ap, false, [], ◌∷◌, none, if◌then◌else◌, if_cases, inl, inr, arith, ◌==◌, ◌*◌, ◌^◌,
  ◌∙◌, true,
}
use binboi_go.Go.Text.{Str, is_empty}
use binboi_go.Go.Word.{slt, Int64}
use binboi_go.Api.Protocol.{FlowControl, check_flow, default_to, normalize_flow, validate_flow}
use binboi_go.Usage.Model
use binboi_go.Usage.Model.{Limits, validate_limits}
use binboi_go.Config.{Config, validate, default_config}
use binboi_go.Config.Valid.{HasRemote, IsPositive, validate-exact, validate-IsValid}

-- A string, or another one in the place of the empty one.
abbrev or_default : Str → Str → Str
or_default d s = if is_empty s then d else s

-- A number, or another one in the place of zero.
abbrev or_number : Int64 → Int64 → Int64
or_number d n = if n == 0 then d else n

abbrev read_flow : FlowControl → FlowControl → FlowControl
read_flow b c = record {
  max_concurrent_streams = or_number b.max_concurrent_streams c.max_concurrent_streams;
  buffered_bytes_per_stream = or_number b.buffered_bytes_per_stream c.buffered_bytes_per_stream;
  stream_timeout_seconds = or_number b.stream_timeout_seconds c.stream_timeout_seconds;
  stream_idle_timeout_seconds =
      or_number b.stream_idle_timeout_seconds c.stream_idle_timeout_seconds;
}

abbrev read_limits : Limits → Limits → Limits
read_limits b c = record {
  max_requests = or_number b.max_requests c.max_requests;
  max_bytes_in = or_number b.max_bytes_in c.max_bytes_in;
  max_bytes_out = or_number b.max_bytes_out c.max_bytes_out;
  max_active_tunnels = or_number b.max_active_tunnels c.max_active_tunnels;
}

-- Settings read into `b` from the encoding of `c`: each field tagged `omitempty` (three of AuthConfig,
-- all of api.FlowControl and of usage.Limits) keeps the value of `b` where that of `c` is zero.
abbrev pub read_into : Config → Config → Config
read_into b c = record c {
  control = record c.control {
    flow_control = read_flow b.control.flow_control c.control.flow_control;
  };
  usage = record c.usage { limits = read_limits b.usage.limits c.usage.limits };
  auth = record c.auth {
    remote_validate_url = or_default b.auth.remote_validate_url c.auth.remote_validate_url;
    remote_validate_secret = or_default b.auth.remote_validate_secret c.auth.remote_validate_secret;
    remote_validate_timeout_seconds =
        or_number b.auth.remote_validate_timeout_seconds c.auth.remote_validate_timeout_seconds;
  };
}

-- The settings with the default in the place of each zero that is not written.
abbrev default_flow : FlowControl
default_flow = record {
  max_concurrent_streams = 100;
  buffered_bytes_per_stream = 128 * 1024;
  stream_timeout_seconds = 60;
  stream_idle_timeout_seconds = 15;
}

abbrev default_limits : Limits
default_limits = record {
  max_requests = 1000000;
  max_bytes_in = 2 ^ 30;
  max_bytes_out = 2 ^ 30;
  max_active_tunnels = 10;
}

abbrev pub with_defaults : Config → Config
with_defaults c = record c {
  control = record c.control { flow_control = read_flow default_flow c.control.flow_control };
  usage = record c.usage { limits = read_limits default_limits c.usage.limits };
  auth = record c.auth {
    remote_validate_timeout_seconds = or_number 5 c.auth.remote_validate_timeout_seconds;
  };
}

or_default_empty : (s : Str) → or_default [] s ≡ s
or_default_empty [] = refl
or_default_empty (c ∷ s) = refl

pub read_into_default : (c : Config) → read_into default_config c ≡ with_defaults c
unfolding normalize_flow slt
read_into_default c =
    rw (or_default_empty c.auth.remote_validate_url, or_default_empty c.auth.remote_validate_secret)
      refl

-- The default of a positive setting stays where the setting is put in the place of zero first.
default_to-or_number :
    (d n : Int64) → slt 0 d ≡ true → default_to d (or_number d n) ≡ default_to d n
unfolding slt
default_to-or_number d n p =
    if_cases (λ m. default_to d m ≡ default_to d n) (n == 0) d n (λ y. ground arith) (λ z. refl)

normalize-read_flow :
    (f : FlowControl) → normalize_flow (read_flow default_flow f) ≡ normalize_flow f
unfolding normalize_flow
normalize-read_flow f =
    rw
      (
        default_to-or_number 100 f.max_concurrent_streams (unfold slt in refl),
        default_to-or_number (128 * 1024) f.buffered_bytes_per_stream (unfold slt in refl),
        default_to-or_number 60 f.stream_timeout_seconds (unfold slt in refl),
        default_to-or_number 15 f.stream_idle_timeout_seconds (unfold slt in refl),
      )
      refl

flow_valid : (f : FlowControl) → validate_flow (read_flow default_flow f) ≡ validate_flow f
unfolding validate_flow
flow_valid f = ap check_flow (normalize-read_flow f)

negative-or_number : (d n : Int64) → slt d 0 ≡ false → slt (or_number d n) 0 ≡ slt n 0
unfolding slt
negative-or_number d n p =
    if_cases (λ m. slt m 0 ≡ slt n 0) (n == 0) d n (λ y. ground arith) (λ z. refl)

limits_valid : (l : Limits) → validate_limits (read_limits default_limits l) ≡ validate_limits l
unfolding validate_limits
limits_valid l =
    rw
      (
        negative-or_number 1000000 l.max_requests (unfold slt in refl),
        negative-or_number (2 ^ 30) l.max_bytes_in (unfold slt in refl),
        negative-or_number (2 ^ 30) l.max_bytes_out (unfold slt in refl),
        negative-or_number 10 l.max_active_tunnels (unfold slt in refl),
      )
      refl

usage_valid :
    (c : Model.Config)
    → Model.validate (record c { limits = read_limits default_limits c.limits }) ≡ Model.validate c
unfolding Model.validate Model.normalize
usage_valid c = rw (limits_valid c.limits) refl

timeout-IsPositive : (n : Int64) → IsPositive n → IsPositive (if n == 0 then 5 else n)
unfolding slt
timeout-IsPositive n t = if_cases IsPositive (n == 0) 5 n (λ y. refl) (λ z. t)

with_defaults-HasRemote : (c : Config) → HasRemote c.auth → HasRemote (with_defaults c).auth
with_defaults-HasRemote c (inl y) = inl y
with_defaults-HasRemote c (inr (s, t)) =
    inr (s, timeout-IsPositive c.auth.remote_validate_timeout_seconds t)

pub with_defaults-valid : (c : Config) → validate c ≡ none → validate (with_defaults c) ≡ none
with_defaults-valid c h =
    let v = validate-IsValid c h in
    (validate-exact (with_defaults c)).1 (record {
      name = v.name;
      listen_address = v.listen_address;
      protocol_address = v.protocol_address;
      heartbeat = v.heartbeat;
      flow_control = flow_valid c.control.flow_control ∙ v.flow_control;
      public_host = v.public_host;
      default_protocol = v.default_protocol;
      tunnel_database = v.tunnel_database;
      auth_database = v.auth_database;
      cache_ttl = v.cache_ttl;
      last_used_interval = v.last_used_interval;
      remote = with_defaults-HasRemote c v.remote;
      usage = usage_valid c.usage ∙ v.usage;
      level = v.level;
      format = v.format;
    })
