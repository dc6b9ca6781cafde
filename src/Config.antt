-- ===== src/Config.antt =====
-- internal/config/config.go: the daemon's settings, their defaults and validation, and the file that
-- holds them. Encoding and decoding are those of encoding/json.
pub mod Valid
pub mod Defaults
pub mod File
use binboi_go.Base.{
  ℕ, ◌^◌, ◌*◌, Bool, true, false, not, ◌||◌, ◌&&◌, List, [], ◌∷◌, Option, none, some, Result, ok,
  err, if◌then◌else◌,
}
use binboi_go.Go.Word.{Int64, slt}
use binboi_go.Go.Text.{Str, lit, is_empty}
use binboi_go.Go.Map.{Map, get, put}
use binboi_go.Api.Protocol.{FlowControl, ProtocolError, normalize_flow, validate_flow}
use binboi_go.Usage.Model
use binboi_go.Usage.Model.{Limits, period_monthly}

pub record ServiceConfig : Type 0 where
  pub name : Str
  pub environment : Str

pub record ControlConfig : Type 0 where
  pub listen_address : Str
  pub protocol_address : Str
  pub heartbeat_interval_seconds : Int64
  pub flow_control : FlowControl

pub record TunnelConfig : Type 0 where
  pub public_host : Str
  pub default_protocol : Str
  pub database_path : Str

pub record ProxyConfig : Type 0 where
  pub forwarded_header : Str

pub record AuthConfig : Type 0 where
  pub database_path : Str
  pub cache_ttl_seconds : Int64
  pub last_used_update_interval_seconds : Int64
  pub remote_validate_url : Str
  pub remote_validate_secret : Str
  pub remote_validate_timeout_seconds : Int64

pub record ObservabilityConfig : Type 0 where
  pub level : Str
  pub format : Str

pub record Config : Type 0 where
  pub service : ServiceConfig
  pub control : ControlConfig
  pub tunnel : TunnelConfig
  pub proxy : ProxyConfig
  pub auth : AuthConfig
  pub usage : Model.Config
  pub observability : ObservabilityConfig

-- Default
abbrev pub default_config : Config
default_config = record {
  service = record { name = lit "binboid"; environment = lit "development" };
  control = record {
    listen_address = lit ":8080";
    protocol_address = lit ":8081";
    heartbeat_interval_seconds = 10;
    flow_control = normalize_flow (record {
      max_concurrent_streams = 0;
      buffered_bytes_per_stream = 0;
      stream_timeout_seconds = 0;
      stream_idle_timeout_seconds = 0;
    });
  };
  tunnel = record {
    public_host = lit "local.binboi.test";
    default_protocol = lit "http";
    database_path = lit "./data/binboi-tunnels.json";
  };
  proxy = record { forwarded_header = lit "X-Binboi-Session" };
  auth = record {
    database_path = lit "./data/binboi-tokens.json";
    cache_ttl_seconds = 30;
    last_used_update_interval_seconds = 60;
    remote_validate_url = [];
    remote_validate_secret = [];
    remote_validate_timeout_seconds = 5;
  };
  usage = record {
    database_path = lit "./data/binboi-usage.json";
    flush_interval_seconds = 10;
    period = period_monthly;
    limits = record {
      max_requests = 1000000;
      max_bytes_in = 2 ^ 30;
      max_bytes_out = 2 ^ 30;
      max_active_tunnels = 10;
    };
  };
  observability = record { level = lit "info"; format = lit "text" };
}

pub data ConfigError : Type 0 where
  service_name listen_address protocol_address heartbeat_interval : ConfigError
  flow_control : ProtocolError → ConfigError
  public_host default_protocol tunnel_database auth_database : ConfigError
  cache_ttl last_used_interval remote_secret remote_timeout : ConfigError
  usage : Model.ConfigError → ConfigError
  level format : ConfigError
  path_empty cannot_open cannot_decode cannot_create cannot_write : ConfigError

-- A number that is not greater than zero.
abbrev pub not_positive : Int64 → Bool
not_positive n = not (slt 0 n)

-- An `if` that returns an error, before the rest of the body.
unfoldable pub refuse : Bool → ConfigError → Option ConfigError → Option ConfigError
refuse b e rest = if b then some e else rest

-- An error of a part, under the name of the part, before the rest of the body.
unfoldable pub wrapped {ℓ} :
    {E : Type ℓ} → (E → ConfigError) → Option E → Option ConfigError → Option ConfigError
wrapped f (some e) rest = some (f e)
wrapped f none rest = rest

-- The tests of Validate on the remote validation of tokens.
unfoldable pub refuse_remote : AuthConfig → Option ConfigError → Option ConfigError
refuse_remote a rest =
    if is_empty a.remote_validate_url
    then rest
    else refuse (is_empty a.remote_validate_secret) remote_secret
        (refuse (not_positive a.remote_validate_timeout_seconds) remote_timeout rest)

-- Validate: `none` stands for the nil error.
unfoldable pub validate : Config → Option ConfigError
validate cfg = refuse (is_empty cfg.service.name) service_name (
    refuse (is_empty cfg.control.listen_address) listen_address (
      refuse (is_empty cfg.control.protocol_address) protocol_address (
        refuse (not_positive cfg.control.heartbeat_interval_seconds) heartbeat_interval (
          wrapped flow_control (validate_flow cfg.control.flow_control) (
            refuse (is_empty cfg.tunnel.public_host) public_host (
              refuse (is_empty cfg.tunnel.default_protocol) default_protocol (
                refuse (is_empty cfg.tunnel.database_path) tunnel_database (
                  refuse (is_empty cfg.auth.database_path) auth_database (
                    refuse (not_positive cfg.auth.cache_ttl_seconds) cache_ttl (
                      refuse (not_positive cfg.auth.last_used_update_interval_seconds)
                        last_used_interval
                        (refuse_remote cfg.auth (
                          wrapped usage (Model.validate cfg.usage) (
                            refuse (is_empty cfg.observability.level) level
                              (refuse (is_empty cfg.observability.format) format none))))))))))))))

-- encoding/json on a Config, with texts of the type T, and the decoding into a Config that has values
-- already.
pub record Json (T : Type 0) : Type 0 where
  pub encode : Config → T
  pub decode : Config → T → Option Config

-- What the system calls of Save do; a write that fails leaves what it left in `torn`.
pub record Faults (T : Type 0) : Type 0 where
  pub mkdir : Bool
  pub create_file : Bool
  pub write : Bool
  pub torn : T

-- What Load answers with a decoded Config.
abbrev pub checked : Option ConfigError → Config → Result ConfigError Config
checked (some e) cfg = err e
checked none cfg = ok cfg

abbrev pub decoded : Option Config → Result ConfigError Config
decoded none = err cannot_decode
decoded (some cfg) = checked (validate cfg) cfg

abbrev pub opened : {T : Type 0} → Json T → Option T → Result ConfigError Config
opened json none = err cannot_open
opened json (some text) = decoded (json.decode default_config text)

-- Load, with the files there are
unfoldable pub load : {T : Type 0} → Json T → Map T → Str → Result ConfigError Config
load json files path = if is_empty path then ok default_config else opened json (get files path)

-- Save: its error, and the files afterwards.
abbrev pub written :
    {T : Type 0}
    → Json T
    → Faults T
    → Map T
    → Str
    → Config
    → Option ConfigError
    → Option ConfigError × Map T
written json f files path cfg (some e) = (some e, files)
written json f files path cfg none =
    if f.mkdir || f.create_file
    then (some cannot_create, files)
    else if f.write
    then (some cannot_write, put files path f.torn)
    else (none, put files path (json.encode cfg))

unfoldable pub save :
    {T : Type 0} → Json T → Faults T → Map T → Str → Config → Option ConfigError × Map T
save json f files path cfg =
    if is_empty path then (some path_empty, files) else written json f files path cfg (validate cfg)
