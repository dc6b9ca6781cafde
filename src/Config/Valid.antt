-- ===== src/Config/Valid.antt =====
-- Which settings Validate accepts.
use binboi_go.Base.{
  ◌≡◌, ◌↔◌, refl, Bool, true, false, Option, none, some, Bool-cases, inl, inr, ◌⊎◌,
}
use binboi_go.Go.Word.{Int64, slt}
use binboi_go.Go.Text.{is_empty}
use binboi_go.Api.Protocol.{validate_flow}
use binboi_go.Usage.Model
use binboi_go.Config.{
  Config, AuthConfig, ConfigError, not_positive, wrapped, refuse, refuse_remote, validate,
  default_config,
}

-- No check before this one fails, nor this one.
guard :
    {b : Bool} (e : ConfigError) {x : Option ConfigError}
    → refuse b e x ≡ none
    → (b ≡ false) × (x ≡ none)
unfolding refuse
guard {b} e {x} h = elim (Bool-cases b) [ inl y ↦ absurd (cc (rw y at h)) | inr n ↦ (n, rw n at h) ]

guarded :
    {b : Bool} (e : ConfigError) {x : Option ConfigError}
    → b ≡ false
    → x ≡ none
    → refuse b e x ≡ none
unfolding refuse
guarded e n h = rw (n, h) refl

unwrap :
    {E : Type 0} (f : E → ConfigError) {x : Option ConfigError} (o : Option E)
    → wrapped f o x ≡ none
    → (o ≡ none) × (x ≡ none)
unfolding wrapped
unwrap f (some e) h = absurd (cc)
unwrap f none h = (refl, h)

wrapped-none :
    {E : Type 0} (f : E → ConfigError) {o : Option E} {x : Option ConfigError}
    → o ≡ none
    → x ≡ none
    → wrapped f o x ≡ none
unfolding wrapped
wrapped-none f e h = rw (e, h) refl

-- A positive number.
abbrev pub IsPositive : Int64 → Type 0
IsPositive n = slt 0 n ≡ true

positive : (n : Int64) → not_positive n ≡ false → IsPositive n
positive n h = elim (Bool-cases (slt 0 n)) [ inl y ↦ y | inr k ↦ absurd (cc (rw k at h)) ]

not_not_positive : (n : Int64) → IsPositive n → not_positive n ≡ false
not_not_positive n h = rw h refl

-- The remote validation of tokens is off, or it has a secret and a timeout.
abbrev pub HasRemote : AuthConfig → Type 0
HasRemote a =
    (is_empty a.remote_validate_url ≡ true)
    ⊎ (is_empty a.remote_validate_secret ≡ false) × IsPositive a.remote_validate_timeout_seconds

pub record IsValid (c : Config) : Type 0 where
  pub name : is_empty c.service.name ≡ false
  pub listen_address : is_empty c.control.listen_address ≡ false
  pub protocol_address : is_empty c.control.protocol_address ≡ false
  pub heartbeat : IsPositive c.control.heartbeat_interval_seconds
  pub flow_control : validate_flow c.control.flow_control ≡ none
  pub public_host : is_empty c.tunnel.public_host ≡ false
  pub default_protocol : is_empty c.tunnel.default_protocol ≡ false
  pub tunnel_database : is_empty c.tunnel.database_path ≡ false
  pub auth_database : is_empty c.auth.database_path ≡ false
  pub cache_ttl : IsPositive c.auth.cache_ttl_seconds
  pub last_used_interval : IsPositive c.auth.last_used_update_interval_seconds
  pub remote : HasRemote c.auth
  pub usage : Model.validate c.usage ≡ none
  pub level : is_empty c.observability.level ≡ false
  pub format : is_empty c.observability.format ≡ false

remote_none :
    (a : AuthConfig) {x : Option ConfigError} → refuse_remote a x ≡ none → HasRemote a × (x ≡ none)
unfolding refuse_remote
remote_none a h = elim (Bool-cases (is_empty a.remote_validate_url)) [
  | inl y ↦ (inl y, rw y at h)
  | inr n ↦
      let (s, t) = guard _ (rw n at h) in
      let (p, r) = guard _ t in (inr (s, positive a.remote_validate_timeout_seconds p), r)
]

remote_fine :
    (a : AuthConfig) {x : Option ConfigError} → HasRemote a → x ≡ none → refuse_remote a x ≡ none
unfolding refuse_remote
remote_fine a (inl y) h = rw y h
remote_fine a (inr (s, t)) h = elim (Bool-cases (is_empty a.remote_validate_url)) [
  | inl y ↦ rw y h
  | inr n ↦ rw n (guarded _ s (guarded _ (not_not_positive a.remote_validate_timeout_seconds t) h))
]

pub validate-IsValid : (c : Config) → validate c ≡ none → IsValid c
unfolding validate
validate-IsValid c h0 =
    let (name, h1) = guard _ h0 in
    let (listen, h2) = guard _ h1 in
    let (protocol, h3) = guard _ h2 in
    let (beat, h4) = guard _ h3 in
    let (flow, h5) = unwrap _ (validate_flow c.control.flow_control) h4 in
    let (host, h6) = guard _ h5 in
    let (default, h7) = guard _ h6 in
    let (tunnels, h8) = guard _ h7 in
    let (tokens, h9) = guard _ h8 in
    let (ttl, h10) = guard _ h9 in
    let (used, h11) = guard _ h10 in
    let (remote, h12) = remote_none c.auth h11 in
    let (usage, h13) = unwrap _ (Model.validate c.usage) h12 in
    let (level, h14) = guard _ h13 in
    let (format, h15) = guard _ h14 in
    record {
      name = name;
      listen_address = listen;
      protocol_address = protocol;
      heartbeat = positive c.control.heartbeat_interval_seconds beat;
      flow_control = flow;
      public_host = host;
      default_protocol = default;
      tunnel_database = tunnels;
      auth_database = tokens;
      cache_ttl = positive c.auth.cache_ttl_seconds ttl;
      last_used_interval = positive c.auth.last_used_update_interval_seconds used;
      remote = remote;
      usage = usage;
      level = level;
      format = format;
    }

IsValid-validate : (c : Config) → IsValid c → validate c ≡ none
unfolding validate
IsValid-validate c v = guarded _ v.name (
    guarded _ v.listen_address (
      guarded _ v.protocol_address (
        guarded _ (not_not_positive c.control.heartbeat_interval_seconds v.heartbeat) (
          wrapped-none _ v.flow_control (
            guarded _ v.public_host (
              guarded _ v.default_protocol (
                guarded _ v.tunnel_database (
                  guarded _ v.auth_database (
                    guarded _ (not_not_positive c.auth.cache_ttl_seconds v.cache_ttl) (
                      guarded _
                        (not_not_positive c.auth.last_used_update_interval_seconds
                          v.last_used_interval)
                        (remote_fine c.auth v.remote (
                          wrapped-none _ v.usage
                            (guarded _ v.level (guarded _ v.format refl))))))))))))))

-- Validate answers nil exactly for the settings that have every name, address and database path, a
-- positive interval and lifetime wherever one is asked for, a flow control and a usage configuration
-- that their own validations accept, and, if tokens are validated remotely, a secret and a positive
-- timeout.
pub validate-exact : (c : Config) → (validate c ≡ none) ↔ IsValid c
validate-exact c = (validate-IsValid c, IsValid-validate c)

pub default-IsValid : validate default_config ≡ none
unfolding validate validate_flow Model.validate slt refuse refuse_remote wrapped
default-IsValid = refl
