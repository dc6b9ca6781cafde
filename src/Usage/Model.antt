-- ===== src/Usage/Model.antt =====
-- internal/usage/model.go: the usage record, the plan limits and the configuration.
use binboi_go.Base.{ℕ, Bool, not, Option, none, some, if◌then◌else◌, ite, true, false}
use binboi_go.Go.Word.{Int64, slt}
use binboi_go.Go.Text.{Str, lit, str_discrete, is_empty, trim_space}

-- An instant, counted from the zero `time.Time`.
abbrev pub Time : Type 0
Time = ℕ

abbrev pub period_daily : Str
period_daily = lit "daily"

abbrev pub period_monthly : Str
period_monthly = lit "monthly"

pub record Limits : Type 0 where
  pub max_requests : Int64
  pub max_bytes_in : Int64
  pub max_bytes_out : Int64
  pub max_active_tunnels : Int64

pub record Config : Type 0 where
  pub database_path : Str
  pub flush_interval_seconds : Int64
  pub period : Str
  pub limits : Limits

pub record Record : Type 0 where
  pub user_id : Str
  pub period : Str
  pub period_start : Time
  pub request_count : Int64
  pub bytes_in : Int64
  pub bytes_out : Int64
  pub active_tunnels : Int64
  pub updated_at : Time

pub data Resource : Type 0 where
  active_tunnels requests bytes_in bytes_out : Resource

pub record LimitError : Type 0 where
  pub user_id : Str
  pub resource : Resource
  pub limit : Int64
  pub current : Int64

pub data ConfigError : Type 0 where
  database_path_required unsupported_period flush_interval_not_positive : ConfigError
  max_requests_negative max_bytes_in_negative max_bytes_out_negative : ConfigError
  max_active_tunnels_negative : ConfigError

-- Config.Normalize
unfoldable pub normalize : Config → Config
unfolding slt
normalize c = record c {
  flush_interval_seconds =
      if not (slt 0 c.flush_interval_seconds) then 10 else c.flush_interval_seconds;
  period = if is_empty c.period then period_monthly else c.period;
}

-- Limits.Validate: `none` stands for the nil error.
unfoldable pub validate_limits : Limits → Option ConfigError
unfolding slt
validate_limits l =
    if slt l.max_requests 0
    then some max_requests_negative
    else if slt l.max_bytes_in 0
    then some max_bytes_in_negative
    else if slt l.max_bytes_out 0
    then some max_bytes_out_negative
    else if slt l.max_active_tunnels 0
    then some max_active_tunnels_negative
    else none

-- The `switch` over the supported periods.
unfoldable pub supported_period : Str → Bool
unfolding str_discrete
supported_period p =
    ite (str_discrete p period_daily) true (ite (str_discrete p period_monthly) true false)

-- Config.Validate
unfoldable pub validate : Config → Option ConfigError
unfolding normalize validate_limits supported_period trim_space
validate c =
    let n = normalize c in
    if is_empty (trim_space n.database_path)
    then some database_path_required
    else if not (supported_period n.period)
    then some unsupported_period
    else if not (slt 0 n.flush_interval_seconds)
    then some flush_interval_not_positive
    else validate_limits n.limits
