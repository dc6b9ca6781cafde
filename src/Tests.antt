-- ===== src/Tests.antt =====
-- Runs of the model on concrete data: a calendar, a URL parser and unicode tables that satisfy what
-- the parameters are asked for, and each result applied to them.
mod Accounting
mod Sessions
mod Tokens
mod Forwarding
mod Dispatching
mod Serving
mod Settings
mod Frontend
mod Reconnecting
use binboi_go.Base.{◌/◌, ◌*◌, ◌+◌, ◌%◌, [], ◌∷◌, false, none, some}
use binboi_go.Go.Text.{Str, lit}
use binboi_go.Go.Unicode.{ascii_tables}
use binboi_go.Usage.Model.{Limits, Config}
use binboi_go.Usage.Tracker.{Calendar}
use binboi_go.Disk.{Faults}
use binboi_go.Transport.{Url, Std}

-- A calendar of thirty-day months, in days.
abbrev calendar : Calendar
calendar = record {
  year = λ t. t / 360;
  month = λ t. t / 30 % 12 + 1;
  day = λ t. t % 30 + 1;
  date = λ y m d. y * 360 + m * 30 + d;
  format_rfc3339 = λ t. t ∷ [];
}

abbrev limits : Limits
limits = record { max_requests = 2; max_bytes_in = 0; max_bytes_out = 0; max_active_tunnels = 1 }

abbrev config : Config
config = record {
  database_path = lit "usage.json";
  flush_interval_seconds = 10;
  period = lit "monthly";
  limits = limits;
}

abbrev no_faults : Faults
no_faults = record {
  mkdir = false;
  create_temp = false;
  chmod = false;
  encode = false;
  close = false;
  rename = false;
  remove = false;
}

-- A parser for host names alone: the string is the host.
abbrev bare_host : Str → Url
bare_host s = record { scheme = lit "http"; host = s; hostname = s; port = []; text = s }

abbrev std : Std
std = record {
  unicode = ascii_tables;
  parse_url = λ s. some (bare_host s);
  atoi = λ s. none;
  itoa = λ n. n ∷ [];
}
