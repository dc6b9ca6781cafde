-- ===== src/Tests/Settings.antt =====
-- The results on internal/config, at the default settings.
use binboi_go.Base.{false, ◌≡◌, ◌↔◌, refl, [], ◌∷◌, some, none, ok}
use binboi_go.Go.Word.{slt}
use binboi_go.Go.Text.{lit, str_discrete}
use binboi_go.Api.Protocol.{validate_flow}
use binboi_go.Usage.Model
use binboi_go.Go.Map.{empty, get, put}
use binboi_go.Config.{
  Config, validate, refuse, refuse_remote, wrapped, default_config, Json, Faults, load, save,
}
use binboi_go.Config.Valid.{IsValid, validate-exact}
use binboi_go.Config.Defaults.{read_into, with_defaults}
use binboi_go.Config.File.{load-IsValid, save_then_load}

validate-exact_example : (validate default_config ≡ none) ↔ IsValid default_config
validate-exact_example = validate-exact default_config

-- A file that keeps the settings, and the reading of `omitempty` fields.
abbrev json : Json Config
json = record { encode = λ c. c; decode = λ b c. some (read_into b c) }

load-IsValid_example : IsValid default_config
unfolding load get put str_discrete validate refuse slt wrapped validate_flow refuse_remote
    Model.validate
load-IsValid_example =
    load-IsValid json ((lit "binboid.json", default_config) ∷ []) (lit "binboid.json")
      default_config refl

-- The default settings, with no timeout and no limit on requests.
abbrev hasty : Config
hasty = record default_config {
  usage = record default_config.usage {
    limits = record default_config.usage.limits { max_requests = 0 };
  };
  auth = record default_config.auth { remote_validate_timeout_seconds = 0 };
}

abbrev calm : Faults Config
calm = record { mkdir = false; create_file = false; write = false; torn = default_config }

save_then_load_example :
    load json (save json calm empty (lit "binboid.json") hasty).1 (lit "binboid.json")
    ≡ ok (with_defaults hasty)
unfolding save validate refuse slt wrapped validate_flow refuse_remote Model.validate
save_then_load_example =
    save_then_load json calm empty (lit "binboid.json") hasty (λ b x. refl) refl
