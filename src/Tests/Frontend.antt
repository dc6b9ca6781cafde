-- ===== src/Tests/Frontend.antt =====
-- The result on internal/auth/remote_validator.go, at one token that the frontend knows.
use binboi_go.Base.{◌≡◌, refl, [], ok}
use binboi_go.Tests.Tokens.{crypto, raw}
use binboi_go.Go.Text.{Str, lit, trim_space, str_discrete}
use binboi_go.Go.Word.{slt}
use binboi_go.Tunnel.Engine.{hex_encode}
use binboi_go.Go.Map.{get, put}
use binboi_go.Auth.Token.{Principal, hash_token, prefix_from_raw_token}
use binboi_go.Auth.Remote.{
  Reply, answered, cached_remote, cache_principal, RemoteValidator, new_remote_validator,
  validate_remote,
}
use binboi_go.Auth.Remote.History.{heard, Reach, start, calls}
use binboi_go.Auth.Remote.Vouched.{Lets, validate_remote-Lets}

abbrev ann : Principal
ann = record { token_id = lit "tok"; user_id = lit "ann"; prefix = lit "bb_" }

abbrev knows : Str → Reply
knows s = answered (record { status = 200; error = []; message = []; principal = ann })

abbrev silent : Str → Reply
silent s = Reply.no_answer

-- The validator after one call, at the instants 8 and 9.
abbrev asked : RemoteValidator
asked = (validate_remote crypto (new_remote_validator 50) knows raw 8 9).1

once : Reach crypto 50 asked (heard crypto (new_remote_validator 50) knows raw 8 9 [])
once = calls start knows raw 8 9

-- A second call is answered from the cache.
from_cache : (validate_remote crypto asked silent raw 20 21).0 ≡ ok ann
unfolding validate_remote trim_space hex_encode prefix_from_raw_token cached_remote get
    new_remote_validator cache_principal put str_discrete hash_token slt
from_cache = refl

validate_remote-Lets_example :
    Lets crypto
      (new_remote_validator 50).cache_ttl
      (heard crypto (new_remote_validator 50) knows raw 8 9 [])
      silent
      (trim_space raw)
      20
      ann
validate_remote-Lets_example =
    validate_remote-Lets crypto 50 asked (heard crypto (new_remote_validator 50) knows raw 8 9 [])
      silent raw 20 21 ann once from_cache
