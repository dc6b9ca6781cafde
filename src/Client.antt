-- ===== src/Client.antt =====
-- pkg/client/tunnel.go: how `TunnelClient.Run` connects, resumes and waits. What comes of Connect and
-- of the session that it gives is an argument of each round of the loop.
pub mod Payloads
pub mod Backoff
use binboi_go.Base.{
  ℕ, ◌+◌, ◌*◌, ◌^◌, Bool, true, false, ◌||◌, List, [], ◌∷◌, Option, none, some, if◌then◌else◌, ite,
}
use binboi_go.Go.Word.{Int64, add, slt}
use binboi_go.Go.Text.{Str, lit, str_discrete, is_empty}
use binboi_go.Go.Unicode.{Unicode}
use binboi_go.Api.Protocol.{RegisterPayload, ProtocolError, validate_register}

-- What Run keeps between its rounds, beside the payload that it was called with.
pub record Loop : Type 0 where
  pub resume_tunnel_id : Str
  pub resume_token : Str
  pub attempt : Int64

-- A round: Connect fails, with the code of a ProtocolError or with another error; or it gives a
-- session, with the id and the token that the server sent, which ends later. `done` is whether the
-- context is done when Run looks at it, in a wait or before.
pub data Outcome : Type 0 where
  refused : (code : Str) (done : Bool) → Outcome
  unreachable : (done : Bool) → Outcome
  served : (tunnel_id token : Str) (done : Bool) → Outcome

pub data Stop : Type 0 where
  canceled : Stop
  rejected : Str → Stop
  invalid : ProtocolError → Stop

-- What a round comes to.
pub data After : Type 0 where
  stops : Stop → After
  goes_on : Loop → After

-- reconnectBackoff, in nanoseconds
abbrev pub second : ℕ
second = 10 ^ 9

-- backoffDelay
unfoldable pub backoff_delay : Int64 → ℕ
unfolding slt
backoff_delay attempt =
    if slt attempt 1
    then 1 * second
    else if slt attempt 2
    then 2 * second
    else if slt attempt 3
    then 5 * second
    else 10 * second

-- The codes on which Run gives up.
abbrev pub is_code : Str → Str → Bool
is_code a b = ite (str_discrete a b) true false

unfoldable pub is_final : Str → Bool
unfolding str_discrete
is_final code =
    is_code code (lit "invalid_register")
    || is_code code (lit "token_required")
    || is_code code (lit "invalid_token")
    || is_code code (lit "revoked_token")
    || is_code code (lit "usage_limit_exceeded")

-- The wait before the next attempt.
abbrev pub waits : Bool → Loop → After
waits true l = stops Stop.canceled
waits false l = goes_on (record l { attempt = add l.attempt 1 })

-- The token of the session, if the server sent one.
abbrev pub kept_token : Str → Str → Str
kept_token old token = if is_empty token then old else token

unfoldable pub round : Loop → Outcome → After
unfolding is_final
round l (refused code done) =
    if done
    then stops Stop.canceled
    else if is_code code (lit "invalid_resume")
    then goes_on (record l { resume_tunnel_id = []; resume_token = [] })
    else if is_final code
    then stops (rejected code)
    else waits done l
round l (unreachable done) = waits done l
round l (served tunnel_id token done) = waits done (record {
  resume_tunnel_id = tunnel_id;
  resume_token = kept_token l.resume_token token;
  attempt = 0;
})

-- The payload of the next Connect.
abbrev pub payload_of : RegisterPayload → Loop → RegisterPayload
payload_of p l = record p { resume_tunnel_id = l.resume_tunnel_id; resume_token = l.resume_token }

-- The loop of Run: the payloads that it sends, and what it returns; `none` as long as it runs.
abbrev pub then_sends :
    RegisterPayload → List RegisterPayload × Option Stop → List RegisterPayload × Option Stop
then_sends p (ps, s) = (p ∷ ps, s)

unfoldable pub loop : RegisterPayload → After → List Outcome → List RegisterPayload × Option Stop
loop p (stops s) os = ([], some s)
loop p (goes_on l) [] = ([], none)
loop p (goes_on l) (o ∷ os) = then_sends (payload_of p l) (loop p (round l o) os)

abbrev pub first_loop : RegisterPayload → Loop
first_loop p = record {
  resume_tunnel_id = p.resume_tunnel_id;
  resume_token = p.resume_token;
  attempt = 0;
}

-- Run
unfoldable pub run : Unicode → RegisterPayload → List Outcome → List RegisterPayload × Option Stop
run u p os = elim (validate_register u p) [
  | some e ↦ ([], some (invalid e))
  | none ↦ loop p (goes_on (first_loop p)) os
]
