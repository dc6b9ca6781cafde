-- ===== src/Client/Payloads.antt =====
-- What Run sends: never one half of a resume.
use binboi_go.Base.{
  ◌≡◌, refl, sym, Bool, true, false, List, [], ◌∷◌, none, All, Bool-cases, Option-cases, Result, ok,
  err, inl, inr, arith,
}
use binboi_go.Go.Text.{Str, lit, is_empty}
use binboi_go.Go.Unicode.{Unicode}
use binboi_go.Api.Protocol.{
  RegisterPayload, ProtocolError, validate_register, normalize_tunnel_protocol,
}
use binboi_go.Client.{
  Loop, Outcome, refused, unreachable, served, After, stops, goes_on, is_code, is_final, waits,
  round, payload_of, loop, first_loop, run,
}

-- An id and a token, or neither.
abbrev pub IsPaired : Loop → Type 0
IsPaired l = is_empty l.resume_tunnel_id ≡ is_empty l.resume_token

-- The server sends an id and a token with a session.
abbrev pub IsNamed : Outcome → Type 0
IsNamed (refused code done) = Unit {0}
IsNamed (unreachable done) = Unit {0}
IsNamed (served tunnel_id token done) = (is_empty tunnel_id ≡ false) × (is_empty token ≡ false)

abbrev Paired : After → Type 0
Paired (stops s) = Unit {0}
Paired (goes_on l) = IsPaired l

waits-Paired : (b : Bool) (l : Loop) → IsPaired l → Paired (waits b l)
waits-Paired true l h = tt
waits-Paired false l h = h

round-Paired : (l : Loop) (o : Outcome) → IsPaired l → IsNamed o → Paired (round l o)
unfolding round
round-Paired l (refused code true) h n = tt
round-Paired l (refused code false) h n = elim (Bool-cases (is_code code (lit "invalid_resume"))) [
  | inl y ↦ rw y refl
  | inr k ↦ elim (Bool-cases (is_final code)) [ inl y ↦ rw (k, y) tt | inr m ↦ rw (k, m) h ]
]
round-Paired l (unreachable done) h n = waits-Paired done l h
round-Paired l (served tunnel_id token done) h (a, b) = waits-Paired done _ (rw (a, b) (sym b))

valid-rest :
    (u : Unicode) (p : RegisterPayload) (l : Loop) (x : Result ProtocolError Str)
    → normalize_tunnel_protocol u p.protocol ≡ x
    → validate_register u p ≡ none
    → (is_empty p.resume_tunnel_id ≡ is_empty p.resume_token)
      × (IsPaired l → validate_register u (payload_of p l) ≡ none)
unfolding validate_register
valid-rest u p l (err e) q h = absurd (cc (rw (q, validate_register) at h))
valid-rest u p l (ok s) q h =
    let rest = rw (q, validate_register) at h in
    (ground (arith, rest), λ k. rw (q, validate_register) (ground (arith, rest, k)))

loop-valid :
    (u : Unicode) (p : RegisterPayload) (a : After) (os : List Outcome)
    → validate_register u p ≡ none
    → Paired a
    → All IsNamed os
    → All (λ q. validate_register u q ≡ none) (loop p a os).0
unfolding loop
loop-valid u p (stops s) os h k n = tt
loop-valid u p (goes_on l) [] h k n = tt
loop-valid u p (goes_on l) (o ∷ os) h k n =
    ((valid-rest u p l _ refl h).1 k, loop-valid u p (round l o) os h (round-Paired l o k n.0) n.1)

-- Let the server send a tunnel id and a resume token with every session that it gives. Then, through
-- any connection failures, refusals, resumes and fall-backs to a new registration, every payload
-- that Run sends passes the validation that the server makes of it: in particular none has a tunnel
-- id without a token, or a token without an id.
pub run-valid :
    (u : Unicode) (p : RegisterPayload) (os : List Outcome)
    → All IsNamed os
    → All (λ q. validate_register u q ≡ none) (run u p os).0
unfolding run
run-valid u p os n = elim (Option-cases (validate_register u p)) [
  | inl e ↦
      rw (e, run)
        (loop-valid u p (goes_on (first_loop p)) os e (valid-rest u p (first_loop p) _ refl e).0 n)
  | inr (x, e) ↦ rw (e, run) tt
]
