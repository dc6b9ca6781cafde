-- ===== src/Session/Allocate.antt =====
-- Which subdomain allocateSubdomain of internal/session/session.go picks.
use binboi_go.Base.{
  ℕ, zero, suc, ◌+◌, ◌≤◌, ◌<◌, ◌≡◌, ◌≢◌, Option, none, some, List, Result, ok, err, arith,
  Option-cases, inl, inr, ℕ_discrete, subst,
}
use binboi_go.Go.Text.{Str}
use binboi_go.Tunnel.Engine.{generate_subdomain}
use binboi_go.Transport.{Std}
use binboi_go.Session.Manager.{Manager}
use binboi_go.Session.Plan.{
  SessionError, random_failed, exhausted, ensure_subdomain_available, draw_subdomain,
}

-- The attempt draws a subdomain that is not available.
abbrev pub IsTaken : Std → Manager → (ℕ → Option (List ℕ)) → ℕ → Type 0
IsTaken std m draws i =
    (s : Str) × (generate_subdomain std.unicode (draws i) ≡ some s)
    × (ensure_subdomain_available std m s ≢ none)

-- The ways in which the attempts from `lo` on, `n` of them, can end.
pub data Drawn (std : Std) (m : Manager) (draws : ℕ → Option (List ℕ)) (lo n : ℕ)
    : Result SessionError Str → Type 0 where
  found :
      (i : ℕ) (s : Str)
      → lo ≤ i
      → i < lo + n
      → ((j : ℕ) → lo ≤ j → j < i → IsTaken std m draws j)
      → generate_subdomain std.unicode (draws i) ≡ some s
      → ensure_subdomain_available std m s ≡ none
      → Drawn std m draws lo n (ok s)
  failed :
      (i : ℕ)
      → lo ≤ i
      → i < lo + n
      → ((j : ℕ) → lo ≤ j → j < i → IsTaken std m draws j)
      → generate_subdomain std.unicode (draws i) ≡ none
      → Drawn std m draws lo n (err random_failed)
  all_taken :
      ((j : ℕ) → lo ≤ j → j < lo + n → IsTaken std m draws j)
      → Drawn std m draws lo n (err exhausted)

module _ (std : Std) (m : Manager) (draws : ℕ → Option (List ℕ)) where
  earlier :
      (lo i : ℕ)
      → IsTaken std m draws lo
      → ((j : ℕ) → suc lo ≤ j → j < i → IsTaken std m draws j)
      → (j : ℕ) → lo ≤ j
      → j < i
      → IsTaken std m draws j
  earlier lo i t h j a b = elim (ℕ_discrete lo j) [
    | yes e ↦ subst (IsTaken std m draws) e t
    | no n ↦ h j (omega (arith, n)) b
  ]

  Drawn-earlier :
      (lo n : ℕ) {r : Result SessionError Str}
      → IsTaken std m draws lo
      → Drawn std m draws (suc lo) n r
      → Drawn std m draws lo (suc n) r
  Drawn-earlier lo n t (found i s a b h g e) =
      found i s (omega arith) (omega arith) (earlier lo i t h) g e
  Drawn-earlier lo n t (failed i a b h g) =
      failed i (omega arith) (omega arith) (earlier lo i t h) g
  Drawn-earlier lo n t (all_taken h) =
      all_taken (λ j a b. earlier lo (suc lo + n) t h j a (omega arith))

  -- The loop of allocateSubdomain over `n` attempts from attempt `lo` on ends in one of three ways:
  -- with the subdomain of the first attempt that draws an available one, with an error because an
  -- attempt cannot read random bytes, every attempt before it having drawn a subdomain that is not
  -- available; or, when all of them drew such a subdomain, with `exhausted`.
  pub draw_subdomain-first : (n lo : ℕ) → Drawn std m draws lo n (draw_subdomain std m draws n lo)
  unfolding draw_subdomain
  draw_subdomain-first zero lo = all_taken (λ j a b. absurd (omega arith))
  draw_subdomain-first (suc n) lo =
      elim (Option-cases (generate_subdomain std.unicode (draws lo))) [
        | inl e ↦
            rw (e, draw_subdomain)
              (failed lo (omega arith) (omega arith) (λ j a b. absurd (omega arith)) e)
        | inr (s, e) ↦ elim (Option-cases (ensure_subdomain_available std m s)) [
          | inl free ↦
              rw (e, draw_subdomain)
                (rw free
                  (found lo s (omega arith) (omega arith) (λ j a b. absurd (omega arith)) e free))
          | inr (x, taken) ↦
              rw (e, draw_subdomain)
                (rw taken (Drawn-earlier lo n (s, e, λ z. cc) (draw_subdomain-first n (suc lo))))
        ]
      ]
