-- ===== src/Control/Daemon/Concurrency.antt =====
-- The slots of a peer, over every history of the daemon, and how each step counts them.
use binboi_go.Base.{ℕ, ◌+◌, ◌≤◌, ◌≡◌, List, [], ◌∷◌, if◌then◌else◌, ite, ℕ_discrete}
use binboi_go.Usage.Tracker.{Tracker}
use binboi_go.Control.Pending.{Pending}
use binboi_go.Control.Daemon.{Phase, reserved, forwarded, refused, Call, Daemon}

-- A forwarded request has a slot until it is released.
abbrev pub slot_of : Phase → ℕ
slot_of reserved = 0
slot_of (forwarded _ p) = if p.released then 0 else 1
slot_of refused = 0

abbrev pub slot_at : ℕ → Call → ℕ
slot_at n c = ite (ℕ_discrete c.peer n) (slot_of c.phase) 0

abbrev pub held : ℕ → List Call → ℕ
held n [] = 0
held n (c ∷ cs) = slot_at n c + held n cs

pub record IsCounted (d : Daemon) : Type 0 where
  pub taken : (n : ℕ) → (d.slots n).taken ≡ held n d.calls
  pub room : (n : ℕ) → (d.slots n).taken ≤ (d.slots n).max
