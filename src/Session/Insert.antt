-- ===== src/Session/Insert.antt =====
-- What storeSession of internal/session/session.go leaves behind on each of its ways out.
use binboi_go.Base.{
  ◌≡◌, ◌≢◌, true, false, Option, none, some, Result, ok, err, Bool-cases, inl, inr,
}
use binboi_go.Go.Text.{Str, is_empty}
use binboi_go.Go.Map.{Map, get, get-put_self}
use binboi_go.Disk.{Faults, StoreError}
use binboi_go.Transport.{Std}
use binboi_go.Session.Manager.{
  Session, Entry, Manager, host_from_public_url, activate_routing, persist_tunnel, remove_session,
  lookup_by_host,
}
use binboi_go.Session.Plan.{SessionError, host_connected, persist_failed}
use binboi_go.Session.Register.{holder, is_connected, add_entry}

-- The session is there and its public host is routed to it.
pub record IsServed (std : Std) (m : Manager) (e : Entry) : Type 0 where
  pub present : get m.sessions e.session.id ≡ some e
  pub routed : lookup_by_host std m (host_from_public_url std e.session.public_url) ≡ some e.session

-- The session is in none of the maps, under any of its keys.
pub record IsAbsent (std : Std) (m : Manager) (e : Entry) : Type 0 where
  pub no_session : get m.sessions e.session.id ≡ none
  pub no_host : get m.by_host (host_from_public_url std e.session.public_url) ≡ none
  pub no_subdomain : get m.by_subdomain e.session.subdomain ≡ none
  pub no_token : get m.by_resume e.resume_token ≡ none
  pub not_routed :
      get m.active_by_host (host_from_public_url std e.session.public_url) ≢ some e.session.id
  pub not_routed_subdomain : get m.active_by_subdomain e.session.subdomain ≢ some e.session.id

-- `add_entry` of a connected session, field by field.
pub add-sessions :
    (std : Std) (m : Manager) (e : Entry) → get (add_entry std m e).sessions e.session.id ≡ some e
unfolding add_entry
add-sessions std m e = elim (Bool-cases (is_connected e.session.connection)) [
  | inl y ↦ rw y (unfold activate_routing in get-put_self m.sessions e.session.id e)
  | inr n ↦ rw n (get-put_self m.sessions e.session.id e)
]

-- The host is free: a session that holds it is not connected.
abbrev pub IsFree : Manager → Str → Type 0
IsFree m host =
    (id : Str) (x : Entry)
    → holder m host ≡ some (id, x)
    → is_connected x.session.connection ≡ false

-- The manager that the entry is added to: without the session, not connected, that held the host.
abbrev pub cleared : Std → Manager → Str → Manager
cleared std m host = elim (holder m host) [ none ↦ m | some (id, x) ↦ remove_session std m id x ]

-- The answer of the write of the tunnel, for an entry that is added once its host is free.
abbrev pub write_error : Std → Faults → Manager → Entry → Option StoreError
write_error std f m e =
    (persist_tunnel f
      (add_entry std (cleared std m (host_from_public_url std e.session.public_url)) e) e).0

-- The ways in which the insertion of an entry into a manager can end.
pub data Stored (std : Std) (f : Faults) (m : Manager) (e : Entry)
    : Result SessionError Session × Manager → Type 0 where
  held :
      (id : Str) (x : Entry)
      → holder m (host_from_public_url std e.session.public_url) ≡ some (id, x)
      → is_connected x.session.connection ≡ true
      → Stored std f m e (err host_connected, m)
  stored :
      (m' : Manager)
      → IsFree m (host_from_public_url std e.session.public_url)
      → write_error std f m e ≡ none
      → IsServed std m' e
      → Stored std f m e (ok e.session, m')
  undone :
      (m' : Manager) (x : StoreError)
      → IsFree m (host_from_public_url std e.session.public_url)
      → write_error std f m e ≡ some x
      → IsAbsent std m' e
      → Stored std f m e (err (persist_failed x), m')

-- The entry is connected and has a host and a subdomain, so that it is routed at once.
pub record IsLive (std : Std) (e : Entry) : Type 0 where
  pub is_up : is_connected e.session.connection ≡ true
  pub has_host : is_empty (host_from_public_url std e.session.public_url) ≡ false
  pub has_subdomain : is_empty e.session.subdomain ≡ false
