-- ===== src/Session/Routing.antt =====
-- Histories of the manager of internal/session/session.go, and what its routing map keeps.
pub mod Keeps
pub mod Reached
use binboi_go.Base.{
  ◌≡◌, ◌≢◌, refl, sym, ap, ◌∙◌, Bool, true, false, Option, none, some, List, arith, Bool-cases,
  Option-cases, inl, inr, ite, subst, Result, ok, err,
}
use binboi_go.Go.Word.{Int64}
use binboi_go.Go.Text.{Str, str_discrete, is_empty}
use binboi_go.Go.Map.{Map, get, put, delete, get-delete, get-put_self, get-put_ne}
use binboi_go.Disk.{Disk, Faults, StoreError}
use binboi_go.Tunnel.Store
use binboi_go.Tunnel.Store.{Time}
use binboi_go.Transport.{Std}
use binboi_go.Session.Manager.{
  Conn, Session, Entry, Manager, new_manager, host_from_public_url, put_named, delete_if,
  activate_routing, deactivate_routing, persist_tunnel, remove_session, routed, detach_connection,
  touch_heartbeat, set_in_flight, lookup_by_host,
}
use binboi_go.Session.Plan.{SessionError}
use binboi_go.Session.Register.{
  RegisterRequest, refuses_resume, resume_tunnel, resumed_entry, holder, is_connected, add_entry,
  or_rolled_back, add_and_persist, insert_session,
}
use binboi_go.Session.Resume.{Owns, resume_tunnel-exact, persist-maps, detach_some, detached_entry}
use binboi_go.Session.Insert.{add-sessions}
use binboi_go.Session.Live.{
  host_of, IsLiveAt, AllLive, AllNamed, put-AllNamed, delete-AllNamed, put-IsLiveAt,
  activate-AllLive, quiet-AllLive,
}

-- One operation of the manager, with any arguments. An inserted session has an id that no session
-- has: the source draws it at random.
pub data Step (std : Std) (m m' : Manager) : Type 0 where
  inserts :
      (f : Faults) (e : Entry)
      → get m.sessions e.session.id ≡ none
      → m' ≡ (insert_session std f m e).1
      → Step std m m'
  resumes :
      (f : Faults) (req : RegisterRequest) (conn : Conn) (now : Time)
      → m' ≡ (resume_tunnel std f m req conn now).1
      → Step std m m'
  detaches :
      (f : Faults) (id : Str) (at : Time) → m' ≡ detach_connection std f m id at → Step std m m'
  beats :
      (f : Faults) (id : Str) (at : Time) → m' ≡ (touch_heartbeat std f m id at).1 → Step std m m'
  counts : (id : Str) (n : Int64) → m' ≡ set_in_flight m id n → Step std m m'

pub data Reach (std : Std) (m : Manager) : Manager → Type 0 where
  here : Reach std m m
  next : {n k : Manager} → Reach std m n → Step std n k → Reach std m k

-- Sessions lie under their ids, and active hosts lead to live sessions.
pub record Inv (std : Std) (m : Manager) : Type 0 where
  pub named : AllNamed m.sessions
  pub live : AllLive std m.sessions m.active_by_host
