-- ===== src/Session/Routing/Reached.antt =====
-- Where LookupByHost of internal/session/session.go leads, after any history of the manager.
use binboi_go.Base.{◌≡◌, refl, true, Option, some}
use binboi_go.Go.Text.{Str}
use binboi_go.Go.Map.{get}
use binboi_go.Disk.{Disk}
use binboi_go.Tunnel.Store
use binboi_go.Tunnel.Store.{Time}
use binboi_go.Transport.{Std}
use binboi_go.Session.Manager.{
  Session, Entry, Manager, new_manager, host_from_public_url, lookup_by_host,
}
use binboi_go.Session.Register.{is_connected}
use binboi_go.Session.Routing.{
  Step, inserts, resumes, detaches, beats, counts, Reach, here, next, Inv,
}
use binboi_go.Session.Routing.Keeps.{insert-Inv, resume-Inv, beat-Inv, count-Inv, detach-Inv}

module _ (std : Std) where
  Step-Inv : {m m' : Manager} → Step std m m' → Inv std m → Inv std m'
  Step-Inv {m} (inserts f e fresh same) v = rw same (insert-Inv std f m e fresh v)
  Step-Inv {m} (resumes f req conn now same) v = rw same (resume-Inv std f m req conn now v)
  Step-Inv {m} (detaches f id at same) v = rw same (detach-Inv std f m id at v)
  Step-Inv {m} (beats f id at same) v = rw same (beat-Inv std f m id at v)
  Step-Inv {m} (counts id n same) v = rw same (count-Inv std m id n v)

  Reach-Inv : {m m' : Manager} → Reach std m m' → Inv std m → Inv std m'
  Reach-Inv here v = v
  Reach-Inv (next r st) v = Step-Inv st (Reach-Inv r v)

start-Inv :
    (std : Std) (public_host forwarded_header : Str) (store : Option (Disk Store.Record))
    → Inv std (new_manager public_host forwarded_header store)
unfolding get
start-Inv std public_host forwarded_header store = record {
  named = λ id e p. cc;
  live = λ h id p. cc;
}

lookup_found :
    (std : Std) (m : Manager) (h id : Str) (e : Entry)
    → get m.active_by_host h ≡ some id
    → get m.sessions id ≡ some e
    → lookup_by_host std m h ≡ some e.session
unfolding lookup_by_host
lookup_found std m h id e a p = rw (a, lookup_by_host) (rw p refl)

-- After any history of a new manager, in which no inserted session has the id of another: a host
-- in the map of active hosts is found by LookupByHost, and the session found is the one the map
-- names, is connected, and has this host in its public URL.
pub reached-routed :
    (std : Std) (public_host forwarded_header : Str) (store : Option (Disk Store.Record))
    (m : Manager)
    → Reach std (new_manager public_host forwarded_header store) m
    → (h id : Str) → get m.active_by_host h ≡ some id
    → (s : Session) × (lookup_by_host std m h ≡ some s)
      × (s.id ≡ id)
      × (host_from_public_url std s.public_url ≡ h)
      × (is_connected s.connection ≡ true)
reached-routed std public_host forwarded_header store m r h id p =
    let v = Reach-Inv std r (start-Inv std public_host forwarded_header store) in
    let l = v.live h id p in
    (
      l.entry.session,
      lookup_found std m h id l.entry p l.present,
      v.named id l.entry l.present,
      l.own_host,
      l.is_up,
    )
