-- ===== src/Session/Routing/Keeps.antt =====
-- Each operation of the manager keeps the routing map right.
use binboi_go.Base.{
  ◌≡◌, refl, sym, ap, ◌∙◌, true, Option, none, some, arith, Bool-cases, Option-cases, inl, inr,
  subst, Result,
}
use binboi_go.Go.Word.{Int64}
use binboi_go.Go.Text.{Str}
use binboi_go.Go.Map.{Map, get, put, delete, get-delete, get-put_self, get-put_ne}
use binboi_go.Disk.{Faults, StoreError}
use binboi_go.Tunnel.Store.{Time}
use binboi_go.Transport.{Std}
use binboi_go.Session.Manager.{
  Conn, Session, Entry, Manager, host_from_public_url, activate_routing, deactivate_routing,
  persist_tunnel, remove_session, routed, detach_connection, touch_heartbeat, set_in_flight,
}
use binboi_go.Session.Plan.{SessionError}
use binboi_go.Session.Register.{
  RegisterRequest, resume_tunnel, resumed_entry, holder, is_connected, add_entry, or_rolled_back,
  add_and_persist, insert_session,
}
use binboi_go.Session.Resume.{resume_tunnel-exact, persist-maps, detach_some, detached_entry}
use binboi_go.Session.Insert.{add-sessions}
use binboi_go.Session.Live.{
  host_of, AllLive, AllNamed, put-AllNamed, delete-AllNamed, put-IsLiveAt, activate-AllLive,
  quiet-AllLive,
}
use binboi_go.Session.Routing.{Inv}

some_eq : {o : Option Entry} {a b : Entry} → o ≡ some a → o ≡ some b → a ≡ b
some_eq p q = cc

-- The holder of a host is a session.
held :
    (m : Manager) (host id : Str) (x : Entry)
    → holder m host ≡ some (id, x)
    → get m.sessions id ≡ some x
held m host id x g = elim (Option-cases (get m.by_host host)) [
  | inl n ↦ absurd (cc (rw (n, holder) at g))
  | inr (j, e) ↦ elim (Option-cases (get m.sessions j)) [
    | inl n ↦ absurd (cc (rw (e, holder, n) at g))
    | inr (y, k) ↦
        let same : ◌≡◌ {A = Str × Entry} (j, y) (id, x) = cc (rw (e, holder, k) at g) in
        ap (get m.sessions) (ap (λ (z : Str × Entry). z.0) (sym same))
        ∙ k
        ∙ ap (λ (z : Str × Entry). some z.1) same
  ]
]

module _ (std : Std) where
  -- Removing a session gives no other session.
  gone :
      (m : Manager) (id : Str) (x e : Entry)
      → get m.sessions e.session.id ≡ none
      → get (remove_session std m id x).sessions e.session.id ≡ none
  unfolding remove_session deactivate_routing
  gone m id x e fresh = ground (arith, get-delete m.sessions id e.session.id, fresh)

  Inv-same :
      (m m' : Manager)
      → m'.sessions ≡ m.sessions
      → m'.active_by_host ≡ m.active_by_host
      → Inv std m
      → Inv std m'
  Inv-same m m' s a v = record {
    named = subst AllNamed (sym s) v.named;
    live =
        subst (λ ss. AllLive std ss m'.active_by_host) (sym s)
          (subst (λ am. AllLive std m.sessions am) (sym a) v.live);
  }

  persist-Inv :
      (f : Faults) (m : Manager) (e : Entry) → Inv std m → Inv std (persist_tunnel f m e).1
  persist-Inv f m e v =
      let kept = persist-maps f m e in Inv-same m (persist_tunnel f m e).1 kept.0 kept.3 v

  remove-Inv :
      (m : Manager) (id : Str) (e : Entry)
      → get m.sessions id ≡ some e
      → Inv std m
      → Inv std (remove_session std m id e)
  unfolding remove_session deactivate_routing
  remove-Inv m id e p v = record {
    named = delete-AllNamed m.sessions id v.named;
    live =
        quiet-AllLive std m.sessions (delete m.sessions id) m.active_by_host id e p
          (λ j n. ground (arith, get-delete m.sessions id j, n)) v.live;
  }

  -- A session that is there is replaced by a connected one of its id and host, and routed.
  routed-Inv :
      (f : Faults) (m : Manager) (id : Str) (e e' : Entry)
      → get m.sessions id ≡ some e
      → e'.session.id ≡ id
      → host_of std e' ≡ host_of std e
      → is_connected e'.session.connection ≡ true
      → Inv std m
      → Inv std (routed std f m id e')
  routed-Inv f m id e e' p own host up v =
      let ss : Map Entry = put m.sessions id e' in
      persist-Inv f _ e' (
        unfold activate_routing in
        record {
          named = put-AllNamed m.sessions id e' own v.named;
          live =
              activate-AllLive std ss m.active_by_host e'.session.id e'
                (ap (get ss) own ∙ get-put_self m.sessions id e') up
                (λ h j g.
                  put-IsLiveAt std m.sessions id e' h j
                    (λ x q _. (host ∙ ap (host_of std) (some_eq p q), up)) (v.live h j g));
        })

  -- A new session joins the others.
  joined-Inv :
      (m : Manager) (e : Entry)
      → get m.sessions e.session.id ≡ none
      → Inv std m
      → AllNamed (put m.sessions e.session.id e)
        × AllLive std (put m.sessions e.session.id e) m.active_by_host
  joined-Inv m e fresh v = (
    put-AllNamed m.sessions e.session.id e refl v.named,
    λ h j g. put-IsLiveAt std m.sessions e.session.id e h j (λ x q _. cc) (v.live h j g),
  )

  add-Inv :
      (m : Manager) (e : Entry)
      → get m.sessions e.session.id ≡ none
      → Inv std m
      → Inv std (add_entry std m e)
  unfolding add_entry
  add-Inv m e fresh v =
      let (named, live) = joined-Inv m e fresh v in
      elim (Bool-cases (is_connected e.session.connection)) [
        | inl y ↦ rw y (
            unfold activate_routing in
            record {
              named = named;
              live =
                  activate-AllLive std (put m.sessions e.session.id e) m.active_by_host e.session.id
                    e (get-put_self m.sessions e.session.id e) y live;
            })
        | inr n ↦ rw n (record { named = named; live = live })
      ]

  or_rolled_back-Inv :
      (m : Manager) (e : Entry) (o : Option StoreError × Manager)
      → o ≡ (o.0, m)
      → get m.sessions e.session.id ≡ some e
      → Inv std m
      → Inv std (or_rolled_back std e o).1
  or_rolled_back-Inv m e (none, n) same p v =
      subst (Inv std) (ap (λ (x : Option StoreError × Manager). x.1) (sym same)) v
  or_rolled_back-Inv m e (some x, n) same p v =
      subst (λ k. Inv std (remove_session std k e.session.id e))
        (ap (λ (x : Option StoreError × Manager). x.1) (sym same)) (remove-Inv m e.session.id e p v)

  add_and_persist-Inv :
      (f : Faults) (m : Manager) (e : Entry)
      → get m.sessions e.session.id ≡ none
      → Inv std m
      → Inv std (add_and_persist std f m e).1
  unfolding add_and_persist
  add_and_persist-Inv f m e fresh v =
      let added = add_entry std m e in
      or_rolled_back-Inv (persist_tunnel f added e).1 e (persist_tunnel f added e) refl
        (ap (λ x. get x e.session.id) (persist-maps f added e).0 ∙ add-sessions std m e)
        (persist-Inv f added e (add-Inv m e fresh v))

  pub insert-Inv :
      (f : Faults) (m : Manager) (e : Entry)
      → get m.sessions e.session.id ≡ none
      → Inv std m
      → Inv std (insert_session std f m e).1
  unfolding insert_session
  insert-Inv f m e fresh v =
      elim (Option-cases (holder m (host_from_public_url std e.session.public_url))) [
        | inl g ↦ rw (g, insert_session) (add_and_persist-Inv f m e fresh v)
        | inr ((id, x), g) ↦ elim (Bool-cases (is_connected x.session.connection)) [
          | inl y ↦ rw (g, insert_session) (rw y v)
          | inr n ↦
              rw (g, insert_session)
                (rw n (
                  add_and_persist-Inv f (remove_session std m id x) e (gone m id x e fresh)
                    (remove-Inv m id x (held m _ id x g) v)))
        ]
      ]

  pub resume-Inv :
      (f : Faults) (m : Manager) (req : RegisterRequest) (conn : Conn) (now : Time)
      → Inv std m
      → Inv std (resume_tunnel std f m req conn now).1
  resume-Inv f m req conn now v = elim (resume_tunnel-exact std f m req conn now) [
    | inl (e, p, _, same) ↦
        subst (Inv std) (ap (λ (x : Result SessionError Session × Manager). x.1) (sym same)) (
          routed-Inv f m req.resume_tunnel_id e (resumed_entry e req conn now) p
            (v.named req.resume_tunnel_id e p) refl refl v)
    | inr (_, same) ↦
        subst (Inv std) (ap (λ (x : Result SessionError Session × Manager). x.1) (sym same)) v
  ]

  pub beat-Inv :
      (f : Faults) (m : Manager) (id : Str) (at : Time)
      → Inv std m
      → Inv std (touch_heartbeat std f m id at).1
  unfolding touch_heartbeat
  beat-Inv f m id at v = elim (Option-cases (get m.sessions id)) [
    | inl n ↦ rw (n, touch_heartbeat) v
    | inr (e, p) ↦ rw (p, touch_heartbeat) (routed-Inv f m id e _ p (v.named id e p) refl refl v)
  ]

  pub count-Inv : (m : Manager) (id : Str) (n : Int64) → Inv std m → Inv std (set_in_flight m id n)
  unfolding set_in_flight
  count-Inv m id n v = elim (Option-cases (get m.sessions id)) [
    | inl g ↦ rw (g, set_in_flight) v
    | inr (e, p) ↦
        let e' : Entry = record e { session = record e.session { in_flight = n } } in
        rw (p, set_in_flight)
          (record {
            named = put-AllNamed m.sessions id e' (v.named id e p) v.named;
            live = λ h j g.
                put-IsLiveAt std m.sessions id e' h j
                  (λ x q up.
                    let same = some_eq p q in
                    (
                      ap (host_of std) same,
                      ap (λ (z : Entry). is_connected z.session.connection) same ∙ up,
                    ))
                  (v.live h j g);
          })
  ]

  pub detach-Inv :
      (f : Faults) (m : Manager) (id : Str) (at : Time)
      → Inv std m
      → Inv std (detach_connection std f m id at)
  unfolding detach_connection deactivate_routing
  detach-Inv f m id at v = elim (Option-cases (get m.sessions id)) [
    | inl n ↦ rw (n, detach_connection) v
    | inr (e, p) ↦
        let own = v.named id e p in
        let e' = detached_entry e at in
        let quiet : Manager =
          deactivate_routing std (record m { sessions = put m.sessions id e' }) e.session.id
            e.session.public_url e.session.subdomain in
        subst (Inv std) (sym (detach_some std f m id at e p)) (
          persist-Inv f quiet e' (record {
            named = put-AllNamed m.sessions id e' own v.named;
            live =
                quiet-AllLive std m.sessions (put m.sessions id e') m.active_by_host e.session.id e
                  (ap (get m.sessions) own ∙ p)
                  (λ j n. get-put_ne m.sessions id e' j (λ q. n (own ∙ q))) v.live;
          }))
  ]
