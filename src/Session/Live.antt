-- ===== src/Session/Live.antt =====
-- What the routing map of internal/session/session.go points to: the map of active hosts, beside the
-- map of sessions.
use binboi_go.Base.{
  some-injective, ◌≡◌, ◌≢◌, sym, ap, ◌∙◌, true, false, some, arith, Bool-cases, inl, inr,
}
use binboi_go.Go.Text.{Str, str_discrete, is_empty}
use binboi_go.Go.Map.{Map, get, put, delete, get-delete, get-put_self, get-put_ne}
use binboi_go.Transport.{Std}
use binboi_go.Session.Manager.{Entry, host_from_public_url, put_named, delete_if}
use binboi_go.Session.Register.{is_connected}
use binboi_go.Session.Resume.{delete_if-gone}

abbrev pub host_of : Std → Entry → Str
host_of std e = host_from_public_url std e.session.public_url

-- The session of an id is there and connected, and the host is its own.
pub record IsLiveAt (std : Std) (ss : Map Entry) (h id : Str) : Type 0 where
  pub entry : Entry
  pub present : get ss id ≡ some entry
  pub own_host : host_of std entry ≡ h
  pub is_up : is_connected entry.session.connection ≡ true
  pub named : is_empty h ≡ false

-- Every active host leads to a live session.
abbrev pub AllLive : Std → Map Entry → Map Str → Type 0
AllLive std ss am = (h id : Str) → get am h ≡ some id → IsLiveAt std ss h id

-- Every session lies under its own id.
abbrev pub AllNamed : Map Entry → Type 0
AllNamed ss = (id : Str) (e : Entry) → get ss id ≡ some e → e.session.id ≡ id

pub put-AllNamed :
    (ss : Map Entry) (id : Str) (e : Entry)
    → e.session.id ≡ id
    → AllNamed ss
    → AllNamed (put ss id e)
put-AllNamed ss id e own a j x h = elim (str_discrete id j) [
  | yes p ↦
      let found : some e ≡ some x = sym (get-put_self ss id e) ∙ ap (get (put ss id e)) p ∙ h in
      ap (λ (z : Entry). z.session.id) (sym (some-injective found)) ∙ own ∙ p
  | no n ↦ a j x (sym (get-put_ne ss id e j n) ∙ h)
]

pub delete-AllNamed : (ss : Map Entry) (id : Str) → AllNamed ss → AllNamed (delete ss id)
delete-AllNamed ss id a j x h = a j x (ground (arith, get-delete ss id j, h))

-- A put of a session that stays under its host and stays connected, if it was.
pub put-IsLiveAt :
    (std : Std) (ss : Map Entry) (id : Str) (e : Entry) (h j : Str)
    → ((x : Entry)
        → get ss id ≡ some x
        → is_connected x.session.connection ≡ true
        → (host_of std e ≡ host_of std x) × (is_connected e.session.connection ≡ true))
    → IsLiveAt std ss h j
    → IsLiveAt std (put ss id e) h j
put-IsLiveAt std ss id e h j stays l = elim (str_discrete id j) [
  | yes p ↦
      let (host, up) = stays l.entry (ap (get ss) p ∙ l.present) l.is_up in
      record {
        entry = e;
        present = ap (get (put ss id e)) (sym p) ∙ get-put_self ss id e;
        own_host = host ∙ l.own_host;
        is_up = up;
        named = l.named;
      }
  | no n ↦ record {
    entry = l.entry;
    present = get-put_ne ss id e j n ∙ l.present;
    own_host = l.own_host;
    is_up = l.is_up;
    named = l.named;
  }
]

-- The host of a connected session is switched on.
pub activate-AllLive :
    (std : Std) (ss : Map Entry) (am : Map Str) (id : Str) (e : Entry)
    → get ss id ≡ some e
    → is_connected e.session.connection ≡ true
    → AllLive std ss am
    → AllLive std ss (put_named am (host_of std e) id)
activate-AllLive std ss am id e p up a h j g = elim (Bool-cases (is_empty (host_of std e))) [
  | inl y ↦ a h j (rw y at g)
  | inr n ↦
      let g' : get (put am (host_of std e) id) h ≡ some j = rw n at g in
      elim (str_discrete (host_of std e) h) [
        | yes q ↦
            let same : some id ≡ some j =
              sym (get-put_self am (host_of std e) id)
              ∙ ap (get (put am (host_of std e) id)) q
              ∙ g' in
            record {
              entry = e;
              present = ap (get ss) (sym (some-injective same)) ∙ p;
              own_host = q;
              is_up = up;
              named = ap is_empty (sym q) ∙ n;
            }
        | no d ↦ a h j (sym (get-put_ne am (host_of std e) id h d) ∙ g')
      ]
]

kept_by_delete :
    (am : Map Str) (k v h j : Str) → get (delete_if am k v) h ≡ some j → get am h ≡ some j
kept_by_delete am k v h j g = ground (arith, get-delete am k h, g)

-- A session's host is switched off, and then the session may change as it likes.
pub quiet-AllLive :
    (std : Std) (ss ss' : Map Entry) (am : Map Str) (id : Str) (e : Entry)
    → get ss id ≡ some e
    → ((j : Str) → id ≢ j → get ss' j ≡ get ss j)
    → AllLive std ss am
    → AllLive std ss' (delete_if am (host_of std e) id)
quiet-AllLive std ss ss' am id e p others a h j g =
    let l = a h j (kept_by_delete am (host_of std e) id h j g) in
    elim (str_discrete id j) [
      | yes q ↦
          let host : host_of std e ≡ h =
            ap (host_of std) (some-injective (sym p ∙ ap (get ss) q ∙ l.present)) ∙ l.own_host in
          absurd (
            delete_if-gone am (host_of std e) id (ap is_empty host ∙ l.named)
              (ap (get (delete_if am (host_of std e) id)) host ∙ g ∙ ap some (sym q)))
      | no n ↦ record {
        entry = l.entry;
        present = others j n ∙ l.present;
        own_host = l.own_host;
        is_up = l.is_up;
        named = l.named;
      }
    ]
