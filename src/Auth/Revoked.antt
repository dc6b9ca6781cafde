-- ===== src/Auth/Revoked.antt =====
-- RevokeToken of internal/auth/store.go followed by Validate of internal/auth/validator.go.
use binboi_go.Base.{
  some-injective, ok-injective, ◌≡◌, refl, sym, ap, ◌∙◌, true, false, List, [], ◌∷◌, Option, none,
  some, Result, ok, err, arith, Option-cases, inl, inr, ite, if_pos, if_neg,
}
use binboi_go.Go.Text.{Str, str_discrete, is_empty, trim_space}
use binboi_go.Go.Map.{get}
use binboi_go.Disk.{Disk, Database, Faults, StoreError, load_locked, database, rows_of, contents}
use binboi_go.Disk.Atomic.{save_locked-atomic}
use binboi_go.Auth.Token.{Crypto, Time, Record, revoked_token, hash_token, prefix_from_raw_token}
use binboi_go.Auth.Store.{revoke_token, revoke_row, save_if_found, first_of_prefix, find_by_prefix}
use binboi_go.Auth.Validator.{Validator, check_stored, validate_token}
use binboi_go.Auth.Accepted.{cached_miss}

-- The first row of an id.
unfoldable pub first_of_id : List Record → Str → Option Record
first_of_id [] id = none
first_of_id (x ∷ xs) id = ite (str_discrete x.id id) (some x) (first_of_id xs id)

found_prefix :
    (rows : List Record) (p : Str) (r : Record) → first_of_prefix rows p ≡ some r → r.prefix ≡ p
unfolding first_of_prefix
found_prefix [] p r f = absurd (cc f)
found_prefix (x ∷ xs) p r f = elim (str_discrete x.prefix p) [
  | yes q ↦ ground (arith, f, q)
  | no n ↦ found_prefix xs p r (ground (arith, f, n))
]

revoke_head :
    (x : Record) (xs : List Record) (p : Str) (r : Record) (ys : List Record)
    → x.id ≡ r.id
    → first_of_prefix (x ∷ xs) p ≡ some r
    → first_of_id (x ∷ xs) r.id ≡ some r
    → revoke_row (x ∷ xs) r.id ≡ some ys
    → first_of_prefix ys p ≡ some (record r { revoked = true })
unfolding first_of_prefix first_of_id revoke_row
revoke_head x xs p r ys q f i e =
    let same : x ≡ r = some-injective (sym (if_pos (str_discrete x.id r.id) q _ _) ∙ i) in
    let own : x.prefix ≡ p = ap (λ (z : Record). z.prefix) same ∙ found_prefix (x ∷ xs) p r f in
    let shape : record x { revoked = true } ∷ xs ≡ ys =
      some-injective (sym (if_pos (str_discrete x.id r.id) q _ _) ∙ e) in
    ap (λ z. first_of_prefix z p) (sym shape)
    ∙ if_pos (str_discrete x.prefix p) own _ _
    ∙ ap (λ (z : Record). some (record z { revoked = true })) same

-- The row that is found by its prefix, and by its id, is the one that becomes revoked.
revoke_row-found :
    (rows : List Record) (p : Str) (r : Record) (ys : List Record)
    → first_of_prefix rows p ≡ some r
    → first_of_id rows r.id ≡ some r
    → revoke_row rows r.id ≡ some ys
    → first_of_prefix ys p ≡ some (record r { revoked = true })
unfolding first_of_prefix first_of_id revoke_row
revoke_row-found [] p r ys f i e = absurd (cc f)
revoke_row-found (x ∷ xs) p r ys f i e = elim (str_discrete x.id r.id) [
  | yes q ↦ revoke_head x xs p r ys q f i e
  | no n ↦ elim (Option-cases (revoke_row xs r.id)) [
    | inl g ↦ absurd (ground (arith, e, g, n))
    | inr (zs, g) ↦
        let shape : x ∷ zs ≡ ys = ground (arith, e, g, n) in
        elim (str_discrete x.prefix p) [
          | yes q ↦ absurd (n (ground (arith, f, q)))
          | no m ↦
              ap (λ z. first_of_prefix z p) (sym shape)
              ∙ if_neg (str_discrete x.prefix p) m _ _
              ∙ revoke_row-found xs p r zs (ground (arith, f, m)) (ground (arith, i, n)) g
        ]
  ]
]

save_if_found-contents :
    (f : Faults) (d : Disk Record) (o : Option (List Record))
    → (save_if_found f d o).0 ≡ none
    → (ys : List Record) × (o ≡ some ys) × (contents (save_if_found f d o).1 ≡ ok ys)
save_if_found-contents f d none h = absurd (cc h)
save_if_found-contents f d (some ys) h = elim (save_locked-atomic f d (database ys)) [
  | inl k ↦ (ys, refl, k.2)
  | inr k ↦ absurd (cc (sym h ∙ k.1.1))
]

-- A revocation that reports no error is what the next reader finds.
revoked-contents :
    (f : Faults) (d : Disk Record) (rows : List Record) (id : Str)
    (x : Result StoreError (Database Record))
    → load_locked d ≡ x
    → contents d ≡ ok rows
    → (revoke_token f d id).0 ≡ none
    → (ys : List Record) × (revoke_row rows id ≡ some ys)
      × (contents (revoke_token f d id).1 ≡ ok ys)
unfolding revoke_token
revoked-contents f d rows id (err e) l h k = absurd (cc (rw (l, revoke_token) at k))
revoked-contents f d rows id (ok db) l h k =
    let same : rows_of db ≡ rows = ok-injective (rw (l, contents) at h) in
    let (ys, g, after) =
      save_if_found-contents f d (revoke_row (rows_of db) id) (rw (l, revoke_token) at k) in
    (ys, ap (λ z. revoke_row z id) (sym same) ∙ g, rw (l, revoke_token) after)

find-revoked :
    (d : Disk Record) (ys : List Record) (p : Str) (r : Record)
    → contents d ≡ ok ys
    → first_of_prefix ys p ≡ some r
    → find_by_prefix d p ≡ ok (some r)
unfolding find_by_prefix
find-revoked d ys p r h f = rw (h, find_by_prefix) (ap ok f)

check_revoked :
    (g : Faults) (v : Validator) (d : Disk Record) (p hash : Str) (now : Time) (r : Record)
    → find_by_prefix d p ≡ ok (some r)
    → r.revoked ≡ true
    → check_stored g v d p hash now ≡ (err revoked_token, v, d)
unfolding check_stored
check_revoked g v d p hash now r f y = rw (f, check_stored, y) refl

-- RevokeToken followed by Validate. Suppose that RevokeToken reports no error for a token that is
-- the first of its prefix and of its id in a readable store, and that the validator has not cached
-- the hash of a raw token with that prefix. Then Validate refuses the raw token as revoked, whatever
-- calls of the file system fail, and changes neither its cache nor the store.
pub revoke_then_validate :
    (c : Crypto) (f g : Faults) (v : Validator) (d : Disk Record) (rows : List Record) (r : Record)
    (raw p : Str) (now later : Time)
    → contents d ≡ ok rows
    → first_of_prefix rows p ≡ some r
    → first_of_id rows r.id ≡ some r
    → (revoke_token f d r.id).0 ≡ none
    → is_empty (trim_space raw) ≡ false
    → prefix_from_raw_token (trim_space raw) ≡ ok p
    → get v.cache (hash_token c (trim_space raw)) ≡ none
    → validate_token c g v (revoke_token f d r.id).1 raw now later
      ≡ (err revoked_token, v, (revoke_token f d r.id).1)
unfolding validate_token
revoke_then_validate c f g v d rows r raw p now later readable first by_id done n prefix miss =
    let (ys, row, after) = revoked-contents f d rows r.id (load_locked d) refl readable done in
    let d' = (revoke_token f d r.id).1 in
    rw (n, prefix)
      (rw (cached_miss v (hash_token c (trim_space raw)) now miss) (
        check_revoked g v d' p (hash_token c (trim_space raw)) later (record r { revoked = true })
          (find-revoked d' ys p (record r { revoked = true }) after
            (revoke_row-found rows p r ys first by_id row))
          refl))
