-- ===== src/Auth/Sound.antt =====
-- What stands behind a principal that Validate of internal/auth/validator.go returns.
use binboi_go.Base.{
  ◌≤◌, ◌≡◌, ◌⊎◌, inl, inr, refl, ap, ◌∙◌, false, List, Option, none, some, Result, ok, err, arith,
  Bool-cases, Option-cases, ltb,
}
use binboi_go.Go.Text.{Str, str_discrete, is_empty, trim_space}
use binboi_go.Go.Map.{get}
use binboi_go.Disk.{Disk, Faults, StoreError, contents}
use binboi_go.Auth.Token.{
  Crypto, Time, Record, Principal, AuthError, hash_token, prefix_from_raw_token,
}
use binboi_go.Auth.Store.{first_of_prefix, find_by_prefix, touch_last_used}
use binboi_go.Auth.Validator.{
  CacheEntry, Validator, cached, check_stored, principal_of, remember, after_cached, validate_token,
}

-- An entry of the cache for the hash that has not expired names the principal.
pub record IsCached (v : Validator) (hash : Str) (now : Time) (p : Principal) : Type 0 where
  pub entry : CacheEntry
  pub held : get v.cache hash ≡ some entry
  pub in_time : now ≤ entry.expires_at
  pub names : p ≡ entry.principal

-- The first stored token of the prefix has the hash, is not revoked and names the principal.
pub record IsStored (d : Disk Record) (prefix hash : Str) (p : Principal) : Type 0 where
  pub rows : List Record
  pub token : Record
  pub readable : contents d ≡ ok rows
  pub found : first_of_prefix rows prefix ≡ some token
  pub live : token.revoked ≡ false
  pub same_hash : token.key_hash ≡ hash
  pub names : p ≡ principal_of token

remember-names :
    (v : Validator) (hash : Str) (r : Record) (now : Time) (o : Option StoreError × Disk Record)
    (p : Principal)
    → (remember v hash r now o).0 ≡ ok p
    → p ≡ principal_of r
remember-names v hash r now (none, d) p h = cc
remember-names v hash r now (some e, d) p h = absurd (cc h)

find-found :
    (d : Disk Record) (x : Result StoreError (List Record)) (prefix : Str) (r : Record)
    → contents d ≡ x
    → find_by_prefix d prefix ≡ ok (some r)
    → (rows : List Record) × (contents d ≡ ok rows) × (first_of_prefix rows prefix ≡ some r)
unfolding find_by_prefix
find-found d (ok rows) prefix r e h = (rows, e, cc (rw (e, find_by_prefix) at h))
find-found d (err x) prefix r e h = absurd (cc (rw (e, find_by_prefix) at h))

check_stored-found :
    (f : Faults) (v : Validator) (d : Disk Record) (prefix hash : Str) (now : Time) (p : Principal)
    (x : Result StoreError (Option Record))
    → find_by_prefix d prefix ≡ x
    → (check_stored f v d prefix hash now).0 ≡ ok p
    → IsStored d prefix hash p
unfolding check_stored
check_stored-found f v d prefix hash now p (err x) e h = absurd (cc (rw (e, check_stored) at h))
check_stored-found f v d prefix hash now p (ok none) e h = absurd (cc (rw (e, check_stored) at h))
check_stored-found f v d prefix hash now p (ok (some r)) e h =
    let (rows, readable, found) = find-found d (contents d) prefix r refl e in
    elim (Bool-cases r.revoked) [
      | inl y ↦ absurd (cc (rw (e, check_stored, y) at h))
      | inr n ↦ elim (str_discrete r.key_hash hash) [
        | yes same ↦ record {
          rows = rows;
          token = r;
          readable = readable;
          found = found;
          live = n;
          same_hash = same;
          names =
              remember-names v hash r now (touch_last_used f d r.id now) p
                (ground (arith, h, e, n, same));
        }
        | no differs ↦ absurd (ground (arith, h, e, n, differs))
      ]
    ]

-- The cache answers with an entry that has not expired, or not at all.
cached-answer :
    (v : Validator) (hash : Str) (now : Time) (p : Principal)
    → (cached v hash now).0 ≡ some p
    → IsCached v hash now p
unfolding cached
cached-answer v hash now p h = elim (Option-cases (get v.cache hash)) [
  | inl e ↦ absurd (cc (rw (e, cached) at h))
  | inr (entry, e) ↦ elim (Bool-cases (ltb entry.expires_at now)) [
    | inl y ↦ absurd (cc (rw (e, cached, y) at h))
    | inr n ↦
        let same : some entry.principal ≡ some p = rw (e, cached, n) at h in
        record { entry = entry; held = e; in_time = ground arith; names = cc }
  ]
]

-- Whom a token is let in for.
abbrev pub IsVouched : Validator → Disk Record → Str → Str → Time → Principal → Type 0
IsVouched v d prefix hash now p = IsCached v hash now p ⊎ IsStored d prefix hash p

after_cached-IsVouched :
    (f : Faults) (v : Validator) (d : Disk Record) (prefix hash : Str) (now later : Time)
    (p : Principal) (o : Option Principal × Validator)
    → cached v hash now ≡ o
    → (after_cached f d prefix hash later o).0 ≡ ok p
    → IsVouched v d prefix hash now p
after_cached-IsVouched f v d prefix hash now later p (none, w) e h =
    inr (check_stored-found f w d prefix hash later p (find_by_prefix d prefix) refl h)
after_cached-IsVouched f v d prefix hash now later p (some q, w) e h =
    let same : q ≡ p = cc in
    inl
      (cached-answer v hash now p (ap (λ (x : Option Principal × Validator). x.0) e ∙ ap some same))

by_prefix :
    (c : Crypto) (f : Faults) (v : Validator) (d : Disk Record) (raw : Str) (now later : Time)
    (p : Principal) (x : Result AuthError Str)
    → prefix_from_raw_token (trim_space raw) ≡ x
    → is_empty (trim_space raw) ≡ false
    → (validate_token c f v d raw now later).0 ≡ ok p
    → (prefix : Str) × (prefix_from_raw_token (trim_space raw) ≡ ok prefix)
      × IsVouched v d prefix (hash_token c (trim_space raw)) now p
unfolding validate_token
by_prefix c f v d raw now later p (err x) e n h = absurd (cc (rw (n, e) at h))
by_prefix c f v d raw now later p (ok prefix) e n h = (
  prefix,
  e,
  after_cached-IsVouched f v d prefix (hash_token c (trim_space raw)) now later p _ refl
      (rw (n, e) at h),
)

-- Validate lets nobody in without a token. Whenever it returns a principal, the raw token has a
-- prefix, and either the cache held an entry for the token's hash that had not expired and names
-- that principal, or the first stored token of that prefix has the token's hash, is not revoked
-- and belongs to that principal.
pub validate_token-IsVouched :
    (c : Crypto) (f : Faults) (v : Validator) (d : Disk Record) (raw : Str) (now later : Time)
    (p : Principal)
    → (validate_token c f v d raw now later).0 ≡ ok p
    → (prefix : Str) × (prefix_from_raw_token (trim_space raw) ≡ ok prefix)
      × IsVouched v d prefix (hash_token c (trim_space raw)) now p
unfolding validate_token
validate_token-IsVouched c f v d raw now later p h = elim (Bool-cases (is_empty (trim_space raw))) [
  | inl y ↦ absurd (cc (rw y at h))
  | inr n ↦ by_prefix c f v d raw now later p (prefix_from_raw_token (trim_space raw)) refl n h
]
