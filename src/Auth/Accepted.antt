-- ===== src/Auth/Accepted.antt =====
-- CreateToken of internal/auth/store.go followed by Validate of internal/auth/validator.go.
use binboi_go.Base.{
  ℕ, ◌≡◌, ◌≢◌, inl, inr, refl, sym, ap, ◌∙◌, false, List, [], ◌∷◌, ◌++◌, Option, none, some, Result,
  ok, err, arith, Bool-cases, Option-cases, if_pos,
}
use binboi_go.Go.Text.{Str, str_discrete, is_empty, trim_space}
use binboi_go.Go.Map.{get}
use binboi_go.Disk.{
  Disk, Database, Faults, StoreError, not_exist, load_locked, save_locked, database, rows_of,
  contents,
}
use binboi_go.Disk.Atomic.{works-path, save_locked-atomic}
use binboi_go.Auth.Token.{
  Crypto, Time, TokenBytes, Record, Principal, AuthError, hash_token, new_record, raw_of, prefix_of,
  generate_token,
}
use binboi_go.Auth.Store.{
  create_token, append_token, created, touch_row, touch_last_used, first_of_prefix, find_by_prefix,
}
use binboi_go.Auth.Validator.{
  Validator, cached, check_stored, principal_of, remember, validate_token,
}
use binboi_go.Auth.Issued.{trim-raw_of, prefix-raw_of}

-- No call of the file system fails.
abbrev pub calm : Faults
calm = record {
  mkdir = false;
  create_temp = false;
  chmod = false;
  encode = false;
  close = false;
  rename = false;
  remove = false;
}

-- What a generated token looks like.
pub record IsGenerated (c : Crypto) (bytes : TokenBytes) (user : Str) (r : Record) (raw : Str)
    : Type 0 where
  pub suffix : List ℕ
  pub secret : List ℕ
  pub secret_read : bytes.secret ≡ some secret
  pub raw_form : raw ≡ raw_of c suffix secret
  pub prefix_form : r.prefix ≡ prefix_of c suffix
  pub hash_form : r.key_hash ≡ hash_token c raw
  pub not_revoked : r.revoked ≡ false
  pub owner : r.user_id ≡ trim_space user

generated :
    (c : Crypto) (bytes : TokenBytes) (user : Str) (now : Time) (r : Record) (raw : Str)
    → generate_token c bytes user now ≡ ok (r, raw)
    → IsGenerated c bytes user r raw
unfolding generate_token
generated c bytes user now r raw h = elim (Bool-cases (is_empty (trim_space user))) [
  | inl y ↦ absurd (cc (rw y at h))
  | inr n ↦ elim (Option-cases bytes.id) [
    | inl a ↦ absurd (cc (rw (n, a) at h))
    | inr (id, a) ↦ elim (Option-cases bytes.prefix_suffix) [
      | inl b ↦ absurd (cc (rw (n, a, b) at h))
      | inr (suffix, b) ↦ elim (Option-cases bytes.secret) [
        | inl z ↦ absurd (cc (rw (n, a, b, z) at h))
        | inr (secret, z) ↦
            let e : ◌≡◌ {A = Record × Str}
                (new_record c (trim_space user) now id suffix secret, raw_of c suffix secret)
                (r, raw) =
              cc (rw (n, a, b, z) at h) in
            record {
              suffix = suffix;
              secret = secret;
              secret_read = z;
              raw_form = ap (λ (x : Record × Str). x.1) (sym e);
              prefix_form = ap (λ (x : Record × Str). x.0.prefix) (sym e);
              hash_form =
                  ap (λ (x : Record × Str). x.0.key_hash) (sym e)
                  ∙ ap (λ (x : Record × Str). hash_token c x.1) e;
              not_revoked = ap (λ (x : Record × Str). x.0.revoked) (sym e);
              owner = ap (λ (x : Record × Str). x.0.user_id) (sym e);
            }
      ]
    ]
  ]
]

-- The new token is the last row.
first_of_prefix-last :
    (rows : List Record) (r : Record)
    → first_of_prefix rows r.prefix ≡ none
    → first_of_prefix (rows ++ r ∷ []) r.prefix ≡ some r
unfolding first_of_prefix
first_of_prefix-last [] r h = ground arith
first_of_prefix-last (x ∷ rows) r h = ground (arith, first_of_prefix-last rows r)

touch_row-last :
    (rows : List Record) (r : Record) (at : Time)
    → (rows' : List Record) × (touch_row (rows ++ r ∷ []) r.id at ≡ some rows')
unfolding touch_row
touch_row-last [] r at = (record r { last_used_at = some at } ∷ [], ground arith)
touch_row-last (x ∷ rows) r at =
    let (ys, e) = touch_row-last rows r at in
    elim (str_discrete x.id r.id) [
      | yes p ↦ (record x { last_used_at = some at } ∷ (rows ++ r ∷ []), ground arith)
      | no n ↦ (x ∷ ys, ground (arith, e))
    ]

loaded :
    (d : Disk Record) (x : Result StoreError (Database Record)) (rows : List Record) (r : Record)
    → load_locked d ≡ x
    → contents d ≡ ok (rows ++ r ∷ [])
    → (db : Database Record) × (load_locked d ≡ ok db) × (rows_of db ≡ rows ++ r ∷ [])
loaded d (ok db) rows r e h = (db, e, cc (rw (e, contents) at h))
loaded d (err not_exist) [] r e h = absurd (cc (rw (e, contents) at h))
loaded d (err not_exist) (y ∷ rows) r e h = absurd (cc (rw (e, contents) at h))
loaded d (err _) rows r e h = absurd (cc (rw (e, contents) at h))

calm_save :
    (d : Disk Record) (db : Database Record)
    → is_empty d.path ≡ false
    → (save_locked calm d db).0 ≡ none
unfolding save_locked
calm_save d db h = rw h refl

touch_works :
    (d : Disk Record) (rows : List Record) (r : Record) (at : Time)
    → is_empty d.path ≡ false
    → contents d ≡ ok (rows ++ r ∷ [])
    → (touch_last_used calm d r.id at).0 ≡ none
unfolding touch_last_used
touch_works d rows r at p h =
    let (db, e, same) = loaded d (load_locked d) rows r refl h in
    let (ys, t) = touch_row-last rows r at in
    rw (e, touch_last_used, same, t) (calm_save d (database ys) p)

remember-ok :
    (v : Validator) (hash : Str) (r : Record) (now : Time) (o : Option StoreError × Disk Record)
    → o.0 ≡ none
    → (remember v hash r now o).0 ≡ ok (principal_of r)
remember-ok v hash r now (none, d) e = refl
remember-ok v hash r now (some x, d) e = cc

find-last :
    (d : Disk Record) (rows : List Record) (r : Record)
    → contents d ≡ ok (rows ++ r ∷ [])
    → first_of_prefix rows r.prefix ≡ none
    → find_by_prefix d r.prefix ≡ ok (some r)
unfolding find_by_prefix
find-last d rows r h fresh = rw (h, find_by_prefix) (ap ok (first_of_prefix-last rows r fresh))

stored_token_passes :
    (v : Validator) (d : Disk Record) (rows : List Record) (r : Record) (now : Time)
    → is_empty d.path ≡ false
    → contents d ≡ ok (rows ++ r ∷ [])
    → first_of_prefix rows r.prefix ≡ none
    → r.revoked ≡ false
    → (check_stored calm v d r.prefix r.key_hash now).0 ≡ ok (principal_of r)
unfolding check_stored
stored_token_passes v d rows r now p h fresh live =
    rw (find-last d rows r h fresh, check_stored, live)
      (ap (λ (x : Result AuthError Principal × Validator × Disk Record). x.0)
          (if_pos (str_discrete r.key_hash r.key_hash) refl _ _)
        ∙ remember-ok v r.key_hash r now (touch_last_used calm d r.id now)
            (touch_works d rows r now p h))

saved :
    (f : Faults) (d : Disk Record) (rows : List Record) (x y : Record × Str)
    → (created x (save_locked f d (database rows))).0 ≡ ok y
    → (x ≡ y)
      × (is_empty (save_locked f d (database rows)).1.path ≡ false)
      × (contents (save_locked f d (database rows)).1 ≡ ok rows)
saved f d rows x y h = elim (save_locked-atomic f d (database rows)) [
  | inl k ↦ (ground (arith, h, k.1), ap is_empty k.3 ∙ works-path f d k.0, k.2)
  | inr k ↦ absurd (ground (arith, h, k.1.1))
]

-- What `created` does to the disk is what the save did.
created-disk : (x : Record × Str) (o : Option StoreError × Disk Record) → (created x o).1 ≡ o.1
created-disk x (none, d) = refl
created-disk x (some e, d) = refl

append-shape :
    (f : Faults) (d : Disk Record) (rows : List Record) (g : Result AuthError (Record × Str))
    (y : Record × Str)
    → (append_token f d rows g).0 ≡ ok y
    → (g ≡ ok y)
      × (is_empty (append_token f d rows g).1.path ≡ false)
      × (contents (append_token f d rows g).1 ≡ ok (rows ++ y.0 ∷ []))
append-shape f d rows (err e) y h = absurd (cc h)
append-shape f d rows (ok x) y h =
    let (same, p, k) = saved f d (rows ++ x.0 ∷ []) x y h in
    let disk = created-disk x (save_locked f d (database (rows ++ x.0 ∷ []))) in
    (
      ap ok same,
      ap (λ (z : Disk Record). is_empty z.path) disk ∙ p,
      ap contents disk ∙ k ∙ ap (λ (z : Record × Str). ok (rows ++ z.0 ∷ [])) same,
    )

create-eq :
    (c : Crypto) (f : Faults) (d : Disk Record) (rows : List Record) (bytes : TokenBytes)
    (user : Str) (now : Time)
    → contents d ≡ ok rows
    → create_token c f d bytes user now ≡ append_token f d rows (generate_token c bytes user now)
unfolding create_token
create-eq c f d rows bytes user now e = rw (e, create_token) refl

pub cached_miss :
    (v : Validator) (hash : Str) (now : Time)
    → get v.cache hash ≡ none
    → cached v hash now ≡ (none, v)
unfolding cached
cached_miss v hash now e = rw (e, cached) refl

validate_miss :
    (c : Crypto) (v : Validator) (d : Disk Record) (suffix secret : List ℕ) (now later : Time)
    → secret ≢ []
    → get v.cache (hash_token c (raw_of c suffix secret)) ≡ none
    → validate_token c calm v d (raw_of c suffix secret) now later
      ≡ check_stored calm v d (prefix_of c suffix) (hash_token c (raw_of c suffix secret)) later
unfolding validate_token
validate_miss c v d suffix secret now later h e =
    let raw = raw_of c suffix secret in
    let trim : hash_token c (trim_space raw) ≡ hash_token c raw =
      ap (hash_token c) (trim-raw_of c suffix secret h) in
    rw (trim-raw_of c suffix secret h, prefix-raw_of c suffix secret h)
      (rw (cached_miss v (hash_token c (trim_space raw)) now (ap (get v.cache) trim ∙ e))
        (ap (λ x. check_stored calm v d (prefix_of c suffix) x later) trim))

-- CreateToken followed by Validate. Suppose that CreateToken on a readable store returns a token
-- and its raw form, whose secret was read as at least one byte; that no older token has its
-- prefix; that the validator has not cached its hash; and that no call of the file system fails
-- during Validate. Then Validate of the raw form returns the token's principal.
pub create_then_validate :
    (c : Crypto) (f : Faults) (v : Validator) (d : Disk Record) (rows : List Record)
    (bytes : TokenBytes) (user : Str) (created_at now later : Time) (r : Record) (raw : Str)
    → contents d ≡ ok rows
    → bytes.secret ≢ some []
    → (create_token c f d bytes user created_at).0 ≡ ok (r, raw)
    → first_of_prefix rows r.prefix ≡ none
    → get v.cache (hash_token c raw) ≡ none
    → (validate_token c calm v (create_token c f d bytes user created_at).1 raw now later).0
      ≡ ok (principal_of r)
create_then_validate c f v d rows bytes user created_at now later r raw readable read done fresh
      miss =
    let eq = create-eq c f d rows bytes user created_at readable in
    let (made, path, after) =
      append-shape f d rows (generate_token c bytes user created_at) (r, raw)
        (ap (λ (x : Result AuthError (Record × Str) × Disk Record). x.0) (sym eq) ∙ done) in
    let d' : Disk Record = (append_token f d rows (generate_token c bytes user created_at)).1 in
    let g = generated c bytes user created_at r raw made in
    let used : g.secret ≢ [] = λ e. read (g.secret_read ∙ ap some e) in
    let hash : hash_token c (raw_of c g.suffix g.secret) ≡ r.key_hash =
      ap (hash_token c) (sym g.raw_form) ∙ sym g.hash_form in
    ap (λ (x : Disk Record). (validate_token c calm v x raw now later).0)
      (ap (λ (x : Result AuthError (Record × Str) × Disk Record). x.1) eq)
    ∙ ap (λ x. (validate_token c calm v d' x now later).0) g.raw_form
    ∙ ap (λ (x : Result AuthError Principal × Validator × Disk Record). x.0)
        (validate_miss c v d' g.suffix g.secret now later used
          (ap (λ x. get v.cache (hash_token c x)) (sym g.raw_form) ∙ miss))
    ∙ ap (λ x. (check_stored calm v d' x (hash_token c (raw_of c g.suffix g.secret)) later).0)
        (sym g.prefix_form)
    ∙ ap (λ x. (check_stored calm v d' r.prefix x later).0) hash
    ∙ stored_token_passes v d' rows r later path after fresh g.not_revoked
