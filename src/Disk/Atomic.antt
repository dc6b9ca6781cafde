-- ===== src/Disk/Atomic.antt =====
-- A save either replaces the whole content or changes nothing.
use binboi_go.Base.{
  ◌+◌, ◌≤◌, ◌≡◌, ◌⊎◌, inl, inr, Bool, true, false, not, if◌then◌else◌, ◌&&◌, ◌||◌, none, some, ok,
  arith, Bool-cases,
}
use binboi_go.Go.Text.{is_empty}
use binboi_go.Disk.{
  Disk, Database, Faults, StoreError, save_locked, load_locked, rows_of, contents, empty_path,
  mkdir_failed, create_failed, chmod_failed, write_failed, close_failed, rename_failed,
}

-- The path is not empty, and none of the six calls fails.
abbrev pub works {ℓ} : {A : Type ℓ} → Faults → Disk A → Bool
works f d =
    not (is_empty d.path)
    && not (f.mkdir || f.create_temp || f.chmod || f.encode || f.close || f.rename)

pub works-path {ℓ} :
    {A : Type ℓ} (f : Faults) (d : Disk A) → works f d ≡ true → is_empty d.path ≡ false
works-path f d h = ground arith

-- A save has no error exactly when the path is not empty and none of its six calls fails. Then the rows that were to be saved are what a reader of the new file gets, and path and
-- number of temporary files are as before. Else path and file are as before, and no
-- temporary file is gone, nor is there one more unless the removal of this one fails.
pub save_locked-atomic {ℓ} :
    {A : Type ℓ} (f : Faults) (d : Disk A) (db : Database A)
    → ((works f d ≡ true)
        × ((save_locked f d db).0 ≡ none)
        × (contents (save_locked f d db).1 ≡ ok (rows_of db))
        × ((save_locked f d db).1.path ≡ d.path)
        × ((save_locked f d db).1.temps ≡ d.temps))
      ⊎ ((works f d ≡ false)
          × ((e : StoreError) × ((save_locked f d db).0 ≡ some e))
          × ((save_locked f d db).1.path ≡ d.path)
          × ((save_locked f d db).1.file ≡ d.file)
          × (d.temps ≤ (save_locked f d db).1.temps)
          × ((save_locked f d db).1.temps ≤ d.temps + (if f.remove then 1 else 0)))
unfolding save_locked load_locked
save_locked-atomic f d db = elim (Bool-cases (is_empty d.path)) [
  | inl y ↦ inr (
    ground arith,
    (empty_path, ground arith),
    ground arith,
    ground arith,
    ground arith,
    ground arith,
  )
  | inr n ↦ elim (Bool-cases f.mkdir) [
    | inl y ↦ inr (
      ground arith,
      (mkdir_failed, ground arith),
      ground arith,
      ground arith,
      ground arith,
      ground arith,
    )
    | inr a ↦ elim (Bool-cases f.create_temp) [
      | inl y ↦ inr (
        ground arith,
        (create_failed, ground arith),
        ground arith,
        ground arith,
        ground arith,
        ground arith,
      )
      | inr b ↦ elim (Bool-cases f.chmod) [
        | inl y ↦ inr (
          ground arith,
          (chmod_failed, ground arith),
          ground arith,
          ground arith,
          ground arith,
          ground arith,
        )
        | inr c ↦ elim (Bool-cases f.encode) [
          | inl y ↦ inr (
            ground arith,
            (write_failed, ground arith),
            ground arith,
            ground arith,
            ground arith,
            ground arith,
          )
          | inr e ↦ elim (Bool-cases f.close) [
            | inl y ↦ inr (
              ground arith,
              (close_failed, ground arith),
              ground arith,
              ground arith,
              ground arith,
              ground arith,
            )
            | inr g ↦ elim (Bool-cases f.rename) [
              | inl y ↦ inr (
                ground arith,
                (rename_failed, ground arith),
                ground arith,
                ground arith,
                ground arith,
                ground arith,
              )
              | inr h ↦ inl (ground arith, ground arith, ground arith, ground arith, ground arith)
            ]
          ]
        ]
      ]
    ]
  ]
]
