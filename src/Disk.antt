-- ===== src/Disk.antt =====
-- The versioned JSON file behind each of the three stores (internal/usage/store.go,
-- internal/tunnel/store.go, internal/auth/store.go), whose `loadLocked` and `saveLocked` differ in
-- the type of the rows only. What the file system does is the environment's choice: the content of
-- the file, and which of the calls of one save fail.
pub mod Atomic
use binboi_go.Base.{
  ℕ, ◌+◌, ◌-◌, Bool, Option, none, some, List, [], ◌==◌, Result, ok, err, if◌then◌else◌,
}
use binboi_go.Go.Text.{Str, is_empty}
use binboi_go.Go.Word.{Int64}

-- A decoded database; `rows` is `none` for the nil slice that `null` or a missing field decodes to.
pub record Database {ℓ} (A : Type ℓ) : Type ℓ where
  pub schema_version : Int64
  pub rows : Option (List A)

-- What stands at the path: nothing, a file that cannot be opened, a file that does not decode, or
-- one that decodes to a database.
pub data File {ℓ} (A : Type ℓ) : Type ℓ where
  missing unreadable malformed : File A
  json : Database A → File A

pub record Disk {ℓ} (A : Type ℓ) : Type ℓ where
  pub path : Str
  pub file : File A
  -- Temporary files left beside the database.
  pub temps : ℕ

-- Which calls of one save fail.
pub record Faults : Type 0 where
  pub mkdir : Bool
  pub create_temp : Bool
  pub chmod : Bool
  pub encode : Bool
  pub close : Bool
  pub rename : Bool
  -- os.Remove of the temporary file, whose error the source drops.
  pub remove : Bool

pub data StoreError : Type 0 where
  not_exist open_failed decode_failed unsupported_schema empty_path : StoreError
  mkdir_failed create_failed chmod_failed write_failed close_failed rename_failed : StoreError
  not_found user_id_required generate_failed : StoreError

-- The schema version of all three databases.
abbrev pub schema_one : Int64
schema_one = 1

module _ {ℓ} {A : Type ℓ} where
  -- The nil slice is read and written as the empty one.
  abbrev pub rows_of : Database A → List A
  rows_of db = elim db.rows [ none ↦ [] | some rs ↦ rs ]

  abbrev pub database : List A → Database A
  database rs = record { schema_version = schema_one; rows = some rs }

  check_version : Database A → Result StoreError (Database A)
  check_version db =
      let version = if db.schema_version == 0 then schema_one else db.schema_version in
      if version == schema_one
      then ok (record { schema_version = version; rows = some (rows_of db) })
      else err unsupported_schema

  load_file : File A → Result StoreError (Database A)
  unfolding check_version
  load_file missing = err not_exist
  load_file unreadable = err open_failed
  load_file malformed = err decode_failed
  load_file (json db) = check_version db

  -- loadLocked.
  unfoldable pub load_locked : Disk A → Result StoreError (Database A)
  unfolding load_file
  load_locked d = load_file d.file

  -- The save gives up; the temporary file is removed, if it can be.
  abbrev dropped : Faults → Disk A → StoreError → Option StoreError × Disk A
  dropped f d e = (some e, record d { temps = if f.remove then d.temps else d.temps - 1 })

  -- The calls that follow the creation of the temporary file.
  write_temp : Faults → Disk A → Database A → Option StoreError × Disk A
  write_temp f d db =
      if f.chmod
      then dropped f d chmod_failed
      else if f.encode
      then dropped f d write_failed
      else if f.close
      then dropped f d close_failed
      else if f.rename
      then dropped f d rename_failed
      else (none, record d { file = json db; temps = d.temps - 1 })

  -- saveLocked. The new content goes to a temporary file, which then takes the database's place.
  unfoldable pub save_locked : Faults → Disk A → Database A → Option StoreError × Disk A
  unfolding write_temp
  save_locked f d db =
      if is_empty d.path
      then (some empty_path, d)
      else if f.mkdir
      then (some mkdir_failed, d)
      else if f.create_temp
      then (some create_failed, d)
      else write_temp f (record d { temps = d.temps + 1 }) (database (rows_of db))

  -- What is in the file, as the readers see it; a missing file holds no rows.
  abbrev pub contents : Disk A → Result StoreError (List A)
  contents d = elim (load_locked d) [
    | ok db ↦ ok (rows_of db)
    | err not_exist ↦ ok []
    | err e ↦ err e
  ]
