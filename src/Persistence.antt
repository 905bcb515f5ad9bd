-- ===== src/Persistence.antt =====
-- src/persistence.cpp: the mesh identity and the trusted devices in an SQLite file. The SQL texts
-- of the source are read as operations on two tables. `io` is what SQLite answers to a statement:
-- `none` for SQLITE_DONE, or the text of its error, in which case nothing is written.
pub mod Rows
pub mod Laws
use rin_windows.Base.{
  Str, lit, str_eq, ℤ, Bool, true, false, Option, none, some, List, [], ◌∷◌, ◌++◌, map, Result, ok,
  err, persistence_exception, if◌then◌else◌,
}
use rin_windows.Device.{MeshIdentity, TrustedDevice}
use Rows.{IdentityRow, DeviceRow, identity_row, identity_of_row, device_row, device_of_row, c_str}

-- A database file before the schema is applied: each table may be missing.
pub record Disk : Type 0 where
  pub mesh_identity_table : Option (Option IdentityRow)
  pub trusted_devices_table : Option (List DeviceRow)

-- After it: the row with id = 1, if any, and the rows of trusted_devices.
pub record Db : Type 0 where
  pub mesh_identity : Option IdentityRow
  pub trusted_devices : List DeviceRow

-- CREATE TABLE IF NOT EXISTS ...
unfoldable pub apply_schema : Disk → Db
apply_schema disk = record {
  mesh_identity = elim disk.mesh_identity_table [ none ↦ none | some row ↦ row ];
  trusted_devices = elim disk.trusted_devices_table [ none ↦ [] | some rows ↦ rows ];
}

unfoldable pub fail_or {ℓ} : {A : Type ℓ} → Option Str → Str → A → Result A
fail_or none context a = ok a
fail_or (some msg) context a = err (persistence_exception (context ++ (lit ": " ++ msg)))

-- The constructor: sqlite3_open and the schema.
unfoldable pub open_store : Str → Option Str → Disk → Result Db
unfolding fail_or apply_schema
open_store db_path io disk =
    fail_or io (lit "could not open database at '" ++ (db_path ++ lit "'")) (apply_schema disk)

-- INSERT INTO mesh_identity ... VALUES (1, ...) ON CONFLICT(id) DO UPDATE SET ...
unfoldable pub save_identity : Option Str → MeshIdentity → Db → Result Db
unfolding fail_or
save_identity io identity db =
    fail_or io (lit "save_identity failed")
      (record db { mesh_identity = some (identity_row identity) })

-- SELECT ... FROM mesh_identity WHERE id = 1
unfoldable pub load_identity : Option Str → Db → Result (Option MeshIdentity)
unfolding fail_or
load_identity io db =
    fail_or io (lit "load_identity failed")
      (elim db.mesh_identity [ none ↦ none | some row ↦ some (identity_of_row row) ])

-- DELETE FROM mesh_identity WHERE id = 1
unfoldable pub clear_identity : Option Str → Db → Result Db
unfolding fail_or
clear_identity io db = fail_or io (lit "SQL failed") (record db { mesh_identity = none })

-- INSERT INTO trusted_devices ... ON CONFLICT(public_key) DO UPDATE SET ...
unfoldable pub upsert_row : DeviceRow → List DeviceRow → List DeviceRow
upsert_row row [] = row ∷ []
upsert_row row (r ∷ rows) =
    if str_eq r.public_key row.public_key then row ∷ rows else r ∷ upsert_row row rows

unfoldable pub upsert_device : Option Str → TrustedDevice → Db → Result Db
unfolding fail_or upsert_row
upsert_device io device db =
    fail_or io (lit "upsert_device failed")
      (record db { trusted_devices = upsert_row (device_row device) db.trusted_devices })

-- DELETE FROM trusted_devices WHERE public_key = ?
unfoldable pub delete_rows : Str → List DeviceRow → List DeviceRow
delete_rows key [] = []
delete_rows key (r ∷ rows) =
    let kept = delete_rows key rows in if str_eq r.public_key key then kept else r ∷ kept

unfoldable pub remove_device : Option Str → Str → Db → Result Db
unfolding fail_or delete_rows
remove_device io public_key db =
    fail_or io (lit "remove_device failed")
      (record db { trusted_devices = delete_rows (c_str public_key) db.trusted_devices })

-- SELECT ... FROM trusted_devices, in the order of insertion
unfoldable pub load_all_devices : Option Str → Db → Result (List TrustedDevice)
unfolding fail_or
load_all_devices io db =
    fail_or io (lit "load_all_devices failed") (map device_of_row db.trusted_devices)

-- DELETE FROM trusted_devices
unfoldable pub clear_all_devices : Option Str → Db → Result Db
unfolding fail_or
clear_all_devices io db = fail_or io (lit "SQL failed") (record db { trusted_devices = [] })
