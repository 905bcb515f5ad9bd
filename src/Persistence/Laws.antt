-- ===== src/Persistence/Laws.antt =====
-- What comes back from the database.
use rin_windows.Base.{
  ℕ, ◌≡◌, ◌≢◌, refl, ap, ◌∙◌, Str, lit, str_eq, str_eq_iff, pos, eqb_ℤ, Bool, true, false, not,
  Option, none, some, List, [], ◌∷◌, map, All, ok, arith, if◌then◌else◌,
}
use rin_windows.Protocol.{offline, lan, PlatformType, android}
use rin_windows.Device.{MeshIdentity, TrustedDevice}
use rin_windows.Persistence.Rows.{
  DeviceRow, platform_to_string, platform_from_string, c_str, identity_row, identity_of_row,
  bind_ip, device_row, device_of_row,
}
use rin_windows.Persistence.{
  Db, save_identity, load_identity, upsert_row, upsert_device, delete_rows, remove_device,
  load_all_devices,
}

-- No byte is NUL.
abbrev pub IsText : Str → Type 0
IsText = All (λ (c : ℕ). c ≢ 0)

abbrev pub IsOptionalText : Option Str → Type 0
IsOptionalText none = Unit
IsOptionalText (some s) = IsText s

pub c_str_lem : (s : Str) → IsText s → c_str s ≡ s
unfolding c_str
c_str_lem [] t = refl
c_str_lem (c ∷ s) (h, t) = ground (arith, c_str_lem s t)

pub record IsStorableIdentity (i : MeshIdentity) : Type 0 where
  pub mesh_name : IsText i.mesh_name
  pub local_device_name : IsText i.local_device_name
  pub local_public_key : IsText i.local_public_key
  pub local_private_key : IsText i.local_private_key
  pub local_fingerprint : IsText i.local_fingerprint
  pub mesh_secret : IsText i.mesh_secret

-- An identity with no NUL byte in its texts is loaded as it was saved, over any earlier one.
pub load_identity-save_identity :
    (i : MeshIdentity) (db : Db)
    → IsStorableIdentity i
    → (db' : Db) × (save_identity none i db ≡ ok db') × (load_identity none db' ≡ ok (some i))
unfolding save_identity load_identity identity_row identity_of_row
load_identity-save_identity i db s = (
  record db { mesh_identity = some (identity_row i) },
  refl,
  rw (
    c_str_lem _ s.mesh_name,
    c_str_lem _ s.local_device_name,
    c_str_lem _ s.local_public_key,
    c_str_lem _ s.local_private_key,
    c_str_lem _ s.local_fingerprint,
    c_str_lem _ s.mesh_secret,
  ),
)

pub record IsStorableDevice (d : TrustedDevice) : Type 0 where
  pub public_key : IsText d.public_key
  pub name : IsText d.name
  pub ip_address : IsOptionalText d.ip_address

-- A device as the next session sees it: offline, on the LAN, its latency unknown.
abbrev pub at_rest : TrustedDevice → TrustedDevice
at_rest d = record d { connection_state = offline; active_rail = lan; latency_ms = pos 0 }

platform_round_trip : (p : PlatformType) → platform_from_string (c_str (platform_to_string p)) ≡ p
unfolding platform_from_string platform_to_string c_str str_eq lit
platform_round_trip android = refl
platform_round_trip _ = refl

bind_ip_lem : (o : Option Str) → IsOptionalText o → bind_ip o ≡ o
unfolding bind_ip
bind_ip_lem none t = refl
bind_ip_lem (some s) t = ap some (c_str_lem s t)

is_self_round_trip : (b : Bool) → not (eqb_ℤ (if b then pos 1 else pos 0) (pos 0)) ≡ b
is_self_round_trip true = refl
is_self_round_trip false = refl

device_of_row-device_row :
    (d : TrustedDevice) → IsStorableDevice d → device_of_row (device_row d) ≡ at_rest d
unfolding device_of_row device_row
device_of_row-device_row d s = rw (
  c_str_lem _ s.public_key,
  c_str_lem _ s.name,
  platform_round_trip d.platform,
  bind_ip_lem _ s.ip_address,
  is_self_round_trip d.is_self,
)

-- The device that a list has under a key.
abbrev pub find_device : Str → List TrustedDevice → Option TrustedDevice
find_device k [] = none
find_device k (d ∷ ds) = if str_eq d.public_key k then some d else find_device k ds

public_key-device_of_row : (r : DeviceRow) → (device_of_row r).public_key ≡ r.public_key
unfolding device_of_row
public_key-device_of_row r = refl

find-upsert_row :
    (row : DeviceRow) (k : Str) (rows : List DeviceRow)
    → find_device k (map device_of_row (upsert_row row rows)) ≡ (
        if str_eq row.public_key k
        then some (device_of_row row)
        else find_device k (map device_of_row rows))
unfolding upsert_row
find-upsert_row row k [] = rw (public_key-device_of_row row)
find-upsert_row row k (r ∷ rows) = ground (
  arith,
  public_key-device_of_row row,
  public_key-device_of_row r,
  find-upsert_row row k rows,
  str_eq_iff r.public_key row.public_key,
  str_eq_iff r.public_key k,
  str_eq_iff row.public_key k,
)

find-delete_rows :
    (key k : Str) (rows : List DeviceRow)
    → find_device k (map device_of_row (delete_rows key rows))
      ≡ (if str_eq key k then none else find_device k (map device_of_row rows))
unfolding delete_rows
find-delete_rows key k [] = ground arith
find-delete_rows key k (r ∷ rows) = ground (
  arith,
  public_key-device_of_row r,
  find-delete_rows key k rows,
  str_eq_iff r.public_key key,
  str_eq_iff r.public_key k,
  str_eq_iff key k,
)

-- What load_all_devices shows of a database, key by key.
abbrev pub stored : Db → Str → Option TrustedDevice
stored db k = find_device k (map device_of_row db.trusted_devices)

public_key-device_row :
    (d : TrustedDevice) → IsText d.public_key → (device_row d).public_key ≡ d.public_key
unfolding device_row
public_key-device_row d t = c_str_lem d.public_key t

-- A device with no NUL byte in its texts is loaded, after upsert_device, under its key and at rest
-- (offline, on the LAN, latency 0); what is loaded under other keys is unchanged.
pub load-upsert_device :
    (d : TrustedDevice) (db : Db) (k : Str)
    → IsStorableDevice d
    → (db' : Db) × (upsert_device none d db ≡ ok db')
      × (load_all_devices none db' ≡ ok (map device_of_row db'.trusted_devices))
      × (stored db' k ≡ (if str_eq d.public_key k then some (at_rest d) else stored db k))
unfolding upsert_device load_all_devices
load-upsert_device d db k s = (
  record db { trusted_devices = upsert_row (device_row d) db.trusted_devices },
  refl,
  refl,
  find-upsert_row (device_row d) k db.trusted_devices
      ∙ rw (device_of_row-device_row d s, public_key-device_row d s.public_key),
)

-- After remove_device nothing is loaded under the key, and what is loaded under others is
-- unchanged.
pub load-remove_device :
    (key : Str) (db : Db) (k : Str)
    → IsText key
    → (db' : Db) × (remove_device none key db ≡ ok db')
      × (load_all_devices none db' ≡ ok (map device_of_row db'.trusted_devices))
      × (stored db' k ≡ (if str_eq key k then none else stored db k))
unfolding remove_device load_all_devices
load-remove_device key db k t = (
  record db { trusted_devices = delete_rows (c_str key) db.trusted_devices },
  refl,
  refl,
  find-delete_rows (c_str key) k db.trusted_devices ∙ rw (c_str_lem key t),
)
