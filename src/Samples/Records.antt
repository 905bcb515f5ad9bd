-- ===== src/Samples/Records.antt =====
-- The properties of src/audit_logger.cpp and src/persistence.cpp, at concrete values.
use rin_windows.Base.{
  Str, lit, str_eq, pos, none, some, [], ◌∷◌, map, ◌≡◌, refl, ok, arith, if◌then◌else◌,
}
use rin_windows.Protocol.{android}
use rin_windows.Device.{MeshIdentity, TrustedDevice, blank_identity, blank_device}
use rin_windows.Audit.{info, connection, fresh_logger, Entry, log, recent_events, log_all}
use rin_windows.Audit.Buffer.{last, history, log_all-events, recent_events-history}
use rin_windows.Audit.Redaction.{log_redacts}
use rin_windows.Persistence.Rows.{device_of_row}
use rin_windows.Persistence.{Db, upsert_device, load_all_devices}
use rin_windows.Persistence.Laws.{at_rest, stored, load-upsert_device}

abbrev said : Entry
said = record {
  now = pos 5;
  level = info;
  category = connection;
  message = lit "up";
  peer_name = none;
  peer_key = none;
  details = none;
  error = none;
}

log_all-events_example :
    (log_all (said ∷ said ∷ []) fresh_logger).events ≡ last 100 (history 1 (said ∷ said ∷ []))
log_all-events_example = log_all-events (said ∷ said ∷ [])

recent_events-history_example :
    recent_events 1 (log_all (said ∷ said ∷ []) fresh_logger)
    ≡ some (last 1 (history 1 (said ∷ said ∷ [])))
recent_events-history_example = recent_events-history (said ∷ said ∷ []) 1

abbrev key_one : Str
key_one = lit "AAAA-one-BBBB"

abbrev key_two : Str
key_two = lit "AAAA-other-key-BBBB"

log_redacts_example :
    log (record said { peer_key = some key_one }) fresh_logger
    ≡ log (record said { peer_key = some key_two }) fresh_logger
unfolding lit
log_redacts_example = log_redacts said fresh_logger key_one key_two (omega arith) (omega arith) refl

abbrev empty_db : Db
empty_db = record { mesh_identity = none; trusted_devices = [] }

abbrev home : MeshIdentity
home = record blank_identity { mesh_name = lit "Home"; mesh_secret = lit "s3" }

abbrev phone : TrustedDevice
phone = record blank_device {
  public_key = lit "K1";
  name = lit "Phone";
  platform = android;
  ip_address = some (lit "10.0.0.2");
}

load-upsert_device_example :
    (db' : Db) × (upsert_device none phone empty_db ≡ ok db')
    × (load_all_devices none db' ≡ ok (map device_of_row db'.trusted_devices))
    × (stored db' (lit "K1") ≡ (
        if str_eq (lit "K1") (lit "K1") then some (at_rest phone) else stored empty_db (lit "K1")))
unfolding lit
load-upsert_device_example =
    load-upsert_device phone empty_db (lit "K1")
      (record { public_key = omega arith; name = omega arith; ip_address = omega arith })
