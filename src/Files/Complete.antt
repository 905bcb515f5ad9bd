-- ===== src/Files/Complete.antt =====
-- handle_file_complete (src/file_transfer.cpp): count, integrity, and the move to the downloads.
pub mod Discards
pub mod Outcome
use rin_windows.Base.{
  ℕ, ◌+◌, Str, lit, is_empty, str_eq, ℤ, pos, eqb_ℤ, to_string, Bool, true, false, not, ◌&&◌,
  Option, none, some, List, [], ◌∷◌, ◌++◌, length, substr, Result, ok, err, or_throw, caught,
  json_exception, ◌>>=◌, what, if◌then◌else◌,
}
use rin_windows.Base.Dict.{Dict, lookup, insert, erase}
use rin_windows.Protocol.{FileTransferMetadata}
use rin_windows.Protocol.Json.{JsonLib, value_text}
use rin_windows.Crypto.OpenSsl.{OpenSsl, Bytes}
use rin_windows.Audit.{info, security_warning, security_error}
use rin_windows.World.{World, InFlightReceive, ReceivedFileRecord}
use rin_windows.Files.Paths.{stem, extension}
use rin_windows.Files.Storage.{FileIo, sha256_hex, remove, rename, copy}
use rin_windows.Files.Receive.{routing}
use rin_windows.Base.{as_int}

-- fileId and checksum, or nothing when any exception is thrown.
unfoldable pub read_complete : JsonLib → Str → Option (Str × Str)
read_complete J plain_json = caught do
  j ← or_throw (J.parse plain_json) json_exception
  file_id ← value_text J j (lit "fileId") []
  checksum ← value_text J j (lit "checksum") []
  ok (file_id, checksum)

abbrev pub record_of : ℤ → Str → InFlightReceive → Str → Str → ReceivedFileRecord
record_of now file_id r sender_name path = record {
  file_id = file_id;
  file_name = r.metadata.file_name;
  file_size = r.metadata.file_size;
  mime_type = r.metadata.mime_type;
  sender_name = sender_name;
  local_file_path = path;
  received_timestamp_ms = now;
}

-- Where the file goes: a name that is taken gets the first six bytes of the file id.
unfoldable pub destination : Str → Str → Str → Dict Bytes → Str
unfolding stem extension
destination dest_dir file_name file_id disk =
    let dest = dest_dir ++ (lit "/" ++ file_name) in
    elim (lookup dest disk) [
      | none ↦ dest
      | some other ↦
          dest_dir
          ++ (lit "/" ++ (stem dest ++ (lit "_" ++ (substr file_id 0 6 ++ extension dest))))
    ]

-- Renamed, or else copied and removed; with the text of the error when that fails too. A copy
-- that cannot be followed by the removal stays.
unfoldable pub removed_copy : Str → Dict Bytes → Result (Dict Bytes) → Option Str × Dict Bytes
removed_copy dest copied (ok disk) = (none, disk)
removed_copy dest copied (err e) = (some (what e), copied)

unfoldable pub copied :
    FileIo → Str → Str → Dict Bytes → Result (Dict Bytes) → Option Str × Dict Bytes
unfolding removed_copy remove
copied io from dest disk (ok with_copy) =
    removed_copy dest with_copy (remove io.remove_error from with_copy)
copied io from dest disk (err e) = (some (what e), disk)

unfoldable pub moved :
    FileIo → Str → Str → Dict Bytes → Result (Dict Bytes) → Option Str × Dict Bytes
unfolding copied copy
moved io from dest disk (ok renamed) = (none, renamed)
moved io from dest disk (err e) = copied io from dest disk (copy io.copy_error from dest disk)

module _ (O : OpenSsl) (downloads : Str) (io : FileIo) (now : ℤ) (file_id sender_name : Str) where
  -- The file is removed, and the record has no path. An error of the removal is not caught.
  unfoldable pub without_temp :
      InFlightReceive → Result (Dict Bytes) → World → Result ReceivedFileRecord × World
  without_temp r (ok disk) w =
      (ok (record_of now file_id r sender_name []), record w { disk = disk })
  without_temp r (err e) w = (err e, w)

  unfoldable pub discard : InFlightReceive → World → Result ReceivedFileRecord × World
  unfolding without_temp remove
  discard r w = without_temp r (remove io.remove_error r.temp_path w.disk) w

  unfoldable pub announce : InFlightReceive → Str → World → Result ReceivedFileRecord × World
  unfolding routing
  announce r dest w = (
    ok (record_of now file_id r sender_name dest),
    routing now info
        (lit "File \""
          ++ (r.metadata.file_name
              ++ (lit "\" received successfully"
                  ++ (if is_empty dest then lit " (save failed)" else lit " -> " ++ dest))))
        (some sender_name) w,
  )

  unfoldable pub keep_moved :
      InFlightReceive → Str → Option Str × Dict Bytes → World → Result ReceivedFileRecord × World
  unfolding announce routing
  keep_moved r dest (none, disk) w = announce r dest (record w { disk = disk })
  keep_moved r dest (some e, disk) w = announce r [] (
      routing now security_warning (lit "Could not move received file to downloads: " ++ e) none
        (record w { disk = disk }))

  unfoldable pub keep : InFlightReceive → World → Result ReceivedFileRecord × World
  unfolding keep_moved moved rename destination
  keep r w =
      let dest = destination downloads r.metadata.file_name file_id w.disk in
      keep_moved r dest
        (moved io r.temp_path dest w.disk (rename io.rename_error r.temp_path dest w.disk)) w

  unfoldable pub is_complete : InFlightReceive → Bool
  unfolding as_int
  is_complete r = eqb_ℤ (as_int (length r.received_chunks)) r.metadata.total_chunks

  -- An empty checksum is not compared.
  unfoldable pub is_intact : Str → InFlightReceive → World → Bool
  unfolding sha256_hex
  is_intact expected r w =
      if is_empty expected then true else str_eq (sha256_hex O r.temp_path w.disk) expected

  -- What is done with a receive, by whether all chunks arrived and whether the checksum is right.
  unfoldable pub judge : InFlightReceive → World → Bool → Bool → Result ReceivedFileRecord × World
  unfolding routing discard keep
  judge r w false intact = discard r (
      routing now security_warning
        (lit "File \""
          ++ (r.metadata.file_name
              ++ (lit "\" incomplete: got "
                  ++ (to_string (pos (length r.received_chunks))
                      ++ (lit "/"
                          ++ (to_string r.metadata.total_chunks ++ lit " chunks -- discarding"))))))
        (some sender_name) w)
  judge r w true false = discard r (
      routing now security_error
        (lit "File \""
          ++ (r.metadata.file_name
              ++ lit "\" FAILED integrity check (SHA-256 mismatch) -- discarding"))
        (some sender_name) w)
  judge r w true true = keep r w

  -- What handle_file_complete does with the receive that it took out of the map.
  unfoldable pub settle : Str → InFlightReceive → World → Result ReceivedFileRecord × World
  unfolding judge is_complete is_intact
  settle expected r w = judge r w (is_complete r) (is_intact expected r w)

-- The call of on_received_.
unfoldable pub notify :
    (ReceivedFileRecord → World → World)
    → Result ReceivedFileRecord × World
    → Result (Unit {0}) × World
notify on_received (ok rec, w) = (ok tt, on_received rec w)
notify on_received (err e, w) = (err e, w)

module _ (O : OpenSsl) (downloads : Str) (on_received : ReceivedFileRecord → World → World)
    (io : FileIo) (now : ℤ) where
  unfoldable pub complete : Str → (Str × Str) → World → Result (Unit {0}) × World
  unfolding notify settle
  complete sender_name (file_id, expected) w = elim (lookup file_id w.in_flight) [
    | none ↦ (ok tt, w)
    | some r ↦ notify on_received (
        settle O downloads io now file_id sender_name expected r
          (record w { in_flight = erase file_id w.in_flight }))
  ]

  unfoldable pub handle_file_complete : JsonLib → Str → Str → World → Result (Unit {0}) × World
  unfolding read_complete complete
  handle_file_complete J plain_json sender_name w = elim (read_complete J plain_json) [
    | none ↦ (ok tt, w)
    | some message ↦ complete sender_name message w
  ]
