-- ===== src/Mesh/Keyed/Handlers.antt =====
-- The file handlers leave the table of devices alone (src/file_transfer.cpp).
use rin_windows.Base.{
  Str, ℤ, Bool, true, false, ◌≡◌, inl, inr, refl, ap, ◌∙◌, Option, none, some, Option-cases, Result,
  ok, err,
}
use rin_windows.Base.Dict.{Dict, lookup, erase}
use rin_windows.Protocol.{FileChunkPayload}
use rin_windows.Protocol.Json.{JsonLib}
use rin_windows.Protocol.Payloads.{metadata_from_json, chunk_from_json}
use rin_windows.Crypto.OpenSsl.{OpenSsl, Bytes}
use rin_windows.Crypto.Base64.{base64_decode}
use rin_windows.World.{World, InFlightReceive, ReceivedFileRecord, audit}
use rin_windows.Files.Storage.{FileIo}
use rin_windows.Files.Receive.{
  routing, start_receive, handle_file_start, store_chunk, stored, receive_chunk, handle_file_chunk,
}
use rin_windows.Files.Complete.{
  without_temp, discard, announce, keep_moved, keep, judge, settle, notify, complete, read_complete,
  handle_file_complete,
}

pub handle_file_start-devices :
    (J : JsonLib) (downloads : Str) (io : FileIo) (now : ℤ) (plain key name : Str) (w : World)
    → (handle_file_start downloads J io now plain key name w).devices ≡ w.devices
unfolding handle_file_start start_receive routing audit
handle_file_start-devices J downloads io now plain key name w =
    elim (Option-cases (metadata_from_json J plain)) [
      | inl malformed ↦ rw (malformed, handle_file_start)
      | inr (meta, read) ↦ rw (read, handle_file_start)
    ]

stored-devices :
    (file_id : Str) (i : ℤ) (r : InFlightReceive) (b : Result Bytes) (w : World)
    → (stored file_id i r b w).1.devices ≡ w.devices
unfolding stored store_chunk
stored-devices file_id i r (ok bytes) w = refl
stored-devices file_id i r (err e) w = refl

receive_chunk-devices :
    (O : OpenSsl) (chunk : FileChunkPayload) (w : World)
    → (receive_chunk O chunk w).1.devices ≡ w.devices
unfolding receive_chunk
receive_chunk-devices O chunk w = elim (Option-cases (lookup chunk.file_id w.in_flight)) [
  | inl unknown ↦ ap (λ (o : Option InFlightReceive). (found o).1.devices) unknown
  | inr (r, known) ↦
      ap (λ (o : Option InFlightReceive). (found o).1.devices) known
      ∙ stored-devices chunk.file_id chunk.chunk_index r (base64_decode O chunk.data_base64) w
]
  where
    found : Option InFlightReceive → Result (Unit {0}) × World
    found o = elim o [
      | none ↦ (ok tt, w)
      | some receive ↦
          stored chunk.file_id chunk.chunk_index receive (base64_decode O chunk.data_base64) w
    ]

pub handle_file_chunk-devices :
    (O : OpenSsl) (J : JsonLib) (plain : Str) (w : World)
    → (handle_file_chunk O J plain w).1.devices ≡ w.devices
unfolding handle_file_chunk
handle_file_chunk-devices O J plain w = elim (Option-cases (chunk_from_json J plain)) [
  | inl malformed ↦ rw (malformed, handle_file_chunk)
  | inr (chunk, read) ↦ rw (read, handle_file_chunk) (receive_chunk-devices O chunk w)
]

module _ (O : OpenSsl) (downloads : Str) (io : FileIo) (now : ℤ) (file_id sender_name : Str) where
  without_temp-devices :
      (r : InFlightReceive) (m : Result (Dict Bytes)) (w : World)
      → (without_temp O downloads io now file_id sender_name r m w).1.devices ≡ w.devices
  unfolding without_temp
  without_temp-devices r (ok disk) w = refl
  without_temp-devices r (err e) w = refl

  keep_moved-devices :
      (r : InFlightReceive) (dest : Str) (m : Option Str × Dict Bytes) (w : World)
      → (keep_moved O downloads io now file_id sender_name r dest m w).1.devices ≡ w.devices
  unfolding keep_moved announce routing audit
  keep_moved-devices r dest (none, disk) w = refl
  keep_moved-devices r dest (some e, disk) w = refl

  judge-devices :
      (r : InFlightReceive) (w : World) (complete intact : Bool)
      → (judge O downloads io now file_id sender_name r w complete intact).1.devices ≡ w.devices
  unfolding judge discard keep routing audit
  judge-devices r w false intact = without_temp-devices r _ (routing now _ _ _ w)
  judge-devices r w true false = without_temp-devices r _ (routing now _ _ _ w)
  judge-devices r w true true = keep_moved-devices r _ _ w

notify-devices :
    (f : ReceivedFileRecord → World → World) (out : Result ReceivedFileRecord × World)
    → ((rec : ReceivedFileRecord) (w : World) → (f rec w).devices ≡ w.devices)
    → (notify f out).1.devices ≡ out.1.devices
unfolding notify
notify-devices f (ok rec, w) h = h rec w
notify-devices f (err e, w) h = refl

module _ (O : OpenSsl) (downloads : Str) (f : ReceivedFileRecord → World → World)
    (same : (rec : ReceivedFileRecord) (w : World) → (f rec w).devices ≡ w.devices) (io : FileIo)
    (now : ℤ) (sender_name : Str) where
  settled-devices :
      (file_id expected : Str) (r : InFlightReceive) (w : World)
      → (settle O downloads io now file_id sender_name expected r w).1.devices ≡ w.devices
  unfolding settle
  settled-devices file_id expected r w =
      judge-devices O downloads io now file_id sender_name r w _ _

  complete-devices :
      (message : Str × Str) (w : World)
      → (complete O downloads f io now sender_name message w).1.devices ≡ w.devices
  unfolding complete
  complete-devices (file_id, expected) w = elim (Option-cases (lookup file_id w.in_flight)) [
    | inl unknown ↦ rw (unknown, complete)
    | inr (r, known) ↦
        let taken : World = record w { in_flight = erase file_id w.in_flight } in
        rw (known, complete)
          (notify-devices f (settle O downloads io now file_id sender_name expected r taken) same
            ∙ settled-devices file_id expected r taken)
  ]

  pub handle_file_complete-devices :
      (J : JsonLib) (plain : Str) (w : World)
      → (handle_file_complete O downloads f io now J plain sender_name w).1.devices ≡ w.devices
  unfolding handle_file_complete
  handle_file_complete-devices J plain w = elim (Option-cases (read_complete J plain)) [
    | inl malformed ↦ rw (malformed, handle_file_complete)
    | inr (message, read) ↦ rw (read, handle_file_complete) (complete-devices message w)
  ]
