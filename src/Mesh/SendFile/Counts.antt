-- ===== src/Mesh/SendFile/Counts.antt =====
-- How many chunks send_file announces, and how many it sends (src/file_transfer.cpp).
use rin_windows.Base.{
  ℕ, ◌+◌, ◌-◌, ◌*◌, ◌/◌, ◌≤◌, ◌<◌, ◌^◌, ◌≡◌, inl, refl, Str, str_eq_self, ℤ, pos, true, none, some,
  [], ok, arith,
}
use rin_windows.Base.Dict.{lookup, lookup-insert}
use rin_windows.Protocol.Json.{JsonLib}
use rin_windows.Crypto.OpenSsl.{OpenSsl, Bytes}
use rin_windows.Device.{TrustedDevice}
use rin_windows.World.{World, InFlightReceive, ReceivedFileRecord, audit}
use rin_windows.Files.Storage.{FileIo}
use rin_windows.Files.Receive.{routing, start_receive, temp_path_of}
use rin_windows.Base.{as_int}
use rin_windows.Files.Complete.{settle}
use rin_windows.Files.Complete.Discards.{settle_discards}
use rin_windows.Mesh.Outbox.{Outside}
use rin_windows.Mesh.SendFile.{chunk_count, metadata_of, count_of, send_chunks}

-- The announced number of chunks of a file that is not empty, of at most 2 ^ 31 - 1 chunks, is the
-- least that holds it: all its bytes stand in so many chunks, and the last of them is not empty.
pub chunk_count_lem :
    (size : ℕ)
    → 0 < size
    → (size + 65535) / 65536 < 2 ^ 31
    → (total : ℕ) × (chunk_count size ≡ pos total)
      × (0 < total)
      × (size ≤ total * 65536)
      × ((total - 1) * 65536 < size)
unfolding chunk_count as_int
chunk_count_lem size full small =
    ((size + 65535) / 65536, ground arith, omega arith, omega arith, omega arith)

module _ (J : JsonLib) (O : OpenSsl) (out : Outside) (target : TrustedDevice) (ip : Str) where
  -- An empty file is announced with one chunk, of which the sending loop sends none and goes on. A
  -- receiver that begins the file as it is announced reports it without a path when the last
  -- message comes, whatever the checksum. The removal of the temporary file makes no error.
  pub empty_file_lost :
      (file_id session_id local_path checksum expected downloads sender_key sender_name : Str)
      (key : Bytes) (io : FileIo) (started ended : ℤ) (w v : World)
      → io.remove_error ≡ none
      → ((metadata_of file_id local_path [] checksum).total_chunks ≡ pos 1)
        × (send_chunks J O out target ip file_id session_id key
              (metadata_of file_id local_path [] checksum).total_chunks
              (count_of J O out target ip (metadata_of file_id local_path [] checksum).total_chunks)
              0
              []
              w
            ≡ (ok true, w))
        × (r : InFlightReceive) × (begun : World) × (begun
            ≡ start_receive downloads io started
                (metadata_of file_id local_path [] checksum)
                sender_key
                sender_name
                v)
        × (lookup file_id begun.in_flight ≡ some r)
        × (rec : ReceivedFileRecord) × (w' : World) × (settle O downloads io ended file_id
              sender_name expected r begun
            ≡ (ok rec, w'))
        × (rec.local_file_path ≡ [])
  unfolding send_chunks count_of chunk_count as_int start_receive routing audit
  empty_file_lost file_id session_id local_path checksum expected downloads sender_key sender_name
        key io started ended w v io_ =
      let meta = metadata_of file_id local_path [] checksum in
      let r : InFlightReceive = record {
        metadata = meta;
        sender_key = sender_key;
        sender_name = sender_name;
        temp_path = temp_path_of downloads file_id;
        received_chunks = [];
      } in
      let begun = start_receive downloads io started meta sender_key sender_name v in
      let (rec, w', done, path, _) =
        settle_discards O downloads io ended file_id sender_name expected r begun io_
          (inl (λ e. absurd (ground (arith, e)))) in
      (
        refl,
        refl,
        r,
        begun,
        refl,
        rw (lookup-insert file_id file_id r v.in_flight, str_eq_self file_id),
        rec,
        w',
        done,
        path,
      )
