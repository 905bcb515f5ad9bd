-- ===== src/Samples/Announced.antt =====
-- What send_file announces (src/file_transfer.cpp), at concrete values.
use rin_windows.Base.{ℕ, ◌≡◌, refl, lit, pos, true, some, [], replicate, ok, arith}
use rin_windows.Base.Dict.{lookup}
use rin_windows.World.{World}
use rin_windows.Files.Storage.{fine}
use rin_windows.Base.{◌<◌, ◌≤◌, ◌-◌, ◌*◌}
use rin_windows.Device.{TrustedDevice, blank_device}
use rin_windows.World.{InFlightReceive, ReceivedFileRecord}
use rin_windows.Files.Receive.{start_receive}
use rin_windows.Files.Complete.{settle}
use rin_windows.Mesh.SendFile.{chunk_count, metadata_of, count_of, send_chunks}
use rin_windows.Mesh.SendFile.Counts.{chunk_count_lem, empty_file_lost}
use rin_windows.Samples.JsonTree.{json}
use rin_windows.Samples.ToySsl.{ssl}
use rin_windows.Samples.Meshes.{net, start, owner}

chunk_count_lem_example :
    (total : ℕ) × (chunk_count 70000 ≡ pos total)
    × (0 < total)
    × (70000 ≤ total * 65536)
    × ((total - 1) * 65536 < 70000)
chunk_count_lem_example = chunk_count_lem 70000 (omega arith) (omega arith)

abbrev desk : TrustedDevice
desk = record blank_device {
  public_key = lit "K2";
  name = lit "Desk";
  ip_address = some (lit "10.0.0.3");
}

empty_file_lost_example :
    ((metadata_of (lit "rin_join_0") (lit "e.txt") [] (lit "00")).total_chunks ≡ pos 1)
    × (send_chunks json ssl net desk
          (lit "10.0.0.3")
          (lit "rin_join_0")
          (lit "sess_1")
          (replicate 32 1)
          (metadata_of (lit "rin_join_0") (lit "e.txt") [] (lit "00")).total_chunks
          (count_of json ssl net desk
            (lit "10.0.0.3")
            (metadata_of (lit "rin_join_0") (lit "e.txt") [] (lit "00")).total_chunks)
          0
          []
          (owner 5)
        ≡ (ok true, owner 5))
    × (r : InFlightReceive) × (begun : World) × (begun
        ≡ start_receive
            (lit "C:/dl")
            fine
            (pos 1)
            (metadata_of (lit "rin_join_0") (lit "e.txt") [] (lit "00"))
            (lit "K1")
            (lit "Phone")
            start)
    × (lookup (lit "rin_join_0") begun.in_flight ≡ some r)
    × (rec : ReceivedFileRecord) × (w' : World) × (settle ssl
          (lit "C:/dl")
          fine
          (pos 2)
          (lit "rin_join_0")
          (lit "Phone")
          (lit "00")
          r
          begun
        ≡ (ok rec, w'))
    × (rec.local_file_path ≡ [])
empty_file_lost_example =
    empty_file_lost json ssl net desk (lit "10.0.0.3") (lit "rin_join_0") (lit "sess_1")
      (lit "e.txt") (lit "00") (lit "00") (lit "C:/dl") (lit "K1") (lit "Phone") (replicate 32 1)
      fine (pos 1) (pos 2) (owner 5) start refl
