-- ===== src/Samples/Transfers.antt =====
-- The properties of src/file_transfer.cpp and src/transport.cpp, at concrete values.
use rin_windows.Base.{
  ℕ, ◌≤◌, ◌<◌, ◌≡◌, ◌≢◌, ◌⊎◌, inl, refl, sym, ◌∙◌, str_eq, Str, lit, pos, true, false, none, some,
  [], ◌∷◌, ok, err, Exn, ◌==◌, arith,
}
use rin_windows.Base.Dict.{lookup, erase}
use rin_windows.Protocol.{FileTransferMetadata}
use rin_windows.Crypto.OpenSsl.{Bytes}
use rin_windows.World.{World, InFlightReceive, ReceivedFileRecord, fresh_world}
use rin_windows.Files.Storage.{fine, sha256_hex}
use rin_windows.Files.Receive.{temp_path_of, start_receive}
use rin_windows.Base.{as_int}
use rin_windows.Files.Receive.Reassembly.{receive_all}
use rin_windows.Files.Complete.{destination, settle, complete}
use rin_windows.Files.Complete.Outcome.{settle_delivers_verified}
use rin_windows.Files.Transfer.{transfer_delivers, settle-whole, Delivers}
use rin_windows.Files.Complete.Discards.{settle_discards, destination_collides}
use rin_windows.Crypto.Hex.{random_bytes, named_random, generate_ephemeral_token}
use rin_windows.Transport.{start_tcp}
use rin_windows.Transport.Ports.{start_tcp_lem}
use rin_windows.Mesh.Inbox.{report_file}
use rin_windows.Samples.ToySsl.{ssl, block_laws}

abbrev content : Bytes
content = 7 ∷ 8 ∷ 9 ∷ []

abbrev note : FileTransferMetadata
note = record {
  file_id = lit "rin_join_00";
  file_name = lit "note.txt";
  file_size = pos 3;
  mime_type = lit "text/plain";
  total_chunks = pos 1;
  chunk_size = pos 65536;
  sha256_checksum = none;
}

only_zero : (i : ℕ) → i < 1 → ((0 == i) ≡ true)
only_zero i h = ground arith

abbrev began : World
began = fresh_world []

transfer_delivers_example :
    (arrived : World) × (arrived
      ≡ receive_all ssl content
          (lit "rin_join_00")
          (pos 1)
          (0 ∷ 0 ∷ [])
          (start_receive (lit "C:/dl") fine (pos 1) note (lit "K") (lit "Desk") began))
    × (rec : ReceivedFileRecord) × (w' : World) × (complete ssl
          (lit "C:/dl")
          (report_file (pos 2))
          fine
          (pos 2)
          (lit "Desk")
          (lit "rin_join_00", [])
          arrived
        ≡ (ok tt, report_file (pos 2) rec w'))
    × (rec.file_name ≡ lit "note.txt")
    × (rec.local_file_path
        ≡ destination (lit "C:/dl") (lit "note.txt") (lit "rin_join_00") arrived.disk)
    × (lookup rec.local_file_path w'.disk ≡ some content)
transfer_delivers_example =
    transfer_delivers ssl block_laws (lit "C:/dl") content (omega arith) note 1 refl refl
      (report_file (pos 2)) (lit "K") (lit "Desk") [] (pos 1) (pos 2) (pos 1) (0 ∷ 0 ∷ []) began
      (omega arith) (omega arith) (omega arith) (λ i h. ground arith) (inl refl)

-- A receive with its one chunk on the disk, and what is reported of it.
abbrev waiting : InFlightReceive
waiting = record {
  metadata = note;
  sender_key = lit "K";
  sender_name = lit "Desk";
  temp_path = temp_path_of (lit "C:/dl") (lit "rin_join_00");
  received_chunks = pos 0 ∷ [];
}

abbrev with_temp : World
with_temp = fresh_world ((temp_path_of (lit "C:/dl") (lit "rin_join_00"), content) ∷ [])

settled :
    Delivers ssl block_laws
      (lit "C:/dl")
      content
      (omega arith)
      note
      1
      refl
      refl
      (pos 2)
      (lit "Desk")
      (destination (lit "C:/dl") (lit "note.txt") (lit "rin_join_00") with_temp.disk)
      (settle ssl (lit "C:/dl") fine (pos 2) (lit "rin_join_00") (lit "Desk") [] waiting with_temp)
unfolding temp_path_of lookup str_eq lit
settled =
    settle-whole ssl block_laws (lit "C:/dl") content (omega arith) note 1 refl refl (pos 2)
      (lit "Desk") [] waiting with_temp (omega arith) (inl refl) (refl, refl, refl, refl)

destination_nonempty :
    destination (lit "C:/dl") (lit "note.txt") (lit "rin_join_00") with_temp.disk ≢ []
unfolding destination lookup str_eq lit temp_path_of
destination_nonempty e = cc

settle_delivers_verified_example :
    (as_int 1 ≡ pos 1)
    × ((◌≡◌ {A = Str} [] []) ⊎ (sha256_hex ssl waiting.temp_path with_temp.disk ≡ []))
    × (file : Bytes) × (lookup waiting.temp_path with_temp.disk ≡ some file)
    × (lookup settled.0.local_file_path settled.1.disk ≡ some file)
settle_delivers_verified_example =
    settle_delivers_verified ssl (lit "C:/dl") fine (pos 2) (lit "rin_join_00") (lit "Desk") []
      waiting with_temp settled.1 settled.0 settled.2
      (λ e. destination_nonempty (sym settled.3 ∙ e))

start_tcp_lem_example :
    ((p : ℕ) × (start_tcp (λ p. p == 45992) ≡ ok p)
      × (45990 ≤ p)
      × (p < 45995)
      × ((p == 45992) ≡ true)
      × ((q : ℕ) → 45990 ≤ q → q < p → (q == 45992) ≡ false))
    ⊎ ((e : Exn) × (start_tcp (λ p. p == 45992) ≡ err e)
        × ((q : ℕ) → 45990 ≤ q → q < 45995 → (q == 45992) ≡ false))
start_tcp_lem_example = start_tcp_lem (λ p. p == 45992)

abbrev nothing_came : InFlightReceive
nothing_came = record waiting { received_chunks = [] }

settle_discards_example :
    (rec : ReceivedFileRecord) × (w' : World) × (settle ssl
        (lit "C:/dl")
        fine
        (pos 2)
        (lit "rin_join_00")
        (lit "Desk")
        []
        nothing_came
        with_temp
      ≡ (ok rec, w'))
    × (rec.local_file_path ≡ [])
    × (w'.disk ≡ erase nothing_came.temp_path with_temp.disk)
unfolding as_int
settle_discards_example =
    settle_discards ssl (lit "C:/dl") fine (pos 2) (lit "rin_join_00") (lit "Desk") [] nothing_came
      with_temp refl (inl (λ e. absurd (ground (arith, e))))

token_of : (b : Bytes) → (id : Str) × (generate_ephemeral_token ssl (some b) ≡ ok id)
unfolding generate_ephemeral_token named_random random_bytes
token_of b = (_, refl)

destination_collides_example :
    destination
      (lit "C:/dl")
      (lit "note.txt")
      (token_of (1 ∷ [])).0
      ((lit "C:/dl/note.txt", content) ∷ [])
    ≡ destination
        (lit "C:/dl")
        (lit "note.txt")
        (token_of (2 ∷ [])).0
        ((lit "C:/dl/note.txt", content) ∷ [])
destination_collides_example =
    destination_collides ssl (some (1 ∷ [])) (some (2 ∷ [])) (token_of (1 ∷ [])).0
      (token_of (2 ∷ [])).0 (lit "C:/dl") (lit "note.txt") ((lit "C:/dl/note.txt", content) ∷ [])
      (token_of (1 ∷ [])).1 (token_of (2 ∷ [])).1
