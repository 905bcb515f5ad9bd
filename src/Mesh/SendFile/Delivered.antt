-- ===== src/Mesh/SendFile/Delivered.antt =====
-- What send_file sends (src/file_transfer.cpp), handled by the switch of the receiving engine
-- (src/mesh_engine.cpp): from file to file.
use rin_windows.Base.{
  ℕ, zero, [], ◌∷◌, subst, get_elem?, none, ℤ, ◌≤◌, suc, ◌+◌, ◌/◌, ◌^◌, ◌<◌, ◌≡◌, inr, refl, sym,
  ap, ◌∙◌, Str, pos, true, some, List, length, Result, ok, arith,
}
use rin_windows.Base.Dict.{lookup}
use rin_windows.Protocol.{MeshPacket, FileTransferMetadata, file_start, file_complete}
use rin_windows.Protocol.Json.{JsonLib, JsonLaws, AllPlain}
use rin_windows.Protocol.Payloads.{metadata_from_json}
use rin_windows.Protocol.RoundTrip.Payloads.{IsSendableMetadata, metadata_round_trip}
use rin_windows.Crypto.OpenSsl.{OpenSsl, Bytes, AreBytes, BlockLaws}
use rin_windows.Crypto.Hex.{bytes_to_hex}
use rin_windows.Device.{TrustedDevice}
use rin_windows.World.{World, ReceivedFileRecord}
use rin_windows.Files.Paths.{filename}
use rin_windows.Files.Storage.{fine}
use rin_windows.Files.Storage.Chunks.{mem}
use rin_windows.Files.Receive.{start_receive}
use rin_windows.Files.Receive.Reassembly.{receive_all, InRange}
use rin_windows.Files.Complete.{complete}
use rin_windows.Files.Transfer.{transfer_delivers}
use rin_windows.Mesh.Inbox.{Surroundings, report_file}
use rin_windows.Mesh.Inbox.Dispatch.{dispatch}
use rin_windows.Mesh.Outbox.{Outside}
use rin_windows.Mesh.SendFile.{metadata_of, complete_json, transfer_key, send_content}
use rin_windows.Mesh.SendFile.Texts.{
  read_complete-complete_json, bytes_to_hex-AllPlain, dispatch_chunks, AreChunks, AreSendable,
  chunks_written, dispatch_chunks-receive_all, counted, started, completed,
}
use rin_windows.Mesh.SendFile.Sent.{numbers, send_all, text-at}
use rin_windows.Mesh.SendFile.Whole.{send_content-all}
use rin_windows.Crypto.Keys.{derive_peer_session_key}
use rin_windows.Protocol.Payloads.{chunk_to_json}
use rin_windows.Protocol.RoundTrip.Payloads.{IsSendableChunk}
use rin_windows.Files.Receive.Reassembly.{chunk_message}
use rin_windows.Crypto.Hex.{generate_ephemeral_token}

module _ (J : JsonLib) (L : JsonLaws J) (O : OpenSsl) (B : BlockLaws O) (downloads : Str)
    (s : Surroundings) (file_id local_path : Str) (content : Bytes) (out : Outside)
    (target : TrustedDevice) (ip : Str) (key : Bytes) where
  -- The file system of the receiver makes no error.
  abbrev pub calm : Surroundings
  calm = record s { files = fine }

  abbrev pub checksum : Str
  checksum = bytes_to_hex (O.sha256 content)

  abbrev pub meta : FileTransferMetadata
  meta = metadata_of file_id local_path content checksum

  abbrev pub total : ℕ
  total = (length content + 65535) / 65536

  -- The text of each message of send_file, handled by the switch: the start, some chunks, the end.
  abbrev pub after_messages : MeshPacket → Str → List Str → World → Result (Unit {0}) × World
  after_messages packet start texts w =
      dispatch J O downloads calm file_complete packet (complete_json file_id checksum) (
        dispatch_chunks J O downloads calm packet texts
          (dispatch J O downloads calm file_start packet start w).1)

  as_transfer :
      (packet : MeshPacket) (start : Str) (is : List ℕ) (texts : List Str) (w : World)
      → metadata_from_json J start ≡ some meta
      → AllPlain file_id
      → AreBytes (O.sha256 content)
      → AreSendable J L O content file_id (pos total) is
      → AreChunks J L O content file_id (pos total) is texts
      → after_messages packet start texts w
        ≡ complete O downloads
            (report_file s.now)
            fine
            s.now
            packet.sender_name
            (file_id, checksum)
            (receive_all O content file_id
              (pos total)
              is
              (start_receive downloads fine s.now meta packet.sender_key packet.sender_name w))
  unfolding dispatch
  as_transfer packet start is texts w parsed plain bytes sendable written =
      completed J O downloads (report_file s.now) s.now (complete_json file_id checksum)
        packet.sender_name (file_id, checksum) _
        (read_complete-complete_json J L file_id checksum plain
          (bytes_to_hex-AllPlain (O.sha256 content) bytes))
      ∙ ap
          (λ (v : World).
            complete O downloads (report_file s.now) fine s.now packet.sender_name
              (file_id, checksum) v)
          (ap (dispatch_chunks J O downloads calm packet texts)
              (started J downloads s.now meta start packet.sender_key packet.sender_name w parsed)
            ∙ dispatch_chunks-receive_all J L O content file_id (pos total) downloads calm packet is
                texts _ sendable written)

  -- Texts that stand at these places of a list.
  abbrev pub AreTaken : List Str → List ℕ → List Str → Type 0
  AreTaken chunks [] [] = Unit
  AreTaken chunks (i ∷ is) (text ∷ texts) =
      (get_elem? chunks i ≡ some text) × AreTaken chunks is texts
  AreTaken chunks is texts = ⊥

  -- Every chunk of the file can be written as JSON.
  abbrev pub AllSendable : Type 0
  AllSendable =
      (i : ℕ) → i < total → IsSendableChunk J (chunk_message O content file_id (pos total) i)

  sendable_all :
      AllSendable
      → (is : List ℕ) → InRange content total is
      → AreSendable J L O content file_id (pos total) is
  sendable_all each [] h = tt
  sendable_all each (i ∷ is) ((small, start), h) = (each i small, sendable_all each is h)

  sendable_numbers :
      AllSendable
      → (n k : ℕ) → n + k ≤ total
      → AreSendable J L O content file_id (pos total) (numbers n k)
  sendable_numbers each zero k h = tt
  sendable_numbers each (suc n) k h =
      (each k (omega arith), sendable_numbers each n (suc k) (omega arith))

  taken :
      (chunks : List Str) (is : List ℕ) (texts : List Str)
      → AreChunks J L O content file_id (pos total) (numbers total 0) chunks
      → InRange content total is
      → AreChunks J L O content file_id (pos total) is texts
      → AreTaken chunks is texts
  taken chunks [] [] all h p = tt
  taken chunks [] (text ∷ texts) all h p = p
  taken chunks (i ∷ is) [] all h p = p
  taken chunks (i ∷ is) (text ∷ texts) all ((small, _), h) (p, ps) =
      (at ∙ p, taken chunks is texts all h ps)
    where
      at : get_elem? chunks i ≡ chunk_to_json J (chunk_message O content file_id (pos total) i)
      at =
          text-at J O out target ip key L file_id [] content (pos total) total 0 i chunks all small
          ∙ ap (λ (k : ℕ). chunk_to_json J (chunk_message O content file_id (pos total) k))
              (omega arith)

  -- send_file seals and sends texts for a file that is not empty, of at most 2 ^ 31 - 1 chunks:
  -- first `start`, then one for each chunk in turn, then the last one with the id and the checksum,
  -- each after the answer to the one before. These texts, handled by the switch of another engine
  -- once they are decrypted, those of the chunks in any order and each of them once or more, leave
  -- the file's bytes at the path that is reported, under the file's name. The file is on the
  -- sender's disk, the sender gets an id and a key, all texts can be written as JSON, the id holds
  -- no character that JSON escapes, the content and its hash are bytes, and the receiver's file
  -- system makes no error.
  pub sent_file_delivered :
      (v : World) (packet : MeshPacket) (is : List ℕ) (w : World)
      → lookup local_path v.disk ≡ some content
      → generate_ephemeral_token O (out.random v.draws) ≡ ok file_id
      → transfer_key O v.identity
          (derive_peer_session_key O v.identity.local_private_key target.public_key none)
        ≡ ok key
      → AreBytes content
      → AreBytes (O.sha256 content)
      → 0 < length content
      → total < 2 ^ 31
      → AllPlain file_id
      → IsSendableMetadata J meta
      → AllSendable
      → InRange content total is
      → ((i : ℕ) → i < total → mem i is ≡ true)
      → (start : Str) × (chunks : List Str) × (send_content J O out target ip local_path content v
          ≡ send_all J O out target ip key meta start chunks
              (complete_json file_id checksum)
              (record v { draws = suc v.draws }))
        × (texts : List Str) × AreTaken chunks is texts
        × (rec : ReceivedFileRecord) × (w' : World) × (after_messages packet start texts w
            ≡ (ok tt, report_file s.now rec w'))
        × (rec.file_name ≡ filename local_path)
        × (lookup rec.local_file_path w'.disk ≡ some content)
  sent_file_delivered v packet is w on_disk id_made key_made bytes hash full small plain sendable
        each range all =
      let (start, dumped, parsed) = metadata_round_trip J L meta sendable in
      let (chunks, in_turn) =
        chunks_written J L O content file_id (pos total) (numbers total 0)
          (sendable_numbers each total 0 (omega arith)) in
      let (texts, written) =
        chunks_written J L O content file_id (pos total) is (sendable_all each is range) in
      let (arrived, is_arrived, rec, w', done, name, path, there) =
        transfer_delivers O B downloads content bytes meta total refl
          (counted (length content) full small) (report_file s.now) packet.sender_key
          packet.sender_name checksum s.now s.now (pos total) is w small (omega arith) range all
          (inr refl) in
      (
        start,
        chunks,
        send_content-all J L O out target ip file_id local_path content key full small chunks
            (subst (λ (t : ℤ). AreChunks J L O content file_id t (numbers total 0) chunks)
              (sym (counted (length content) full small)) in_turn)
            start v on_disk id_made key_made dumped,
        texts,
        taken chunks is texts in_turn range written,
        rec,
        w',
        as_transfer packet start is texts w parsed plain hash (sendable_all each is range) written
            ∙ ap
                (λ (v : World).
                  complete O downloads (report_file s.now) fine s.now packet.sender_name
                    (file_id, checksum) v)
                (sym is_arrived)
            ∙ done,
        name,
        there,
      )
