-- ===== src/Mesh/SendFile/Texts.antt =====
-- The texts that send_file seals (src/file_transfer.cpp), read by the handlers of the receiver.
use rin_windows.Base.{
  ℕ, ◌+◌, ◌/◌, ◌%◌, ◌^◌, ◌<◌, ◌≡◌, refl, subst, Str, lit, str_eq, ℤ, pos, true, some, List, [], ◌∷◌,
  All, arith, passes_below, passes_below_lem,
}
use rin_windows.Protocol.{MeshPacket, FileTransferMetadata, FileChunkPayload, file_chunk}
use rin_windows.Protocol.Json.{JsonLib, JsonLaws, is_plain, AllPlain, assign}
use rin_windows.Protocol.Json.Laws.{find-assign, object-assign, value_text_found}
use rin_windows.Protocol.Payloads.{metadata_from_json, chunk_to_json, chunk_from_json}
use rin_windows.Protocol.RoundTrip.Payloads.{IsSendableChunk, chunk_round_trip}
use rin_windows.Crypto.OpenSsl.{OpenSsl, Bytes, AreBytes}
use rin_windows.Crypto.Hex.{hex_char, bytes_to_hex}
use rin_windows.World.{World, ReceivedFileRecord}
use rin_windows.Files.Storage.{fine}
use rin_windows.Files.Receive.{start_receive, receive_chunk, handle_file_start, handle_file_chunk}
use rin_windows.Base.{as_int}
use rin_windows.Files.Receive.Reassembly.{chunk_message, receive_all}
use rin_windows.Files.Complete.{complete, read_complete, handle_file_complete}
use rin_windows.Mesh.Inbox.{Surroundings}
use rin_windows.Mesh.Inbox.Dispatch.{dispatch}
use rin_windows.Mesh.SendFile.{chunk_count, complete_json}

-- Hexadecimal digits stand in JSON as they are.
hex_table : passes_below (λ n. is_plain (hex_char n)) 16 ≡ true
unfolding is_plain hex_char passes_below lit
hex_table = refl

hex_char-IsPlain : (n : ℕ) → n < 16 → is_plain (hex_char n) ≡ true
hex_char-IsPlain n h = passes_below_lem _ 16 n h hex_table

pub bytes_to_hex-AllPlain : (d : Bytes) → AreBytes d → AllPlain (bytes_to_hex d)
unfolding bytes_to_hex
bytes_to_hex-AllPlain [] p = tt
bytes_to_hex-AllPlain (b ∷ d) (h, p) = (
  hex_char-IsPlain (b / 16) (omega arith),
  (hex_char-IsPlain (b % 16) (omega arith), bytes_to_hex-AllPlain d p),
)

module _ (J : JsonLib) (L : JsonLaws J) (file_id checksum : Str) where
  abbrev last_fields : List (Str × J.Json)
  last_fields = (lit "fileId", J.text file_id) ∷ (lit "checksum", J.text checksum) ∷ []

  last_members :
      (J.find (assign J J.fresh last_fields) (lit "fileId") ≡ some (J.text file_id))
      × (J.find (assign J J.fresh last_fields) (lit "checksum") ≡ some (J.text checksum))
  unfolding str_eq lit
  last_members = (find-assign J L last_fields _, find-assign J L last_fields _)

  last_parsed :
      AllPlain file_id
      → AllPlain checksum
      → J.parse (complete_json file_id checksum) ≡ some (assign J J.fresh last_fields)
  unfolding complete_json lit is_plain assign
  last_parsed pf pc =
      L.parse-object_text (lit "fileId") file_id (lit "checksum") checksum
        (refl, (refl, (refl, (refl, (refl, (refl, tt)))))) pf
        (refl, (refl, (refl, (refl, (refl, (refl, (refl, (refl, tt)))))))) pc

  -- The text of the last message, put together by hand, is read back.
  pub read_complete-complete_json :
      AllPlain file_id
      → AllPlain checksum
      → read_complete J (complete_json file_id checksum) ≡ some (file_id, checksum)
  unfolding read_complete
  read_complete-complete_json pf pc =
      let obj = object-assign J L _ _ _ in
      rw
        (
          last_parsed pf pc,
          value_text_found J L _ (lit "fileId") obj [] file_id last_members.0,
          value_text_found J L _ (lit "checksum") obj [] checksum last_members.1,
        )
        refl

handle_parsed :
    (J : JsonLib) (O : OpenSsl) (text : Str) (chunk : FileChunkPayload) (w : World)
    → chunk_from_json J text ≡ some chunk
    → handle_file_chunk O J text w ≡ receive_chunk O chunk w
unfolding handle_file_chunk
handle_parsed J O text chunk w parsed = rw (parsed, handle_file_chunk)

-- The packets of a file's chunks, in the order in which they arrive, at the switch.
module _ (J : JsonLib) (O : OpenSsl) (downloads : Str) (s : Surroundings) where
  unfoldable pub dispatch_chunks : MeshPacket → List Str → World → World
  dispatch_chunks packet [] w = w
  dispatch_chunks packet (text ∷ texts) w =
      dispatch_chunks packet texts (dispatch J O downloads s file_chunk packet text w).1

module _ (J : JsonLib) (L : JsonLaws J) (O : OpenSsl) (content : Bytes) (file_id : Str)
    (t : ℤ) where
  -- The texts of some chunks.
  abbrev pub AreChunks : List ℕ → List Str → Type 0
  AreChunks [] [] = Unit
  AreChunks (i ∷ is) (text ∷ texts) =
      (chunk_to_json J (chunk_message O content file_id t i) ≡ some text) × AreChunks is texts
  AreChunks is texts = ⊥

  -- Every chunk of a list can be written.
  abbrev pub AreSendable : List ℕ → Type 0
  AreSendable = All (λ (i : ℕ). IsSendableChunk J (chunk_message O content file_id t i))

  pub chunks_written : (is : List ℕ) → AreSendable is → (texts : List Str) × AreChunks is texts
  chunks_written [] p = ([], tt)
  chunks_written (i ∷ is) (p, ps) =
      let (text, written, _) = chunk_round_trip J L (chunk_message O content file_id t i) p in
      let (texts, all) = chunks_written is ps in (text ∷ texts, (written, all))

  handled :
      (downloads : Str) (s : Surroundings) (packet : MeshPacket) (i : ℕ) (text : Str) (w : World)
      → IsSendableChunk J (chunk_message O content file_id t i)
      → chunk_to_json J (chunk_message O content file_id t i) ≡ some text
      → dispatch J O downloads s file_chunk packet text w
        ≡ receive_chunk O (chunk_message O content file_id t i) w
  unfolding dispatch
  handled downloads s packet i text w p e =
      let (other, written, read) = chunk_round_trip J L (chunk_message O content file_id t i) p in
      let same : other ≡ text = cc (written, e) in
      let parsed : chunk_from_json J text ≡ some (chunk_message O content file_id t i) =
        subst (λ (x : Str). chunk_from_json J x ≡ some (chunk_message O content file_id t i)) same
          read in
      handle_parsed J O text (chunk_message O content file_id t i) w parsed

  pub dispatch_chunks-receive_all :
      (downloads : Str) (s : Surroundings) (packet : MeshPacket) (is : List ℕ) (texts : List Str)
      (w : World)
      → AreSendable is
      → AreChunks is texts
      → dispatch_chunks J O downloads s packet texts w ≡ receive_all O content file_id t is w
  unfolding dispatch_chunks receive_all
  dispatch_chunks-receive_all downloads s packet [] [] w p e = refl
  dispatch_chunks-receive_all downloads s packet [] (text ∷ texts) w p e = absurd e
  dispatch_chunks-receive_all downloads s packet (i ∷ is) [] w p e = absurd e
  dispatch_chunks-receive_all downloads s packet (i ∷ is) (text ∷ texts) w (p, ps) (e, es) =
      rw (handled downloads s packet i text w p e) (
        dispatch_chunks-receive_all downloads s packet is texts
          (receive_chunk O (chunk_message O content file_id t i) w).1 ps es)

pub counted :
    (size : ℕ)
    → 0 < size
    → (size + 65535) / 65536 < 2 ^ 31
    → chunk_count size ≡ pos ((size + 65535) / 65536)
unfolding chunk_count as_int
counted size full small = ground arith

pub started :
    (J : JsonLib) (downloads : Str) (now : ℤ) (meta : FileTransferMetadata)
    (text sender_key sender_name : Str) (w : World)
    → metadata_from_json J text ≡ some meta
    → handle_file_start downloads J fine now text sender_key sender_name w
      ≡ start_receive downloads fine now meta sender_key sender_name w
unfolding handle_file_start
started J downloads now meta text sender_key sender_name w parsed = rw (parsed, handle_file_start)

pub completed :
    (J : JsonLib) (O : OpenSsl) (downloads : Str) (on_received : ReceivedFileRecord → World → World)
    (now : ℤ) (text sender_name : Str) (message : Str × Str) (w : World)
    → read_complete J text ≡ some message
    → handle_file_complete O downloads on_received fine now J text sender_name w
      ≡ complete O downloads on_received fine now sender_name message w
unfolding handle_file_complete
completed J O downloads on_received now text sender_name message w parsed =
    rw (parsed, handle_file_complete)
