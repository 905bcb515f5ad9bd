-- ===== src/Protocol/RoundTrip/Payloads.antt =====
-- File metadata and file chunks that can be sent are read back as they were.
use rin_windows.Base.{
  Str, lit, str_eq, str_eq_self, pos, IsInt, IsInt64, true, false, none, some, [], ◌≡◌, refl, ◌∙◌,
  arith, append-nil,
}
use rin_windows.Protocol.{FileTransferMetadata, FileChunkPayload}
use rin_windows.Protocol.Json.{JsonLib, JsonLaws, assign, when_some}
use rin_windows.Protocol.Json.Laws.{
  assigned, find-assign, object-assign, AreClean, clean-assign, IsOptionalUtf8, at_text_found,
  at_int64_found, at_int_found, value_text_found, value_int_found, optional_text_found,
  when_some-AreClean, assigned-when_some_last,
}
use rin_windows.Protocol.Payloads.{
  metadata_fields, metadata_to_json, metadata_from_json, chunk_fields, chunk_to_json,
  chunk_from_json,
}

module _ (J : JsonLib) where
  open J use {is_utf8}

  pub record IsSendableMetadata (m : FileTransferMetadata) : Type 0 where
    pub file_id : is_utf8 m.file_id ≡ true
    pub file_name : is_utf8 m.file_name ≡ true
    pub file_size : IsInt64 m.file_size
    pub mime_type : is_utf8 m.mime_type ≡ true
    pub total_chunks : IsInt m.total_chunks
    pub chunk_size : IsInt m.chunk_size
    pub checksum : IsOptionalUtf8 J m.sha256_checksum

  pub record IsSendableChunk (c : FileChunkPayload) : Type 0 where
    pub file_id : is_utf8 c.file_id ≡ true
    pub chunk_index : IsInt c.chunk_index
    pub total_chunks : IsInt c.total_chunks
    pub chunk_data : is_utf8 c.data_base64 ≡ true

module _ (J : JsonLib) (L : JsonLaws J) where
  open J use {Json, fresh, text, number, find}

  module _ (m : FileTransferMetadata) where
    abbrev metadata_written : Json
    metadata_written = assign J fresh (metadata_fields J m)

    metadata_object : J.is_object metadata_written ≡ true
    unfolding metadata_fields
    metadata_object = object-assign J L _ _ _

    metadata-AreClean : IsSendableMetadata J m → AreClean J (metadata_fields J m)
    unfolding metadata_fields lit
    metadata-AreClean s = (
      L.utf8-ascii _ (omega arith),
      L.clean-text _ s.file_id,
      (
        L.utf8-ascii _ (omega arith),
        L.clean-text _ s.file_name,
        (
          L.utf8-ascii _ (omega arith),
          L.clean-number _,
          (
            L.utf8-ascii _ (omega arith),
            L.clean-text _ s.mime_type,
            (
              L.utf8-ascii _ (omega arith),
              L.clean-number _,
              (
                L.utf8-ascii _ (omega arith),
                L.clean-number _,
                rw (← append-nil (when_some J (lit "checksum") m.sha256_checksum)) (
                    when_some-AreClean J L _ m.sha256_checksum [] (L.utf8-ascii _ (omega arith))
                      s.checksum tt),
              ),
            ),
          ),
        ),
      ),
    )

    find-metadata :
        (k : Str) (v : Json)
        → str_eq (lit "checksum") k ≡ false
        → assigned J none (metadata_fields J (record m { sha256_checksum = none })) k ≡ some v
        → find metadata_written k ≡ some v
    unfolding metadata_fields when_some
    find-metadata k v h e =
        find-assign J L _ k ∙ assigned-when_some_last J L _ _ k m.sha256_checksum h ∙ e

    find-checksum :
        find metadata_written (lit "checksum")
        ≡ assigned J none (when_some J (lit "checksum") m.sha256_checksum) (lit "checksum")
    unfolding metadata_fields str_eq lit
    find-checksum = find-assign J L _ _

    metadata_members :
        (find metadata_written (lit "fileId") ≡ some (text m.file_id))
        × (find metadata_written (lit "fileName") ≡ some (text m.file_name))
        × (find metadata_written (lit "fileSize") ≡ some (number m.file_size))
        × (find metadata_written (lit "mimeType") ≡ some (text m.mime_type))
        × (find metadata_written (lit "totalChunks") ≡ some (number m.total_chunks))
        × (find metadata_written (lit "chunkSize") ≡ some (number m.chunk_size))
    unfolding metadata_fields when_some str_eq lit
    metadata_members = (
      find-metadata _ _ refl refl,
      find-metadata _ _ refl refl,
      find-metadata _ _ refl refl,
      find-metadata _ _ refl refl,
      find-metadata _ _ refl refl,
      find-metadata _ _ refl refl,
    )

  -- File metadata whose numbers fit their types and whose texts are UTF-8 is read back as it was
  -- written, with or without a checksum.
  pub metadata_round_trip :
      (m : FileTransferMetadata)
      → IsSendableMetadata J m
      → (s : Str) × (metadata_to_json J m ≡ some s) × (metadata_from_json J s ≡ some m)
  unfolding metadata_to_json metadata_from_json
  metadata_round_trip m s =
      let (line, dumped) = L.dump-clean _ (clean-assign J L _ (metadata-AreClean m s)) in
      let obj = metadata_object m in
      let found = metadata_members m in
      (
        line,
        dumped,
        rw (
          L.parse-dump _ _ dumped,
          at_text_found J L _ _ obj _ found.0,
          at_text_found J L _ _ obj _ found.1,
          at_int64_found J L _ _ obj _ s.file_size found.2,
          value_text_found J L _ _ obj (lit "*/*") _ found.3,
          at_int_found J L _ _ obj _ s.total_chunks found.4,
          value_int_found J L _ _ obj (pos 65536) _ s.chunk_size found.5,
          optional_text_found J L _ _ m.sha256_checksum (find-checksum m) (str_eq_self _),
        ),
      )

  module _ (c : FileChunkPayload) where
    abbrev chunk_written : Json
    chunk_written = assign J fresh (chunk_fields J c)

    chunk_object : J.is_object chunk_written ≡ true
    unfolding chunk_fields
    chunk_object = object-assign J L _ _ _

    chunk-AreClean : IsSendableChunk J c → AreClean J (chunk_fields J c)
    unfolding chunk_fields lit
    chunk-AreClean s = (
      L.utf8-ascii _ (omega arith),
      L.clean-text _ s.file_id,
      (
        L.utf8-ascii _ (omega arith),
        L.clean-number _,
        (
          L.utf8-ascii _ (omega arith),
          L.clean-number _,
          (L.utf8-ascii _ (omega arith), L.clean-text _ s.chunk_data, tt),
        ),
      ),
    )

    chunk_members :
        (find chunk_written (lit "fileId") ≡ some (text c.file_id))
        × (find chunk_written (lit "chunkIndex") ≡ some (number c.chunk_index))
        × (find chunk_written (lit "totalChunks") ≡ some (number c.total_chunks))
        × (find chunk_written (lit "data") ≡ some (text c.data_base64))
    unfolding chunk_fields str_eq lit
    chunk_members =
        (find-assign J L _ _, find-assign J L _ _, find-assign J L _ _, find-assign J L _ _)

  -- A file chunk whose numbers fit their types and whose texts are UTF-8 is read back as it was
  -- written.
  pub chunk_round_trip :
      (c : FileChunkPayload)
      → IsSendableChunk J c
      → (s : Str) × (chunk_to_json J c ≡ some s) × (chunk_from_json J s ≡ some c)
  unfolding chunk_to_json chunk_from_json
  chunk_round_trip c s =
      let (line, dumped) = L.dump-clean _ (clean-assign J L _ (chunk-AreClean c s)) in
      let obj = chunk_object c in
      let found = chunk_members c in
      (
        line,
        dumped,
        rw (
          L.parse-dump _ _ dumped,
          at_text_found J L _ _ obj _ found.0,
          at_int_found J L _ _ obj _ s.chunk_index found.1,
          at_int_found J L _ _ obj _ s.total_chunks found.2,
          at_text_found J L _ _ obj _ found.3,
        ),
      )
