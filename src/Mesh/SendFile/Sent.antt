-- ===== src/Mesh/SendFile/Sent.antt =====
-- The texts that send_file seals and sends, one after the other (src/file_transfer.cpp).
use rin_windows.Base.{
  ℕ, get_elem?, sym, zero, suc, ◌+◌, ◌*◌, ◌<◌, ◌≡◌, refl, ap, ◌∙◌, Str, lit, ℤ, pos, Bool, true,
  false, Option, some, List, [], ◌∷◌, ◌++◌, drop, to_string, length, or_throw, json_exception,
  arith,
}
use mathlib.Core.Path.{fun_ext}
use rin_windows.Base.Act.{Act, pure, lift, modify, ◌>>=◌, ◌>>◌}
use rin_windows.Protocol.{PacketType, FileTransferMetadata, file_start, file_chunk, file_complete}
use rin_windows.Protocol.Json.{JsonLib, JsonLaws}
use rin_windows.Protocol.Payloads.{chunk_to_json}
use rin_windows.Crypto.OpenSsl.{OpenSsl, Bytes}
use rin_windows.Audit.{info}
use rin_windows.Device.{TrustedDevice}
use rin_windows.World.{World}
use rin_windows.Files.Storage.Chunks.{slice}
use rin_windows.Files.Receive.{routing}
use rin_windows.Files.Receive.Reassembly.{chunk_message}
use rin_windows.Mesh.Outbox.{Outside, new_session_id, seal}
use rin_windows.Mesh.SendFile.{complete_json, send_part, go_on, send_chunk, send_chunks, finish}
use rin_windows.Mesh.SendFile.Rounds.{sends_slice}
use rin_windows.Mesh.SendFile.Texts.{AreChunks}

-- The numbers i, i + 1, ... of n chunks.
abbrev pub numbers : ℕ → ℕ → List ℕ
numbers zero i = []
numbers (suc n) i = i ∷ numbers n (suc i)

module _ (J : JsonLib) (O : OpenSsl) (out : Outside) (target : TrustedDevice) (ip : Str)
    (key : Bytes) where
  -- One text sealed with the key and sent.
  abbrev pub send_text : PacketType → Str → Str → Act World (Option ℤ)
  send_text type session_id text =
      seal J O out text key >>= send_part J O out target ip type session_id

  -- Texts sent one after the other, each after the answer to the one before.
  abbrev pub send_texts : Str → ℤ → ℕ → List Str → Act World Bool
  send_texts session_id total i [] = pure true
  send_texts session_id total i (text ∷ texts) = send_text file_chunk session_id text >>= λ answer.
      go_on J O out target ip
        (lit "FILE_CHUNK "
          ++ (to_string (pos i) ++ (lit "/" ++ (to_string total ++ lit " failed -- aborting"))))
        answer (send_texts session_id total (suc i) texts)

  -- The last text, sent if all before were answered, and the line that the log then gets.
  abbrev pub send_last : Str → FileTransferMetadata → Str → Bool → Act World Bool
  send_last session_id meta text false = pure false
  send_last session_id meta text true = seal J O out text key >>= λ sealed.
      send_part J O out target ip file_complete session_id sealed >>= λ answer.
      modify (
        routing out.now info
          (lit "Sent file \""
            ++ (meta.file_name
                ++ (lit "\" ("
                    ++ (to_string meta.file_size
                        ++ (lit " bytes, "
                            ++ (to_string meta.total_chunks
                                ++ (lit " chunks) to " ++ target.name)))))))
          (some target.name))
      >> pure true

  -- The first text, then the chunks, then the last text.
  abbrev pub send_all : FileTransferMetadata → Str → List Str → Str → Act World Bool
  send_all meta start chunks last = seal J O out start key >>= λ sealed.
      new_session_id J O out >>= λ session_id.
      send_part J O out target ip file_start session_id sealed >>= λ answer.
      go_on J O out target ip
        (lit "FILE_START failed to reach " ++ (target.name ++ lit " -- aborting transfer")) answer
        (send_texts session_id meta.total_chunks 0 chunks >>= send_last session_id meta last)

  send_chunk-text :
      (file_id session_id : Str) (content : Bytes) (total : ℤ) (i : ℕ) (text : Str)
      → chunk_to_json J (chunk_message O content file_id total i) ≡ some text
      → send_chunk J O out target ip file_id session_id key total i (slice content i)
        ≡ send_text file_chunk session_id text
  unfolding send_chunk
  send_chunk-text file_id session_id content total i text written =
      ap
        (λ (o : Option Str). lift (or_throw o json_exception) >>= λ json.
          seal J O out json key >>= send_part J O out target ip file_chunk session_id)
        written

  pub finish-last :
      (file_id session_id checksum : Str) (meta : FileTransferMetadata)
      → finish J O out target ip file_id session_id key meta checksum
        ≡ send_last session_id meta (complete_json file_id checksum)
  unfolding finish
  finish-last file_id session_id checksum meta = fun_ext each
    where
      each :
          (b : Bool)
          → finish J O out target ip file_id session_id key meta checksum b
            ≡ send_last session_id meta (complete_json file_id checksum) b
      each false = refl
      each true = refl

  module _ (L : JsonLaws J) (file_id session_id : Str) (content : Bytes) (total : ℤ) where
    -- The loop seals the texts of the chunks, in turn.
    pub send_chunks-texts :
        (left i : ℕ) (texts : List Str)
        → (left + i) * 65536 < length content + 65536
        → AreChunks J L O content file_id total (numbers left i) texts
        → send_chunks J O out target ip file_id session_id key total left i
            (drop (i * 65536) content)
          ≡ send_texts session_id total i texts
    unfolding send_chunks
    send_chunks-texts zero i [] h p = refl
    send_chunks-texts zero i (text ∷ texts) h p = absurd p
    send_chunks-texts (suc left) i [] h p = absurd p
    send_chunks-texts (suc left) i (text ∷ texts) h (p, ps) =
        sends_slice J O out target ip file_id session_id key total content left i (omega arith)
        ∙ ap
            (λ (m : Act World (Option ℤ)). m >>= λ answer.
              go_on J O out target ip
                (lit "FILE_CHUNK "
                  ++ (to_string (pos i)
                      ++ (lit "/" ++ (to_string total ++ lit " failed -- aborting"))))
                answer
                (send_chunks J O out target ip file_id session_id key total left (suc i)
                  (drop (i * 65536 + 65536) content)))
            (send_chunk-text file_id session_id content total i text p)
        ∙ ap
            (λ (m : Act World Bool). send_text file_chunk session_id text >>= λ answer.
              go_on J O out target ip
                (lit "FILE_CHUNK "
                  ++ (to_string (pos i)
                      ++ (lit "/" ++ (to_string total ++ lit " failed -- aborting"))))
                answer m)
            (ap
                (λ (k : ℕ).
                  send_chunks J O out target ip file_id session_id key total left (suc i)
                    (drop k content))
                (omega arith)
              ∙ send_chunks-texts left (suc i) texts (omega arith) ps)

    -- The text at a place of the list is that of the chunk.
    pub text-at :
        (n k j : ℕ) (texts : List Str)
        → AreChunks J L O content file_id total (numbers n k) texts
        → j < n
        → get_elem? texts j ≡ chunk_to_json J (chunk_message O content file_id total (k + j))
    text-at zero k j texts p h = absurd (omega arith)
    text-at (suc n) k j [] p h = absurd p
    text-at (suc n) k zero (text ∷ texts) (p, ps) h =
        sym p
        ∙ ap (λ (i : ℕ). chunk_to_json J (chunk_message O content file_id total i)) (omega arith)
    text-at (suc n) k (suc j) (text ∷ texts) (p, ps) h =
        text-at n (suc k) j texts ps (omega arith)
        ∙ ap (λ (i : ℕ). chunk_to_json J (chunk_message O content file_id total i)) (omega arith)
