-- ===== src/Mesh/SendFile/Whole.antt =====
-- What send_content of src/file_transfer.cpp seals and sends, from the first text to the last.
use rin_windows.Base.{
  suc, ◌+◌, ◌/◌, ◌^◌, ◌<◌, ◌≡◌, refl, ap, ◌∙◌, Str, lit, ℤ, Bool, Option, none, some, List, ◌++◌,
  length, Result, ok, or_throw, json_exception, arith,
}
use mathlib.Core.Path.{fun_ext}
use rin_windows.Base.Act.{Act, lift, resume, ◌>>=◌}
use rin_windows.Base.Dict.{lookup}
use rin_windows.Protocol.{FileTransferMetadata, file_start}
use rin_windows.Protocol.Json.{JsonLib, JsonLaws}
use rin_windows.Protocol.Payloads.{metadata_to_json}
use rin_windows.Crypto.OpenSsl.{OpenSsl, Bytes}
use rin_windows.Crypto.Hex.{bytes_to_hex, generate_ephemeral_token}
use rin_windows.Crypto.Keys.{derive_peer_session_key}
use rin_windows.Device.{TrustedDevice}
use rin_windows.World.{World}
use rin_windows.Files.Storage.{sha256_hex}
use rin_windows.Mesh.Outbox.{Outside, draw, new_session_id, seal}
use rin_windows.Mesh.SendFile.{
  transfer_key, complete_json, metadata_of, count_of, send_part, go_on, send_chunks, finish,
  send_content,
}
use rin_windows.Mesh.SendFile.Texts.{AreChunks, counted}
use rin_windows.Mesh.SendFile.Sent.{
  numbers, send_texts, send_last, send_all, send_chunks-texts, finish-last,
}

resume-lift :
    {A B S : Type 0} (r : Result A) (a : A) (f : A → Act S B) (s : S)
    → r ≡ ok a
    → (lift r >>= f) s ≡ f a s
resume-lift r a f s e = ap (λ (x : Result _). resume (x, s) f) e

module _ (J : JsonLib) (L : JsonLaws J) (O : OpenSsl) (out : Outside) (target : TrustedDevice)
    (ip file_id local_path : Str) (content key : Bytes) where
  abbrev hash : Str
  hash = bytes_to_hex (O.sha256 content)

  abbrev meta : FileTransferMetadata
  meta = metadata_of file_id local_path content hash

  -- The chunks and the last text.
  abbrev rest_of : FileTransferMetadata → Str → Str → Act World Bool
  rest_of m checksum session_id =
      send_chunks J O out target ip file_id session_id key m.total_chunks
        (count_of J O out target ip m.total_chunks) 0 content
      >>= finish J O out target ip file_id session_id key m checksum

  -- The texts of a transfer, from the first, with what follows the first.
  abbrev sends : Str → (Str → Act World Bool) → Act World Bool
  sends json rest = seal J O out json key >>= λ sealed. new_session_id J O out >>= λ session_id.
      send_part J O out target ip file_start session_id sealed >>= λ answer.
      go_on J O out target ip
        (lit "FILE_START failed to reach " ++ (target.name ++ lit " -- aborting transfer")) answer
        (rest session_id)

  module _ (full : 0 < length content) (small : (length content + 65535) / 65536 < 2 ^ 31)
      (chunks : List Str)
      (written : AreChunks J L O content file_id meta.total_chunks
        (numbers ((length content + 65535) / 65536) 0)
        chunks) where
    rest-texts :
        (session_id : Str)
        → rest_of meta hash session_id ≡ (
            send_texts J O out target ip key session_id meta.total_chunks 0 chunks
            >>= send_last J O out target ip key session_id meta (complete_json file_id hash))
    unfolding count_of
    rest-texts session_id =
        ap
          (λ (t : ℤ).
            send_chunks J O out target ip file_id session_id key meta.total_chunks
              (count_of J O out target ip t) 0 content
            >>= finish J O out target ip file_id session_id key meta hash)
          (counted (length content) full small)
        ∙ ap
            (λ (m : Act World Bool).
              m >>= finish J O out target ip file_id session_id key meta hash)
            (send_chunks-texts J O out target ip key L file_id session_id content meta.total_chunks
              ((length content + 65535) / 65536) 0 chunks (omega arith) written)
        ∙ ap
            (λ (last : Bool → Act World Bool).
              send_texts J O out target ip key session_id meta.total_chunks 0 chunks >>= last)
            (finish-last J O out target ip key file_id session_id hash meta)

    hash_on_disk :
        (v : World)
        → lookup local_path v.disk ≡ some content
        → sha256_hex O local_path v.disk ≡ hash
    unfolding sha256_hex
    hash_on_disk v on_disk = rw (sha256_hex, on_disk) refl

    -- send_content seals and sends the start, then the chunks, then the last text.
    pub send_content-all :
        (start : Str) (v : World)
        → lookup local_path v.disk ≡ some content
        → generate_ephemeral_token O (out.random v.draws) ≡ ok file_id
        → transfer_key O v.identity
            (derive_peer_session_key O v.identity.local_private_key target.public_key none)
          ≡ ok key
        → metadata_to_json J meta ≡ some start
        → send_content J O out target ip local_path content v
          ≡ send_all J O out target ip key meta start chunks
              (complete_json file_id hash)
              (record v { draws = suc v.draws })
    unfolding send_content draw
    send_content-all start v on_disk id_made key_made dumped =
        resume-lift _ file_id _ _ id_made
        ∙ resume-lift _ key _ _ key_made
        ∙ ap
            (λ (checksum : Str).
              (lift (
                    or_throw (metadata_to_json J (metadata_of file_id local_path content checksum))
                      json_exception)
                  >>= λ json.
                      sends json
                        (rest_of (metadata_of file_id local_path content checksum) checksum))
                (record v { draws = suc v.draws }))
            (hash_on_disk v on_disk)
        ∙ resume-lift _ start _ _ (ap (λ (o : Option Str). or_throw o json_exception) dumped)
        ∙ ap (λ (rest : Str → Act World Bool). sends start rest (record v { draws = suc v.draws }))
            (fun_ext rest-texts)
