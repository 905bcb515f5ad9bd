-- ===== src/Mesh/SendFile/Rounds.antt =====
-- The rounds of the loop of send_file (src/file_transfer.cpp).
use rin_windows.Base.{
  ℕ, suc, ◌+◌, ◌*◌, ◌<◌, ◌≡◌, refl, ap, ◌∙◌, Str, lit, ℤ, pos, Bool, [], ◌∷◌, ◌++◌, take, drop,
  to_string, length, length-drop, drop-drop, arith,
}
use rin_windows.Base.Act.{Act, ◌>>=◌}
use rin_windows.Protocol.Json.{JsonLib}
use rin_windows.Crypto.OpenSsl.{OpenSsl, Bytes}
use rin_windows.Device.{TrustedDevice}
use rin_windows.World.{World}
use rin_windows.Files.Storage.Chunks.{slice}
use rin_windows.Mesh.Outbox.{Outside}
use rin_windows.Mesh.SendFile.{send_chunk, go_on, send_chunks}

module _ (J : JsonLib) (O : OpenSsl) (out : Outside) (target : TrustedDevice)
    (ip file_id session_id : Str) (key : Bytes) (t : ℤ) where
  -- A round of the sending loop: a chunk is sent, and the rest if it is answered.
  abbrev pub sends_then : ℕ → Bytes → ℕ → Bytes → Act World Bool
  sends_then i raw left rest =
      send_chunk J O out target ip file_id session_id key t i raw >>= λ answer.
      go_on J O out target ip
        (lit "FILE_CHUNK "
          ++ (to_string (pos i) ++ (lit "/" ++ (to_string t ++ lit " failed -- aborting"))))
        answer (send_chunks J O out target ip file_id session_id key t left (suc i) rest)

  sends_some :
      (left i : ℕ) (d : Bytes)
      → 0 < length d
      → send_chunks J O out target ip file_id session_id key t (suc left) i d
        ≡ sends_then i (take 65536 d) left (drop 65536 d)
  unfolding send_chunks
  sends_some left i [] h = absurd (omega arith)
  sends_some left i (b ∷ d) h = refl

  -- The loop sends the chunks of the file in turn.
  pub sends_slice :
      (content : Bytes) (left i : ℕ)
      → i * 65536 < length content
      → send_chunks J O out target ip file_id session_id key t
          (suc left)
          i
          (drop (i * 65536) content)
        ≡ sends_then i (slice content i) left (drop (i * 65536 + 65536) content)
  sends_slice content left i h =
      sends_some left i (drop (i * 65536) content) (omega (arith, length-drop (i * 65536) content))
      ∙ ap (sends_then i (slice content i) left) (drop-drop (i * 65536) 65536 content)
