-- ===== src/Files/Complete/Discards.antt =====
-- Receives that fail, and where a file goes whose name is taken (handle_file_complete,
-- src/file_transfer.cpp).
use rin_windows.Base.{
  Str, lit, str_eq_ne, substr, ℤ, eqb_ℤ, eqb_ℤ_eq, Bool, true, false, Bool-cases, ◌≡◌, ◌≢◌, ◌⊎◌,
  inl, inr, refl, sym, ap, ◌∙◌, Option, none, some, [], ◌∷◌, ◌++◌, length, take, Result, ok, arith,
}
use rin_windows.Base.Dict.{Dict, lookup, erase}
use rin_windows.Crypto.OpenSsl.{OpenSsl, Bytes}
use rin_windows.Crypto.Hex.{bytes_to_hex, random_bytes, named_random, generate_ephemeral_token}
use rin_windows.World.{World, InFlightReceive, ReceivedFileRecord, audit}
use rin_windows.Files.Paths.{stem, extension}
use rin_windows.Files.Storage.{FileIo, sha256_hex, remove}
use rin_windows.Files.Receive.{routing}
use rin_windows.Base.{as_int}
use rin_windows.Files.Complete.{
  destination, without_temp, discard, judge, is_complete, is_intact, settle,
}

module _ (O : OpenSsl) (downloads : Str) (io : FileIo) (now : ℤ) (file_id sender_name : Str) where
  abbrev Discarded : InFlightReceive → World → Result ReceivedFileRecord × World → Type 0
  Discarded r w out =
      (rec : ReceivedFileRecord) × (w' : World) × (out ≡ (ok rec, w'))
      × (rec.local_file_path ≡ [])
      × (w'.disk ≡ erase r.temp_path w.disk)

  judge-Discarded :
      (r : InFlightReceive) (w : World) (complete intact : Bool)
      → io.remove_error ≡ none
      → (complete ≡ false) ⊎ (intact ≡ false)
      → Discarded r w (judge O downloads io now file_id sender_name r w complete intact)
  unfolding judge discard without_temp remove routing audit
  judge-Discarded r w false intact io_ h = rw io_ (_, _, refl, refl, refl)
  judge-Discarded r w true false io_ h = rw io_ (_, _, refl, refl, refl)
  judge-Discarded r w true true io_ (inl h) = absurd (ground (arith, h))
  judge-Discarded r w true true io_ (inr h) = absurd (ground (arith, h))

  incomplete :
      (r : InFlightReceive)
      → as_int (length r.received_chunks) ≢ r.metadata.total_chunks
      → is_complete O downloads io now file_id sender_name r ≡ false
  unfolding is_complete
  incomplete r h =
      elim (Bool-cases (eqb_ℤ (as_int (length r.received_chunks)) r.metadata.total_chunks)) [
        | inl same ↦ absurd (h (eqb_ℤ_eq _ _ same))
        | inr other ↦ other
      ]

  corrupt :
      (expected : Str) (r : InFlightReceive) (w : World)
      → expected ≢ []
      → sha256_hex O r.temp_path w.disk ≢ expected
      → is_intact O downloads io now file_id sender_name expected r w ≡ false
  unfolding is_intact
  corrupt [] r w h g = absurd (h refl)
  corrupt (c ∷ s) r w h g = str_eq_ne (sha256_hex O r.temp_path w.disk) (c ∷ s) g

  -- A receive in which the count of different chunk numbers is not the announced one, or whose
  -- temporary file has not the SHA-256 that was sent, is reported without a path, and its temporary
  -- file is removed; no other file changes. The removal makes no error.
  pub settle_discards :
      (expected : Str) (r : InFlightReceive) (w : World)
      → io.remove_error ≡ none
      → (as_int (length r.received_chunks) ≢ r.metadata.total_chunks)
        ⊎ ((expected ≢ []) × (sha256_hex O r.temp_path w.disk ≢ expected))
      → (rec : ReceivedFileRecord) × (w' : World) × (settle O downloads io now file_id sender_name
            expected r w
          ≡ (ok rec, w'))
        × (rec.local_file_path ≡ [])
        × (w'.disk ≡ erase r.temp_path w.disk)
  unfolding settle
  settle_discards expected r w io_ (inl few) = judge-Discarded r w _ _ io_ (inl (incomplete r few))
  settle_discards expected r w io_ (inr (sent, wrong)) =
      judge-Discarded r w _ _ io_ (inr (corrupt expected r w sent wrong))

token_prefix :
    (O : OpenSsl) (r : Option Bytes) (id : Str)
    → generate_ephemeral_token O r ≡ ok id
    → substr id 0 6 ≡ lit "rin_jo"
unfolding generate_ephemeral_token named_random random_bytes lit
token_prefix O none id h = absurd (ground (arith, h))
token_prefix O (some buf) id h =
    let same : lit "rin_join_" ++ bytes_to_hex buf ≡ id = cc in ap (take 6) (sym same)

-- The file ids of this program do not make a taken name different: whatever the two ids, two files
-- of one name go to one path, also when that path is taken as well.
pub destination_collides :
    (O : OpenSsl) (r q : Option Bytes) (id other dir name : Str) (disk : Dict Bytes)
    → generate_ephemeral_token O r ≡ ok id
    → generate_ephemeral_token O q ≡ ok other
    → destination dir name id disk ≡ destination dir name other disk
unfolding destination
destination_collides O r q id other dir name disk h g =
    ap
      (λ (p : Str). elim (lookup dest disk) as (λ x. Str) [
        | none ↦ dest
        | some taken ↦ dir ++ (lit "/" ++ (stem dest ++ (lit "_" ++ (p ++ extension dest))))
      ])
      (token_prefix O r id h ∙ sym (token_prefix O q other g))
  where
    dest : Str
    dest = dir ++ (lit "/" ++ name)
