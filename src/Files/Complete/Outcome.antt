-- ===== src/Files/Complete/Outcome.antt =====
-- What becomes of a received file: delivered only when it is complete and intact
-- (handle_file_complete, src/file_transfer.cpp).
use rin_windows.Base.{
  ℕ, ◌<◌, ◌≡◌, ◌≢◌, ◌⊎◌, refl, sym, ap, ap₂, ◌∙◌, Str, str_eq, str_eq_iff, str_eq_self, is_empty, ℤ,
  pos, eqb_ℤ, eqb_ℤ_eq, Bool, true, false, not, Option, none, some, Option-cases, Bool-cases, inl,
  inr, List, [], ◌∷◌, length, Result, ok, err, arith, if◌then◌else◌,
}
use rin_windows.Base.Dict.{Dict, lookup, insert, erase, lookup-insert, lookup-erase}
use rin_windows.Crypto.OpenSsl.{OpenSsl, Bytes}
use rin_windows.World.{World, InFlightReceive, ReceivedFileRecord, audit}
use rin_windows.Files.Storage.{FileIo, sha256_hex, remove, rename, copy}
use rin_windows.Files.Receive.{routing}
use rin_windows.Base.{as_int}
use rin_windows.Files.Complete.{
  record_of, removed_copy, copied, moved, without_temp, discard, announce, keep_moved, judge, keep,
  is_complete, is_intact, settle,
}

rename_ok :
    (e : Option Str) (from to : Str) (disk disk' : Dict Bytes)
    → rename e from to disk ≡ ok disk'
    → (file : Bytes) × (lookup from disk ≡ some file) × (lookup to disk' ≡ some file)
unfolding rename
rename_ok (some e) from to disk disk' h = absurd (ground (arith, h))
rename_ok none from to disk disk' h = elim (Option-cases (lookup from disk)) [
  | inl gone ↦ absurd (ground (arith, h, gone))
  | inr (file, here) ↦
      let e : disk' ≡ insert to file (erase from disk) = ground (arith, h, here) in
      (file, here, rw e (rw (lookup-insert to to file (erase from disk), str_eq_self to)))
]

copy_ok :
    (e : Option Str) (from to : Str) (disk disk' : Dict Bytes)
    → copy e from to disk ≡ ok disk'
    → (file : Bytes) × (lookup from disk ≡ some file)
      × (lookup to disk' ≡ some file)
      × (str_eq from to ≡ false)
unfolding copy
copy_ok (some e) from to disk disk' h = absurd (ground (arith, h))
copy_ok none from to disk disk' h = elim (Option-cases (lookup from disk)) [
  | inl gone ↦ absurd (ground (arith, h, gone))
  | inr (file, here) ↦ elim (Option-cases (lookup to disk)) [
    | inl free ↦
        let e : disk' ≡ insert to file disk = ground (arith, h, here, free) in
        (
          file,
          here,
          rw e (rw (lookup-insert to to file disk, str_eq_self to)),
          elim (Bool-cases (str_eq from to)) [
            | inl same ↦
                let eq = ap (λ (p : Str). lookup p disk) ((str_eq_iff from to).0 same) in
                absurd (ground (arith, here, free, eq))
            | inr other ↦ other
          ],
        )
    | inr (taken, there) ↦ absurd (ground (arith, h, here, there))
  ]
]

removed_copy-none :
    (e : Option Str) (dest from : Str) (with_copy disk' : Dict Bytes)
    → removed_copy dest with_copy (remove e from with_copy) ≡ (none, disk')
    → disk' ≡ erase from with_copy
unfolding removed_copy remove
removed_copy-none none dest from with_copy disk' h =
    ap (λ (p : Option Str × Dict Bytes). p.1) (sym h)
removed_copy-none (some e) dest from with_copy disk' h =
    let f : some e ≡ none = ap (λ (p : Option Str × Dict Bytes). p.0) h in
    absurd (ground (arith, f))

copied-none :
    (io : FileIo) (from dest : Str) (disk disk' : Dict Bytes) (r : Result (Dict Bytes))
    → copy io.copy_error from dest disk ≡ r
    → copied io from dest disk r ≡ (none, disk')
    → (file : Bytes) × (lookup from disk ≡ some file) × (lookup dest disk' ≡ some file)
unfolding copied
copied-none io from dest disk disk' (ok with_copy) c h =
    let (file, here, there, apart) = copy_ok io.copy_error from dest disk with_copy c in
    let e = removed_copy-none io.remove_error dest from with_copy disk' h in
    (file, here, rw e (rw (lookup-erase from dest with_copy, apart) there))
copied-none io from dest disk disk' (err e) c h =
    let f : some (rin_windows.Base.what e) ≡ none = ap (λ (p : Option Str × Dict Bytes). p.0) h in
    absurd (ground (arith, f))

-- A move that reports no error has moved the file.
moved-none :
    (io : FileIo) (from dest : Str) (disk disk' : Dict Bytes) (r : Result (Dict Bytes))
    → rename io.rename_error from dest disk ≡ r
    → moved io from dest disk r ≡ (none, disk')
    → (file : Bytes) × (lookup from disk ≡ some file) × (lookup dest disk' ≡ some file)
unfolding moved
moved-none io from dest disk disk' (ok renamed) m h =
    let (file, here, there) = rename_ok io.rename_error from dest disk renamed m in
    let e : renamed ≡ disk' = ap (λ (p : Option Str × Dict Bytes). p.1) h in
    (file, here, rw (sym e) there)
moved-none io from dest disk disk' (err e) m h =
    copied-none io from dest disk disk' (copy io.copy_error from dest disk) refl h

module _ (O : OpenSsl) (downloads : Str) (io : FileIo) (now : ℤ) (file_id sender_name : Str) where
  -- A path in the record is where the temporary file now stands.
  abbrev Delivered : InFlightReceive → World → ReceivedFileRecord → World → Type 0
  Delivered r w rec w' =
      (file : Bytes) × (lookup r.temp_path w.disk ≡ some file)
      × (lookup rec.local_file_path w'.disk ≡ some file)

  keep_moved-Delivered :
      (r : InFlightReceive) (dest : Str) (w w' : World) (rec : ReceivedFileRecord)
      (m : Option Str × Dict Bytes)
      → moved io r.temp_path dest w.disk (rename io.rename_error r.temp_path dest w.disk) ≡ m
      → keep_moved O downloads io now file_id sender_name r dest m w ≡ (ok rec, w')
      → rec.local_file_path ≢ []
      → Delivered r w rec w'
  unfolding keep_moved announce routing audit
  keep_moved-Delivered r dest w w' rec (none, disk) m h g =
      let (file, here, there) = moved-none io r.temp_path dest w.disk disk _ refl m in
      let e : record_of now file_id r sender_name dest ≡ rec = cc in
      let f : disk ≡ w'.disk = ap (λ (p : Result ReceivedFileRecord × World). p.1.disk) h in
      let path : dest ≡ rec.local_file_path =
        ap (λ (x : ReceivedFileRecord). x.local_file_path) e in
      (file, here, sym (ap₂ lookup path f) ∙ there)
  keep_moved-Delivered r dest w w' rec (some e, disk) m h g =
      let e : record_of now file_id r sender_name [] ≡ rec = cc in
      absurd (g (sym (ap (λ (x : ReceivedFileRecord). x.local_file_path) e)))

  discard-path :
      (r : InFlightReceive) (m : Result (Dict Bytes)) (w w' : World) (rec : ReceivedFileRecord)
      → without_temp O downloads io now file_id sender_name r m w ≡ (ok rec, w')
      → rec.local_file_path ≡ []
  unfolding without_temp
  discard-path r (ok disk) w w' rec h =
      let e : record_of now file_id r sender_name [] ≡ rec = cc in
      sym (ap (λ (x : ReceivedFileRecord). x.local_file_path) e)
  discard-path r (err e) w w' rec h = absurd (ground (arith, h))

  complete-count :
      (r : InFlightReceive)
      → is_complete O downloads io now file_id sender_name r ≡ true
      → eqb_ℤ (as_int (length r.received_chunks)) r.metadata.total_chunks ≡ true
  unfolding is_complete
  complete-count r h = h

  intact-hash :
      (expected : Str) (r : InFlightReceive) (w : World)
      → is_intact O downloads io now file_id sender_name expected r w ≡ true
      → (expected ≡ []) ⊎ (sha256_hex O r.temp_path w.disk ≡ expected)
  unfolding is_intact
  intact-hash [] r w h = inl refl
  intact-hash (c ∷ s) r w h = inr ((str_eq_iff (sha256_hex O r.temp_path w.disk) (c ∷ s)).0 h)

  judge-Delivered :
      (r : InFlightReceive) (w w' : World) (rec : ReceivedFileRecord) (complete intact : Bool)
      → judge O downloads io now file_id sender_name r w complete intact ≡ (ok rec, w')
      → rec.local_file_path ≢ []
      → (complete ≡ true) × (intact ≡ true) × Delivered r w rec w'
  unfolding judge discard keep
  judge-Delivered r w w' rec false intact h g = absurd (g (discard-path r _ _ w' rec h))
  judge-Delivered r w w' rec true false h g = absurd (g (discard-path r _ _ w' rec h))
  judge-Delivered r w w' rec true true h g =
      (refl, refl, keep_moved-Delivered r _ w w' rec _ refl h g)

  -- When a completed receive is reported with a path, whatever the file system answered: the count
  -- of the different chunk numbers that arrived is the announced one, the SHA-256 of the temporary
  -- file is the expected one if any was sent, and the file at that path has the temporary file's
  -- bytes.
  pub settle_delivers_verified :
      (expected : Str) (r : InFlightReceive) (w w' : World) (rec : ReceivedFileRecord)
      → settle O downloads io now file_id sender_name expected r w ≡ (ok rec, w')
      → rec.local_file_path ≢ []
      → (as_int (length r.received_chunks) ≡ r.metadata.total_chunks)
        × ((expected ≡ []) ⊎ (sha256_hex O r.temp_path w.disk ≡ expected))
        × (file : Bytes) × (lookup r.temp_path w.disk ≡ some file)
        × (lookup rec.local_file_path w'.disk ≡ some file)
  unfolding settle
  settle_delivers_verified expected r w w' rec h g =
      let (complete, intact, moved_file) = judge-Delivered r w w' rec _ _ h g in
      let (file, here, there) = moved_file in
      (eqb_ℤ_eq _ _ (complete-count r complete), intact-hash expected r w intact, file, here, there)
