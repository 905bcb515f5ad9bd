-- ===== src/Files/Storage.antt =====
-- What std::fstream and std::filesystem do to the files, as src/file_transfer.cpp calls them.
pub mod Chunks
use rin_windows.Base.{
  ℕ, ◌+◌, ◌-◌, Str, lit, str_eq, ℤ, pos, negsuc, Bool, true, false, Option, none, some, List, [],
  ◌∷◌, ◌++◌, Result, ok, err, runtime_error, take, drop, length, replicate, if◌then◌else◌,
}
use rin_windows.Base.Dict.{Dict, lookup, insert, erase}
use rin_windows.Crypto.OpenSsl.{OpenSsl, Bytes}
use rin_windows.Crypto.Hex.{bytes_to_hex}

-- f.seekp(offset); f.write(bytes): a gap before the offset reads as zeros, and nothing is written
-- where there is nothing to write.
unfoldable pub write_at : ℕ → Bytes → Bytes → Bytes
write_at offset [] file = file
write_at offset (b ∷ bytes) file =
    take offset (file ++ replicate (offset - length file) 0)
    ++ ((b ∷ bytes) ++ drop (offset + length (b ∷ bytes)) file)

-- A stream that did not open, or whose position is bad, writes nothing.
unfoldable pub write_chunk : Str → ℤ → Bytes → Dict Bytes → Dict Bytes
unfolding write_at
write_chunk path (negsuc k) bytes disk = disk
write_chunk path (pos offset) bytes disk = elim (lookup path disk) [
  | none ↦ disk
  | some file ↦ insert path (write_at offset bytes file) disk
]

-- sha256_hex: the empty text for a file that does not open
unfoldable pub sha256_hex : OpenSsl → Str → Dict Bytes → Str
sha256_hex O path disk = elim (lookup path disk) [
  | none ↦ []
  | some file ↦ bytes_to_hex (O.sha256 file)
]

-- The answers of the file system to one operation: an error's text, or `none`.
pub record FileIo : Type 0 where
  pub opens : Bool
  pub allocates : Bool
  pub remove_error : Option Str
  pub rename_error : Option Str
  pub copy_error : Option Str

abbrev pub fine : FileIo
fine = record {
  opens = true;
  allocates = true;
  remove_error = none;
  rename_error = none;
  copy_error = none;
}

-- std::filesystem::remove: a file that is not there is no error
unfoldable pub remove : Option Str → Str → Dict Bytes → Result (Dict Bytes)
remove none path disk = ok (erase path disk)
remove (some e) path disk = err (runtime_error e)

-- std::filesystem::rename, which replaces a file of the new name
unfoldable pub rename : Option Str → Str → Str → Dict Bytes → Result (Dict Bytes)
rename (some e) from to disk = err (runtime_error e)
rename none from to disk = elim (lookup from disk) [
  | none ↦ err (runtime_error (lit "no such file"))
  | some file ↦ ok (insert to file (erase from disk))
]

-- std::filesystem::copy, which does not
unfoldable pub copy : Option Str → Str → Str → Dict Bytes → Result (Dict Bytes)
copy (some e) from to disk = err (runtime_error e)
copy none from to disk = elim (lookup from disk) [
  | none ↦ err (runtime_error (lit "no such file"))
  | some file ↦ elim (lookup to disk) [
    | none ↦ ok (insert to file disk)
    | some other ↦ err (runtime_error (lit "file exists"))
  ]
]
