-- ===== src/Files/Paths.antt =====
-- The names of files: mime_from_extension (src/file_transfer.cpp), and what it calls of
-- std::filesystem::path, for the separators of Windows.
use rin_windows.Base.{
  ℕ, suc, Str, lit, str_eq, Bool, false, ◌||◌, Option, none, some, [], ◌∷◌, map, length, take, drop,
  to_lower, ◌==◌, if◌then◌else◌,
}

-- s.rfind(c)
unfoldable pub rfind : ℕ → Str → Option ℕ
rfind c [] = none
rfind c (b ∷ s) = elim (rfind c s) [
  | some i ↦ some (suc i)
  | none ↦ if b == c then some 0 else none
]

-- path(s).filename()
unfoldable pub filename : Str → Str
filename [] = []
filename (c ∷ s) =
    let rest = filename s in
    if has_separator s then rest else if c == b'/' || c == b'\\' then s else c ∷ s
  where
    has_separator : Str → Bool
    has_separator [] = false
    has_separator (d ∷ t) = d == b'/' || d == b'\\' || has_separator t

-- Where the extension of a file name starts: at its last dot, unless that is its first byte or
-- the name is "..".
unfoldable pub extension_at : Str → ℕ
unfolding rfind lit str_eq
extension_at name =
    if str_eq name (lit "..")
    then length name
    else elim (rfind b'.' name) [ none ↦ length name | some i ↦ if i == 0 then length name else i ]

-- path(s).stem() and path(s).extension()
unfoldable pub stem : Str → Str
unfolding filename extension_at
stem path = take (extension_at (filename path)) (filename path)

unfoldable pub extension : Str → Str
unfolding filename extension_at
extension path = drop (extension_at (filename path)) (filename path)

unfoldable pub mime_of : Str → Str
mime_of ext =
    if str_eq ext (lit "pdf")
    then lit "application/pdf"
    else if str_eq ext (lit "png")
    then lit "image/png"
    else if str_eq ext (lit "jpg") || str_eq ext (lit "jpeg")
    then lit "image/jpeg"
    else if str_eq ext (lit "gif")
    then lit "image/gif"
    else if str_eq ext (lit "mp4")
    then lit "video/mp4"
    else if str_eq ext (lit "mp3")
    then lit "audio/mpeg"
    else if str_eq ext (lit "txt")
    then lit "text/plain"
    else if str_eq ext (lit "zip")
    then lit "application/zip"
    else lit "application/octet-stream"

unfoldable pub mime_from_extension : Str → Str
unfolding rfind mime_of
mime_from_extension path = elim (rfind b'.' path) [
  | none ↦ lit "application/octet-stream"
  | some dot ↦ mime_of (map to_lower (drop (suc dot) path))
]
