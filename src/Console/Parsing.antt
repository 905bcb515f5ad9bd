-- ===== src/Console/Parsing.antt =====
-- The lines of the console of src/main.cpp, read back.
use rin_windows.Base.{ℕ, ◌≡◌, refl, ap, ◌∙◌, Str, lit, str_eq, is_empty, false, [], ◌∷◌, ◌++◌, All}
use rin_windows.Console.{
  Command, quit, token, devices, events, usage, help, unknown, join, clipboard, sendfile, is_space,
  skip_spaces, split_word, next_word, strip_space, sendfile_of, command_of, parse_line,
}

-- What is typed for a command.
abbrev pub typed : Command → Str
typed quit = lit "quit"
typed token = lit "token"
typed devices = lit "devices"
typed events = lit "events"
typed help = lit "help"
typed (join text) = lit "join " ++ text
typed (clipboard text) = lit "clipboard " ++ text
typed (sendfile key path) = lit "sendfile " ++ (key ++ (lit " " ++ path))
typed usage = lit "sendfile"
typed unknown = lit "?"

-- The commands other than quit. The key of a device is not empty and has no space.
abbrev pub IsRequest : Command → Type 0
IsRequest quit = ⊥
IsRequest (sendfile key path) = (is_empty key ≡ false) × All (λ (c : ℕ). is_space c ≡ false) key
IsRequest other = Unit

-- A file is sent only with a path.
abbrev pub meant : Command → Command
meant (sendfile key []) = usage
meant (sendfile key (c ∷ path)) = sendfile key (c ∷ path)
meant other = other

split_word-append :
    (key rest : Str)
    → All (λ (c : ℕ). is_space c ≡ false) key
    → split_word (key ++ b' ' ∷ rest) ≡ (key, b' ' ∷ rest)
unfolding split_word
split_word-append [] rest p = refl
split_word-append (c ∷ key) rest (h, p) = rw (h, split_word-append key rest p) refl

next_word-append :
    (key rest : Str)
    → is_empty key ≡ false
    → All (λ (c : ℕ). is_space c ≡ false) key
    → next_word (b' ' ∷ (key ++ b' ' ∷ rest)) ≡ (key, b' ' ∷ rest)
unfolding next_word skip_spaces
next_word-append [] rest n p = cc
next_word-append (c ∷ key) rest n (h, p) = rw h (split_word-append (c ∷ key) rest (h, p))

sendfile_of-append :
    (key path : Str)
    → is_empty key ≡ false
    → sendfile_of (key, b' ' ∷ path) ≡ meant (sendfile key path)
unfolding sendfile_of strip_space
sendfile_of-append key [] k = rw k refl
sendfile_of-append key (c ∷ path) k = rw k refl

pub parse_line-typed : (c : Command) → IsRequest c → parse_line (typed c) ≡ meant c
unfolding parse_line command_of next_word skip_spaces split_word strip_space lit str_eq
parse_line-typed quit p = absurd p
parse_line-typed token p = refl
parse_line-typed devices p = refl
parse_line-typed events p = refl
parse_line-typed usage p = refl
parse_line-typed help p = refl
parse_line-typed unknown p = refl
parse_line-typed (join text) p = refl
parse_line-typed (clipboard text) p = refl
parse_line-typed (sendfile key path) (k, p) =
    ap sendfile_of (next_word-append key path k p) ∙ sendfile_of-append key path k
