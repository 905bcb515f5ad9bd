-- ===== src/Files/Storage/Chunks.antt =====
-- Writing the chunks of a file in any order (src/file_transfer.cpp): what stands where.
use rin_windows.Base.{
  ℕ, ◌+◌, ◌-◌, ◌*◌, ◌/◌, ◌≤◌, ◌<◌, min, ◌≡◌, sym, ap, ◌∙◌, Bool, true, false, ◌||◌, List, [], ◌∷◌,
  ◌++◌, length, length-append, length-take, length-drop, get_elem?, get-append_left,
  get-append_right, get-take, get-drop, get_out, list_ext, take, take-append-drop, drop, append-nil,
  ◌==◌, dec_lt, arith,
}
use rin_windows.Crypto.OpenSsl.{Bytes}
use rin_windows.Files.Storage.{write_at}

pub write_at_within :
    (offset : ℕ) (bytes file : Bytes)
    → offset + length bytes ≤ length file
    → write_at offset bytes file ≡ take offset file ++ (bytes ++ drop (offset + length bytes) file)
unfolding write_at
write_at_within offset [] file fits =
    sym (take-append-drop offset file)
    ∙ ap (λ (k : ℕ). take offset file ++ drop k file) (omega arith)
write_at_within offset (b ∷ bytes) file fits =
    let gap : offset - length file ≡ 0 = omega arith in rw gap (rw (append-nil file))

-- A write inside a file, whatever is written.
module _ (offset : ℕ) (bytes file : Bytes) (fits : offset + length bytes ≤ length file) where
  abbrev spliced : Bytes
  spliced = take offset file ++ (bytes ++ drop (offset + length bytes) file)

  length-spliced : length spliced ≡ length file
  length-spliced = omega (
    arith,
    length-append (take offset file) (bytes ++ drop (offset + length bytes) file),
    length-append bytes (drop (offset + length bytes) file),
    length-take offset file,
    length-drop (offset + length bytes) file,
  )

  get-inside :
      (i j : ℕ) → j ≡ offset + i → i < length bytes → get_elem? spliced j ≡ get_elem? bytes i
  get-inside i j e h =
      get-append_right (take offset file) _ j i (omega (arith, length-take offset file))
      ∙ get-append_left bytes _ i h

  get-before : (j : ℕ) → j < offset → get_elem? spliced j ≡ get_elem? file j
  get-before j h =
      get-append_left (take offset file) _ j (omega (arith, length-take offset file))
      ∙ get-take offset file j h

  get-after : (j : ℕ) → offset + length bytes ≤ j → get_elem? spliced j ≡ get_elem? file j
  get-after j h =
      get-append_right (take offset file) _ j (j - offset) (omega (arith, length-take offset file))
      ∙ get-append_right bytes _ (j - offset) (j - offset - length bytes) (omega arith)
      ∙ get-drop (offset + length bytes) file j (j - offset - length bytes) (omega arith)

-- The bytes of chunk i.
abbrev pub slice : Bytes → ℕ → Bytes
slice content i = take 65536 (drop (i * 65536) content)

abbrev pub mem : ℕ → List ℕ → Bool
mem i [] = false
mem i (k ∷ ks) = k == i || mem i ks

-- A file of the right size that has the content's bytes in the chunks that are written.
abbrev pub Agrees : Bytes → List ℕ → Bytes → Type 0
Agrees content written file =
    (length file ≡ length content)
    × ((j : ℕ) → mem (j / 65536) written ≡ true → get_elem? file j ≡ get_elem? content j)

length-slice :
    (content : Bytes) (i : ℕ) → length (slice content i) ≡ min 65536 (length content - i * 65536)
length-slice content i =
    omega (arith, length-take 65536 (drop (i * 65536) content), length-drop (i * 65536) content)

mem-later :
    (i j : ℕ) (written : List ℕ)
    → mem (j / 65536) (i ∷ written) ≡ true
    → (i + 1) * 65536 ≤ j
    → mem (j / 65536) written ≡ true
mem-later i j written h far = ground (arith, far)

mem-earlier :
    (i j : ℕ) (written : List ℕ)
    → mem (j / 65536) (i ∷ written) ≡ true
    → j < i * 65536
    → mem (j / 65536) written ≡ true
mem-earlier i j written h near = ground (arith, near)

pub write_chunk-Agrees :
    (content file : Bytes) (written : List ℕ) (i : ℕ)
    → i * 65536 ≤ length content
    → Agrees content written file
    → Agrees content (i ∷ written) (write_at (i * 65536) (slice content i) file)
write_chunk-Agrees content file written i start (size, same) =
    let fits : i * 65536 + length (slice content i) ≤ length file =
      omega (arith, length-slice content i) in
    rw (write_at_within (i * 65536) (slice content i) file fits)
      (length-spliced (i * 65536) (slice content i) file fits ∙ size, agree fits)
  where
    agree :
        i * 65536 + length (slice content i) ≤ length file
        → (j : ℕ) → mem (j / 65536) (i ∷ written) ≡ true
        → get_elem?
            (take (i * 65536) file
              ++ (slice content i ++ drop (i * 65536 + length (slice content i)) file))
            j
          ≡ get_elem? content j
    agree fits j h = elim (dec_lt j (i * 65536)) [
      | yes early ↦
          get-before (i * 65536) (slice content i) file fits j early
          ∙ same j (mem-earlier i j written h early)
      | no late ↦ elim (dec_lt j (i * 65536 + length (slice content i))) [
        | yes inside ↦
            get-inside (i * 65536) (slice content i) file fits (j - i * 65536) j (omega arith)
              (omega arith)
            ∙ get-take 65536 (drop (i * 65536) content) (j - i * 65536)
                (omega (arith, length-slice content i))
            ∙ get-drop (i * 65536) content j (j - i * 65536) (omega arith)
        | no after ↦ elim (dec_lt j (length content)) [
          | yes more ↦
              get-after (i * 65536) (slice content i) file fits j (omega arith)
              ∙ same j (mem-later i j written h (omega (arith, length-slice content i)))
          | no end ↦
              get_out _ j (omega (arith, length-spliced (i * 65536) (slice content i) file fits))
              ∙ sym (get_out content j (omega arith))
        ]
      ]
    ]

-- Once every chunk is written the file is the content.
pub Agrees-all :
    (content file : Bytes) (written : List ℕ)
    → Agrees content written file
    → ((i : ℕ) → i * 65536 < length content → mem i written ≡ true)
    → file ≡ content
Agrees-all content file written (size, same) all = list_ext file content (λ j.
    elim (dec_lt j (length content)) [
      | yes inside ↦ same j (all (j / 65536) (omega arith))
      | no out ↦ get_out file j (omega arith) ∙ sym (get_out content j (omega arith))
    ])
