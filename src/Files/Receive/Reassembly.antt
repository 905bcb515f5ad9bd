-- ===== src/Files/Receive/Reassembly.antt =====
-- Chunks that arrive in any order, some of them again, put together (src/file_transfer.cpp).
use rin_windows.Base.{length-take}
use rin_windows.Base.{
  ℕ, zero, suc, ◌+◌, ◌*◌, ◌≤◌, ◌<◌, ◌≡◌, refl, ap, ◌∙◌, Str, str_eq_self, ℤ, pos, eqb_ℤ, Bool, true,
  false, ◌||◌, some, List, [], ◌∷◌, All, length, take, drop, ok, ◌==◌, ==_iff, arith, Bool-cases,
  inl, inr, if◌then◌else◌,
}
use rin_windows.Base.Dict.{lookup, lookup-insert}
use rin_windows.Protocol.{FileTransferMetadata, FileChunkPayload}
use rin_windows.Crypto.OpenSsl.{OpenSsl, Bytes, AreBytes, BlockLaws}
use rin_windows.Crypto.Base64.{base64_encode}
use rin_windows.Crypto.Base64.RoundTrip.{base64_round_trip}
use rin_windows.World.{World, InFlightReceive}
use rin_windows.Files.Storage.{write_at, write_chunk}
use rin_windows.Files.Storage.Chunks.{slice, mem, Agrees, write_chunk-Agrees}
use rin_windows.Files.Receive.{mark, store_chunk, stored, receive_chunk}

abbrev pub marked : ℕ → List ℤ → Bool
marked j [] = false
marked j (k ∷ ks) = eqb_ℤ k (pos j) || marked j ks

marked-mark : (i j : ℕ) (ks : List ℤ) → marked j (mark (pos i) ks) ≡ ((i == j) || marked j ks)
unfolding mark
marked-mark i j [] = ground arith
marked-mark i j (pos k ∷ ks) = ground (arith, marked-mark i j ks)
marked-mark i j (ℤ.negsuc k ∷ ks) = ground (arith, marked-mark i j ks)

-- How many of the indices below n are marked.
abbrev pub count_below : ℕ → List ℤ → ℕ
count_below zero ks = 0
count_below (suc n) ks = (if marked n ks then 1 else 0) + count_below n ks

count-mark_out :
    (n i : ℕ) (ks : List ℤ) → n ≤ i → count_below n (mark (pos i) ks) ≡ count_below n ks
count-mark_out zero i ks h = refl
count-mark_out (suc n) i ks h =
    ground (arith, marked-mark i n ks, count-mark_out n i ks (omega arith))

count-mark_new :
    (n i : ℕ) (ks : List ℤ)
    → i < n
    → marked i ks ≡ false
    → count_below n (mark (pos i) ks) ≡ suc (count_below n ks)
count-mark_new zero i ks h g = absurd (omega arith)
count-mark_new (suc n) i ks h g = elim (Bool-cases (i == n)) [
  | inl same ↦
      let e : i ≡ n = (==_iff i n).0 same in
      let out : count_below n (mark (pos i) ks) ≡ count_below n ks =
        count-mark_out n i ks (omega arith) in
      ground (arith, marked-mark i n ks, out, ap (λ (k : ℕ). marked k ks) e)
  | inr other ↦
      let lower : i < n = ground arith in
      ground (arith, marked-mark i n ks, count-mark_new n i ks lower g)
]

length-mark_new :
    (i : ℕ) (ks : List ℤ) → marked i ks ≡ false → length (mark (pos i) ks) ≡ suc (length ks)
unfolding mark
length-mark_new i [] h = refl
length-mark_new i (k ∷ ks) h = ground (arith, length-mark_new i ks)

mark_old : (i : ℕ) (ks : List ℤ) → marked i ks ≡ true → mark (pos i) ks ≡ ks
unfolding mark
mark_old i [] h = cc
mark_old i (k ∷ ks) h = ground (arith, mark_old i ks)

-- Every index is counted once.
length-mark :
    (n i : ℕ) (ks : List ℤ)
    → i < n
    → length ks ≡ count_below n ks
    → length (mark (pos i) ks) ≡ count_below n (mark (pos i) ks)
length-mark n i ks h e = elim (Bool-cases (marked i ks)) [
  | inl old ↦ rw (mark_old i ks old) e
  | inr new ↦ omega (arith, length-mark_new i ks new, count-mark_new n i ks h new)
]

pub count_all :
    (n : ℕ) (ks : List ℤ) → ((i : ℕ) → i < n → marked i ks ≡ true) → count_below n ks ≡ n
count_all zero ks h = refl
count_all (suc n) ks h =
    ground (arith, h n (omega arith), count_all n ks (λ i g. h i (omega arith)))

pub AreBytes-take : (n : ℕ) (d : Bytes) → AreBytes d → AreBytes (take n d)
AreBytes-take zero d h = tt
AreBytes-take (suc n) [] h = tt
AreBytes-take (suc n) (b ∷ d) (h, g) = (h, AreBytes-take n d g)

pub AreBytes-drop : (n : ℕ) (d : Bytes) → AreBytes d → AreBytes (drop n d)
AreBytes-drop zero d h = h
AreBytes-drop (suc n) [] h = tt
AreBytes-drop (suc n) (b ∷ d) (h, g) = AreBytes-drop n d g

-- The receive of a content of which some chunks have arrived.
pub record InProgress (content : Bytes) (meta : FileTransferMetadata) (total : ℕ) (temp : Str)
    (written : List ℕ) (w : World) : Type 0 where
  pub receive : InFlightReceive
  pub file : Bytes
  pub known : lookup meta.file_id w.in_flight ≡ some receive
  pub path : receive.temp_path ≡ temp
  pub meta_same : receive.metadata ≡ meta
  pub on_disk : lookup temp w.disk ≡ some file
  pub agrees : Agrees content written file
  pub counted : length receive.received_chunks ≡ count_below total receive.received_chunks
  pub marks : (j : ℕ) → marked j receive.received_chunks ≡ mem j written

-- The message that carries chunk i.
abbrev pub chunk_message : OpenSsl → Bytes → Str → ℤ → ℕ → FileChunkPayload
chunk_message O content file_id total i = record {
  file_id = file_id;
  chunk_index = pos i;
  total_chunks = total;
  data_base64 = base64_encode O (slice content i);
}

-- The messages of some chunks, handled in the order in which they arrive.
unfoldable pub receive_all : OpenSsl → Bytes → Str → ℤ → List ℕ → World → World
receive_all O content file_id total [] w = w
receive_all O content file_id total (i ∷ is) w =
    receive_all O content file_id total is
      (receive_chunk O (chunk_message O content file_id total i) w).1

-- Chunk numbers of the content.
abbrev pub InRange : Bytes → ℕ → List ℕ → Type 0
InRange content total = All (λ (i : ℕ). (i < total) × (i * 65536 ≤ length content))

-- The chunks of two lists, the second taken from its head.
abbrev pub rev_onto : List ℕ → List ℕ → List ℕ
rev_onto written [] = written
rev_onto written (i ∷ is) = rev_onto (i ∷ written) is

module _ (O : OpenSsl) (B : BlockLaws O) (content : Bytes) (bytes : AreBytes content)
    (meta : FileTransferMetadata) (total : ℕ) (temp : Str) (t : ℤ) where
  receive_chunk-stored :
      (i : ℕ) (r : InFlightReceive) (w : World)
      → lookup meta.file_id w.in_flight ≡ some r
      → receive_chunk O (chunk_message O content meta.file_id t i) w
        ≡ (ok tt, store_chunk meta.file_id (pos i) r (slice content i) w)
  unfolding receive_chunk stored
  receive_chunk-stored i r w known =
      let slice_bytes = AreBytes-take 65536 _ (AreBytes-drop (i * 65536) content bytes) in
      rw (
        known,
        receive_chunk,
        base64_round_trip O B (slice content i)
            (omega (arith, length-take 65536 (drop (i * 65536) content))) slice_bytes,
        stored,
      )

  store_chunk-InProgress :
      (i : ℕ) (written : List ℕ) (w : World)
      → i < total
      → i * 65536 ≤ length content
      → (p : InProgress content meta total temp written w)
      → InProgress content meta total temp
          (i ∷ written)
          (store_chunk meta.file_id (pos i) p.receive (slice content i) w)
  unfolding store_chunk write_chunk
  store_chunk-InProgress i written w small start p = record {
    receive = record p.receive { received_chunks = mark (pos i) p.receive.received_chunks };
    file = write_at (i * 65536) (slice content i) p.file;
    known = rw (lookup-insert meta.file_id meta.file_id _ w.in_flight, str_eq_self meta.file_id);
    path = p.path;
    meta_same = p.meta_same;
    on_disk = rw (
      p.path,
      p.on_disk,
      write_chunk,
      p.path,
      lookup-insert temp temp _ w.disk,
      str_eq_self temp,
    );
    agrees = write_chunk-Agrees content p.file written i start p.agrees;
    counted = length-mark total i p.receive.received_chunks small p.counted;
    marks = λ j.
        marked-mark i j p.receive.received_chunks ∙ ap (λ (b : Bool). (i == j) || b) (p.marks j);
  }

  receive_chunk-InProgress :
      (i : ℕ) (written : List ℕ) (w : World)
      → i < total
      → i * 65536 ≤ length content
      → InProgress content meta total temp written w
      → InProgress content meta total temp
          (i ∷ written)
          (receive_chunk O (chunk_message O content meta.file_id t i) w).1
  receive_chunk-InProgress i written w small start p =
      rw (receive_chunk-stored i p.receive w p.known)
        (store_chunk-InProgress i written w small start p)

  pub receive_all-InProgress :
      (is written : List ℕ) (w : World)
      → InRange content total is
      → InProgress content meta total temp written w
      → InProgress content meta total temp
          (rev_onto written is)
          (receive_all O content meta.file_id t is w)
  unfolding receive_all
  receive_all-InProgress [] written w h p = p
  receive_all-InProgress (i ∷ is) written w ((small, start), h) p =
      receive_all-InProgress is (i ∷ written) _ h
        (receive_chunk-InProgress i written w small start p)
