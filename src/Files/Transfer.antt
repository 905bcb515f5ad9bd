-- ===== src/Files/Transfer.antt =====
-- A whole transfer on the receiving side (src/file_transfer.cpp): start, chunks, complete.
use rin_windows.Base.{
  ℕ, zero, suc, ◌*◌, ◌^◌, ◌≤◌, ◌<◌, ◌≡◌, ◌⊎◌, inl, inr, refl, sym, ap, ◌∙◌, Str, is_empty,
  str_eq_self, ℤ, pos, eqb_ℤ_self, Bool, true, false, ◌||◌, none, some, List, [], ◌∷◌, length,
  length-replicate, replicate, Result, ok, arith, if◌then◌else◌,
}
use rin_windows.Base.Dict.{lookup, insert, erase, lookup-insert}
use rin_windows.Protocol.{FileTransferMetadata}
use rin_windows.Crypto.OpenSsl.{OpenSsl, Bytes, AreBytes, BlockLaws}
use rin_windows.Crypto.Hex.{bytes_to_hex}
use rin_windows.World.{World, InFlightReceive, ReceivedFileRecord, audit}
use rin_windows.Files.Storage.{fine, sha256_hex, rename}
use rin_windows.Files.Storage.Chunks.{mem, Agrees-all}
use rin_windows.Files.Receive.{preallocate, routing, temp_path_of, start_receive}
use rin_windows.Base.{as_int_small}
use rin_windows.Files.Receive.Reassembly.{
  count_below, count_all, InProgress, receive_all, InRange, rev_onto, receive_all-InProgress,
}
use rin_windows.Files.Complete.{
  destination, moved, announce, keep_moved, keep, is_complete, is_intact, judge, settle, notify,
  complete,
}

count_none : (n : ℕ) → count_below n [] ≡ 0
count_none zero = refl
count_none (suc n) = omega (arith, count_none n)

always : (b : Bool) → (if b then true else true) ≡ true
always true = refl
always false = refl

mem-rev_onto :
    (j : ℕ) (written is : List ℕ) → mem j (rev_onto written is) ≡ (mem j is || mem j written)
mem-rev_onto j written [] = refl
mem-rev_onto j written (i ∷ is) = ground (arith, mem-rev_onto j (i ∷ written) is)

module _ (O : OpenSsl) (B : BlockLaws O) (downloads : Str) (content : Bytes)
    (bytes : AreBytes content) (meta : FileTransferMetadata) (total : ℕ)
    (size : meta.file_size ≡ pos (length content)) (announced : meta.total_chunks ≡ pos total) where
  abbrev pub temp : Str
  temp = temp_path_of downloads meta.file_id

  start-InProgress :
      (now : ℤ) (sender_key sender_name : Str) (w : World)
      → InProgress content meta total temp []
          (start_receive downloads fine now meta sender_key sender_name w)
  unfolding start_receive routing audit preallocate
  start-InProgress now sender_key sender_name w = record {
    receive = record {
      metadata = meta;
      sender_key = sender_key;
      sender_name = sender_name;
      temp_path = temp;
      received_chunks = [];
    };
    file = replicate (length content) 0;
    known = rw (lookup-insert meta.file_id meta.file_id _ w.in_flight, str_eq_self meta.file_id);
    path = refl;
    meta_same = refl;
    on_disk = rw size (rw (lookup-insert temp temp _ w.disk, str_eq_self temp));
    agrees = (length-replicate (length content) 0, λ j h. cc);
    counted = sym (count_none total);
    marks = λ j. refl;
  }

  -- A receive with every chunk on the disk.
  abbrev pub Whole : InFlightReceive → World → Type 0
  Whole r w =
      (r.temp_path ≡ temp)
      × (r.metadata ≡ meta)
      × (lookup temp w.disk ≡ some content)
      × (length r.received_chunks ≡ total)

  whole :
      (written : List ℕ) (w : World)
      → length content ≤ total * 65536
      → ((i : ℕ) → i < total → mem i written ≡ true)
      → (p : InProgress content meta total temp written w) → Whole p.receive w
  whole written w enough all p =
      let same : p.file ≡ content =
        Agrees-all content p.file written p.agrees (λ i h. all i (omega arith)) in
      (
        p.path,
        p.meta_same,
        p.on_disk ∙ ap some same,
        p.counted ∙ count_all total p.receive.received_chunks (λ i h. p.marks i ∙ all i h),
      )

  -- What is expected of a checksum: nothing, or the right one.
  abbrev pub IsChecksum : Str → Type 0
  IsChecksum expected = (expected ≡ []) ⊎ (expected ≡ bytes_to_hex (O.sha256 content))

  module _ (now : ℤ) (sender_name : Str) where
    intact :
        (expected : Str) (r : InFlightReceive) (w : World)
        → IsChecksum expected
        → Whole r w
        → is_intact O downloads fine now meta.file_id sender_name expected r w ≡ true
    unfolding is_intact
    intact expected r w (inl e) q = rw e
    intact expected r w (inr e) (path, _, here, _) =
        let hash : sha256_hex O temp w.disk ≡ bytes_to_hex (O.sha256 content) =
          rw (here, sha256_hex) in
        rw (path, e, hash, str_eq_self (bytes_to_hex (O.sha256 content)))
          (always (is_empty (bytes_to_hex (O.sha256 content))))

    complete_count :
        (r : InFlightReceive) (w : World)
        → total < 2 ^ 31
        → Whole r w
        → is_complete O downloads fine now meta.file_id sender_name r ≡ true
    unfolding is_complete
    complete_count r w small (_, same, _, count) =
        rw (same, announced, count, as_int_small total small) (eqb_ℤ_self (pos total))

    abbrev pub Delivers : Str → Result ReceivedFileRecord × World → Type 0
    Delivers dest out =
        (rec : ReceivedFileRecord) × (w' : World) × (out ≡ (ok rec, w'))
        × (rec.local_file_path ≡ dest)
        × (rec.file_name ≡ meta.file_name)
        × (lookup dest w'.disk ≡ some content)

    moved-whole :
        (r : InFlightReceive) (w : World) (dest : Str)
        → Whole r w
        → moved fine r.temp_path dest w.disk (rename none r.temp_path dest w.disk)
          ≡ (none, insert dest content (erase temp w.disk))
    unfolding moved rename
    moved-whole r w dest (path, _, here, _) = rw path (rw (here, rename))

    keep-whole :
        (r : InFlightReceive) (w : World)
        → Whole r w
        → Delivers
            (destination downloads meta.file_name meta.file_id w.disk)
            (keep O downloads fine now meta.file_id sender_name r w)
    unfolding keep keep_moved announce routing audit
    keep-whole r w q =
        let (path, same, here, count) = q in
        let dest = destination downloads meta.file_name meta.file_id w.disk in
        rw same (
          rw (moved-whole r w dest q) (
            _,
            _,
            refl,
            refl,
            refl,
            rw (lookup-insert dest dest content (erase temp w.disk), str_eq_self dest),
          ))

    pub settle-whole :
        (expected : Str) (r : InFlightReceive) (w : World)
        → total < 2 ^ 31
        → IsChecksum expected
        → Whole r w
        → Delivers
            (destination downloads meta.file_name meta.file_id w.disk)
            (settle O downloads fine now meta.file_id sender_name expected r w)
    unfolding settle judge
    settle-whole expected r w small right q =
        rw (complete_count r w small q, intact expected r w right q) (keep-whole r w q)

  complete-known :
      (on_received : ReceivedFileRecord → World → World) (now : ℤ) (sender_name expected : Str)
      (r : InFlightReceive) (w : World)
      → lookup meta.file_id w.in_flight ≡ some r
      → complete O downloads on_received fine now sender_name (meta.file_id, expected) w
        ≡ notify on_received (
            settle O downloads fine now meta.file_id sender_name expected r
              (record w { in_flight = erase meta.file_id w.in_flight }))
  unfolding complete
  complete-known on_received now sender_name expected r w known = rw (known, complete)

  notified :
      (on_received : ReceivedFileRecord → World → World) (rec : ReceivedFileRecord) (w : World)
      → notify on_received (ok rec, w) ≡ (ok tt, on_received rec w)
  unfolding notify
  notified on_received rec w = refl

  -- A file that is announced as it is, at most 2 ^ 31 - 1 chunks, and whose chunks arrive in any
  -- order and any of them more than once, is reported once it is complete, with the right checksum
  -- or none, under its name and with the path of its destination, where exactly its bytes are. The
  -- file system makes no error.
  pub transfer_delivers :
      (on_received : ReceivedFileRecord → World → World) (sender_key sender_name expected : Str)
      (started ended t : ℤ) (is : List ℕ) (w : World)
      → total < 2 ^ 31
      → length content ≤ total * 65536
      → InRange content total is
      → ((i : ℕ) → i < total → mem i is ≡ true)
      → IsChecksum expected
      → (arrived : World) × (arrived
          ≡ receive_all O content meta.file_id t is
              (start_receive downloads fine started meta sender_key sender_name w))
        × (rec : ReceivedFileRecord) × (w' : World) × (complete O downloads on_received fine ended
              sender_name
              (meta.file_id, expected)
              arrived
            ≡ (ok tt, on_received rec w'))
        × (rec.file_name ≡ meta.file_name)
        × (rec.local_file_path ≡ destination downloads meta.file_name meta.file_id arrived.disk)
        × (lookup rec.local_file_path w'.disk ≡ some content)
  transfer_delivers on_received sender_key sender_name expected started ended t is w small enough
        range all right =
      let w1 = start_receive downloads fine started meta sender_key sender_name w in
      let arrived = receive_all O content meta.file_id t is w1 in
      let p =
        receive_all-InProgress O B content bytes meta total temp t is [] w1 range
          (start-InProgress started sender_key sender_name w) in
      let q =
        whole (rev_onto [] is) arrived enough
          (λ i h. mem-rev_onto i [] is ∙ ap (λ (b : Bool). b || false) (all i h)) p in
      let without : World = record arrived { in_flight = erase meta.file_id arrived.in_flight } in
      let (rec, w', done, path, name, there) =
        settle-whole ended sender_name expected p.receive without small right q in
      (
        arrived,
        refl,
        rec,
        w',
        complete-known on_received ended sender_name expected p.receive arrived p.known
            ∙ ap (notify on_received) done
            ∙ notified on_received rec w',
        name,
        path,
        rw path there,
      )
