-- ===== src/Audit/Buffer.antt =====
-- The buffer holds the most recent events, numbered without gaps.
use rin_windows.Base.{as_int_small, some, if◌then◌else◌}
use rin_windows.Base.{
  ℕ, zero, suc, ◌+◌, ◌-◌, ◌≤◌, ◌≡◌, refl, sym, ap, ◌∙◌, true, false, List, [], ◌∷◌, ◌++◌,
  append_assoc, append-nil, length, length-append, length-drop, drop, leb, arith, dec_lt,
}
use rin_windows.Audit.{
  AuditEvent, MeshAuditLogger, max_event_buffer, fresh_logger, Entry, event_of, make_room, log,
  from_end, recent_events, log_all,
}

module _ {ℓ} {A : Type ℓ} where
  -- The last n elements.
  abbrev pub last : ℕ → List A → List A
  last n xs = drop (length xs - n) xs

  drop-append_le : (n : ℕ) (xs ys : List A) → n ≤ length xs → drop n (xs ++ ys) ≡ drop n xs ++ ys
  drop-append_le zero xs ys h = refl
  drop-append_le (suc n) [] ys h = absurd (omega arith)
  drop-append_le (suc n) (x ∷ xs) ys h = drop-append_le n xs ys (omega arith)

  drop_one : (n : ℕ) (xs : List A) → drop 1 (drop n xs) ≡ drop (suc n) xs
  drop_one zero [] = refl
  drop_one zero (x ∷ xs) = refl
  drop_one (suc n) [] = refl
  drop_one (suc n) (x ∷ xs) = drop_one n xs

  drop-drop : (a b c : ℕ) (xs : List A) → c ≡ b + a → drop a (drop b xs) ≡ drop c xs
  drop-drop a zero c xs e = ap (λ (k : ℕ). drop k xs) (omega arith)
  drop-drop a (suc b) zero xs e = absurd (omega arith)
  drop-drop zero (suc b) (suc c) [] e = refl
  drop-drop (suc a) (suc b) (suc c) [] e = refl
  drop-drop a (suc b) (suc c) (x ∷ xs) e = drop-drop a b c xs (omega arith)

  last-last : (m n : ℕ) (xs : List A) → m ≤ n → last m (last n xs) ≡ last m xs
  last-last m n xs h =
      drop-drop (length (last n xs) - m) (length xs - n) (length xs - m) xs
        (omega (arith, length-drop (length xs - n) xs))

  length-last : (n : ℕ) (xs : List A) → n ≤ length xs → length (last n xs) ≡ n
  length-last n xs h = omega (arith, length-drop (length xs - n) xs)

-- What every event so far has looked like, from the first number on.
abbrev pub history : ℕ → List Entry → List AuditEvent
history id [] = []
history id (e ∷ entries) = event_of id e ∷ history (suc id) entries

-- One more event, in a buffer that holds the last 100 of those before.
make_room-last :
    (xs : List AuditEvent) (e : AuditEvent)
    → make_room (last 100 xs) ++ e ∷ [] ≡ last 100 (xs ++ e ∷ [])
unfolding make_room
make_room-last xs e =
    let size : length (xs ++ e ∷ []) ≡ length xs + 1 = omega (arith, length-append xs (e ∷ [])) in
    elim (dec_lt (length xs) 100) [
      | yes room ↦
          let none_left : length xs - 100 ≡ 0 = omega arith in
          let none_right : length xs + 1 - 100 ≡ 0 = omega arith in
          let fits : leb 100 (length xs) ≡ false = ground arith in
          rw (size, none_left, none_right, fits)
      | no full ↦
          let shift : length xs + 1 - 100 ≡ suc (length xs - 100) = omega arith in
          let over : leb 100 100 ≡ true = refl in
          rw (size, shift, length-last 100 xs (omega arith), drop_one (length xs - 100) xs)
            (sym (drop-append_le (suc (length xs - 100)) xs (e ∷ []) (omega arith)))
    ]

log-last :
    (past : List AuditEvent) (e : Entry) (logger : MeshAuditLogger) (id : ℕ)
    → logger.next_id ≡ id
    → logger.events ≡ last max_event_buffer past
    → (log e logger).events ≡ last max_event_buffer (past ++ event_of id e ∷ [])
unfolding log
log-last past e logger id n h = rw (n, h) (make_room-last past (event_of id e))

next_id-log :
    (e : Entry) (logger : MeshAuditLogger) (id : ℕ)
    → logger.next_id ≡ id
    → (log e logger).next_id ≡ suc id
unfolding log
next_id-log e logger id n = omega arith

log_all-last :
    (past : List AuditEvent) (entries : List Entry) (logger : MeshAuditLogger) (id : ℕ)
    → logger.next_id ≡ id
    → logger.events ≡ last max_event_buffer past
    → (log_all entries logger).events ≡ last max_event_buffer (past ++ history id entries)
unfolding log_all
log_all-last past [] logger id n h = rw (append-nil past) h
log_all-last past (e ∷ entries) logger id n h =
    log_all-last (past ++ event_of id e ∷ []) entries (log e logger) (suc id)
      (next_id-log e logger id n) (log-last past e logger id n h)
    ∙ ap (last max_event_buffer) (append_assoc past (event_of id e ∷ []) (history (suc id) entries))

-- After any calls of log() from the start, the buffer holds exactly the last 100 events, oldest
-- first, numbered from 1 in the order of the calls; earlier events are gone.
pub log_all-events :
    (entries : List Entry)
    → (log_all entries fresh_logger).events ≡ last max_event_buffer (history 1 entries)
log_all-events entries = log_all-last [] entries fresh_logger 1 refl refl

-- The smaller of a number and the size of the buffer.
abbrev pub at_most_buffer : ℕ → ℕ
at_most_buffer max = if leb max_event_buffer max then max_event_buffer else max

-- The last events of a list that is no longer than the buffer.
few_events :
    (max : ℕ) (logger : MeshAuditLogger)
    → length logger.events ≤ max_event_buffer
    → recent_events max logger ≡ some (last max logger.events)
unfolding recent_events from_end
few_events max logger short = elim (dec_lt max (length logger.events)) [
  | yes more ↦
      let over : leb (length logger.events) max ≡ false = ground arith in
      let inside : leb max (length logger.events) ≡ true = ground arith in
      rw (over, as_int_small max (omega arith), from_end) (rw inside refl)
  | no few ↦
      let under : leb (length logger.events) max ≡ true = ground arith in
      let none_cut : length logger.events - max ≡ 0 = omega arith in rw (under, none_cut) refl
]

length-last_le : (n : ℕ) (xs : List AuditEvent) → length (last n xs) ≤ n
length-last_le n xs = omega (arith, length-drop (length xs - n) xs)

last-buffer :
    (max : ℕ) (xs : List AuditEvent)
    → last max (last max_event_buffer xs) ≡ last (at_most_buffer max) xs
last-buffer max xs = elim (dec_lt max max_event_buffer) [
  | yes small ↦
      let below : leb max_event_buffer max ≡ false = ground arith in
      rw below (last-last max max_event_buffer xs (omega arith))
  | no large ↦
      let above : leb max_event_buffer max ≡ true = ground arith in
      let none_cut : length (last max_event_buffer xs) - max ≡ 0 =
        omega (arith, length-last_le max_event_buffer xs) in
      rw (above, none_cut) refl
]

-- recent_events(max), for every `max`, reads inside the buffer and returns the last `max` events of
-- the whole history, or the last 100 where `max` is more.
pub recent_events-history :
    (entries : List Entry) (max : ℕ)
    → recent_events max (log_all entries fresh_logger)
      ≡ some (last (at_most_buffer max) (history 1 entries))
recent_events-history entries max =
    let kept = log_all-events entries in
    few_events max (log_all entries fresh_logger)
      (rw kept (length-last_le max_event_buffer (history 1 entries)))
    ∙ ap (λ (xs : List AuditEvent). some (last max xs)) kept
    ∙ ap some (last-buffer max (history 1 entries))
