-- ===== src/Audit/Redaction.antt =====
-- What the log says of a key.
use rin_windows.Base.{
  ◌-◌, ◌<◌, ◌≡◌, refl, sym, ap, ◌∙◌, Str, lit, is_empty, true, false, some, [], ◌∷◌, ◌++◌, length,
  take, drop, ltb, arith,
}
use rin_windows.Audit.{MeshAuditLogger, sanitize_text, sanitize_key, Entry, event_of, log}

-- The first four and the last four bytes.
abbrev pub ends : Str → Str × Str
ends key = (take 4 key, drop (length key - 4) key)

long-nonempty : (key : Str) → 12 < length key → is_empty key ≡ false
long-nonempty [] h = absurd (omega arith)
long-nonempty (c ∷ key) h = refl

sanitize_text-long :
    (key : Str)
    → 12 < length key
    → sanitize_text key
      ≡ some (lit "key:" ++ (take 4 key ++ (lit "..." ++ drop (length key - 4) key)))
unfolding sanitize_text
sanitize_text-long key h =
    let long : ltb 12 (length key) ≡ true = ground arith in rw (long-nonempty key h, long)

sanitize_key-ends :
    (key other : Str)
    → 12 < length key
    → 12 < length other
    → ends key ≡ ends other
    → sanitize_key (some key) ≡ sanitize_key (some other)
unfolding sanitize_key
sanitize_key-ends key other h g e =
    sanitize_text-long key h
    ∙ ap (λ (p : Str × Str). some (lit "key:" ++ (p.0 ++ (lit "..." ++ p.1)))) e
    ∙ sym (sanitize_text-long other g)

-- The log cannot tell two keys apart that have more than twelve bytes and the same first four and
-- last four: the buffer, the numbering and the console output are the same for both.
pub log_redacts :
    (e : Entry) (logger : MeshAuditLogger) (key other : Str)
    → 12 < length key
    → 12 < length other
    → ends key ≡ ends other
    → log (record e { peer_key = some key }) logger
      ≡ log (record e { peer_key = some other }) logger
unfolding log event_of
log_redacts e logger key other h g same = rw (sanitize_key-ends key other h g same)
