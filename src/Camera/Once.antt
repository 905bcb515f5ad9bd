-- ===== src/Camera/Once.antt =====
-- How often the callbacks of the scanner (src/camera_qr_scanner.cpp) are called, whatever the order
-- in which the threads take their steps.
use rin_windows.Base.{
  ℕ, ◌+◌, ◌≤◌, ◌≡◌, refl, sym, ap, ◌∙◌, Str, Bool, Bool-cases, true, false, Option, Option-cases,
  ℕ_discrete, none, some, inl, inr, List, [], ◌∷◌, ◌++◌, arith, if◌then◌else◌,
}
use rin_windows.Camera.Luma.{Frame, read_frame}
use rin_windows.Camera.{
  Handler, arrived, awake, looking, decoded, claimed, stopping, CameraQrScanner, fresh_scanner,
  seen, advance,
}
use rin_windows.Camera.Steps.{
  as_list, moved, Step, begin, finish, halt, arrive, handle, Reaches, here, next, count_calls, owes,
  count_owed, count_calls-append, count_owed-append, owed, IsSound, fresh-IsSound,
  begin_start-IsSound, finish_start-IsSound, stop-IsSound,
}

-- A handler that stands elsewhere after its step.
module _ (k : ℕ) (s : CameraQrScanner) (before after : List Handler) (h : Handler)
    (stands : s.handlers ≡ before ++ h ∷ after) (v : IsSound k s) where
  owed_here : count_owed k s.handlers ≡ count_owed k before + (owes k h + count_owed k after)
  owed_here = rw stands (count_owed-append k before (h ∷ after))

  owed_there :
      (o : Option Handler)
      → count_owed k (before ++ (as_list o ++ after))
        ≡ count_owed k before + (count_owed k (as_list o) + count_owed k after)
  owed_there o = omega (
    arith,
    count_owed-append k before (as_list o ++ after),
    count_owed-append k (as_list o) after,
  )

  -- Nothing that is counted changes.
  quiet-IsSound :
      (o : Option Handler) (t : CameraQrScanner)
      → t.starts ≡ s.starts
      → t.callback ≡ s.callback
      → t.fired ≡ s.fired
      → count_owed k (as_list o) + count_calls k t.calls ≡ owes k h + count_calls k s.calls
      → IsSound k (record t { handlers = before ++ (as_list o ++ after) })
  quiet-IsSound o t starts callback fired same =
      let all : count_owed k (before ++ (as_list o ++ after)) + count_calls k t.calls ≡ owed k s =
        omega (arith, owed_here, owed_there o) in
      record {
        once = omega (arith, v.once);
        unborn = λ h. all ∙ v.unborn (omega arith);
        current = λ e.
            let (less, count) = v.current (sym callback ∙ e) in
            (omega arith, all ∙ count ∙ ap (λ (b : Bool). if b then 1 else 0) (sym fired));
      }

  -- The handler takes the callback.
  claim-IsSound :
      (text : Str)
      → owes k h ≡ 0
      → s.fired ≡ false
      → IsSound k
          (record s { fired = true; handlers = before ++ (claimed s.callback text ∷ after) })
  claim-IsSound text none_yet unfired = elim (Option-cases s.callback) [
    | inl e ↦
        let total : count_owed k (before ++ claimed s.callback text ∷ after)
            ≡ count_owed k s.handlers =
          rw e (omega (arith, owed_here, count_owed-append k before (claimed none text ∷ after))) in
        record {
          once = omega (arith, v.once);
          unborn = λ h. omega (arith, v.unborn h);
          current = λ e'. absurd (cc);
        }
    | inr (j, e) ↦ elim (ℕ_discrete j k) [
      | yes same ↦
          let (less, count) = v.current (e ∙ ap some same) in
          let count' : owed k s ≡ 0 = count ∙ rw unfired refl in
          let total : count_owed k (before ++ claimed s.callback text ∷ after)
              ≡ 1 + count_owed k s.handlers =
            rw e (
              rw same (
                ground (
                  arith,
                  owed_here,
                  count_owed-append k before (claimed (some k) text ∷ after),
                ))) in
          record {
            once = omega arith;
            unborn = λ h. absurd (omega arith);
            current = λ e'. (less, omega arith);
          }
      | no other ↦
          let total : count_owed k (before ++ claimed s.callback text ∷ after)
              ≡ count_owed k s.handlers =
            rw e (
              ground (
                arith,
                other,
                owed_here,
                count_owed-append k before (claimed (some j) text ∷ after),
              )) in
          record {
            once = omega (arith, v.once);
            unborn = λ h. omega (arith, v.unborn h);
            current = λ e'. absurd (other (cc));
          }
    ]
  ]

module _ (zxing : List ℕ → ℕ → ℕ → Option Str) where
  handle-IsSound :
      (k : ℕ) (s : CameraQrScanner) (frame : Option Frame) (before after : List Handler)
      (h : Handler)
      → s.handlers ≡ before ++ h ∷ after
      → IsSound k s
      → IsSound k (moved before after (advance zxing frame h s))
  unfolding advance
  handle-IsSound k s frame before after arrived e v = elim (Bool-cases s.running) [
    | inl b ↦ quiet-IsSound k s before after arrived e v _ s refl refl refl (ground (arith, b))
    | inr b ↦ quiet-IsSound k s before after arrived e v _ s refl refl refl (ground (arith, b))
  ]
  handle-IsSound k s frame before after awake e v = elim (Bool-cases s.fired) [
    | inl b ↦ quiet-IsSound k s before after awake e v _ s refl refl refl (ground (arith, b))
    | inr b ↦ quiet-IsSound k s before after awake e v _ s refl refl refl (ground (arith, b))
  ]
  handle-IsSound k s frame before after looking e v =
      quiet-IsSound k s before after looking e v _ s refl refl refl
        (nothing (read_frame zxing frame))
    where
      nothing :
          (o : Option Str)
          → count_owed k (as_list (seen zxing o)) + count_calls k s.calls
            ≡ 0 + count_calls k s.calls
      nothing none = refl
      nothing (some text) = refl
  handle-IsSound k s frame before after (decoded text) e v = by_flag s.fired refl
    where
      by_flag :
          (b : Bool)
          → s.fired ≡ b
          → IsSound k (
              moved before after (
                if b
                then (none, s)
                else (some (claimed s.callback text), record s { fired = true })))
      by_flag true f = quiet-IsSound k s before after (decoded text) e v none s refl refl refl refl
      by_flag false f = claim-IsSound k s before after (decoded text) e v text refl f
  handle-IsSound k s frame before after (claimed cb text) e v =
      quiet-IsSound k s before after (claimed cb text) e v (some (stopping cb text))
        (record s { running = false }) refl refl refl (omega arith)
  handle-IsSound k s frame before after (stopping none text) e v =
      quiet-IsSound k s before after (stopping none text) e v none s refl refl refl refl
  handle-IsSound k s frame before after (stopping (some j) text) e v =
      quiet-IsSound k s before after (stopping (some j) text) e v none
        (record s { calls = s.calls ++ (j, text) ∷ [] }) refl refl refl
        (omega (arith, count_calls-append k s.calls ((j, text) ∷ [])))

  Step-IsSound : (k : ℕ) {s t : CameraQrScanner} → Step zxing s t → IsSound k s → IsSound k t
  Step-IsSound k {s} (begin idle) v = begin_start-IsSound k s v
  Step-IsSound k {s} (finish o busy) v = finish_start-IsSound k o s v
  Step-IsSound k {s} (halt released idle) v = stop-IsSound k released s v
  Step-IsSound k {s} arrive v =
      let same : count_owed k (s.handlers ++ arrived ∷ []) ≡ count_owed k s.handlers =
        omega (arith, count_owed-append k s.handlers (arrived ∷ [])) in
      record {
        once = omega (arith, v.once);
        unborn = λ h. omega (arith, v.unborn h);
        current = λ e.
            ((v.current e).0, ap (λ (n : ℕ). n + count_calls k s.calls) same ∙ (v.current e).1);
      }
  Step-IsSound k {s} (handle frame before after h e) v = handle-IsSound k s frame before after h e v

  Reaches-IsSound : (k : ℕ) {s : CameraQrScanner} → Reaches zxing fresh_scanner s → IsSound k s
  Reaches-IsSound k here = fresh-IsSound k
  Reaches-IsSound k (next r st) = Step-IsSound k st (Reaches-IsSound k r)

  -- Whatever the order in which the window starts and stops the scanner and the handlers of frames
  -- take their steps, the callback of each start is called at most once; and once the flag of the
  -- last start is set, its callback has been called, or one handler is about to call it.
  pub callback_once :
      {s : CameraQrScanner}
      → Reaches zxing fresh_scanner s
      → (k : ℕ)
      → (count_calls k s.calls ≤ 1)
        × (s.callback ≡ some k
            → count_owed k s.handlers + count_calls k s.calls ≡ (if s.fired then 1 else 0))
  callback_once r k = let v = Reaches-IsSound k r in (omega (arith, v.once), λ e. (v.current e).1)
