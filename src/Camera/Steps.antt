-- ===== src/Camera/Steps.antt =====
-- The steps of the threads that use the scanner (src/camera_qr_scanner.cpp), in any order, and what
-- its callbacks are owed.
use rin_windows.Base.{
  ℕ, ◌+◌, ◌≤◌, ◌<◌, ◌==◌, ◌≡◌, refl, Str, Bool, true, false, Option, none, some, List, [], ◌∷◌,
  ◌++◌, arith, if◌then◌else◌,
}
use rin_windows.Camera.Luma.{Frame}
use rin_windows.Camera.{
  Handler, arrived, claimed, stopping, CameraQrScanner, fresh_scanner, begin_start, Opening,
  no_camera, fails, opens, finish_start, stop, advance,
}

abbrev pub as_list : Option Handler → List Handler
as_list none = []
as_list (some h) = h ∷ []

-- After a step of the handler between two others.
abbrev pub moved : List Handler → List Handler → Option Handler × CameraQrScanner → CameraQrScanner
moved before after (o, s) = record s { handlers = before ++ (as_list o ++ after) }

-- A step: of the window's thread, which calls start and stop; of the reader, which calls a handler;
-- or of one of the handlers that run.
pub data Step (zxing : List ℕ → ℕ → ℕ → Option Str) (s : CameraQrScanner)
    : CameraQrScanner → Type 0 where
  begin : s.starting ≡ false → Step zxing s (begin_start s)
  finish : (o : Opening) → s.starting ≡ true → Step zxing s (finish_start o s)
  halt : (released : Bool) → s.starting ≡ false → Step zxing s (stop released s)
  arrive : Step zxing s (record s { handlers = s.handlers ++ arrived ∷ [] })
  handle :
      (frame : Option Frame) (before after : List Handler) (h : Handler)
      → s.handlers ≡ before ++ h ∷ after
      → Step zxing s (moved before after (advance zxing frame h s))

pub data Reaches (zxing : List ℕ → ℕ → ℕ → Option Str) (s : CameraQrScanner)
    : CameraQrScanner → Type 0 where
  here : Reaches zxing s s
  next : {t u : CameraQrScanner} → Reaches zxing s t → Step zxing t u → Reaches zxing s u

-- Calls of a callback that are made, and that a handler is about to make.
abbrev pub count_calls : ℕ → List (ℕ × Str) → ℕ
count_calls k [] = 0
count_calls k ((j, text) ∷ calls) = (if j == k then 1 else 0) + count_calls k calls

abbrev pub is_for : ℕ → Option ℕ → ℕ
is_for k none = 0
is_for k (some j) = if j == k then 1 else 0

abbrev pub owes : ℕ → Handler → ℕ
owes k (claimed cb text) = is_for k cb
owes k (stopping cb text) = is_for k cb
owes k other = 0

abbrev pub count_owed : ℕ → List Handler → ℕ
count_owed k [] = 0
count_owed k (h ∷ handlers) = owes k h + count_owed k handlers

pub count_calls-append :
    (k : ℕ) (xs ys : List (ℕ × Str))
    → count_calls k (xs ++ ys) ≡ count_calls k xs + count_calls k ys
count_calls-append k [] ys = omega arith
count_calls-append k ((j, text) ∷ xs) ys = omega (arith, count_calls-append k xs ys)

pub count_owed-append :
    (k : ℕ) (xs ys : List Handler) → count_owed k (xs ++ ys) ≡ count_owed k xs + count_owed k ys
count_owed-append k [] ys = omega arith
count_owed-append k (h ∷ xs) ys = omega (arith, count_owed-append k xs ys)

abbrev pub owed : ℕ → CameraQrScanner → ℕ
owed k s = count_owed k s.handlers + count_calls k s.calls

-- What holds of the scanner for one callback k, between any two steps.
pub record IsSound (k : ℕ) (s : CameraQrScanner) : Type 0 where
  pub once : owed k s ≤ 1
  pub unborn : s.starts ≤ k → owed k s ≡ 0
  pub current : s.callback ≡ some k → (k < s.starts) × (owed k s ≡ (if s.fired then 1 else 0))

pub fresh-IsSound : (k : ℕ) → IsSound k fresh_scanner
unfolding fresh_scanner
fresh-IsSound k = record { once = omega arith; unborn = λ h. refl; current = λ e. absurd (cc) }

pub if-IsSound :
    (k : ℕ) (b : Bool) {s t : CameraQrScanner}
    → IsSound k s
    → IsSound k t
    → IsSound k (if b then s else t)
if-IsSound k true v w = v
if-IsSound k false v w = w

pub begin_start-IsSound : (k : ℕ) (s : CameraQrScanner) → IsSound k s → IsSound k (begin_start s)
unfolding begin_start
begin_start-IsSound k s v = if-IsSound k s.running v (record {
  once = v.once;
  unborn = λ h. v.unborn (omega arith);
  current = λ same. let e' : s.starts ≡ k = cc in (omega arith, v.unborn (omega arith));
})

pub finish_start-IsSound :
    (k : ℕ) (o : Opening) (s : CameraQrScanner) → IsSound k s → IsSound k (finish_start o s)
unfolding finish_start
finish_start-IsSound k no_camera s v = record {
  once = v.once;
  unborn = v.unborn;
  current = v.current;
}
finish_start-IsSound k (fails c r m) s v = record {
  once = v.once;
  unborn = v.unborn;
  current = v.current;
}
finish_start-IsSound k opens s v = record { once = v.once; unborn = v.unborn; current = v.current }

pub stop-IsSound :
    (k : ℕ) (released : Bool) (s : CameraQrScanner) → IsSound k s → IsSound k (stop released s)
unfolding stop
stop-IsSound k released s v =
    if-IsSound k s.running (record { once = v.once; unborn = v.unborn; current = v.current }) v
