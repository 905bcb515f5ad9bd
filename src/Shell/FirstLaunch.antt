-- ===== src/Shell/FirstLaunch.antt =====
-- The first launch (src/win32_shell.cpp): run_first_launch_chooser with its wait for the camera, and
-- run_join_paste_dialog.
use rin_windows.Base.{
  ℕ, ◌==◌, Str, lit, is_empty, Bool, true, false, Option, none, some, List, [], ◌∷◌, ◌++◌, All, ◌≡◌,
  refl, if◌then◌else◌,
}
use rin_windows.Base.Act.{Act, pure, modify, ◌>>=◌, ◌>>◌}
use rin_windows.Protocol.{QrJoinToken}
use rin_windows.Protocol.Json.{JsonLib}
use rin_windows.Protocol.Payloads.{token_from_json}
use rin_windows.Crypto.OpenSsl.{OpenSsl}
use rin_windows.Camera.{
  CameraQrScanner, Opening, no_camera, fails, opens, begin_start, finish_start, stop, call,
}
use rin_windows.Mesh.Outbox.{Outside}
use rin_windows.Mesh.Identity.{Storage, create_initial_mesh}
use rin_windows.Mesh.Identity.Handshake.{complete_join_handshake}
use rin_windows.Shell.{Shell, on_engine, box}

-- What happens while the window waits for the camera. The callback runs on another thread, and what
-- it posts goes to that thread: GetMessage does not return for it.
pub data WaitEvent : Type 0 where
  scanned : Str → WaitEvent
  escape_key : WaitEvent
  woken : WaitEvent
  quit_message : WaitEvent
  another_message : WaitEvent

-- A call of GetMessage, and the loop after it; `none` waits on. What is heard is the token.
unfoldable pub get_message : Option Str → List WaitEvent → Option (Option Str)
get_message heard [] = none
get_message heard (scanned text ∷ events) = get_message (some text) events
get_message heard (escape_key ∷ events) = some heard
get_message heard (woken ∷ events) = some heard
get_message heard (quit_message ∷ events) = some heard
get_message none (another_message ∷ events) = get_message none events
get_message (some text) (another_message ∷ events) = some (some text)

-- while (!camera_done && GetMessage(...)); `before` was scanned before the loop.
unfoldable pub wait_for_scan : Option Str → List WaitEvent → Option (Option Str)
unfolding get_message
wait_for_scan none events = get_message none events
wait_for_scan (some text) events = some (some text)

-- The messages that GetMessage returns to the loop of the dialog; Join comes with what stands in the
-- edit control, in UTF-8.
pub data PasteMessage : Type 0 where
  clicked : ℕ → Str → PasteMessage
  closed : PasteMessage
  quit_posted : PasteMessage
  other_paste : PasteMessage

-- s_ok && !out_json.empty()
unfoldable pub pasted : Str → Option Str
pasted text = if is_empty text then none else some text

-- run_join_paste_dialog; `none` waits on.
unfoldable pub run_join_paste_dialog : List PasteMessage → Option (Option Str)
unfolding pasted
run_join_paste_dialog [] = none
run_join_paste_dialog (clicked id text ∷ messages) =
    let rest = run_join_paste_dialog messages in
    if id == 1 then some (pasted text) else if id == 2 then some none else rest
run_join_paste_dialog (closed ∷ messages) = some none
run_join_paste_dialog (quit_posted ∷ messages) = some none
run_join_paste_dialog (other_paste ∷ messages) = run_join_paste_dialog messages

pub data Choice : Type 0 where
  yes no cancel : Choice

-- What Windows, the camera and the user answer at the first launch.
pub record Launch : Type 0 where
  pub storage : Storage
  pub out : Outside
  pub choice : Choice
  pub opening : Opening
  -- whether the camera's StopAsync returns
  pub released : Bool
  pub scanned_before : Option Str
  pub waits : List WaitEvent
  pub pastes : List PasteMessage

-- What start returns.
unfoldable pub camera_ok : Opening → Bool
camera_ok no_camera = false
camera_ok (fails capture reader message) = false
camera_ok opens = true

-- What the wait brought, or else the dialog.
unfoldable pub or_paste : List PasteMessage → Option (Option Str) → Option (Option Str)
unfolding run_join_paste_dialog
or_paste pastes none = none
or_paste pastes (some none) = run_join_paste_dialog pastes
or_paste pastes (some (some text)) = some (some text)

unfoldable pub token_json : Launch → Option (Option Str)
unfolding or_paste camera_ok wait_for_scan
token_json l =
    if camera_ok l.opening
    then or_paste l.pastes (wait_for_scan l.scanned_before l.waits)
    else run_join_paste_dialog l.pastes

-- The scanner after a text was scanned: the handler has claimed its callback, and called it.
unfoldable pub heard_scan : Option (Option Str) → CameraQrScanner → CameraQrScanner
unfolding call
heard_scan none s = s
heard_scan (some none) s = s
heard_scan (some (some text)) s = call s.callback text (record s { fired = true; running = false })

-- The scanner is started, and stopped when the wait is over.
unfoldable pub scan_first : Launch → CameraQrScanner → CameraQrScanner
unfolding heard_scan camera_ok wait_for_scan
scan_first l s =
    let started = finish_start l.opening (begin_start s) in
    if camera_ok l.opening
    then elim (wait_for_scan l.scanned_before l.waits) [
      | none ↦ started
      | some heard ↦ stop l.released (heard_scan (some heard) started)
    ]
    else started

-- "Joining" with an ellipsis, in UTF-8
abbrev pub joining_name : Str
joining_name = lit "Joining" ++ 226 ∷ 128 ∷ 166 ∷ []

module _ (J : JsonLib) (O : OpenSsl) (l : Launch) where
  unfoldable pub join_parsed : Option QrJoinToken → Act Shell (Unit {0})
  join_parsed none = modify (box (lit "Could not parse the join token."))
  join_parsed (some token) =
      on_engine (complete_join_handshake J O l.out token) >>= λ joined. pure tt

  unfoldable pub join_pasted : Str → Act Shell (Unit {0})
  unfolding join_parsed
  join_pasted text =
      if is_empty text then pure tt else join_parsed (token_from_json J l.out.now text)

  -- A mesh of that name is made with a token and without.
  unfoldable pub join_first : Option Str → Act Shell (Option Bool)
  unfolding join_pasted
  join_first text =
      on_engine (create_initial_mesh J O l.out l.storage joining_name (lit "Windows PC"))
      >> elim text [ none ↦ pure tt | some t ↦ join_pasted t ]
      >> pure (some true)

  -- `none` waits on.
  unfoldable pub run_first_launch_chooser : Choice → Act Shell (Option Bool)
  unfolding join_first token_json scan_first
  run_first_launch_chooser cancel = pure (some false)
  run_first_launch_chooser yes =
      on_engine (create_initial_mesh J O l.out l.storage (lit "My Mesh") (lit "Windows PC"))
      >> pure (some true)
  run_first_launch_chooser no =
      modify (λ (s : Shell). record s { scanner = scan_first l s.scanner })
      >> elim (token_json l) [ none ↦ pure none | some text ↦ join_first text ]

pub IsScan : WaitEvent → Type 0
IsScan e = (text : Str) × (e ≡ scanned text)

-- However often a text is scanned while the window waits, the wait goes on until another message
-- comes.
pub scans_do_not_wake :
    (heard : Option Str) (events : List WaitEvent)
    → All IsScan events
    → get_message heard events ≡ none
unfolding get_message IsScan
scans_do_not_wake heard [] all = refl
scans_do_not_wake heard (e ∷ events) ((text, is), all) =
    rw (is, get_message) (scans_do_not_wake (some text) events all)
