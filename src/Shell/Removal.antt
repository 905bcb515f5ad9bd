-- ===== src/Shell/Removal.antt =====
-- The button that removes a device (src/win32_shell.cpp).
use rin_windows.Base.{
  map, get-map, lit, [], ◌∷◌, ◌++◌, ◌∙◌, ℕ, Str, Bool, true, false, ◌≡◌, ◌⊎◌, refl, ap, Option,
  none, some, List, get_elem?, Result, ok, err, inl, inr, arith, if◌then◌else◌,
}
use rin_windows.Base.Act.{modify, resume, ◌>>◌}
use rin_windows.Protocol.Json.{JsonLib}
use rin_windows.Crypto.OpenSsl.{OpenSsl}
use rin_windows.Device.{TrustedDevice}
use rin_windows.QrCode.{Symbol}
use rin_windows.Mesh.Devices.{trusted_devices}
use rin_windows.Mesh.Outbox.{revoke_device}
use rin_windows.Shell.{Shell, Desk, timer, command, on_engine, box, refresh_device_list, chosen}
use rin_windows.Shell.Messages.{
  confirmed, remove_chosen, on_remove_device_clicked, on_command, handle_main,
}
use rin_windows.Shell.Labels.{Row, to_wstring, row_of}

-- What a redrawing after a call leaves of the engine and of the boxes.
redrawn-same :
    (wide : Str → Str) (r : Result (Unit {0}) × Shell)
    → let t = (resume r (λ done. modify (refresh_device_list wide))).1 in
      (t.engine ≡ r.1.engine) × (t.boxes ≡ r.1.boxes)
unfolding refresh_device_list
redrawn-same wide (ok done, s) = ground arith
redrawn-same wide (err e, s) = (refl, refl)

abbrev pub question : (Str → Str) → TrustedDevice → Str
question wide device = lit "Remove \"" ++ (to_wstring wide device.name ++ lit "\" from the mesh?")

-- The list view shows the devices of the engine, in their order.
abbrev pub ShowsDevices : (Str → Str) → Shell → Type 0
ShowsDevices wide s = s.rows ≡ map (row_of wide) (trusted_devices s.engine)

module _ (J : JsonLib) (O : OpenSsl) (qrencode : Str → Option Symbol) (wide : Str → Str) where
  -- The selected row shows a device that is another one than this, its name stood in the question
  -- to which the user said yes, and it is revoked.
  pub record Revokes (d : Desk) (s t : Shell) : Type 0 where
    pub row : ℕ
    pub device : TrustedDevice
    pub is_selected : s.selected ≡ some row
    pub is_listed : get_elem? (trusted_devices s.engine) row ≡ some device
    pub is_shown : get_elem? s.rows row ≡ some (row_of wide device)
    pub is_other : device.is_self ≡ false
    pub is_confirmed : d.answer_yes ≡ true
    pub is_asked : t.boxes ≡ s.boxes ++ question wide device ∷ []
    pub revoked : t.engine ≡ (revoke_device J O d.out device.public_key s.engine).1

  abbrev pub RemovesOnly : Desk → Shell → Shell → Type 0
  RemovesOnly d s t = (t.engine ≡ s.engine) ⊎ Revokes d s t

  -- The device that a selection means.
  selected_row :
      (selected : Option ℕ) (ds : List TrustedDevice) (device : TrustedDevice)
      → chosen selected ds ≡ some device
      → (row : ℕ) × (selected ≡ some row) × (get_elem? ds row ≡ some device)
  unfolding chosen
  selected_row none ds device e = cc
  selected_row (some k) ds device e = (k, refl, e)

  asked :
      (d : Desk) (s : Shell) (device : TrustedDevice) (answer : Bool)
      → ShowsDevices wide s
      → chosen s.selected (trusted_devices s.engine) ≡ some device
      → device.is_self ≡ false
      → d.answer_yes ≡ answer
      → RemovesOnly d s
          (confirmed J O qrencode wide d device answer (box (question wide device) s)).1
  unfolding confirmed
  asked d s device false shown at is_other no_ = inl refl
  asked d s device true shown at is_other yes_ =
      let (row, is_selected, is_listed) =
        selected_row s.selected (trusted_devices s.engine) device at in
      let (engine, boxes) =
        redrawn-same wide
          (on_engine (revoke_device J O d.out device.public_key) (box (question wide device) s)) in
      inr (record {
        row = row;
        device = device;
        is_selected = is_selected;
        is_listed = is_listed;
        is_shown =
            ap (λ (rows : List Row). get_elem? rows row) shown
            ∙ get-map (row_of wide) (trusted_devices s.engine) row device is_listed;
        is_other = is_other;
        is_confirmed = yes_;
        is_asked = boxes;
        revoked = engine;
      })

  unless_self :
      (d : Desk) (s : Shell) (warning : Str) (device : TrustedDevice) (b : Bool)
      → ShowsDevices wide s
      → chosen s.selected (trusted_devices s.engine) ≡ some device
      → device.is_self ≡ b
      → RemovesOnly d s
          ((if b
              then modify (box warning)
              else modify (box (question wide device))
                >> confirmed J O qrencode wide d device d.answer_yes)
            s).1
  unless_self d s warning device true shown at is_self = inl refl
  unless_self d s warning device false shown at is_other =
      asked d s device d.answer_yes shown at is_other refl

  remove_chosen-RemovesOnly :
      (d : Desk) (s : Shell) (o : Option TrustedDevice)
      → ShowsDevices wide s
      → chosen s.selected (trusted_devices s.engine) ≡ o
      → RemovesOnly d s (remove_chosen J O qrencode wide d o s).1
  unfolding remove_chosen
  remove_chosen-RemovesOnly d s none shown at = inl refl
  remove_chosen-RemovesOnly d s (some device) shown at =
      unless_self d s _ device device.is_self shown at refl

  removes_nothing :
      (d : Desk) (s : Shell)
      → s.selected ≡ none
      → on_remove_device_clicked J O qrencode wide d s ≡ (ok tt, s)
  unfolding on_remove_device_clicked remove_chosen chosen
  removes_nothing d s nothing =
      ap
        (λ (o : Option ℕ).
          remove_chosen J O qrencode wide d (chosen o (trusted_devices s.engine)) s)
        nothing

  refreshed :
      (s : Shell)
      → s.main_hwnd ≡ true
      → ((refresh_device_list wide s).selected ≡ none)
        × ShowsDevices wide (refresh_device_list wide s)
  unfolding refresh_device_list
  refreshed s made = ground (arith, made)

  -- While the list view shows the devices of the engine, Remove leaves the engine as it is, or the
  -- row that is selected shows a device other than this one, the user has been asked about the
  -- device with that row's name and has said yes, and Remove revokes that device. Once there is a
  -- main window, a tick of the timer makes the list view show the devices of the engine, and Remove
  -- directly after it, before a row is selected, changes nothing at all.
  pub remove-RemovesOnly :
      (d e : Desk) (s : Shell)
      → ShowsDevices wide s
      → s.main_hwnd ≡ true
      → RemovesOnly d s (handle_main J O qrencode wide (command 1003) d s).1
        × (let redrawn = (handle_main J O qrencode wide (timer 1) e s).1 in
            ShowsDevices wide redrawn
            × (handle_main J O qrencode wide (command 1003) d redrawn ≡ (ok tt, redrawn)))
  unfolding handle_main on_command on_remove_device_clicked
  remove-RemovesOnly d e s shown made =
      let (nothing, shows) = refreshed s made in
      (
        remove_chosen-RemovesOnly d s (chosen s.selected (trusted_devices s.engine)) shown refl,
        (shows, removes_nothing d (refresh_device_list wide s) nothing),
      )
