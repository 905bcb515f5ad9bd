-- ===== src/Mesh/Outbox/Revocation.antt =====
-- What MeshEngine::revoke_device (src/mesh_engine.cpp) leaves of the table and of the store.
use rin_windows.Base.{
  Str, lit, str_eq, ◌≡◌, subst, refl, ap, ◌∙◌, Option, none, some, [], ◌++◌, take, Result, ok, err,
  if◌then◌else◌,
}
use rin_windows.Base.Act.{Act, modify, gets, resume, ◌>>=◌, ◌>>◌}
use rin_windows.Base.Act.Keeps.{Keeps, gets-Keeps}
use rin_windows.Base.Dict.{lookup, erase, lookup-erase}
use rin_windows.Protocol.Json.{JsonLib}
use rin_windows.Crypto.OpenSsl.{OpenSsl}
use rin_windows.Device.{TrustedDevice}
use rin_windows.Persistence.{Db, remove_device}
use rin_windows.Persistence.Laws.{IsText, stored, load-remove_device}
use rin_windows.World.{World, log_event}
use rin_windows.Mesh.Devices.{persist, persist_in, persisted, trusted_devices, forget_device}
use rin_windows.Mesh.Devices.Table.{persist-devices}
use rin_windows.Mesh.Outbox.{Outside, mesh_key, seal, to_each, revocation_to, revoke_device}
use rin_windows.Mesh.Keyed.Senders.{SameBase, mesh_key-Keeps, seal-Keeps, to_each-Keeps}
use rin_windows.Mesh.Keyed.Methods.{revocation_to-Keeps}

-- Forgotten, or nothing that is kept has changed.
abbrev pub Outcome : {A : Type 0} → (World → Type 0) → World → Result A × World → Type 0
Outcome Q v (ok a, w) = Q w
Outcome Q v (err e, w) = SameBase v w

record Ends {A : Type 0} (Q : World → Type 0) (v : World) (m : Act World A) : Type 0 where
  after : (w : World) → SameBase v w → Outcome Q v (m w)

module _ {A B : Type 0} (Q : World → Type 0) (v : World) where
  resume-Ends :
      (r : Result A × World) (f : A → Act World B)
      → SameBase v r.1
      → ((a : A) → Ends Q v (f a))
      → Outcome Q v (resume r f)
  resume-Ends (ok a, w) f h rest = (rest a).after w h
  resume-Ends (err e, w) f h rest = h

  bind-Ends :
      (m : Act World A) (f : A → Act World B)
      → Keeps (SameBase v) m
      → ((a : A) → Ends Q v (f a))
      → Ends Q v (m >>= f)
  bind-Ends m f first rest = record { after = λ w h. resume-Ends (m w) f (first.after w h) rest }

module _ (J : JsonLib) (O : OpenSsl) (out : Outside) (public_key : Str) where
  -- The device is gone from the table, which is else the same, and, where SQLite makes no error,
  -- from the rows of the store.
  abbrev pub Forgets : World → World → Type 0
  Forgets v w =
      ((k : Str) → lookup k w.devices ≡ (if str_eq public_key k then none else lookup k v.devices))
      × ((db : Db)
          → v.store ≡ some db
          → out.device_io ≡ none
          → IsText public_key
          → (db' : Db) × (w.store ≡ some db')
            × ((k : Str) → stored db' k ≡ (if str_eq public_key k then none else stored db k)))

  -- The rows without the key, as SQLite leaves them.
  rows_without :
      (io : Option Str) (db : Db)
      → io ≡ none
      → IsText public_key
      → (db' : Db) × (remove_device io public_key db ≡ ok db')
        × ((k : Str) → stored db' k ≡ (if str_eq public_key k then none else stored db k))
  rows_without io db fine t =
      let (db', removed, _, _) = load-remove_device public_key db [] t in
      (
        db',
        ap (λ (o : Option Str). remove_device o public_key db) fine ∙ removed,
        λ k.
            let (other, removed', _, rows) = load-remove_device public_key db k t in
            let same : other ≡ db' = cc (removed, removed') in
            subst (λ (x : Db). stored x k ≡ (if str_eq public_key k then none else stored db k))
              same rows,
      )

  forget_device-Forgets :
      (v w : World)
      → SameBase v w
      → Forgets v (
          forget_device out.now out.device_io
            (lit "Failed to persist device revocation: ")
            public_key
            w)
  unfolding forget_device
  forget_device-Forgets v w (same, _, store) = (
    λ k.
        ap (lookup k) (
          persist-devices out.now _ (remove_device out.device_io public_key)
            (record w { devices = erase public_key w.devices }))
        ∙ lookup-erase public_key k w.devices
        ∙ ap (λ (d : Option TrustedDevice). if str_eq public_key k then none else d)
            (ap (lookup k) same),
    λ db known fine t.
        let (db', removed, rows) = rows_without out.device_io db fine t in
        (
          db',
          unfold persist persist_in persisted in
              rw (store, known, persist_in) (rw (removed, persisted) refl),
          rows,
        ),
  )

  abbrev forgotten : Act World (Unit {0})
  forgotten =
      modify (
        forget_device out.now out.device_io (lit "Failed to persist device revocation: ")
          public_key)
      >> modify (
          log_event out.now
            (lit "Signed and broadcast revocation for device " ++ take 8 public_key))

  forgotten-Ends : (v : World) → Ends (Forgets v) v forgotten
  unfolding log_event
  forgotten-Ends v = record { after = forget_device-Forgets v }

  revoke_device-Ends : (v : World) → Ends (Forgets v) v (revoke_device J O out public_key)
  unfolding revoke_device
  revoke_device-Ends v =
      bind-Ends (Forgets v) v (mesh_key J O out) _ (mesh_key-Keeps v J O out) λ key.
        bind-Ends (Forgets v) v (seal J O out public_key key) _
          (seal-Keeps v J O out public_key key)
          λ sealed.
            bind-Ends (Forgets v) v (gets trusted_devices) _ (gets-Keeps trusted_devices) λ devices.
              bind-Ends (Forgets v) v
                (to_each J O out (revocation_to J O out public_key sealed) devices)
                (λ done. forgotten)
                (to_each-Keeps v J O out (revocation_to J O out public_key sealed) devices
                  (revocation_to-Keeps v J O out public_key sealed))
                λ done. forgotten-Ends v

  -- A revocation that returns has taken the device, and no other, out of the table, and its row,
  -- and no other, out of the store, if there is one, SQLite makes no error and the key is a text
  -- that it takes. One that throws, as when a random number cannot be had to seal the message, has
  -- changed neither, nor the identity.
  pub revoke_device-Forgets :
      (v : World) → Outcome (Forgets v) v (revoke_device J O out public_key v)
  revoke_device-Forgets v = (revoke_device-Ends v).after v (refl, refl, refl)
