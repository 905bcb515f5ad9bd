-- ===== src/Mesh/Keyed.antt =====
-- Every device stands in the table under its own key (devices_ of src/mesh_engine.cpp).
pub mod Handlers
pub mod Methods
pub mod Operations
pub mod Senders
pub mod Starts
use rin_windows.Base.{
  Str, str_eq, str_eq_iff, Bool, true, false, Bool-cases, ◌≡◌, inl, inr, refl, sym, ap, ◌∙◌, Option,
  none, some, List, [], ◌∷◌, arith, if◌then◌else◌,
}
use rin_windows.Base.Dict.{Dict, lookup, insert, erase, lookup-insert, lookup-erase}
use rin_windows.Device.{TrustedDevice}

abbrev pub AreKeyed : Dict TrustedDevice → Type 0
AreKeyed devices = (k : Str) (d : TrustedDevice) → lookup k devices ≡ some d → d.public_key ≡ k

keyed_entry :
    (key k : Str) (d e : TrustedDevice) (rest : Option TrustedDevice)
    → d.public_key ≡ key
    → (rest ≡ some e → e.public_key ≡ k)
    → (if str_eq key k then some d else rest) ≡ some e
    → e.public_key ≡ k
keyed_entry key k d e rest own others h = elim (Bool-cases (str_eq key k)) [
  | inl same ↦
      let f : d ≡ e = ground (arith, h, same) in
      sym (ap (λ (x : TrustedDevice). x.public_key) f) ∙ own ∙ (str_eq_iff key k).0 same
  | inr other ↦ others (ground (arith, h, other))
]

pub insert-AreKeyed :
    (key : Str) (d : TrustedDevice) (devices : Dict TrustedDevice)
    → d.public_key ≡ key
    → AreKeyed devices
    → AreKeyed (insert key d devices)
insert-AreKeyed key d devices own keyed k e h =
    keyed_entry key k d e (lookup k devices) own (keyed k e)
      (sym (lookup-insert key k d devices) ∙ h)

pub erase-AreKeyed :
    (key : Str) (devices : Dict TrustedDevice) → AreKeyed devices → AreKeyed (erase key devices)
erase-AreKeyed key devices keyed k e h = elim (Bool-cases (str_eq key k)) [
  | inl same ↦ absurd (ground (arith, h, same, lookup-erase key k devices))
  | inr other ↦ keyed k e (ground (arith, h, other, lookup-erase key k devices))
]
