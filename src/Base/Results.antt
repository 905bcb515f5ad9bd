-- ===== src/Base/Results.antt =====
-- Exceptions as values. A function that may throw returns a `Result`.
use mathlib.Core.Path.{◌≡◌, refl}
use mathlib.Core.List.{[]}
use native.Mathlib.Omega.{arith}
use mathlib.Core.Option.{Option, none, some}
use rin_windows.Base.Strings.{Str}

pub data Exn : Type 0 where
  crypto_exception : Str → Exn
  persistence_exception : Str → Exn
  qr_code_exception : Str → Exn
  json_exception : Exn
  runtime_error : Str → Exn

-- e.what(); nlohmann's own texts are not modelled.
abbrev pub what : Exn → Str
what (crypto_exception s) = s
what (persistence_exception s) = s
what (qr_code_exception s) = s
what json_exception = []
what (runtime_error s) = s

-- A thrown exception, or what was returned.
pub data Result {ℓ} (T : Type ℓ) : Type ℓ where
  err : Exn → Result T
  ok : T → Result T

infixl 5 ◌>>=◌
-- An exception skips what follows.
abbrev pub ◌>>=◌ {ℓ κ} : {T : Type ℓ} {U : Type κ} → Result T → (T → Result U) → Result U
err thrown >>= next = err thrown
ok value >>= next = next value

abbrev pub or_throw {ℓ} : {A : Type ℓ} → Option A → Exn → Result A
or_throw none e = err e
or_throw (some a) e = ok a

-- `try { ... } catch (...) { return std::nullopt; }`
abbrev pub caught {ℓ} : {A : Type ℓ} → Result A → Option A
caught (ok a) = some a
caught (err e) = none

-- What a chain returned came from what its first part returned.
pub returned_parts {ℓ κ} :
    {T : Type ℓ} {U : Type κ} (first : Result T) (next : T → Result U) {u : U}
    → (first >>= next) ≡ ok u
    → (t : T) × (first ≡ ok t) × (next t ≡ ok u)
returned_parts (err thrown) next same = absurd (ground (arith, same))
returned_parts (ok value) next same = (value, refl, same)
