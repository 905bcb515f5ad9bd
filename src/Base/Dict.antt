-- ===== src/Base/Dict.antt =====
-- std::unordered_map with text keys, as a list of pairs. Where the program walks over a map, the
-- order is that of the list; no theorem depends on it.
use mathlib.Core.Path.{◌≡◌, refl}
use mathlib.Core.List.{List, [], ◌∷◌}
use mathlib.Core.Option.{Option, none, some}
use native.Mathlib.Omega.{arith}
use rin_windows.Base.Tests.{if◌then◌else◌}
use rin_windows.Base.Strings.{Str, str_eq, str_eq_iff}

abbrev pub Dict {ℓ} : Type ℓ → Type ℓ
Dict V = List (Str × V)

module _ {ℓ} {V : Type ℓ} where
  -- m.find(k)
  unfoldable pub lookup : Str → Dict V → Option V
  lookup k [] = none
  lookup k ((i, v) ∷ m) = if str_eq i k then some v else lookup k m

  -- m[k] = v
  unfoldable pub insert : Str → V → Dict V → Dict V
  insert k v [] = (k, v) ∷ []
  insert k v ((i, w) ∷ m) = if str_eq i k then (k, v) ∷ m else (i, w) ∷ insert k v m

  -- m.erase(k)
  unfoldable pub erase : Str → Dict V → Dict V
  erase k [] = []
  erase k ((i, w) ∷ m) = let rest = erase k m in if str_eq i k then rest else (i, w) ∷ rest

  pub lookup-insert :
      (k j : Str) (v : V) (m : Dict V)
      → lookup j (insert k v m) ≡ (if str_eq k j then some v else lookup j m)
  unfolding lookup insert
  lookup-insert k j v [] = refl
  lookup-insert k j v ((i, w) ∷ m) =
      ground (arith, str_eq_iff k j, str_eq_iff i k, str_eq_iff i j, lookup-insert k j v m)

  pub lookup-erase :
      (k j : Str) (m : Dict V) → lookup j (erase k m) ≡ (if str_eq k j then none else lookup j m)
  unfolding lookup erase
  lookup-erase k j [] = ground arith
  lookup-erase k j ((i, w) ∷ m) =
      ground (arith, str_eq_iff k j, str_eq_iff i k, str_eq_iff i j, lookup-erase k j m)
