-- ===== src/Base/Elements.antt =====
-- What stands where in a list that is joined or cut.
use Prim.Native.Nat.{ℕ, zero, suc, ◌+◌, ◌≤◌, ◌<◌}
use mathlib.Core.Path.{◌≡◌, refl, ap, ap₂}
use mathlib.Core.List.{List, [], ◌∷◌, ◌++◌, map}
use mathlib.Core.Option.{none, some}
use native.Mathlib.Omega.{arith}
use rin_windows.Base.Lists.{length, get_elem?, take, drop}

module _ {ℓ} {A : Type ℓ} where
  pub get-append_left :
      (xs ys : List A) (j : ℕ) → j < length xs → get_elem? (xs ++ ys) j ≡ get_elem? xs j
  get-append_left [] ys j h = absurd (omega arith)
  get-append_left (x ∷ xs) ys zero h = refl
  get-append_left (x ∷ xs) ys (suc j) h = get-append_left xs ys j (omega arith)

  pub get-append_right :
      (xs ys : List A) (i j : ℕ) → i ≡ length xs + j → get_elem? (xs ++ ys) i ≡ get_elem? ys j
  get-append_right [] ys i j h = ap (get_elem? ys) (omega arith)
  get-append_right (x ∷ xs) ys zero j h = absurd (omega arith)
  get-append_right (x ∷ xs) ys (suc i) j h = get-append_right xs ys i j (omega arith)

  pub get-take : (n : ℕ) (xs : List A) (j : ℕ) → j < n → get_elem? (take n xs) j ≡ get_elem? xs j
  get-take zero xs j h = absurd (omega arith)
  get-take (suc n) [] j h = refl
  get-take (suc n) (x ∷ xs) zero h = refl
  get-take (suc n) (x ∷ xs) (suc j) h = get-take n xs j (omega arith)

  pub get-drop :
      (n : ℕ) (xs : List A) (i j : ℕ) → i ≡ n + j → get_elem? (drop n xs) j ≡ get_elem? xs i
  get-drop zero xs i j h = ap (get_elem? xs) (omega arith)
  get-drop (suc n) [] i j h = refl
  get-drop (suc n) (x ∷ xs) zero j h = absurd (omega arith)
  get-drop (suc n) (x ∷ xs) (suc i) j h = get-drop n xs i j (omega arith)

  pub get_out : (xs : List A) (j : ℕ) → length xs ≤ j → get_elem? xs j ≡ none
  get_out [] j h = refl
  get_out (x ∷ xs) zero h = absurd (omega arith)
  get_out (x ∷ xs) (suc j) h = get_out xs j (omega arith)

  -- Lists with the same elements at the same places are equal.
  pub list_ext : (xs ys : List A) → ((j : ℕ) → get_elem? xs j ≡ get_elem? ys j) → xs ≡ ys
  list_ext [] [] h = refl
  list_ext [] (y ∷ ys) h = let e : none ≡ some y = h 0 in cc
  list_ext (x ∷ xs) [] h = let e : some x ≡ none = h 0 in cc
  list_ext (x ∷ xs) (y ∷ ys) h =
      let e : some x ≡ some y = h 0 in ap₂ ◌∷◌ (cc) (list_ext xs ys (λ j. h (suc j)))

pub get-map {ℓ} :
    {A B : Type ℓ} (f : A → B) (xs : List A) (i : ℕ) (x : A)
    → get_elem? xs i ≡ some x
    → get_elem? (map f xs) i ≡ some (f x)
get-map f [] i x e = cc
get-map f (y ∷ xs) zero x e = cc
get-map f (y ∷ xs) (suc i) x e = get-map f xs i x e
