-- ===== src/QrCode/Gray.antt =====
-- The values in a picture of src/qr_code.cpp are bytes.
use rin_windows.Base.{
  ℕ, zero, suc, ◌+◌, ◌*◌, ◌<◌, leb, Option, none, some, List, [], ◌∷◌, ◌++◌, All, take, drop,
  replicate, length, get_elem?, ◌≡◌, subst, ap, arith, Bool, true, false, if◌then◌else◌,
}
use rin_windows.QrCode.{
  QrImage, Picture, ◌>>=◌, memset, paint_module, paint_dark, paint_columns, paint_rows, pictured,
  render,
}

abbrev pub AreGray : List ℕ → Type 0
AreGray v = All (λ (k : ℕ). k < 256) v

append-AreGray : (v w : List ℕ) → AreGray v → AreGray w → AreGray (v ++ w)
append-AreGray [] w p q = q
append-AreGray (k ∷ v) w p q = (p.0, append-AreGray v w p.1 q)

take-AreGray : (n : ℕ) (v : List ℕ) → AreGray v → AreGray (take n v)
take-AreGray zero v p = tt
take-AreGray (suc n) [] p = tt
take-AreGray (suc n) (k ∷ v) p = (p.0, take-AreGray n v p.1)

drop-AreGray : (n : ℕ) (v : List ℕ) → AreGray v → AreGray (drop n v)
drop-AreGray zero v p = p
drop-AreGray (suc n) [] p = tt
drop-AreGray (suc n) (k ∷ v) p = drop-AreGray n v p.1

replicate-AreGray : (n k : ℕ) → k < 256 → AreGray (replicate n k)
replicate-AreGray zero k byte = tt
replicate-AreGray (suc n) k byte = (byte, replicate-AreGray n k byte)

-- A vector of bytes, or none.
IsGray : Option (List ℕ) → Type 0
IsGray none = Unit
IsGray (some v) = AreGray v

memset-IsGray :
    (offset value count : ℕ) (v : List ℕ)
    → value < 256
    → AreGray v
    → IsGray (memset offset value count v)
unfolding memset IsGray
memset-IsGray offset value count v byte p = fits (leb (offset + count) (length v))
  where
    fits :
        (b : Bool)
        → IsGray (
            if b
            then some (take offset v ++ (replicate count value ++ drop (offset + count) v))
            else none)
    fits true = append-AreGray (take offset v) _ (take-AreGray offset v p) (
        append-AreGray (replicate count value) _ (replicate-AreGray count value byte)
          (drop-AreGray (offset + count) v p))
    fits false = tt

bind-IsGray :
    (o : Option (List ℕ)) (f : List ℕ → Option (List ℕ))
    → IsGray o
    → ((v : List ℕ) → AreGray v → IsGray (f v))
    → IsGray (o >>= f)
unfolding IsGray
bind-IsGray none f p rest = tt
bind-IsGray (some v) f p rest = rest v p

module _ (qr : QrImage) (scale border size : ℕ) where
  paint_module-IsGray :
      (rounds dy x y : ℕ) (v : List ℕ)
      → AreGray v
      → IsGray (paint_module qr scale border size rounds dy x y v)
  unfolding paint_module IsGray
  paint_module-IsGray zero dy x y v p = p
  paint_module-IsGray (suc rounds) dy x y v p =
      bind-IsGray _ _ (memset-IsGray ((y + dy) * size + x) 0 scale v (omega arith) p)
        (paint_module-IsGray rounds (dy + 1) x y)

  paint_dark-IsGray :
      (m : Option ℕ) (x y : ℕ) (v : List ℕ)
      → AreGray v
      → IsGray (paint_dark qr scale border size m x y v)
  unfolding paint_dark IsGray
  paint_dark-IsGray none x y v p = tt
  paint_dark-IsGray (some zero) x y v p = p
  paint_dark-IsGray (some (suc k)) x y v p =
      paint_module-IsGray scale 0 ((x + border) * scale) ((y + border) * scale) v p

  paint_columns-IsGray :
      (rounds x y : ℕ) (v : List ℕ)
      → AreGray v
      → IsGray (paint_columns qr scale border size rounds x y v)
  unfolding paint_columns IsGray
  paint_columns-IsGray zero x y v p = p
  paint_columns-IsGray (suc rounds) x y v p =
      bind-IsGray _ _ (paint_dark-IsGray (get_elem? qr.modules (y * qr.module_count + x)) x y v p)
        (paint_columns-IsGray rounds (x + 1) y)

  paint_rows-IsGray :
      (rounds y : ℕ) (v : List ℕ) → AreGray v → IsGray (paint_rows qr scale border size rounds y v)
  unfolding paint_rows IsGray
  paint_rows-IsGray zero y v p = p
  paint_rows-IsGray (suc rounds) y v p =
      bind-IsGray _ _ (paint_columns-IsGray qr.module_count 0 y v p)
        (paint_rows-IsGray rounds (y + 1))

pictured-AreGray :
    (size : ℕ) (o : Option (List ℕ)) (p : Picture)
    → IsGray o
    → pictured size o ≡ some p
    → AreGray p.pixels
unfolding pictured IsGray
pictured-AreGray size none p gray e = absurd (cc e)
pictured-AreGray size (some v) p gray e =
    subst AreGray (ap (λ (o : Option Picture). elim o [ none ↦ [] | some q ↦ q.pixels ]) e) gray

-- A picture is made of bytes.
pub render-AreGray :
    (qr : QrImage) (scale border : ℕ) (p : Picture)
    → render qr scale border ≡ some p
    → AreGray p.pixels
unfolding render
render-AreGray qr scale border p e = small _ e
  where
    size : ℕ
    size = (qr.module_count + 2 * border) * scale

    painted : Option (List ℕ)
    painted = paint_rows qr scale border size qr.module_count 0 (replicate (size * size) 255)

    small : (b : Bool) → (if b then pictured size painted else none) ≡ some p → AreGray p.pixels
    small true e =
        pictured-AreGray size painted p
          (paint_rows-IsGray qr scale border size qr.module_count 0 (replicate (size * size) 255)
            (replicate-AreGray (size * size) 255 (omega arith)))
          e
    small false e = absurd (cc e)
