-- ===== src/QrCode/Paints.antt =====
-- Pictures as grids of pixels, and what a memset paints in them (src/qr_code.cpp).
use rin_windows.Base.{
  ℕ, zero, suc, ◌+◌, ◌-◌, ◌*◌, ◌≤◌, ◌<◌, ltb, leb, ◌≡◌, ◌≢◌, refl, ap, ◌∙◌, Bool, true, false, ◌&&◌,
  ◌||◌, Option, none, some, List, [], ◌∷◌, ◌++◌, length, get_elem?, get-append_left,
  get-append_right, get-take, get-drop, take, drop, replicate, length-append, length-take,
  length-drop, length-replicate, dec_lt, arith, if◌then◌else◌,
}
use rin_windows.QrCode.{memset, ◌>>=◌}

pub get-replicate : (n v j : ℕ) → j < n → get_elem? (replicate n v) j ≡ some v
get-replicate zero v j h = absurd (omega arith)
get-replicate (suc n) v zero h = refl
get-replicate (suc n) v (suc j) h = get-replicate n v j (omega arith)

pub get-ne-none : (v : List ℕ) (j : ℕ) → j < length v → get_elem? v j ≢ none
get-ne-none [] j h = absurd (omega arith)
get-ne-none (x ∷ v) zero h = λ e. cc
get-ne-none (x ∷ v) (suc j) h = get-ne-none v j (omega arith)

-- What a memset leaves, place by place.
pub get-memset :
    (offset value count : ℕ) (v : List ℕ) (j : ℕ)
    → offset + count ≤ length v
    → get_elem? (take offset v ++ (replicate count value ++ drop (offset + count) v)) j
      ≡ (if leb offset j && ltb j (offset + count) then some value else get_elem? v j)
get-memset offset value count v j fits = elim (dec_lt j offset) [
  | yes before ↦
      get-append_left (take offset v) _ j (omega (arith, length-take offset v))
      ∙ get-take offset v j before
      ∙ ground arith
  | no from ↦
      get-append_right (take offset v) _ j (j - offset) (omega (arith, length-take offset v))
      ∙ elim (dec_lt (j - offset) count) [
        | yes inside ↦
            get-append_left (replicate count value) _ (j - offset)
              (omega (arith, length-replicate count value))
            ∙ get-replicate count value (j - offset) inside
            ∙ ground arith
        | no after ↦
            get-append_right (replicate count value) _ (j - offset) (j - offset - count)
              (omega (arith, length-replicate count value))
            ∙ get-drop (offset + count) v j (j - offset - count) (omega arith)
            ∙ ground arith
      ]
]

-- A place in a row of a grid of width w is in a stretch of another row only if the rows are one.
row_of :
    (w x y c r s : ℕ)
    → x < w
    → c + s ≤ w
    → (leb (r * w + c) (y * w + x) && ltb (y * w + x) (r * w + c + s))
      ≡ ((leb r y && ltb y (r + 1)) && (leb c x && ltb x (c + s)))
row_of w x y c r s hx hc = elim (dec_lt y r) [
  | yes above ↦ let far : (y + 1) * w ≤ r * w = grind arith in ground (arith, far)
  | no rest ↦ elim (dec_lt r y) [
    | yes below ↦ let far : (r + 1) * w ≤ y * w = grind arith in ground (arith, far)
    | no same ↦ let e : y ≡ r = omega arith in rw e (ground arith)
  ]
]

-- A loop that starts from `old` makes no access outside, keeps the size, and blackens the places of
-- the grid that `hit` tells, and no others.
abbrev pub Paints : ℕ → (ℕ → ℕ → Bool) → List ℕ → Option (List ℕ) → Type 0
Paints w hit old r =
    (new : List ℕ) × (r ≡ some new)
    × (length new ≡ w * w)
    × ((x y : ℕ)
        → x < w
        → y < w
        → get_elem? new (y * w + x) ≡ (if hit x y then some 0 else get_elem? old (y * w + x)))

pub none-Paints :
    (w : ℕ) (old : List ℕ) → length old ≡ w * w → Paints w (λ x y. false) old (some old)
none-Paints w old size = (old, refl, size, λ x y hx hy. refl)

-- One loop after another.
pub bind-Paints :
    (w : ℕ) (first second : ℕ → ℕ → Bool) (old : List ℕ) (r : Option (List ℕ))
    (next : List ℕ → Option (List ℕ))
    → Paints w first old r
    → ((mid : List ℕ) → length mid ≡ w * w → Paints w second mid (next mid))
    → Paints w (λ x y. first x y || second x y) old (r >>= next)
bind-Paints w first second old r next (mid, e, size, looks) rest =
    let (new, e', size', looks') = rest mid size in
    (
      new,
      rw e e',
      size',
      λ x y hx hy. looks' x y hx hy ∙ both (first x y) (second x y) _ _ (looks x y hx hy),
    )
  where
    both :
        (a b : Bool) (m o : Option ℕ)
        → m ≡ (if a then some 0 else o)
        → (if b then some 0 else m) ≡ (if a || b then some 0 else o)
    both true true m o h = refl
    both true false m o h = h
    both false true m o h = refl
    both false false m o h = h

abbrev pub within : ℕ → ℕ → ℕ → Bool
within low high x = leb low x && ltb x high

pub memset-Paints :
    (w row column count : ℕ) (old : List ℕ)
    → length old ≡ w * w
    → row < w
    → column + count ≤ w
    → Paints w
        (λ x y. within row (row + 1) y && within column (column + count) x)
        old
        (memset (row * w + column) 0 count old)
unfolding memset
memset-Paints w row column count old size hr hc =
    let below : (row + 1) * w ≤ w * w = grind arith in
    let fits : row * w + column + count ≤ length old = omega arith in
    (
      _,
      ground (arith, fits),
      omega (
        arith,
        length-append (take (row * w + column) old)
            (replicate count 0 ++ drop (row * w + column + count) old),
        length-append {A = ℕ} (replicate count 0) (drop (row * w + column + count) old),
        length-take (row * w + column) old,
        length-replicate {A = ℕ} count 0,
        length-drop (row * w + column + count) old,
      ),
      λ x y hx hy.
          get-memset (row * w + column) 0 count old (y * w + x) fits
          ∙ ap (λ (b : Bool). if b then some 0 else get_elem? old (y * w + x))
              (row_of w x y column row count hx hc),
    )
