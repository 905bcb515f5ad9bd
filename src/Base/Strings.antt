-- ===== src/Base/Strings.antt =====
-- `std::string` as the list of its bytes, with the member functions that the program calls.
use Prim.Native.Char.{code}
use Prim.Native.Nat.{ℕ, zero, suc, ◌+◌, ◌/◌, ◌%◌}
use Prim.Native.String.{String}
use mathlib.Core.Path.{◌≡◌, refl, ap}
use mathlib.Core.Logic.{◌↔◌, ◌≢◌}
use mathlib.Core.Bool.{Bool, true, false, ◌&&◌, ◌||◌}
use mathlib.Core.List.{List, [], ◌∷◌, ◌++◌}
use native.Mathlib.Omega.{arith}
use rin_windows.Base.Tests.{ltb, leb, ◌==◌, if◌then◌else◌}
use rin_windows.Base.Lists.{take, drop}
use rin_windows.Base.Integers.{ℤ, pos, negsuc}

abbrev pub Str : Type 0
Str = List ℕ

-- A literal of the source (they are all ASCII).
unfoldable pub lit : String → Str
lit String.[] = []
lit (String.◌∷◌ c s) = code c ∷ lit s

unfoldable pub str_eq : Str → Str → Bool
str_eq [] [] = true
str_eq [] (b ∷ t) = false
str_eq (a ∷ s) [] = false
str_eq (a ∷ s) (b ∷ t) = (a == b) && str_eq s t

pub str_eq_sound : (s t : Str) → str_eq s t ≡ true → s ≡ t
unfolding str_eq
str_eq_sound [] [] h = refl
str_eq_sound [] (b ∷ t) h = cc
str_eq_sound (a ∷ s) [] h = cc
str_eq_sound (a ∷ s) (b ∷ t) h = ground (arith, str_eq_sound s t)

pub str_eq_self : (s : Str) → str_eq s s ≡ true
unfolding str_eq
str_eq_self [] = refl
str_eq_self (a ∷ s) = ground (arith, str_eq_self s)

pub str_eq_iff : (s t : Str) → (str_eq s t ≡ true) ↔ (s ≡ t)
str_eq_iff s t = (str_eq_sound s t, λ e. cc (str_eq_self t, ap (λ (u : Str). str_eq u t) e))

pub str_eq_ne : (s t : Str) → s ≢ t → str_eq s t ≡ false
str_eq_ne s t h = ground (arith, str_eq_iff s t)

abbrev pub is_empty : Str → Bool
is_empty [] = true
is_empty (a ∷ s) = false

-- s.substr(pos, n), for pos ≤ s.size()
abbrev pub substr : Str → ℕ → ℕ → Str
substr s i n = take n (drop i s)

-- s.rfind(prefix, 0) == 0
unfoldable pub starts_with : Str → Str → Bool
starts_with s [] = true
starts_with [] (p ∷ ps) = false
starts_with (c ∷ s) (p ∷ ps) = (c == p) && starts_with s ps

-- s.find(t) != npos
unfoldable pub contains : Str → Str → Bool
unfolding starts_with
contains [] t = starts_with [] t
contains (c ∷ s) t = starts_with (c ∷ s) t || contains s t

-- tolower, in the "C" locale
unfoldable pub to_lower : ℕ → ℕ
to_lower c = if leb b'A' c && leb c b'Z' then c + 32 else c

-- The decimal digits of a number. A number has at most as many as its value and one.
decimal : ℕ → ℕ → Str → Str
decimal zero n rest = rest
decimal (suc fuel) n rest =
    let digit = b'0' + n % 10 in
    let more = decimal fuel (n / 10) (digit ∷ rest) in if ltb n 10 then digit ∷ rest else more

-- std::to_string
unfoldable pub to_string : ℤ → Str
unfolding decimal
to_string (pos n) = decimal (n + 1) n []
to_string (negsuc n) = b'-' ∷ decimal (n + 2) (n + 1) []

pub starts_with-append : (p s : Str) → starts_with (p ++ s) p ≡ true
unfolding starts_with
starts_with-append [] [] = refl
starts_with-append [] (c ∷ s) = refl
starts_with-append (c ∷ p) s = ground (arith, starts_with-append p s)

to_string_test : (to_string (pos 1205) ≡ lit "1205") × (to_string (negsuc 9) ≡ lit "-10")
unfolding to_string lit
to_string_test = (refl, refl)
