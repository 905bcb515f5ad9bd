-- ===== src/Protocol/Json.antt =====
-- nlohmann::json as the program uses it: a parameter, with the laws of its documentation. The three
-- ways to read a member (`at`, `value`, `contains` with `is_null`) are written over its lookup.
pub mod Laws
use rin_windows.Base.{
  ℕ, ◌<◌, Str, str_eq, ℤ, IsInt, IsInt64, Bool, true, false, ◌||◌, ◌&&◌, not, ltb, leb, ◌==◌, ◌++◌,
  Option, none, some, List, [], ◌∷◌, ◌≡◌, refl, Result, ok, err, or_throw, json_exception, ◌>>=◌,
  All, arith, if◌then◌else◌,
}

pub record JsonLib : Type 1 where
  pub Json : Type 0
  -- `json j;`
  pub fresh : Json
  pub text : Str → Json
  pub number : ℤ → Json
  -- `j[key] = v`
  pub put : Json → Str → Json → Json
  pub find : Json → Str → Option Json
  pub is_object : Json → Bool
  pub is_null : Json → Bool
  -- `get<std::string>()`, `get<int64_t>()`, `get<int>()`; `none` is a thrown type_error
  pub get_text : Json → Option Str
  pub get_int64 : Json → Option ℤ
  pub get_int : Json → Option ℤ
  -- `none` is a thrown type_error, for a text that is not UTF-8
  pub dump : Json → Option Str
  -- `none` is a thrown parse_error
  pub parse : Str → Option Json
  pub is_utf8 : Str → Bool
  -- every text inside is UTF-8
  pub is_clean : Json → Bool

-- A printable character that a JSON string holds as it is.
unfoldable pub is_plain : ℕ → Bool
is_plain c = leb 32 c && (ltb c 128 && not (c == b'"' || c == 92))

abbrev pub AllPlain : Str → Type 0
AllPlain = All (λ (c : ℕ). is_plain c ≡ true)

-- An object of two texts: {"k":"v","i":"u"}
abbrev pub object_text : Str → Str → Str → Str → Str
object_text k v i u =
    123
    ∷ 34
    ∷ (k ++ (34 ∷ 58 ∷ 34 ∷ (v ++ (34 ∷ 44 ∷ 34 ∷ (i ++ (34 ∷ 58 ∷ 34 ∷ (u ++ 34 ∷ 125 ∷ [])))))))

pub record JsonLaws (J : JsonLib) : Type 0 where
  pub null-fresh : J.is_null J.fresh ≡ true
  pub null-text : (s : Str) → J.is_null (J.text s) ≡ false
  pub null-number : (z : ℤ) → J.is_null (J.number z) ≡ false
  pub find-fresh : (k : Str) → J.find J.fresh k ≡ none
  pub object-put :
      (j : J.Json) (k : Str) (v : J.Json)
      → (J.is_null j || J.is_object j) ≡ true
      → J.is_object (J.put j k v) ≡ true
  pub find-put :
      (j : J.Json) (k i : Str) (v : J.Json)
      → (J.is_null j || J.is_object j) ≡ true
      → J.find (J.put j k v) i ≡ (if str_eq k i then some v else J.find j i)
  pub get_text-text : (s : Str) → J.get_text (J.text s) ≡ some s
  pub get_int64-number : (z : ℤ) → IsInt64 z → J.get_int64 (J.number z) ≡ some z
  pub get_int-number : (z : ℤ) → IsInt z → J.get_int (J.number z) ≡ some z
  pub parse-dump : (j : J.Json) (s : Str) → J.dump j ≡ some s → J.parse s ≡ some j
  pub parse-object_text :
      (k v i u : Str)
      → AllPlain k
      → AllPlain v
      → AllPlain i
      → AllPlain u
      → J.parse (object_text k v i u) ≡ some (J.put (J.put J.fresh k (J.text v)) i (J.text u))
  pub parse-empty : J.parse [] ≡ none
  pub dump-clean : (j : J.Json) → J.is_clean j ≡ true → (s : Str) × (J.dump j ≡ some s)
  pub clean-fresh : J.is_clean J.fresh ≡ true
  pub clean-text : (s : Str) → J.is_utf8 s ≡ true → J.is_clean (J.text s) ≡ true
  pub clean-number : (z : ℤ) → J.is_clean (J.number z) ≡ true
  pub clean-put :
      (j : J.Json) (k : Str) (v : J.Json)
      → J.is_utf8 k ≡ true
      → J.is_clean v ≡ true
      → J.is_clean j ≡ true
      → J.is_clean (J.put j k v) ≡ true
  pub utf8-ascii : (s : Str) → All (λ (c : ℕ). c < 128) s → J.is_utf8 s ≡ true

module _ (J : JsonLib) where
  open J use {Json, fresh, text, put, find, is_object, is_null, get_text, get_int64, get_int}

  -- j.at(k)
  unfoldable pub at : Json → Str → Result Json
  at j k = or_throw (if is_object j then find j k else none) json_exception

  -- j.at(k).get<...>()
  unfoldable pub at_text : Json → Str → Result Str
  at_text j k = at j k >>= λ v. or_throw (get_text v) json_exception

  unfoldable pub at_int64 : Json → Str → Result ℤ
  at_int64 j k = at j k >>= λ v. or_throw (get_int64 v) json_exception

  unfoldable pub at_int : Json → Str → Result ℤ
  at_int j k = at j k >>= λ v. or_throw (get_int v) json_exception

  -- j.value(k, d), which throws when `j` is no object or the member has another type
  value {ℓ} : {A : Type ℓ} → (Json → Option A) → Json → Str → A → Result A
  value get j k d =
      if is_object j
      then (elim (find j k) [ none ↦ ok d | some v ↦ or_throw (get v) json_exception ])
      else err json_exception

  unfoldable pub value_text : Json → Str → Str → Result Str
  unfolding value
  value_text = value get_text

  unfoldable pub value_int64 : Json → Str → ℤ → Result ℤ
  unfolding value
  value_int64 = value get_int64

  unfoldable pub value_int : Json → Str → ℤ → Result ℤ
  unfolding value
  value_int = value get_int

  -- `if (j.contains(k) && !j[k].is_null()) x = j[k].get<std::string>();`
  unfoldable pub optional_text : Json → Str → Result (Option Str)
  optional_text j k = elim (find j k) [
    | none ↦ ok none
    | some v ↦
        if is_null v then ok none else (or_throw (get_text v) json_exception >>= λ s. ok (some s))
  ]

  -- The assignments `j[k] = v` of a list, in order.
  unfoldable pub assign : Json → List (Str × Json) → Json
  assign j [] = j
  assign j ((k, v) ∷ fields) = assign (put j k v) fields

  -- `if (x.has_value()) j[k] = *x;`
  unfoldable pub when_some : Str → Option Str → List (Str × Json)
  when_some k none = []
  when_some k (some s) = (k, text s) ∷ []
