-- ===== src/Protocol/Json/Laws.antt =====
-- What a member reads as, after a list of assignments to a fresh value.
use rin_windows.Base.{
  Str, str_eq, ℤ, IsInt, IsInt64, true, false, ◌||◌, Option, none, some, List, [], ◌∷◌, ◌++◌, ◌≡◌,
  refl, ◌∙◌, ok, arith, if◌then◌else◌,
}
use rin_windows.Protocol.Json.{
  JsonLib, JsonLaws, at, at_text, at_int64, at_int, value, value_text, value_int64, value_int,
  optional_text, assign, when_some,
}

module _ (J : JsonLib) where
  open J use {Json, is_utf8, is_clean}

  -- The last value that a list of assignments gives to `k`.
  abbrev pub assigned : Option Json → List (Str × Json) → Str → Option Json
  assigned acc [] k = acc
  assigned acc ((i, v) ∷ fields) k = assigned (if str_eq i k then some v else acc) fields k

  -- Keys and values that can be dumped.
  abbrev pub AreClean : List (Str × Json) → Type 0
  AreClean [] = Unit
  AreClean ((k, v) ∷ fields) = (is_utf8 k ≡ true) × (is_clean v ≡ true) × AreClean fields

  -- A text is absent, or can be dumped.
  abbrev pub IsOptionalUtf8 : Option Str → Type 0
  IsOptionalUtf8 none = Unit
  IsOptionalUtf8 (some s) = is_utf8 s ≡ true

module _ (J : JsonLib) (L : JsonLaws J) where
  open J use {Json, fresh, text, number, put, find, is_object, is_null, is_utf8, is_clean}

  abbrev IsWritable : Json → Type 0
  IsWritable j = (is_null j || is_object j) ≡ true

  put-IsWritable : (j : Json) (k : Str) (v : Json) → IsWritable j → IsWritable (put j k v)
  put-IsWritable j k v h = ground (arith, L.object-put j k v)

  find-assign_from :
      (fields : List (Str × Json)) (j : Json) (k : Str)
      → IsWritable j
      → find (assign J j fields) k ≡ assigned J (find j k) fields k
  unfolding assign
  find-assign_from [] j k w = refl
  find-assign_from ((i, v) ∷ fields) j k w =
      find-assign_from fields (put j i v) k (put-IsWritable j i v w)
      ∙ (λ n. assigned J (L.find-put j i k v w n) fields k)

  pub find-assign :
      (fields : List (Str × Json)) (k : Str)
      → find (assign J fresh fields) k ≡ assigned J none fields k
  find-assign fields k =
      find-assign_from fields fresh k (ground (arith, L.null-fresh))
      ∙ (λ n. assigned J (L.find-fresh k n) fields k)

  object-assign_from :
      (fields : List (Str × Json)) (j : Json)
      → is_object j ≡ true
      → is_object (assign J j fields) ≡ true
  unfolding assign
  object-assign_from [] j h = h
  object-assign_from ((i, v) ∷ fields) j h =
      object-assign_from fields (put j i v) (L.object-put j i v (ground arith))

  pub object-assign :
      (i : Str) (v : Json) (fields : List (Str × Json))
      → is_object (assign J fresh ((i, v) ∷ fields)) ≡ true
  unfolding assign
  object-assign i v fields =
      object-assign_from fields (put fresh i v)
        (L.object-put fresh i v (ground (arith, L.null-fresh)))

  clean-assign_from :
      (fields : List (Str × Json)) (j : Json)
      → is_clean j ≡ true
      → AreClean J fields
      → is_clean (assign J j fields) ≡ true
  unfolding assign
  clean-assign_from [] j h c = h
  clean-assign_from ((i, v) ∷ fields) j h (key, val, c) =
      clean-assign_from fields (put j i v) (L.clean-put j i v key val h) c

  pub clean-assign :
      (fields : List (Str × Json)) → AreClean J fields → is_clean (assign J fresh fields) ≡ true
  clean-assign fields c = clean-assign_from fields fresh L.clean-fresh c

  module _ (j : Json) (k : Str) (obj : is_object j ≡ true) where
    pub at_text_found : (s : Str) → find j k ≡ some (text s) → at_text J j k ≡ ok s
    unfolding at_text at
    at_text_found s h = rw (obj, h, L.get_text-text s)

    pub at_int64_found : (z : ℤ) → IsInt64 z → find j k ≡ some (number z) → at_int64 J j k ≡ ok z
    unfolding at_int64 at
    at_int64_found z w h = rw (obj, h, L.get_int64-number z w)

    pub at_int_found : (z : ℤ) → IsInt z → find j k ≡ some (number z) → at_int J j k ≡ ok z
    unfolding at_int at
    at_int_found z w h = rw (obj, h, L.get_int-number z w)

    pub value_text_found : (d s : Str) → find j k ≡ some (text s) → value_text J j k d ≡ ok s
    unfolding value_text
    value_text_found d s h = rw (obj, h, value) (rw (L.get_text-text s))

    pub value_int64_found :
        (d z : ℤ) → IsInt64 z → find j k ≡ some (number z) → value_int64 J j k d ≡ ok z
    unfolding value_int64
    value_int64_found d z w h = rw (obj, h, value) (rw (L.get_int64-number z w))

    pub value_int_found :
        (d z : ℤ) → IsInt z → find j k ≡ some (number z) → value_int J j k d ≡ ok z
    unfolding value_int
    value_int_found d z w h = rw (obj, h, value) (rw (L.get_int-number z w))

  pub optional_text_found :
      (j : Json) (k : Str) (o : Option Str)
      → find j k ≡ assigned J none (when_some J k o) k
      → str_eq k k ≡ true
      → optional_text J j k ≡ ok o
  unfolding optional_text when_some
  optional_text_found j k none h e = rw (h, optional_text)
  optional_text_found j k (some s) h e =
      let found : find j k ≡ some (text s) = h ∙ rw e in
      rw (found, optional_text) (rw (L.null-text s, L.get_text-text s))

  -- An optional member keeps a list of clean members clean.
  pub when_some-AreClean :
      (k : Str) (o : Option Str) (fields : List (Str × Json))
      → is_utf8 k ≡ true
      → IsOptionalUtf8 J o
      → AreClean J fields
      → AreClean J (when_some J k o ++ fields)
  unfolding when_some
  when_some-AreClean k none fields key h c = c
  when_some-AreClean k (some s) fields key h c = (key, L.clean-text s h, c)

  -- An optional member does not touch the others.
  pub assigned-when_some :
      (acc : Option Json) (i k : Str) (o : Option Str) (fields : List (Str × Json))
      → str_eq i k ≡ false
      → assigned J acc (when_some J i o ++ fields) k ≡ assigned J acc fields k
  unfolding when_some
  assigned-when_some acc i k none fields h = refl
  assigned-when_some acc i k (some s) fields h = rw h

  pub assigned-when_some_last :
      (acc : Option Json) (i k : Str) (o : Option Str)
      → str_eq i k ≡ false
      → assigned J acc (when_some J i o) k ≡ acc
  unfolding when_some
  assigned-when_some_last acc i k none h = refl
  assigned-when_some_last acc i k (some s) h = rw h
