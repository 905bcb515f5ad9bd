-- ===== src/Samples/JsonTree.antt =====
-- A JSON library that satisfies the laws of the model: trees, and a prefix code for them.
use rin_windows.Base.{
  ℕ, suc, zero, ◌<◌, ◌≤◌, max, Str, str_eq, ℤ, pos, negsuc, Bool, true, false, ◌&&◌, ◌==◌,
  starts_with, Option, none, some, [], ◌∷◌, ◌++◌, ◌≡◌, refl, sym, ap, subst, ◌∙◌, length,
  length-append, take, drop, take-append_left, drop-append_left, append_assoc, append-nil, All, ltb,
  arith, Bool-cases, inl, inr, if◌then◌else◌,
}
use rin_windows.Protocol.Json.{JsonLib, JsonLaws, is_plain, AllPlain, object_text}

pub data Tree : Type 0 where
  null : Tree
  leaf : Str → Tree
  num : ℤ → Tree
  entry : Str → Tree → Tree → Tree

find : Tree → Str → Option Tree
find (entry k v rest) i = if str_eq k i then some v else find rest i
find null i = none
find (leaf s) i = none
find (num z) i = none

abbrev is_entry : Tree → Bool
is_entry (entry k v rest) = true
is_entry _ = false

abbrev is_nil : Tree → Bool
is_nil null = true
is_nil _ = false

abbrev text_of : Tree → Option Str
text_of (leaf s) = some s
text_of _ = none

abbrev number_of : Tree → Option ℤ
number_of (num z) = some z
number_of _ = none

abbrev is_ascii : Str → Bool
is_ascii [] = true
is_ascii (c ∷ s) = ltb c 128 && is_ascii s

abbrev clean : Tree → Bool
clean null = true
clean (leaf s) = is_ascii s
clean (num z) = true
clean (entry k v rest) = is_ascii k && (clean v && clean rest)

encode : Tree → Str
encode null = 0 ∷ []
encode (leaf s) = 1 ∷ length s ∷ s
encode (num (pos n)) = 2 ∷ n ∷ []
encode (num (negsuc n)) = 3 ∷ n ∷ []
encode (entry k v rest) = 4 ∷ length k ∷ (k ++ (encode v ++ encode rest))

abbrev joined : Str → Tree → Option (Tree × Str) → Option (Tree × Str)
joined k v none = none
joined k v (some (rest, s)) = some (entry k v rest, s)

abbrev then_rest : (Str → Option (Tree × Str)) → Str → Option (Tree × Str) → Option (Tree × Str)
then_rest read k none = none
then_rest read k (some (v, s)) = joined k v (read s)

decode : ℕ → Str → Option (Tree × Str)
decode zero s = none
decode (suc fuel) [] = none
decode (suc fuel) (zero ∷ s) = some (null, s)
decode (suc fuel) (suc t ∷ []) = none
decode (suc fuel) (suc zero ∷ n ∷ s) = some (leaf (take n s), drop n s)
decode (suc fuel) (suc (suc zero) ∷ n ∷ s) = some (num (pos n), s)
decode (suc fuel) (suc (suc (suc zero)) ∷ n ∷ s) = some (num (negsuc n), s)
decode (suc fuel) (suc (suc (suc (suc t))) ∷ n ∷ s) =
    then_rest (decode fuel) (take n s) (decode fuel (drop n s))

abbrev height : Tree → ℕ
height (entry k v rest) = suc (max (height v) (height rest))
height _ = 1

decode-encode :
    (j : Tree) (fuel : ℕ) (rest : Str)
    → height j ≤ fuel
    → decode fuel (encode j ++ rest) ≡ some (j, rest)
unfolding encode decode
decode-encode null zero rest h = absurd (omega arith)
decode-encode (leaf s) zero rest h = absurd (omega arith)
decode-encode (num z) zero rest h = absurd (omega arith)
decode-encode (entry k v r) zero rest h = absurd (omega arith)
decode-encode null (suc fuel) rest h = refl
decode-encode (leaf s) (suc fuel) rest h = rw (take-append_left s rest, drop-append_left s rest)
decode-encode (num (pos n)) (suc fuel) rest h = refl
decode-encode (num (negsuc n)) (suc fuel) rest h = refl
decode-encode (entry k v r) (suc fuel) rest h = rw (
  append_assoc k (encode v ++ encode r) rest,
  append_assoc (encode v) (encode r) rest,
  take-append_left k (encode v ++ (encode r ++ rest)),
  drop-append_left k (encode v ++ (encode r ++ rest)),
  decode-encode v fuel (encode r ++ rest) (omega arith),
  decode-encode r fuel rest (omega arith),
)

height_le : (j : Tree) → height j ≤ length (encode j)
unfolding encode
height_le null = omega arith
height_le (leaf s) = omega arith
height_le (num (pos n)) = omega arith
height_le (num (negsuc n)) = omega arith
height_le (entry k v r) = omega (
  arith,
  length-append k (encode v ++ encode r),
  length-append (encode v) (encode r),
  height_le v,
  height_le r,
)

abbrev whole : Option (Tree × Str) → Option Tree
whole none = none
whole (some (j, [])) = some j
whole (some (j, c ∷ s)) = none

-- A string up to its quote, and what follows the quote.
until_quote : Str → Str
until_quote [] = []
until_quote (c ∷ s) = let rest = until_quote s in if c == 34 then [] else c ∷ rest

after_quote : Str → Str
after_quote [] = []
after_quote (c ∷ s) = let rest = after_quote s in if c == 34 then s else rest

-- Two members, from the first key on.
two_texts : Str → Tree
two_texts s =
    let v = drop 2 (after_quote s) in
    let i = drop 2 (after_quote v) in
    let u = drop 2 (after_quote i) in
    entry (until_quote i) (leaf (until_quote u)) (entry (until_quote s) (leaf (until_quote v)) null)

-- The code, or an object of two texts.
parse : Str → Option Tree
unfolding two_texts
parse s =
    if starts_with s (123 ∷ 34 ∷ [])
    then some (two_texts (drop 2 s))
    else whole (decode (length s) s)

until_quote_lem : (s rest : Str) → AllPlain s → until_quote (s ++ 34 ∷ rest) ≡ s
unfolding until_quote is_plain
until_quote_lem [] rest p = refl
until_quote_lem (c ∷ s) rest (h, p) = rw (until_quote_lem s rest p) (ground (arith, h))

after_quote_lem : (s rest : Str) → AllPlain s → after_quote (s ++ 34 ∷ rest) ≡ rest
unfolding after_quote is_plain
after_quote_lem [] rest p = refl
after_quote_lem (c ∷ s) rest (h, p) = rw (after_quote_lem s rest p) (ground (arith, h))

parse-object_text :
    (k v i u : Str)
    → AllPlain k
    → AllPlain v
    → AllPlain i
    → AllPlain u
    → parse (object_text k v i u) ≡ some (entry i (leaf u) (entry k (leaf v) null))
unfolding parse two_texts starts_with
parse-object_text k v i u pk pv pi pu =
    let su = 34 ∷ 125 ∷ [] in
    let si = 34 ∷ 58 ∷ 34 ∷ (u ++ su) in
    let sv = 34 ∷ 44 ∷ 34 ∷ (i ++ si) in
    let sk = 34 ∷ 58 ∷ 34 ∷ (v ++ sv) in
    rw
      (
        until_quote_lem k (58 ∷ 34 ∷ (v ++ sv)) pk,
        after_quote_lem k (58 ∷ 34 ∷ (v ++ sv)) pk,
        until_quote_lem v (44 ∷ 34 ∷ (i ++ si)) pv,
        after_quote_lem v (44 ∷ 34 ∷ (i ++ si)) pv,
        until_quote_lem i (58 ∷ 34 ∷ (u ++ su)) pi,
        after_quote_lem i (58 ∷ 34 ∷ (u ++ su)) pi,
        until_quote_lem u (125 ∷ []) pu,
      )
      refl

starts-encode : (j : Tree) → starts_with (encode j) (123 ∷ 34 ∷ []) ≡ false
unfolding encode starts_with
starts-encode null = refl
starts-encode (leaf s) = refl
starts-encode (num (pos n)) = refl
starts-encode (num (negsuc n)) = refl
starts-encode (entry k v r) = refl

parse-encode : (j : Tree) → parse (encode j) ≡ some j
unfolding parse
parse-encode j = rw (starts-encode j) (
    ap whole (
      ap (decode (length (encode j))) (sym (append-nil (encode j)))
      ∙ decode-encode j (length (encode j)) [] (height_le j)))

dump : Tree → Option Str
dump j = if clean j then some (encode j) else none

parse-dump : (j : Tree) (s : Str) → dump j ≡ some s → parse s ≡ some j
unfolding dump
parse-dump j s h = elim (Bool-cases (clean j)) [
  | inl e ↦ subst (λ (t : Str). parse t ≡ some j) (ground (arith, h, e)) (parse-encode j)
  | inr e ↦ absurd (ground (arith, h, e))
]

dump-clean : (j : Tree) → clean j ≡ true → (s : Str) × (dump j ≡ some s)
unfolding dump
dump-clean j h = (encode j, rw h)

is_ascii_lem : (s : Str) → All (λ (c : ℕ). c < 128) s → is_ascii s ≡ true
is_ascii_lem [] h = refl
is_ascii_lem (c ∷ s) (h, t) = ground (arith, is_ascii_lem s t)

unfoldable pub json : JsonLib
unfolding dump parse two_texts starts_with until_quote after_quote find encode decode
json = record {
  Json = Tree;
  fresh = null;
  text = leaf;
  number = num;
  put = λ j k v. entry k v j;
  find = find;
  is_object = is_entry;
  is_null = is_nil;
  get_text = text_of;
  get_int64 = number_of;
  get_int = number_of;
  dump = dump;
  parse = parse;
  is_utf8 = is_ascii;
  is_clean = clean;
}

pub json_laws : JsonLaws json
unfolding json starts_with
json_laws = record {
  null-fresh = refl;
  null-text = λ s. refl;
  null-number = λ z. refl;
  find-fresh = λ k. refl;
  object-put = λ j k v h. refl;
  find-put = λ j k i v h. refl;
  get_text-text = λ s. refl;
  get_int64-number = λ z h. refl;
  get_int-number = λ z h. refl;
  parse-dump = parse-dump;
  parse-object_text = parse-object_text;
  parse-empty = refl;
  dump-clean = dump-clean;
  clean-fresh = refl;
  clean-text = λ s h. h;
  clean-number = λ z. refl;
  clean-put = λ j k v h g i. rw (h, g, i);
  utf8-ascii = is_ascii_lem;
}
