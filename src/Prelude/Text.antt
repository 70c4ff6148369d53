-- ===== src/Prelude/Text.antt =====
-- Texts and bytes as lists of numbers, with the methods of `str` and `bytes` that the service
-- calls. Texts are ASCII: case and white space are those of the codes below 128.
use Prim.Native.Char.{code}
use mathlib.Core.Path.{ap₂}
use rdt_mail_service.Prelude.{
  ◌≡◌, refl, ℕ, suc, ◌+◌, ◌-◌, ◌≡◌, refl, Bool, true, false, ◌&&◌, ◌||◌, List, [], ◌∷◌, ◌++◌, map,
  Option, none, some, String, arith, leb, ltb, length, drop, ◌==◌, Eq, nat_eq, list_eq,
  if◌then◌else◌,
}

abbrev pub Text : Type 0
Text = List ℕ

abbrev pub is_empty : Text → Bool
is_empty [] = true
is_empty (c ∷ s) = false

instance unfoldable pub text_eq : Eq Text
text_eq = list_eq

abbrev pub codes : String → Text
codes String.[] = []
codes (String.◌∷◌ c s) = code c ∷ codes s

abbrev pub cr : ℕ
cr = 13

abbrev pub lf : ℕ
lf = 10

-- `str.isspace` of one character
unfoldable pub is_space : ℕ → Bool
is_space c = (leb 9 c && leb c 13) || (leb 28 c && leb c 32)

unfoldable pub lower_code : ℕ → ℕ
lower_code c = if leb b'A' c && leb c b'Z' then c + 32 else c

unfoldable pub upper_code : ℕ → ℕ
upper_code c = if leb b'a' c && leb c b'z' then c - 32 else c

-- `s.lower()`
unfoldable pub lower : Text → Text
lower = map lower_code

-- `s.upper()`
unfoldable pub upper : Text → Text
unfolding upper_code
upper = map upper_code

unfoldable pub lstrip : Text → Text
unfolding is_space
lstrip [] = []
lstrip (c ∷ s) = if is_space c then lstrip s else c ∷ s

-- White space at the end goes; `strip` is both.
unfoldable pub rstrip : Text → Text
unfolding is_space
rstrip [] = []
rstrip (c ∷ s) = elim (rstrip s) [ [] ↦ if is_space c then [] else c ∷ [] | x ∷ r ↦ c ∷ x ∷ r ]

unfoldable pub strip : Text → Text
unfolding lstrip rstrip
strip s = rstrip (lstrip s)

unfoldable pub starts_with : Text → Text → Bool
starts_with s [] = true
starts_with [] (p ∷ ps) = false
starts_with (c ∷ s) (p ∷ ps) = (c == p) && starts_with s ps

-- `s.endswith(suffix)`
unfoldable pub ends_with : Text → Text → Bool
unfolding text_eq
ends_with s suffix = drop (length s - length suffix) s == suffix

-- `sub in s`
unfoldable pub contains_sub : Text → Text → Bool
unfolding starts_with
contains_sub sub [] = is_empty sub
contains_sub sub (c ∷ s) = starts_with (c ∷ s) sub || contains_sub sub s

-- `s.find(sub)`; `none` is -1
unfoldable pub find : Text → Text → Option ℕ
unfolding starts_with
find sub [] = if is_empty sub then some 0 else none
find sub (c ∷ s) =
    let later : Option ℕ = elim (find sub s) [ none ↦ none | some i ↦ some (suc i) ] in
    if starts_with (c ∷ s) sub then some 0 else later

-- `s.split()`: the words between white space. `word` holds the current word, reversed order not
-- being needed since it grows at its end.
unfoldable pub split_words : Text → Text → List Text
unfolding is_space
split_words word [] = if is_empty word then [] else word ∷ []
split_words word (c ∷ s) =
    let next = split_words [] s in
    let longer = split_words (word ++ c ∷ []) s in
    if is_space c then (if is_empty word then next else word ∷ next) else longer

unfoldable pub split : Text → List Text
unfolding split_words
split = split_words []

-- `s.split("\r\n")`
unfoldable pub split_lines : Text → Text → List Text
split_lines line [] = line ∷ []
split_lines line (c ∷ []) = (line ++ c ∷ []) ∷ []
split_lines line (c ∷ d ∷ s) =
    let next = split_lines [] s in
    let longer = split_lines (line ++ c ∷ []) (d ∷ s) in
    if (c == cr) && (d == lf) then line ∷ next else longer

-- `b.decode("ascii", errors="ignore")`
unfoldable pub decode_ignore : Text → Text
decode_ignore [] = []
decode_ignore (c ∷ s) = let rest = decode_ignore s in if ltb c 128 then c ∷ rest else rest

lower_code_idem : (c : ℕ) → lower_code (lower_code c) ≡ lower_code c
unfolding lower_code
lower_code_idem c = ground arith

-- `s.lower().lower()` is `s.lower()`.
pub lower_idem : (s : Text) → lower (lower s) ≡ lower s
unfolding lower
lower_idem [] = refl
lower_idem (c ∷ s) = ap₂ (λ (x : ℕ) (y : Text). x ∷ y) (lower_code_idem c) (lower_idem s)
