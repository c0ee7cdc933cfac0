-- ===== src/Text.antt =====
-- Texts as lists of code points, and the methods of Python's `str` that the program calls on
-- them. White space is Unicode's; letter case is that of ASCII, as the tables, keywords and patterns
-- of the program are.
pub mod Unicode
pub mod Regex
pub mod Pieces
use Prim.Native.Char.{code}
use cognitive_rag_system.Prelude.{
  ℕ, ◌+◌, ◌-◌, Bool, true, false, ◌&&◌, ◌||◌, not, String, List, [], ◌∷◌, ◌++◌, map, leb, nat_eq,
  any, if◌then◌else◌, ◌≡◌, refl, arith,
}
use mathlib.Core.List.{reverse}
use cognitive_rag_system.Text.Unicode.{in_ranges, wide_spaces, wide_digits, wide_words}

abbrev pub Text : Type 0
Text = List ℕ

-- The code points of a literal.
abbrev pub codes : String → Text
codes String.[] = []
codes (String.◌∷◌ c s) = code c ∷ codes s

-- A class of characters from its part in ASCII and the ranges beyond it. The flag says that the
-- code point is in ASCII.
abbrev pub in_class : (ascii : Bool) → Bool → List ℕ → ℕ → Bool
in_class true here ranges c = here
in_class false here ranges c = in_ranges ranges c

-- `str.isspace` and `\s` for a character
unfoldable pub is_space : ℕ → Bool
unfolding wide_spaces
is_space c = in_class (leb c 127) (leb 9 c && leb c 13 || leb 28 c && leb c 32) wide_spaces c

-- `\d`
unfoldable pub is_digit : ℕ → Bool
unfolding wide_digits
is_digit c = in_class (leb c 127) (leb b'0' c && leb c b'9') wide_digits c

-- `[A-Za-z0-9_]`
unfoldable pub is_ascii_word : ℕ → Bool
is_ascii_word c =
    leb b'a' c && leb c b'z'
    || leb b'A' c && leb c b'Z'
    || leb b'0' c && leb c b'9'
    || nat_eq c b'_'

-- `\w`
unfoldable pub is_word : ℕ → Bool
unfolding is_ascii_word wide_words
is_word c = in_class (leb c 127) (is_ascii_word c) wide_words c

unfoldable pub lower_code : ℕ → ℕ
lower_code c = if leb b'A' c && leb c b'Z' then c + 32 else c

unfoldable pub upper_code : ℕ → ℕ
upper_code c = if leb b'a' c && leb c b'z' then c - 32 else c

-- `s.lower()`, `s.upper()`
unfoldable pub lower : Text → Text
unfolding lower_code
lower s = map lower_code s

unfoldable pub upper : Text → Text
unfolding upper_code
upper s = map upper_code s

-- `s.lstrip(chars)` for the characters that `p` holds of
unfoldable pub lstrip_by : (ℕ → Bool) → Text → Text
lstrip_by p [] = []
lstrip_by p (c ∷ s) = if p c then lstrip_by p s else c ∷ s

unfoldable pub rstrip_by : (ℕ → Bool) → Text → Text
unfolding lstrip_by
rstrip_by p s = reverse (lstrip_by p (reverse s))

-- `s.strip()`
unfoldable pub strip : Text → Text
unfolding lstrip_by rstrip_by is_space
strip s = rstrip_by is_space (lstrip_by is_space s)

-- `s == t`
unfoldable pub text_eq : Text → Text → Bool
text_eq [] [] = true
text_eq (c ∷ s) (d ∷ t) = nat_eq c d && text_eq s t
text_eq _ _ = false

-- `s in ts`
unfoldable pub text_in : Text → List Text → Bool
unfolding text_eq
text_in s ts = any (text_eq s) ts

-- `not s`
abbrev pub is_empty : Text → Bool
is_empty [] = true
is_empty (c ∷ s) = false

-- `s.startswith(t)`
unfoldable pub starts_with : Text → Text → Bool
starts_with s [] = true
starts_with [] (d ∷ t) = false
starts_with (c ∷ s) (d ∷ t) = nat_eq c d && starts_with s t

-- `t in s`
unfoldable pub contains : Text → Text → Bool
unfolding starts_with
contains [] t = is_empty t
contains (c ∷ s) t = starts_with (c ∷ s) t || contains s t

-- `sep.join(items)`
unfoldable pub join : Text → List Text → Text
join sep [] = []
join sep (item ∷ []) = item
join sep (item ∷ items) = item ++ (sep ++ join sep items)

abbrev pub prepend : ℕ → List Text → List Text
prepend c [] = (c ∷ []) ∷ []
prepend c (item ∷ items) = (c ∷ item) ∷ items

-- `s.split(sep)` for a separator of one character
unfoldable pub split_on : ℕ → Text → List Text
split_on sep [] = [] ∷ []
split_on sep (c ∷ s) =
    let rest = split_on sep s in if nat_eq c sep then [] ∷ rest else prepend c rest

-- `re.sub(r"\s+", " ", s)`: each run of white space becomes one blank. The flag says that the
-- character before was white space.
unfoldable pub collapse_from : Bool → Text → Text
unfolding is_space
collapse_from inside [] = []
collapse_from inside (c ∷ s) =
    let rest = collapse_from (is_space c) s in
    if is_space c then (if inside then rest else b' ' ∷ rest) else c ∷ rest

unfoldable pub collapse_spaces : Text → Text
unfolding collapse_from
collapse_spaces s = collapse_from false s

pub text_eq_refl : (s : Text) → text_eq s s ≡ true
unfolding text_eq
text_eq_refl [] = refl
text_eq_refl (c ∷ s) = ground (arith, text_eq_refl s)

pub text_eq_sound : (s t : Text) → text_eq s t ≡ true → s ≡ t
unfolding text_eq
text_eq_sound [] [] h = refl
text_eq_sound [] (d ∷ t) h = cc
text_eq_sound (c ∷ s) [] h = cc
text_eq_sound (c ∷ s) (d ∷ t) h = ground (arith, text_eq_sound s t)
