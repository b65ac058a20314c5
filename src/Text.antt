-- ===== src/Text.antt =====
-- Go strings as lists of code points, with the functions of package `strings` that the program
-- calls. (Where Go walks bytes, the characters looked for are ASCII, so code points serve.)
pub mod Laws
use Prim.Native.Char.{code}
use Prim.Native.String
use cronbat.Prelude.{
  ℕ, ◌+◌, ◌-◌, String, Bool, true, false, ◌&&◌, ◌||◌, List, [], ◌∷◌, ◌++◌, leb, ◌==◌, if◌then◌else◌,
}

abbrev pub Text : Type 0
Text = List ℕ

-- A literal of the source.
abbrev pub codes : String → Text
codes String.[] = []
codes (String.◌∷◌ c s) = code c ∷ codes s

abbrev pub is_empty {ℓ} : {A : Type ℓ} → List A → Bool
is_empty [] = true
is_empty (x ∷ xs) = false

unfoldable pub text_eq : Text → Text → Bool
text_eq [] [] = true
text_eq [] (y ∷ ys) = false
text_eq (x ∷ xs) [] = false
text_eq (x ∷ xs) (y ∷ ys) = x == y && text_eq xs ys

-- unicode.IsSpace
unfoldable pub is_space : ℕ → Bool
is_space c =
    (leb 9 c && leb c 13)
    || c == 32
    || c == 0x85
    || c == 0xA0
    || c == 0x1680
    || (leb 0x2000 c && leb c 0x200a)
    || c == 0x2028
    || c == 0x2029
    || c == 0x202f
    || c == 0x205f
    || c == 0x3000

-- strings.TrimLeftFunc, strings.TrimRightFunc
unfoldable pub trim_left : (ℕ → Bool) → Text → Text
trim_left p [] = []
trim_left p (x ∷ xs) = if p x then trim_left p xs else x ∷ xs

unfoldable pub trim_right : (ℕ → Bool) → Text → Text
trim_right p [] = []
trim_right p (x ∷ xs) = let rest = trim_right p xs in if is_empty rest && p x then [] else x ∷ rest

-- strings.Trim by a set of characters
unfoldable pub trim : (ℕ → Bool) → Text → Text
unfolding trim_left trim_right
trim p s = trim_right p (trim_left p s)

-- strings.TrimSpace
unfoldable pub trim_space : Text → Text
unfolding trim is_space
trim_space s = trim is_space s

unfoldable pub has_prefix : Text → Text → Bool
has_prefix s [] = true
has_prefix [] (y ∷ ys) = false
has_prefix (x ∷ xs) (y ∷ ys) = x == y && has_prefix xs ys

unfoldable pub has_suffix : Text → Text → Bool
unfolding text_eq
has_suffix [] suffix = text_eq [] suffix
has_suffix (x ∷ xs) suffix = text_eq (x ∷ xs) suffix || has_suffix xs suffix

-- strings.Contains
unfoldable pub contains : Text → Text → Bool
unfolding has_prefix
contains [] sub = has_prefix [] sub
contains (x ∷ xs) sub = has_prefix (x ∷ xs) sub || contains xs sub

-- strings.ToLower on ASCII. Beyond it Go has two letters with an ASCII one as their lower case, the
-- Kelvin sign and the dotted I; other letters stay apart from all that the callers look for.
unfoldable pub to_lower : Text → Text
to_lower [] = []
to_lower (x ∷ xs) = (if leb 65 x && leb x 90 then x + 32 else x) ∷ to_lower xs

-- strings.Split and strings.Join by one character
abbrev pub add_to_first : ℕ → List Text → List Text
add_to_first x [] = (x ∷ []) ∷ []
add_to_first x (l ∷ ls) = (x ∷ l) ∷ ls

unfoldable pub split : ℕ → Text → List Text
split sep [] = [] ∷ []
split sep (x ∷ xs) = let rest = split sep xs in if x == sep then [] ∷ rest else add_to_first x rest

unfoldable pub join : ℕ → List Text → Text
join sep [] = []
join sep (l ∷ []) = l
join sep (l ∷ m ∷ ls) = l ++ (sep ∷ join sep (m ∷ ls))

abbrev pub drop_empty : List Text → List Text
drop_empty [] = []
drop_empty (l ∷ ls) = if is_empty l then drop_empty ls else l ∷ drop_empty ls

-- strings.Fields: the maximal runs of non-space characters
unfoldable pub words : Text → List Text
unfolding is_space
words [] = [] ∷ []
words (x ∷ xs) = let rest = words xs in if is_space x then [] ∷ rest else add_to_first x rest

unfoldable pub fields : Text → List Text
unfolding words
fields s = drop_empty (words s)

-- the letters, digits and punctuation of a safe name
unfoldable pub is_safe_char : ℕ → Bool
is_safe_char c =
    (leb b'a' c && leb c b'z')
    || (leb b'A' c && leb c b'Z')
    || (leb b'0' c && leb c b'9')
    || c == b'-'
    || c == b'_'
    || c == b'.'

-- How many bytes a code point takes in UTF-8
unfoldable pub utf8_length : ℕ → ℕ
utf8_length x = if leb x 127 then 1 else if leb x 2047 then 2 else if leb x 65535 then 3 else 4

-- `len` of a string
unfoldable pub byte_length : Text → ℕ
unfolding utf8_length
byte_length [] = 0
byte_length (x ∷ xs) = utf8_length x + byte_length xs

-- The characters that lie in the first `n` bytes
unfoldable pub take_bytes : ℕ → Text → Text
unfolding utf8_length
take_bytes n [] = []
take_bytes n (x ∷ xs) =
    let rest = take_bytes (n - utf8_length x) xs in if leb (utf8_length x) n then x ∷ rest else []
