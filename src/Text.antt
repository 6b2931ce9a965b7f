-- ===== src/Text.antt =====
-- The functions of Go's `strings` package that the program calls. A Go string or []byte is a
-- `String` with one character for each byte; white space and letter case are those of ASCII.
pub mod Laws
use Prim.Native.Nat.{compare, Ordering}
use Prim.Native.Char.{Char, code, char, nul}
use Prim.Native.String.{String, char_at, compare as compare_text}
use text.Mathlib.Text.{find?, is_lt, starts_with}
use crdt_agent_memory.Prelude.{
  ℕ, ◌-◌, ◌≡◌, refl, sym, Bool, ◌&&◌, ◌||◌, List, [], ◌∷◌, leb, eqb, is_some, ◌==◌, if◌then◌else◌,
}

-- '\t', '\n', '\v', '\f', '\r' and ' '
unfoldable pub is_space : ℕ → Bool
is_space c = (leb 9 c && leb c 13) || eqb c 32

unfoldable pub trim_left : String → String
trim_left String.[] = ""
trim_left (String.◌∷◌ c s) = if is_space (code c) then trim_left s else String.◌∷◌ c s

-- a character in front of a text whose white space at the end is gone
unfoldable pub keep : Char → String → String
keep c String.[] = if is_space (code c) then "" else String.◌∷◌ c ""
keep c (String.◌∷◌ d s) = String.◌∷◌ c (String.◌∷◌ d s)

unfoldable pub trim_right : String → String
unfolding keep
trim_right String.[] = ""
trim_right (String.◌∷◌ c s) = keep c (trim_right s)

-- strings.TrimSpace
unfoldable pub trim : String → String
unfolding is_space trim_left trim_right
trim s = trim_left (trim_right s)

-- strings.TrimSpace(s) == ""
abbrev pub is_blank : String → Bool
is_blank s = trim s == ""

lower_char : Char → Char
lower_char c =
    if leb 65 (code c) && leb (code c) 90
    then char_at "abcdefghijklmnopqrstuvwxyz" (code c - 65)
    else c

-- strings.ToLower
unfoldable pub to_lower : String → String
unfolding lower_char
to_lower String.[] = ""
to_lower (String.◌∷◌ c s) = String.◌∷◌ (lower_char c) (to_lower s)

-- strings.Contains(s, t)
abbrev pub contains : String → String → Bool
contains s t = is_some (find? s t)

-- strings.HasPrefix(s, t)
abbrev pub has_prefix : String → String → Bool
has_prefix s t = starts_with s t

-- s < t: Go compares strings byte by byte
abbrev pub lt_text : String → String → Bool
lt_text s t = is_lt (compare_text s t)

-- the strings of a `case` list
unfoldable pub one_of : String → List String → Bool
one_of s [] = Bool.false
one_of s (t ∷ ts) = if s == t then Bool.true else one_of s ts

scalar_below : (n : ℕ) (o : Ordering) → compare n 55296 ≡ o → Char
scalar_below n Ordering.lt e = char n (rw e tt)
scalar_below n _ e = nul

-- the byte n
unfoldable pub char_of : ℕ → Char
unfolding scalar_below
char_of n = scalar_below n (compare n 55296) refl

trim_test : trim " \t a b\n " ≡ "a b"
unfolding trim
trim_test = refl

to_lower_test : to_lower "No Such Function" ≡ "no such function"
unfolding to_lower
to_lower_test = refl

char_of_test : code (char_of 255) ≡ 255
unfolding char_of
char_of_test = refl
