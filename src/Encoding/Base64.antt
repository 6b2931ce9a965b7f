-- ===== src/Encoding/Base64.antt =====
-- base64.StdEncoding: the standard alphabet with padding. DecodeString skips '\r' and '\n', wants
-- whole groups of four characters, and takes padding in the last group only.
pub mod RoundTrip
use Prim.Native.String.{String, char_at}
use crdt_agent_memory.Prelude.{
  ℕ, ◌+◌, ◌-◌, ◌*◌, ◌/◌, ◌%◌, Option, none, some, Bool, Char, code, ◌&&◌, ◌||◌, ◌≡◌, refl, leb, eqb,
  if◌then◌else◌,
}
use crdt_agent_memory.Text.{char_of}

unfoldable sextet : ℕ → Option ℕ
sextet c =
    if leb 65 c && leb c 90
    then some (c - 65)
    else if leb 97 c && leb c 122
    then some (c - 71)
    else if leb 48 c && leb c 57
    then some (c + 4)
    else if eqb c 43
    then some 62
    else if eqb c 47
    then some 63
    else none

unfoldable skip_line_breaks : String → String
skip_line_breaks String.[] = ""
skip_line_breaks (String.◌∷◌ c s) =
    if eqb (code c) 10 || eqb (code c) 13
    then skip_line_breaks s
    else String.◌∷◌ c (skip_line_breaks s)

abbrev pub byte : ℕ → String → String
byte n s = String.◌∷◌ (char_of (n % 256)) s

unfoldable three : Option ℕ → Option ℕ → Option ℕ → Option ℕ → Option String → Option String
three (some a) (some b) (some c) (some d) (some rest) =
    some (byte (a * 4 + b / 16) (byte (b * 16 + c / 4) (byte (c * 64 + d) rest)))
three _ _ _ _ _ = none

unfoldable two : Option ℕ → Option ℕ → Option ℕ → Option String
two (some a) (some b) (some c) = some (byte (a * 4 + b / 16) (byte (b * 16 + c / 4) ""))
two _ _ _ = none

unfoldable one : Option ℕ → Option ℕ → Option String
one (some a) (some b) = some (byte (a * 4 + b / 16) "")
one _ _ = none

unfoldable is_pad : Char → Bool
is_pad c = eqb (code c) 61

-- the last group
unfoldable last : Char → Char → Char → Char → Option String
last a b c d =
    if is_pad d
    then (if is_pad c
        then one (sextet (code a)) (sextet (code b))
        else two (sextet (code a)) (sextet (code b)) (sextet (code c)))
    else three (sextet (code a)) (sextet (code b)) (sextet (code c)) (sextet (code d)) (some "")

unfoldable groups : String → Option String
groups String.[] = some ""
groups (String.◌∷◌ a (String.◌∷◌ b (String.◌∷◌ c (String.◌∷◌ d String.[])))) = last a b c d
groups (String.◌∷◌ a (String.◌∷◌ b (String.◌∷◌ c (String.◌∷◌ d (String.◌∷◌ e s))))) =
    three (sextet (code a)) (sextet (code b)) (sextet (code c)) (sextet (code d))
      (groups (String.◌∷◌ e s))
groups _ = none

unfoldable pub base64_decode : String → Option String
unfolding groups last three two one is_pad sextet skip_line_breaks char_of
base64_decode s = groups (skip_line_breaks s)

abbrev pub letter : ℕ → Char
letter n = char_at "ABCDEFGHIJKLMNOPQRSTUVWXYZabcdefghijklmnopqrstuvwxyz0123456789+/" (n % 64)

unfoldable pub base64_encode : String → String
base64_encode String.[] = ""
base64_encode (String.◌∷◌ a String.[]) =
    String.◌∷◌ (letter (code a / 4)) (String.◌∷◌ (letter (code a * 16)) "==")
base64_encode (String.◌∷◌ a (String.◌∷◌ b String.[])) =
    String.◌∷◌ (letter (code a / 4))
      (String.◌∷◌ (letter (code a * 16 + code b / 16)) (String.◌∷◌ (letter (code b * 4)) "="))
base64_encode (String.◌∷◌ a (String.◌∷◌ b (String.◌∷◌ c s))) = String.◌∷◌ (letter (code a / 4)) (
    String.◌∷◌ (letter (code a * 16 + code b / 16)) (
      String.◌∷◌ (letter (code b * 4 + code c / 64))
        (String.◌∷◌ (letter (code c)) (base64_encode s))))

encode_test : base64_encode "light w" ≡ "bGlnaHQgdw=="
unfolding base64_encode
encode_test = refl

decode_test : base64_decode "bGlnaHQgdw==" ≡ some "light w"
unfolding base64_decode
decode_test = refl

decode_unpadded : base64_decode "bGlnaHQgdw" ≡ none
unfolding base64_decode
decode_unpadded = refl
