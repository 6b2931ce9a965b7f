-- ===== src/Encoding/Hex.antt =====
-- hex.EncodeToString and hex.DecodeString; an odd length or a character that is no hexadecimal
-- digit is an error.
pub mod RoundTrip
use Prim.Native.String.{String, char_at}
use crdt_agent_memory.Prelude.{
  ℕ, ◌+◌, ◌-◌, ◌*◌, ◌/◌, ◌%◌, Option, none, some, Char, code, ◌&&◌, ◌≡◌, refl, leb, if◌then◌else◌,
}
use crdt_agent_memory.Text.{char_of}

abbrev infixr_cons : Char → String → String
infixr_cons c s = String.◌∷◌ c s

unfoldable pub hex_digit : ℕ → Option ℕ
hex_digit c =
    if leb 48 c && leb c 57
    then some (c - 48)
    else if leb 97 c && leb c 102
    then some (c - 87)
    else if leb 65 c && leb c 70
    then some (c - 55)
    else none

unfoldable byte_of : Option ℕ → Option ℕ → Option String → Option String
byte_of (some hi) (some lo) (some rest) = some (infixr_cons (char_of (hi * 16 + lo)) rest)
byte_of _ _ _ = none

unfoldable pub hex_decode : String → Option String
unfolding hex_digit byte_of char_of
hex_decode String.[] = some ""
hex_decode (String.◌∷◌ c String.[]) = none
hex_decode (String.◌∷◌ c (String.◌∷◌ d s)) =
    byte_of (hex_digit (code c)) (hex_digit (code d)) (hex_decode s)

unfoldable pub hex_encode : String → String
hex_encode String.[] = ""
hex_encode (String.◌∷◌ c s) =
    infixr_cons (char_at "0123456789abcdef" (code c / 16))
      (infixr_cons (char_at "0123456789abcdef" (code c % 16)) (hex_encode s))

hex_test : hex_decode (hex_encode "\n[z") ≡ some "\n[z"
unfolding hex_decode hex_encode
hex_test = refl
