-- ===== src/Encoding/Hex/RoundTrip.antt =====
-- hex.EncodeToString, and hex.DecodeString behind it.
use Prim.Native.Char.{code}
use Prim.Native.String.{String, char_at}
use crdt_agent_memory.Prelude.{
  ℕ, ◌+◌, ◌*◌, ◌/◌, ◌%◌, ◌<◌, ◌≡◌, refl, true, false, not, some, Bool, arith,
}
use crdt_agent_memory.Text.{trim, trim_left, trim_right, keep, is_space}
use crdt_agent_memory.Encoding.Bytes.{
  IsBytes, char_of-code, every_below, every_below-holds, gives, gives-some,
}
use crdt_agent_memory.Encoding.Hex.{hex_digit, byte_of, hex_decode, hex_encode}

abbrev digit_given : ℕ → Bool
digit_given n = gives (hex_digit (code (char_at "0123456789abcdef" n))) n

digits_given : every_below digit_given 16 ≡ true
unfolding every_below hex_digit
digits_given = refl

digit_back : (n : ℕ) → n < 16 → hex_digit (code (char_at "0123456789abcdef" n)) ≡ some n
digit_back n h =
    gives-some (hex_digit (code (char_at "0123456789abcdef" n))) n
      (every_below-holds digit_given 16 n digits_given h)

-- A text of bytes, printed in hexadecimal digits, is decoded to the same text.
pub hex_decode-hex_encode : (s : String) → IsBytes s → hex_decode (hex_encode s) ≡ some s
unfolding hex_decode hex_encode byte_of
hex_decode-hex_encode String.[] h = refl
hex_decode-hex_encode (String.◌∷◌ c s) h =
    rw
      (
        digit_back (code c / 16) (omega (arith, h.0)),
        digit_back (code c % 16) (omega arith),
        hex_decode-hex_encode s h.1,
        char_of-code c (code c / 16 * 16 + code c % 16) h.0 (omega arith),
      )
      refl

abbrev digit_plain : ℕ → Bool
digit_plain n = not (is_space (code (char_at "0123456789abcdef" n)))

digits_plain : every_below digit_plain 16 ≡ true
unfolding every_below is_space
digits_plain = refl

no_space : (n : ℕ) → n < 16 → is_space (code (char_at "0123456789abcdef" n)) ≡ false
no_space n h = ground (arith, every_below-holds digit_plain 16 n digits_plain h)

keep-digit :
    (n : ℕ) (s : String)
    → n < 16
    → keep (char_at "0123456789abcdef" n) s ≡ String.◌∷◌ (char_at "0123456789abcdef" n) s
unfolding keep
keep-digit n String.[] h = rw (no_space n h) refl
keep-digit n (String.◌∷◌ d s) h = refl

trim_right-hex_encode : (s : String) → IsBytes s → trim_right (hex_encode s) ≡ hex_encode s
unfolding trim_right hex_encode
trim_right-hex_encode String.[] h = refl
trim_right-hex_encode (String.◌∷◌ c s) h =
    rw (trim_right-hex_encode s h.1, keep-digit (code c % 16) (hex_encode s) (omega arith))
      (keep-digit (code c / 16) _ (omega (arith, h.0)))

trim_left-hex_encode : (s : String) → IsBytes s → trim_left (hex_encode s) ≡ hex_encode s
unfolding trim_left hex_encode
trim_left-hex_encode String.[] h = refl
trim_left-hex_encode (String.◌∷◌ c s) h = rw (no_space (code c / 16) (omega (arith, h.0))) refl

-- Hexadecimal digits are not white space.
pub trim-hex_encode : (s : String) → IsBytes s → trim (hex_encode s) ≡ hex_encode s
unfolding trim
trim-hex_encode s h = rw (trim_right-hex_encode s h) (trim_left-hex_encode s h)
