-- ===== src/Encoding/Base64/RoundTrip.antt =====
-- base64.StdEncoding.DecodeString reads back what EncodeToString prints.
use Prim.Native.Char.{Char, code}
use Prim.Native.String.{String, char_at}
use crdt_agent_memory.Prelude.{
  ℕ, ◌+◌, ◌*◌, ◌/◌, ◌%◌, ◌<◌, ◌≡◌, ◌∙◌, ap, refl, true, false, Bool, not, ◌&&◌, ◌||◌, some, eqb,
  arith,
}
use crdt_agent_memory.Encoding.Bytes.{
  IsBytes, char_of-code, every_below, every_below-holds, gives, gives-some,
}
use crdt_agent_memory.Encoding.Base64.{
  sextet, skip_line_breaks, three, two, one, is_pad, last, groups, byte, letter, base64_decode,
  base64_encode,
}

-- a letter is read as its number, and is neither padding nor a line break
abbrev letter_fits : ℕ → Bool
letter_fits n =
    gives (sextet (code (letter n))) n
    && (not (is_pad (letter n)) && not (eqb (code (letter n)) 10 || eqb (code (letter n)) 13))

letters_fit : every_below letter_fits 64 ≡ true
unfolding every_below sextet is_pad
letters_fit = refl

letter_fact : (n : ℕ) → letter_fits (n % 64) ≡ true
letter_fact n = every_below-holds letter_fits 64 (n % 64) letters_fit (omega arith)

letter_mod : (n : ℕ) → letter (n % 64) ≡ letter n
letter_mod n =
    let same : n % 64 % 64 ≡ n % 64 = omega arith in
    ap (char_at "ABCDEFGHIJKLMNOPQRSTUVWXYZabcdefghijklmnopqrstuvwxyz0123456789+/") same

sextet-letter : (n : ℕ) → sextet (code (letter n)) ≡ some (n % 64)
sextet-letter n =
    gives-some (sextet (code (letter n))) (n % 64) (ground (arith, letter_fact n, letter_mod n))

pad-letter : (n : ℕ) → is_pad (letter n) ≡ false
pad-letter n = ground (arith, letter_fact n, letter_mod n)

skip-letter :
    (n : ℕ) (s t : String)
    → skip_line_breaks s ≡ t
    → skip_line_breaks (String.◌∷◌ (letter n) s) ≡ String.◌∷◌ (letter n) t
unfolding skip_line_breaks
skip-letter n s t h = ground (arith, letter_fact n, letter_mod n)

skip-padding :
    (skip_line_breaks "" ≡ "") × (skip_line_breaks "=" ≡ "=") × (skip_line_breaks "==" ≡ "==")
unfolding skip_line_breaks
skip-padding = (refl, refl, refl)

skip-base64_encode : (s : String) → skip_line_breaks (base64_encode s) ≡ base64_encode s
unfolding base64_encode
skip-base64_encode String.[] = skip-padding.0
skip-base64_encode (String.◌∷◌ a String.[]) =
    skip-letter (code a / 4) _ _ (skip-letter (code a * 16) "==" "==" skip-padding.2)
skip-base64_encode (String.◌∷◌ a (String.◌∷◌ b String.[])) =
    skip-letter (code a / 4) _ _ (
      skip-letter (code a * 16 + code b / 16) _ _ (skip-letter (code b * 4) "=" "=" skip-padding.1))
skip-base64_encode (String.◌∷◌ a (String.◌∷◌ b (String.◌∷◌ c s))) = skip-letter (code a / 4) _ _ (
    skip-letter (code a * 16 + code b / 16) _ _ (
      skip-letter (code b * 4 + code c / 64) _ _ (skip-letter (code c) _ _ (skip-base64_encode s))))

-- the text of three bytes is four letters in front of the rest
groups-four :
    (a b c d : Char) (s : String)
    → is_pad d ≡ false
    → groups (String.◌∷◌ a (String.◌∷◌ b (String.◌∷◌ c (String.◌∷◌ d s))))
      ≡ three (sextet (code a)) (sextet (code b)) (sextet (code c)) (sextet (code d)) (groups s)
unfolding groups last
groups-four a b c d String.[] h = rw h refl
groups-four a b c d (String.◌∷◌ e s) h = refl

byte-code :
    (c : Char) (n : ℕ) (s t : String)
    → code c < 256
    → n % 256 ≡ code c
    → s ≡ t
    → byte n s ≡ String.◌∷◌ c t
byte-code c n s t h e same = rw (char_of-code c (n % 256) h e, same) refl

groups-base64_encode : (s : String) → IsBytes s → groups (base64_encode s) ≡ some s
unfolding base64_encode three two one groups last is_pad
groups-base64_encode String.[] h = refl
groups-base64_encode (String.◌∷◌ a String.[]) (in_a, rest) =
    rw (sextet-letter (code a / 4), sextet-letter (code a * 16))
      (ap some (byte-code a _ "" "" in_a (omega arith) refl))
groups-base64_encode (String.◌∷◌ a (String.◌∷◌ b String.[])) (in_a, (in_b, rest)) =
    rw
      (
        sextet-letter (code a / 4),
        sextet-letter (code a * 16 + code b / 16),
        sextet-letter (code b * 4),
        pad-letter (code b * 4),
      )
      (ap some (byte-code a _ _ _ in_a (omega arith) (byte-code b _ "" "" in_b (omega arith) refl)))
groups-base64_encode (String.◌∷◌ a (String.◌∷◌ b (String.◌∷◌ c s))) (in_a, (in_b, (in_c, rest))) =
    groups-four (letter (code a / 4)) (letter (code a * 16 + code b / 16))
      (letter (code b * 4 + code c / 64)) (letter (code c)) (base64_encode s) (pad-letter (code c))
    ∙ rw
        (
          sextet-letter (code a / 4),
          sextet-letter (code a * 16 + code b / 16),
          sextet-letter (code b * 4 + code c / 64),
          sextet-letter (code c),
          groups-base64_encode s rest,
        )
        (ap some (
          byte-code a _ _ _ in_a (omega arith)
            (byte-code b _ _ _ in_b (omega arith) (byte-code c _ _ _ in_c (omega arith) refl))))

-- A text of bytes, encoded in base64, is decoded to the same text.
pub base64_decode-base64_encode :
    (s : String) → IsBytes s → base64_decode (base64_encode s) ≡ some s
unfolding base64_decode
base64_decode-base64_encode s h = ap groups (skip-base64_encode s) ∙ groups-base64_encode s h
