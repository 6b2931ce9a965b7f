-- ===== src/Encoding/Decimal.antt =====
-- strconv.FormatInt and strconv.ParseInt in base 10 for 64 bits. An int64 has at most 19 digits,
-- so 20 rounds print any.
use Prim.Native.String.{String, ◌++◌, char_at}
use crdt_agent_memory.Prelude.{
  ℕ, zero, suc, ◌+◌, ◌-◌, ◌*◌, ◌/◌, ◌%◌, Option, none, some, code, ◌&&◌, ◌≡◌, refl, leb, eqb, ltb,
  ℤ, pos, negsuc, if◌then◌else◌,
}

digit_text : ℕ → String → String
digit_text d s = String.◌∷◌ (char_at "0123456789" d) s

digits_onto : ℕ → ℕ → String → String
unfolding digit_text
digits_onto zero n acc = acc
digits_onto (suc fuel) n acc =
    let more = digits_onto fuel (n / 10) (digit_text (n % 10) acc) in
    if ltb n 10 then digit_text n acc else more

-- strconv.FormatInt(n, 10)
unfoldable pub format_int : ℤ → String
unfolding digits_onto
format_int (pos n) = digits_onto 20 n ""
format_int (negsuc n) = "-" ++ digits_onto 20 (suc n) ""

-- the digits of a text, read from the left
read_digits : ℕ → String → Option ℕ
read_digits acc String.[] = some acc
read_digits acc (String.◌∷◌ c s) =
    if leb 48 (code c) && leb (code c) 57 then read_digits (acc * 10 + (code c - 48)) s else none

digits_of : String → Option ℕ
unfolding read_digits
digits_of String.[] = none
digits_of (String.◌∷◌ c s) = read_digits 0 (String.◌∷◌ c s)

positive : Option ℕ → Option ℤ
positive none = none
positive (some n) = if ltb n 9223372036854775808 then some (pos n) else none

negative : Option ℕ → Option ℤ
negative none = none
negative (some zero) = some (pos 0)
negative (some (suc n)) = if ltb n 9223372036854775808 then some (negsuc n) else none

-- strconv.ParseInt(s, 10, 64); `none` is its error
unfoldable pub parse_int : String → Option ℤ
unfolding digits_of positive negative
parse_int String.[] = none
parse_int (String.◌∷◌ c s) =
    if eqb (code c) 45
    then negative (digits_of s)
    else if eqb (code c) 43
    then positive (digits_of s)
    else positive (digits_of (String.◌∷◌ c s))

format_test : format_int (negsuc 419) ≡ "-420"
unfolding format_int
format_test = refl

parse_test : parse_int "-9223372036854775808" ≡ some (negsuc 9223372036854775807)
unfolding parse_int
parse_test = refl

parse_range : parse_int "9223372036854775808" ≡ none
unfolding parse_int
parse_range = refl
