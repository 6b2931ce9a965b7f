-- ===== src/Sync/Values.antt =====
-- The values of changes: encodeValue, decodeValue, valueAsString, valueAsInt64, valueAsBytes and
-- decodePrimaryKeyText of internal/memsync/service.go.
pub mod RoundTrip
use Prim.Native.String.{String}
use crdt_agent_memory.Prelude.{
  ℕ, zero, suc, ℤ, pos, Bool, true, false, ◌&&◌, ◌||◌, Option, none, some, code, message, Result,
  ok, err, leb, eqb, if◌then◌else◌, ◌≡◌, refl,
}
use crdt_agent_memory.Encoding.Base64.{base64_decode, base64_encode}
use crdt_agent_memory.Encoding.Decimal.{format_int, parse_int}
use crdt_agent_memory.Sync.Types.{Value, SqlValue, null, int, real, blob}

-- What may come next in well-formed UTF-8: the count of bytes that are due, and the range of the
-- first of them.
pub record Due : Type 0 where
  pub bytes : ℕ
  pub low : ℕ
  pub high : ℕ

abbrev between : ℕ → ℕ → ℕ → Bool
between lo hi c = leb lo c && leb c hi

lead : ℕ → Option Due
lead c =
    if leb c 127
    then some (record { bytes = 0; low = 128; high = 191 })
    else if between 194 223 c
    then some (record { bytes = 1; low = 128; high = 191 })
    else if eqb c 224
    then some (record { bytes = 2; low = 160; high = 191 })
    else if between 225 236 c || between 238 239 c
    then some (record { bytes = 2; low = 128; high = 191 })
    else if eqb c 237
    then some (record { bytes = 2; low = 128; high = 159 })
    else if eqb c 240
    then some (record { bytes = 3; low = 144; high = 191 })
    else if between 241 243 c
    then some (record { bytes = 3; low = 128; high = 191 })
    else if eqb c 244
    then some (record { bytes = 3; low = 128; high = 143 })
    else none

follow : ℕ → ℕ → ℕ → ℕ → Option Due
unfolding lead
follow zero low high c = lead c
follow (suc n) low high c =
    if between low high c then some (record { bytes = n; low = 128; high = 191 }) else none

unfoldable utf8_from : Option Due → String → Bool
unfolding follow
utf8_from none s = false
utf8_from (some d) String.[] = eqb d.bytes 0
utf8_from (some d) (String.◌∷◌ c s) = utf8_from (follow d.bytes d.low d.high (code c)) s

-- utf8.Valid
unfoldable pub utf8_valid : String → Bool
unfolding utf8_from
utf8_valid s = utf8_from (some (record { bytes = 0; low = 128; high = 191 })) s

is_alnum : ℕ → Bool
is_alnum c = between 48 57 c || between 97 122 c || between 65 90 c

-- the text from its first letter or digit on, and the whole where there is none
from_alnum : String → String → String
from_alnum whole String.[] = whole
from_alnum whole (String.◌∷◌ c s) = if is_alnum (code c) then String.◌∷◌ c s else from_alnum whole s

unfoldable pub decode_primary_key_text : String → String
unfolding from_alnum is_alnum
decode_primary_key_text encoded = elim (base64_decode encoded) [
  | none ↦ ""
  | some pk ↦ from_alnum pk pk
]

as_int64 : Option ℤ → Option String → Result ℤ
as_int64 (some n) t = ok n
as_int64 none (some t) = elim (parse_int t) [
  | none ↦ err (message "strconv.ParseInt")
  | some n ↦ ok n
]
as_int64 none none = err (message "unsupported integer value")

as_bytes : Option String → Option String → Result String
as_bytes (some b) t = elim (base64_decode b) [
  | none ↦ err (message "illegal base64 data")
  | some d ↦ ok d
]
as_bytes none (some t) = ok t
as_bytes none none = err (message "unsupported blob value")

module _ {F : Type 0} where
  -- a value with no field set
  abbrev empty_value : Value F
  empty_value = record {
    is_null = false;
    integer = none;
    float = none;
    text = none;
    blob_b64 = none;
  }

  -- a nil slice is `none`; the two branches on json.Valid are one
  unfoldable pub encode_value : Option String → Value F
  encode_value none = record empty_value { is_null = true }
  encode_value (some String.[]) = record empty_value { text = some "" }
  encode_value (some (String.◌∷◌ c s)) =
      if utf8_valid (String.◌∷◌ c s)
      then record empty_value { text = some (String.◌∷◌ c s) }
      else record empty_value { blob_b64 = some (base64_encode (String.◌∷◌ c s)) }

  unfoldable decoded_blob : Option String → Result (SqlValue F)
  decoded_blob none = err (message "illegal base64 data")
  decoded_blob (some b) = ok (blob b)

  unfoldable decode_blob : Option String → Result (SqlValue F)
  unfolding decoded_blob
  decode_blob none = ok null
  decode_blob (some b) = decoded_blob (base64_decode b)

  unfoldable decode_text : Option String → Option String → Result (SqlValue F)
  unfolding decode_blob
  decode_text (some t) b = ok (SqlValue.text t)
  decode_text none b = decode_blob b

  unfoldable decode_float : Option F → Option String → Option String → Result (SqlValue F)
  unfolding decode_text
  decode_float (some x) t b = ok (real x)
  decode_float none t b = decode_text t b

  unfoldable decode_integer :
      Option ℤ → Option F → Option String → Option String → Result (SqlValue F)
  unfolding decode_float
  decode_integer (some n) x t b = ok (int n)
  decode_integer none x t b = decode_float x t b

  unfoldable pub decode_value : Value F → Result (SqlValue F)
  unfolding decode_integer
  decode_value v = if v.is_null then ok null else decode_integer v.integer v.float v.text v.blob_b64

  -- the cases of valueAsString behind the test for null
  as_string : (F → String) → Option String → Option ℤ → Option F → Option String → String
  as_string show (some t) n x b = t
  as_string show none (some n) x b = format_int n
  as_string show none none (some x) b = show x
  as_string show none none none none = ""
  as_string show none none none (some b) = elim (base64_decode b) [ none ↦ "" | some d ↦ d ]

  unfoldable pub value_as_string : (F → String) → Value F → String
  unfolding as_string
  value_as_string show v =
      if v.is_null then "" else as_string show v.text v.integer v.float v.blob_b64

  unfoldable pub value_as_int64 : Value F → Result ℤ
  unfolding as_int64
  value_as_int64 v = if v.is_null then ok (pos 0) else as_int64 v.integer v.text

  unfoldable pub value_as_bytes : Value F → Result String
  unfolding as_bytes
  value_as_bytes v = if v.is_null then ok "" else as_bytes v.blob_b64 v.text

utf8_test : utf8_valid "né" ≡ false
unfolding utf8_valid
utf8_test = refl

primary_key_test : decode_primary_key_text "AQsFbWVtLTE=" ≡ "mem-1"
unfolding decode_primary_key_text base64_decode
primary_key_test = refl
