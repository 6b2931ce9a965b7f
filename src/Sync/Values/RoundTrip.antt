-- ===== src/Sync/Values/RoundTrip.antt =====
-- A value of the database, put on the wire by encodeValue and read by decodeValue.
use Prim.Native.String.{String}
use crdt_agent_memory.Prelude.{
  ◌≡◌, refl, true, Bool-cases, inl, inr, Option, none, some, ok, if◌then◌else◌,
}
use crdt_agent_memory.Encoding.Bytes.{IsBytes}
use crdt_agent_memory.Encoding.Base64.RoundTrip.{base64_decode-base64_encode}
use crdt_agent_memory.Sync.Types.{SqlValue, null, blob}
use crdt_agent_memory.Sync.Values.{
  utf8_valid, utf8_from, encode_value, decode_value, decode_integer, decode_float, decode_text,
  decode_blob,
}

-- the bytes of a value, where there are any
abbrev pub IsBytesValue : Option String → Type 0
IsBytesValue none = Unit
IsBytesValue (some s) = IsBytes s

-- the same value in the other database: text where it is valid UTF-8, and a blob elsewhere
abbrev pub carried : {F : Type 0} → Option String → SqlValue F
carried none = null
carried (some s) = if utf8_valid s then SqlValue.text s else blob s

valid_empty : utf8_valid "" ≡ true
unfolding utf8_valid utf8_from
valid_empty = refl

pub decode_value-encode_value :
    {F : Type 0} (v : Option String)
    → IsBytesValue v
    → decode_value {F = F} (encode_value v) ≡ ok (carried v)
unfolding decode_value decode_integer decode_float decode_text decode_blob encode_value
decode_value-encode_value none h = refl
decode_value-encode_value (some String.[]) h = rw valid_empty refl
decode_value-encode_value (some (String.◌∷◌ c s)) h =
    elim (Bool-cases (utf8_valid (String.◌∷◌ c s))) [
      | inl e ↦ rw e refl
      | inr e ↦ rw e (rw (base64_decode-base64_encode (String.◌∷◌ c s) h) refl)
    ]
