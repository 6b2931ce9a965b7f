-- ===== src/Encoding.antt =====
-- The functions of Go's encoding/hex, encoding/base64, strconv and unicode/utf8 that the program
-- calls. Bytes are a `String` with one character for each byte.
pub mod Bytes
pub mod Hex
pub mod Base64
pub mod Decimal
