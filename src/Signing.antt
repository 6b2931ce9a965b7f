-- ===== src/Signing.antt =====
-- internal/signing/signing.go. The Ed25519 primitive and the rendering of a flat JSON object
-- (crypto/ed25519, encoding/json) are the parameter `Crypto`; which fields are rendered, their
-- names, their order and every check around them are the program's.
use Prim.Native.String.{count}
use crdt_agent_memory.Prelude.{
  ℤ, pos, String, Bool, Option, none, some, List, [], ◌∷◌, message, Result, ok, err, ◌>>=◌, ◌>>◌,
  refuse, not, eqb, is_zero, if◌then◌else◌,
}
use crdt_agent_memory.Text.{trim}
use crdt_agent_memory.Encoding.Hex.{hex_decode, hex_encode}

-- a field of a JSON object
pub data JsonValue : Type 0 where
  text : String → JsonValue
  number : ℤ → JsonValue

pub record Crypto : Type 0 where
  -- json.Marshal of a struct with these fields
  pub json_object : List (String × JsonValue) → String
  -- ed25519.NewKeyFromSeed: the private and the public key
  pub private_key : String → String
  pub public_key : String → String
  -- ed25519.Sign(private, message)
  pub sign : String → String → String
  -- ed25519.Verify(public, message, signature)
  pub verify : String → String → String → Bool

pub record ClaimPayload : Type 0 where
  pub memory_id : String
  pub memory_type : String
  pub namespace : String
  pub subject : String
  pub body : String
  pub source_uri : String
  pub source_hash : String
  pub author_agent_id : String
  pub origin_peer_id : String
  pub authored_at_ms : ℤ
  pub valid_from_ms : ℤ
  pub valid_to_ms : ℤ
  pub payload_version : ℤ

-- PayloadVersion
abbrev pub current_version : ℤ
current_version = pos 1

-- the claim as CanonicalBytes renders it: version 0 stands for the current version
unfoldable pub with_version : ClaimPayload → ClaimPayload
with_version claim =
    if is_zero claim.payload_version
    then record claim { payload_version = current_version }
    else claim

unfoldable pub canonical_fields : ClaimPayload → List (String × JsonValue)
canonical_fields claim =
    ("memory_id", text claim.memory_id)
    ∷ ("memory_type", text claim.memory_type)
    ∷ ("namespace", text claim.namespace)
    ∷ ("subject", text claim.subject)
    ∷ ("body", text claim.body)
    ∷ ("source_uri", text claim.source_uri)
    ∷ ("source_hash", text claim.source_hash)
    ∷ ("author_agent_id", text claim.author_agent_id)
    ∷ ("origin_peer_id", text claim.origin_peer_id)
    ∷ ("authored_at_ms", number claim.authored_at_ms)
    ∷ ("valid_from_ms", number claim.valid_from_ms)
    ∷ ("valid_to_ms", number claim.valid_to_ms)
    ∷ ("payload_version", number claim.payload_version)
    ∷ []

-- ParsePublicKeyHex: the 32 bytes of a key. The text of the hex package's error, which the program
-- puts behind its own, is left out.
unfoldable pub parse_public_key_hex : String → Result String
parse_public_key_hex public_key_hex = elim (hex_decode (trim public_key_hex)) [
  | none ↦ err (message "decode signing public key")
  | some decoded ↦ do
    refuse (not (eqb (count decoded) 32)) (message "ed25519 public key must be 32 bytes")
    ok decoded
]

-- Ed25519Signer
pub record Signer : Type 0 where
  pub private_key : String
  pub public_key : String

module _ (crypto : Crypto) where
  unfoldable pub canonical_bytes : ClaimPayload → String
  canonical_bytes claim = crypto.json_object (canonical_fields (with_version claim))

  unfoldable pub new_signer_from_seed : String → Result Signer
  new_signer_from_seed seed = do
    refuse (not (eqb (count seed) 32)) (message "ed25519 seed must be 32 bytes")
    ok (record { private_key = crypto.private_key seed; public_key = crypto.public_key seed })

  -- a nil signer is `none`
  unfoldable pub sign_claim : Option Signer → ClaimPayload → Result String
  sign_claim none claim = err (message "signer is required")
  sign_claim (some s) claim = ok (crypto.sign s.private_key (canonical_bytes claim))

  unfoldable pub verify_claim : ClaimPayload → String → String → Result (Unit {0})
  verify_claim claim signature public_key_hex = do
    public_key ← parse_public_key_hex public_key_hex
    refuse (not (crypto.verify public_key (canonical_bytes claim) signature))
        (message "signature verification failed")
    ok tt

unfoldable pub public_key_hex : Option Signer → String
public_key_hex none = ""
public_key_hex (some s) = hex_encode s.public_key
