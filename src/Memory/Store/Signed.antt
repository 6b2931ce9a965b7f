-- ===== src/Memory/Store/Signed.antt =====
-- The signatures of the memories that the calls of internal/memory/service.go store.
use Prim.Native.String.{count}
use mathlib.Core.Path.{subst}
use crdt_agent_memory.Prelude.{
  String, ◌≡◌, sym, refl, true, false, Bool, not, ◌&&◌, some, none, List, [], ◌∷◌, inl, inr,
  Bool-cases, Option-cases, eqb, is_some, Result, ok, err, refuse-passed, >>=-eq-ok, ◌==◌,
  if◌then◌else◌,
}
use crdt_agent_memory.Encoding.Bytes.{IsBytes}
use crdt_agent_memory.Encoding.Hex.{hex_encode}
use crdt_agent_memory.Encoding.Hex.RoundTrip.{hex_decode-hex_encode, trim-hex_encode}
use crdt_agent_memory.Signing.{
  Crypto, ClaimPayload, Signer, new_signer_from_seed, sign_claim, verify_claim, canonical_bytes,
  public_key_hex, parse_public_key_hex,
}
use crdt_agent_memory.Sync.Types.{Env, NodeRow}
use crdt_agent_memory.Sync.Verification.{claim_of}
use crdt_agent_memory.Memory.Requests.{StoreRequest, normalize_store_request}
use crdt_agent_memory.Memory.Tables.{MemoryRow, StoreDb}
use crdt_agent_memory.Memory.Store.{
  MemoryService, claim_payload, node_row, prepare_store, set_superseded,
}
use crdt_agent_memory.Memory.Store.View.{Memories, view, put, accepts, is_private, same_space}
use crdt_agent_memory.Memory.Store.Steps.{Call, run}
use crdt_agent_memory.Memory.Store.Refine.{add, retire, replace, replay, run-replay}

-- what crypto/ed25519 says of the key pair of a seed: a public key is 32 bytes, and verifies what
-- the private key signs
pub record IsKeyPair (crypto : Crypto) (seed : String) : Type 0 where
  pub size : count (crypto.public_key seed) ≡ 32
  pub bytes : IsBytes (crypto.public_key seed)
  pub verifies :
      (msg : String)
      → crypto.verify (crypto.public_key seed) msg (crypto.sign (crypto.private_key seed) msg)
        ≡ true

-- A key that is printed is parsed as itself.
parse-public_key_hex :
    (key : String) → count key ≡ 32 → IsBytes key → parse_public_key_hex (hex_encode key) ≡ ok key
unfolding parse_public_key_hex
parse-public_key_hex key size bytes =
    rw (parse_public_key_hex, trim-hex_encode key bytes, hex_decode-hex_encode key bytes, size) refl

-- A claim signed with the key of a seed verifies under the public key in hexadecimal digits.
pub verify_claim-sign_claim :
    (crypto : Crypto) (seed : String) (signer : Signer) (claim : ClaimPayload) (signature : String)
    → IsKeyPair crypto seed
    → new_signer_from_seed crypto seed ≡ ok signer
    → sign_claim crypto (some signer) claim ≡ ok signature
    → verify_claim crypto claim signature (public_key_hex (some signer)) ≡ ok tt
unfolding verify_claim sign_claim new_signer_from_seed public_key_hex
verify_claim-sign_claim crypto seed signer claim signature pair made signed =
    let (long, key) = refuse-passed (not (eqb (count seed) 32)) _ _ signer made in
    let public : crypto.public_key seed ≡ signer.public_key = cc in
    let private : crypto.private_key seed ≡ signer.private_key = cc in
    let sealed : crypto.sign signer.private_key (canonical_bytes crypto claim) ≡ signature = cc in
    let parsed = parse-public_key_hex (crypto.public_key seed) pair.size pair.bytes in
    rw (← public, ← sealed, ← private, parsed, pair.verifies (canonical_bytes crypto claim)) refl

-- the row as the verification of memsync reads it
abbrev pub stored_node : MemoryRow → NodeRow
stored_node r = record {
  memory_type = r.memory_type;
  namespace = r.namespace;
  subject = r.subject;
  body = r.body;
  source_uri = r.source_uri;
  source_hash = r.source_hash;
  author_agent_id = r.author_agent_id;
  origin_peer_id = r.origin_peer_id;
  authored_at_ms = r.authored_at_ms;
  valid_from_ms = r.valid_from_ms;
  valid_to_ms = r.valid_to_ms;
  author_signature = r.author_signature;
}

-- the signature of a row is one of the service's own key on its claim
abbrev pub Verifies : MemoryService → MemoryRow → Type 0
Verifies svc r =
    verify_claim svc.crypto (claim_of r.memory_id (some (stored_node r))) r.author_signature
      (public_key_hex svc.signer)
    ≡ ok tt

abbrev pub AllVerify : MemoryService → Memories → Type 0
AllVerify svc f =
    (private : Bool) (id : String) (r : MemoryRow) → f private id ≡ some r → Verifies svc r

prepare_store-Verifies :
    (svc : MemoryService) (seed : String) (signer : Signer) (env : Env) (req normal : StoreRequest)
    (signature : String)
    → IsKeyPair svc.crypto seed
    → new_signer_from_seed svc.crypto seed ≡ ok signer
    → svc.signer ≡ some signer
    → prepare_store svc env req ≡ ok (normal, signature)
    → Verifies svc (node_row normal signature)
unfolding prepare_store node_row claim_of claim_payload
prepare_store-Verifies svc seed signer env req normal signature pair made own prepared =
    let (r, first, next) = >>=-eq-ok (normalize_store_request env req) _ prepared in
    let (s, second, last) = >>=-eq-ok (sign_claim svc.crypto svc.signer (claim_payload r)) _ next in
    let same : r ≡ normal = cc in
    let sealed : s ≡ signature = cc in
    let signed : sign_claim svc.crypto (some signer) (claim_payload normal) ≡ ok signature =
      rw (own, same, sealed) at second in
    rw own (
      verify_claim-sign_claim svc.crypto seed signer (claim_payload normal) signature pair made
        signed)

put-AllVerify :
    (svc : MemoryService) (c : Bool) (id : String) (row : MemoryRow) (f : Memories)
    → Verifies svc row
    → AllVerify svc f
    → AllVerify svc (put c id row f)
unfolding put
put-AllVerify svc c id row f new old d j r at = elim (Bool-cases (same_space c d && id == j)) [
  | inl e ↦
      let found : some row ≡ some r = rw e at at in
      let here : row ≡ r = cc in subst (Verifies svc) here new
  | inr e ↦ old d j r (rw e at at)
]

retire-AllVerify :
    (svc : MemoryService) (old : String) (f : Memories)
    → AllVerify svc f
    → AllVerify svc (retire old f)
unfolding retire
retire-AllVerify svc old f h true id r at = h true id r at
retire-AllVerify svc old f h false id r at = elim (Bool-cases (old == id)) [
  | inr e ↦ h false id r (rw e at at)
  | inl e ↦ elim (Option-cases (f false id)) [
    | inl gone ↦ let absent : none ≡ some r = rw (e, gone) at at in cc
    | inr (x, there) ↦
        let found : some (set_superseded x) ≡ some r = rw (e, there) at at in
        let same : set_superseded x ≡ r = cc in subst (Verifies svc) same (h false id x there)
  ]
]

-- what the preparation of a request gives, if anything, verifies
abbrev Prepared : MemoryService → Result (StoreRequest × String) → Type 0
Prepared svc call =
    (normal : StoreRequest) (signature : String)
    → call ≡ ok (normal, signature)
    → Verifies svc (node_row normal signature)

add-AllVerify :
    (svc : MemoryService) (call : Result (StoreRequest × String)) (f : Memories)
    → Prepared svc call
    → AllVerify svc f
    → AllVerify svc (add call f)
unfolding add
add-AllVerify svc (err e) f good h = h
add-AllVerify svc (ok (req, signature)) f good h =
    elim (accepts req f)
      as (λ b. AllVerify svc (
        if b
        then put (is_private req.visibility) req.memory_id (node_row req signature) f
        else f)) [
          | true ↦
              put-AllVerify svc (is_private req.visibility) req.memory_id (node_row req signature) f
                (good req signature refl) h
          | false ↦ h
        ]

replace-AllVerify :
    (svc : MemoryService) (call : Result (StoreRequest × String)) (old : String) (f : Memories)
    → Prepared svc call
    → AllVerify svc f
    → AllVerify svc (replace call old f)
unfolding replace
replace-AllVerify svc (err e) old f good h = h
replace-AllVerify svc (ok (req, signature)) old f good h =
    elim (is_some (f false old) && accepts req f)
      as (λ b. AllVerify svc (
        if b
        then retire old (put (is_private req.visibility) req.memory_id (node_row req signature) f)
        else f)) [
          | true ↦ retire-AllVerify svc old _ (
              put-AllVerify svc (is_private req.visibility) req.memory_id (node_row req signature) f
                (good req signature refl) h)
          | false ↦ h
        ]

module _ (svc : MemoryService) (seed : String) (signer : Signer) (pair : IsKeyPair svc.crypto seed)
    (made : new_signer_from_seed svc.crypto seed ≡ ok signer) (own : svc.signer ≡ some signer) where
  replay-AllVerify :
      (calls : List Call) (f : Memories) → AllVerify svc f → AllVerify svc (replay svc calls f)
  unfolding replay
  replay-AllVerify [] f h = h
  replay-AllVerify (Call.store_call env req ∷ calls) f h = replay-AllVerify calls _ (
      add-AllVerify svc (prepare_store svc env req) f
        (λ normal signature.
          prepare_store-Verifies svc seed signer env req normal signature pair made own)
        h)
  replay-AllVerify (Call.supersede_call env old req ∷ calls) f h = replay-AllVerify calls _ (
      replace-AllVerify svc (prepare_store svc env _) old f
        (λ normal signature.
          prepare_store-Verifies svc seed signer env _ normal signature pair made own)
        h)
  replay-AllVerify (Call.signal_call env req ∷ calls) f h = replay-AllVerify calls f h

  -- Where the service signs with the key pair of a seed: if every memory of both spaces verified under
  -- the service's printed public key before, as memsync verifies a row, then whatever calls of Store,
  -- Supersede and Signal are made, every memory verifies after, the new and the superseded ones too.
  pub run-Verifies :
      (calls : List Call) (db : StoreDb)
      → AllVerify svc (view db)
      → AllVerify svc (view (run svc calls db))
  run-Verifies calls db h =
      subst (AllVerify svc) (sym (run-replay svc calls db)) (replay-AllVerify calls (view db) h)
