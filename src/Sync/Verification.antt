-- ===== src/Sync/Verification.antt =====
-- Which memories of a batch carry a valid signature: evaluateBatchVerification,
-- loadSharedMemoryCandidate and applyMemoryNodeChange of internal/memsync/service.go. The Go map
-- of candidates and the order in which its keys were added are one list.
pub mod Outcome
pub mod Keys
pub mod Patched
use Prim.Native.String.{◌++◌}
use crdt_agent_memory.Prelude.{
  pos, String, Option, none, some, List, [], ◌∷◌, message, error_text, Result, ok, err, ◌>>=◌, ◌==◌,
  if◌then◌else◌,
}
use crdt_agent_memory.Text.{is_blank}
use crdt_agent_memory.Table.{find, upsert}
use crdt_agent_memory.Table.Keyed.{by}
use crdt_agent_memory.Policy.{lookup_signing_public_key}
use crdt_agent_memory.Signing.{ClaimPayload, Crypto, current_version, verify_claim}
use crdt_agent_memory.Sync.Types.{Value, Change, Batch, NodeRow, Engine, Db}
use crdt_agent_memory.Sync.Values.{
  value_as_string, value_as_int64, value_as_bytes, decode_primary_key_text,
}

pub record VerificationResult : Type 0 where
  pub memory_id : String
  pub status : String
  pub detail : String

-- sharedMemoryCandidate, with the key under which the map holds it
pub record Candidate : Type 0 where
  pub key : String
  pub claim : ClaimPayload
  pub signature : String

abbrev pub candidate_key : Candidate → String
candidate_key c = c.key

-- the zero value of a claim
abbrev pub empty_claim : ClaimPayload
empty_claim = record {
  memory_id = "";
  memory_type = "";
  namespace = "";
  subject = "";
  body = "";
  source_uri = "";
  source_hash = "";
  author_agent_id = "";
  origin_peer_id = "";
  authored_at_ms = pos 0;
  valid_from_ms = pos 0;
  valid_to_ms = pos 0;
  payload_version = pos 0;
}

-- the claim of a stored memory
unfoldable pub claim_of : String → Option NodeRow → ClaimPayload
claim_of memory_id none = record empty_claim {
  memory_id = memory_id;
  payload_version = current_version;
}
claim_of memory_id (some n) = record {
  memory_id = memory_id;
  memory_type = n.memory_type;
  namespace = n.namespace;
  subject = n.subject;
  body = n.body;
  source_uri = n.source_uri;
  source_hash = n.source_hash;
  author_agent_id = n.author_agent_id;
  origin_peer_id = n.origin_peer_id;
  authored_at_ms = n.authored_at_ms;
  valid_from_ms = n.valid_from_ms;
  valid_to_ms = n.valid_to_ms;
  payload_version = current_version;
}

unfoldable pub load_candidate : String → Option NodeRow → Candidate
unfolding claim_of
load_candidate memory_id row = record {
  key = memory_id;
  claim = claim_of memory_id row;
  signature = elim row [ none ↦ "" | some n ↦ n.author_signature ];
}

module _ {F : Type 0} (format_float : F → String) where
  -- the switch on change.CID
  unfoldable pub apply_memory_node_change : Candidate → Change F → Result Candidate
  apply_memory_node_change c change =
      let text = value_as_string format_float change.val in
      let claim = c.claim in
      if change.cid == "memory_id"
      then ok (record c { claim = record claim { memory_id = text } })
      else if change.cid == "memory_type"
      then ok (record c { claim = record claim { memory_type = text } })
      else if change.cid == "namespace"
      then ok (record c { claim = record claim { namespace = text } })
      else if change.cid == "subject"
      then ok (record c { claim = record claim { subject = text } })
      else if change.cid == "body"
      then ok (record c { claim = record claim { body = text } })
      else if change.cid == "source_uri"
      then ok (record c { claim = record claim { source_uri = text } })
      else if change.cid == "source_hash"
      then ok (record c { claim = record claim { source_hash = text } })
      else if change.cid == "author_agent_id"
      then ok (record c { claim = record claim { author_agent_id = text } })
      else if change.cid == "origin_peer_id"
      then ok (record c { claim = record claim { origin_peer_id = text } })
      else if change.cid == "authored_at_ms"
      then (do
        n ← value_as_int64 change.val
        ok (record c { claim = record claim { authored_at_ms = n } }))
      else if change.cid == "valid_from_ms"
      then (do
        n ← value_as_int64 change.val
        ok (record c { claim = record claim { valid_from_ms = n } }))
      else if change.cid == "valid_to_ms"
      then (do
        n ← value_as_int64 change.val
        ok (record c { claim = record claim { valid_to_ms = n } }))
      else if change.cid == "author_signature"
      then (do b ← value_as_bytes change.val; ok (record c { signature = b }))
      else ok c

module _ (crypto : Crypto) (engine : Engine) where
  open engine use {Float, Shared, format_float, node}

  -- the candidate of a memory: the one collected so far, or the stored row
  unfoldable pub candidate_for : Shared → String → List Candidate → Candidate
  candidate_for s memory_id cs = elim (find (by candidate_key memory_id) cs) [
    | none ↦ load_candidate memory_id (node s memory_id)
    | some c ↦ c
  ]

  -- one round of the first loop
  unfoldable pub collect_change : Shared → Change Float → List Candidate → Result (List Candidate)
  collect_change s change cs =
      let memory_id = decode_primary_key_text change.pk_b64 in
      if change.table == "memory_nodes"
      then (if is_blank memory_id then ok cs else do
        c ← apply_memory_node_change format_float (candidate_for s memory_id cs) change
        ok (upsert (by candidate_key memory_id) (λ _. c) c cs))
      else ok cs

  unfoldable pub collect : Shared → List (Change Float) → List Candidate → Result (List Candidate)
  collect s [] cs = ok cs
  collect s (change ∷ rest) cs = do cs' ← collect_change s change cs; collect s rest cs'

  -- one round of the second loop
  unfoldable pub evaluate : Db Float Shared → Candidate → Result VerificationResult
  evaluate db c =
      let key = lookup_signing_public_key c.claim.origin_peer_id db.policies in
      if c.signature == ""
      then ok (record { memory_id = c.key; status = "missing_signature"; detail = "" })
      else if is_blank key
      then err (message ("unknown peer signing key for " ++ c.claim.memory_id))
      else elim (verify_claim crypto c.claim c.signature key) [
        | err e ↦
            err (message ("invalid signature for " ++ c.claim.memory_id ++ ": " ++ error_text e))
        | ok _ ↦ ok (record { memory_id = c.key; status = "valid"; detail = "" })
      ]

  unfoldable pub evaluate_all : Db Float Shared → List Candidate → Result (List VerificationResult)
  evaluate_all db [] = ok []
  evaluate_all db (c ∷ cs) = do r ← evaluate db c; rs ← evaluate_all db cs; ok (r ∷ rs)

  unfoldable pub evaluate_batch_verification :
      Db Float Shared → Batch Float → Result (List VerificationResult)
  evaluate_batch_verification db batch = do
    candidates ← collect db.shared batch.changes []
    evaluate_all db candidates
