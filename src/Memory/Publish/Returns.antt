-- ===== src/Memory/Publish/Returns.antt =====
-- Publish of internal/memory/retrieval_units.go, on memories that it can publish.
use crdt_agent_memory.Prelude.{
  ℕ, ◌+◌, ◌*◌, String, ◌≡◌, ◌∙◌, sym, ap, refl, true, false, Bool, Option, some, none, List, [],
  message, Result-cases, Result, ok, err, inl, inr, is_ok, refuse, ◌>>=◌, ◌==◌, if◌then◌else◌,
}
use crdt_agent_memory.Text.{trim, is_blank}
use crdt_agent_memory.Table.{find}
use crdt_agent_memory.Table.Keyed.{by}
use crdt_agent_memory.Signing.{Signer, sign_claim, canonical_bytes}
use crdt_agent_memory.Sync.Types.{Env}
use crdt_agent_memory.Memory.Requests.{StoreRequest, normalize_store_request, with_defaults, each}
use crdt_agent_memory.Memory.Tables.{MemoryRow, StoreDb, memory_key}
use crdt_agent_memory.Memory.Store.{MemoryService, commit, prepare_store, store_tx, claim_payload}
use crdt_agent_memory.Memory.Store.View.{view, accepts, store_tx-accepts}
use crdt_agent_memory.Memory.Publish.{
  Redaction, published_request, redact_text, load_private, normalize_redaction_policy, publish_tx,
  record_publication, publish,
}

prepared :
    (svc : MemoryService) (s : Signer) (r : Redaction) (env : Env) (policy : String)
    (row : MemoryRow)
    → svc.signer ≡ some s
    → is_blank row.namespace ≡ false
    → is_blank (redact_text r policy row.body) ≡ false
    → (signature : String) × (prepare_store svc env (published_request r policy row)
        ≡ ok (with_defaults env (published_request r policy row), signature))
unfolding prepare_store normalize_store_request published_request sign_claim with_defaults each
prepared svc s r env policy row signs spaced bodied =
    let claim = claim_payload (with_defaults env (published_request r policy row)) in
    (
      svc.crypto.sign s.private_key (canonical_bytes svc.crypto claim),
      rw (bodied, spaced, signs) refl,
    )

accepted :
    (svc : MemoryService) (r : Redaction) (env : Env) (policy signature : String) (row : MemoryRow)
    (db : StoreDb)
    → view db false (env.uuid 0) ≡ none
    → is_ok (store_tx svc env (with_defaults env (published_request r policy row)) signature db)
      ≡ true
unfolding accepts published_request with_defaults crdt_agent_memory.Prelude.every
accepted svc r env policy signature row db fresh =
    store_tx-accepts svc env (with_defaults env (published_request r policy row)) signature db
    ∙ rw fresh refl

published :
    (svc : MemoryService) (r : Redaction) (env : Env) (id policy signature : String)
    (row : MemoryRow) (db d : StoreDb) (normal : StoreRequest)
    → find (by memory_key id) db.private.nodes ≡ some row
    → prepare_store svc env (published_request r policy row) ≡ ok (normal, signature)
    → store_tx svc env normal signature db ≡ ok d
    → publish_tx svc r env id policy db
      ≡ ok (normal.memory_id, record_publication env id normal.memory_id d)
unfolding publish_tx load_private
published svc r env id policy signature row db d normal found first stored =
    let loaded : load_private id db ≡ ok row = rw (found, load_private) refl in
    rw (loaded, first, stored) refl

drawn :
    (r : Redaction) (env : Env) (policy : String) (row : MemoryRow)
    → (with_defaults env (published_request r policy row)).memory_id ≡ env.uuid 0
unfolding with_defaults published_request
drawn r env policy row = refl

-- Publish succeeds, where the given identifier is not blank, the service has a signer, the policy is known, the private memory is there
-- with a namespace and a body that redaction does not blank, and the fresh identifier that the call
-- draws names no shared memory; that identifier is what it returns. It does not matter whether the
-- memory has been published before, nor what else its body holds.
pub publish-returns :
    (svc : MemoryService) (s : Signer) (r : Redaction) (env : Env)
    (private_id redaction_policy policy : String) (row : MemoryRow) (db : StoreDb)
    → svc.signer ≡ some s
    → (trim private_id == "") ≡ false
    → normalize_redaction_policy redaction_policy ≡ ok policy
    → find (by memory_key (trim private_id)) db.private.nodes ≡ some row
    → is_blank row.namespace ≡ false
    → is_blank (redact_text r policy row.body) ≡ false
    → view db false (env.uuid 0) ≡ none
    → (publish svc r env private_id redaction_policy db).0 ≡ ok (env.uuid 0)
unfolding publish commit
publish-returns svc s r env private_id redaction_policy policy row db signs named chosen found
      spaced bodied fresh =
    let (signature, first) = prepared svc s r env policy row signs spaced bodied in
    let made = with_defaults env (published_request r policy row) in
    let can = accepted svc r env policy signature row db fresh in
    elim (Result-cases (store_tx svc env made signature db)) [
      | inl (d, e) ↦
          rw
            (
              named,
              chosen,
              published svc r env (trim private_id) policy signature row db d made found first e,
            )
            (ap ok (drawn r env policy row))
      | inr (x, e) ↦ let refused = ap is_ok e in cc
    ]
