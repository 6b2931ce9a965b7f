-- ===== src/Sync/Apply.antt =====
-- Service.ApplyBatch of internal/memsync/service.go. Statements of the transaction are kept only
-- by its commit; quarantineBatch and enqueueNamespace write on other connections, outside it.
pub mod Effects
pub mod Cursor
pub mod Refusal
pub mod Verified
use crdt_agent_memory.Prelude.{
  String, Bool, true, false, ◌||◌, none, some, List, not, engine, error_text, Result, ok, err, ◌==◌,
  if◌then◌else◌,
}
use crdt_agent_memory.Signing.{Crypto}
use crdt_agent_memory.Sync.Types.{Batch, Engine, Db, Service, Env}
use crdt_agent_memory.Sync.Quarantine.{quarantine_batch}
use crdt_agent_memory.Sync.Changes.{Applied, applied, undecodable, failed, apply_changes}
use crdt_agent_memory.Sync.Bookkeeping.{commit_batch, enqueue_namespace}
use crdt_agent_memory.Sync.Verification.{VerificationResult, evaluate_batch_verification}

module _ (crypto : Crypto) (e : Engine) where
  open e use {Float, Shared, second_writer}

  -- quarantineBatch while the transaction is open
  unfoldable pub quarantine_in_tx :
      Bool
      → Service
      → Env
      → String
      → Batch Float
      → String
      → Db Float Shared
      → Result (Unit {0}) × Db Float Shared
  quarantine_in_tx false svc env from_peer_id batch reason db =
      quarantine_batch svc env from_peer_id batch reason db
  quarantine_in_tx true svc env from_peer_id batch reason db = elim second_writer [
    | none ↦ quarantine_batch svc env from_peer_id batch reason db
    | some busy ↦ (err (engine busy), db)
  ]

  unfoldable pub finish_batch :
      Service
      → Env
      → String
      → Batch Float
      → List VerificationResult
      → Db Float Shared
      → Applied Shared
      → Result (Unit {0}) × Db Float Shared
  finish_batch svc env from_peer_id batch results db (applied s) =
      enqueue_namespace e env batch.namespace
        (commit_batch e svc env from_peer_id batch results s db)
  finish_batch svc env from_peer_id batch results db (undecodable reason wrote) =
      quarantine_in_tx wrote svc env from_peer_id batch (error_text reason) db
  finish_batch svc env from_peer_id batch results db (failed msg) = (err (engine msg), db)

  unfoldable pub verified_batch :
      Service
      → Env
      → String
      → Batch Float
      → Db Float Shared
      → Result (List VerificationResult)
      → Result (Unit {0}) × Db Float Shared
  verified_batch svc env from_peer_id batch db (err reason) =
      quarantine_batch svc env from_peer_id batch (error_text reason) db
  verified_batch svc env from_peer_id batch db (ok results) =
      finish_batch svc env from_peer_id batch results db
        (apply_changes e false batch.changes db.shared)

  -- a batch for another schema, or for other replicated tables
  abbrev pub is_foreign : Service → Batch Float → Bool
  is_foreign svc batch =
      not (batch.schema_hash == svc.meta.schema_hash)
      || not (batch.crr_manifest_hash == svc.meta.crr_manifest_hash)

  unfoldable pub apply_batch :
      Service → Env → String → Batch Float → Db Float Shared → Result (Unit {0}) × Db Float Shared
  apply_batch svc env from_peer_id batch db =
      if is_foreign svc batch
      then quarantine_batch svc env from_peer_id batch "incompatible batch metadata" db
      else verified_batch svc env from_peer_id batch db
          (evaluate_batch_verification crypto e db batch)
