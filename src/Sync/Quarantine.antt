-- ===== src/Sync/Quarantine.antt =====
-- quarantineBatch of internal/memsync/service.go: a batch that is refused is kept for inspection,
-- and the peer's row takes the reason.
use crdt_agent_memory.Prelude.{String, message, engine, Result, err, is_some, if◌then◌else◌}
use crdt_agent_memory.Text.{contains}
use crdt_agent_memory.Table.{find, insert}
use crdt_agent_memory.Table.Keyed.{by}
use crdt_agent_memory.Sync.Types.{Batch, QuarantineRow, Db, Service, Env}
use crdt_agent_memory.Sync.PeerStates.{mark_sync_error}

module _ {F : Type 0} where
  abbrev pub quarantine_key : QuarantineRow F → String
  quarantine_key r = r.batch_id

  abbrev pub quarantine_row : Env → String → Batch F → String → QuarantineRow F
  quarantine_row env from_peer_id batch reason = record {
    batch_id = batch.batch_id;
    peer_id = from_peer_id;
    namespace = batch.namespace;
    reason = reason;
    payload = batch;
    created_at_ms = env.now;
  }

  -- quarantineBatch: a batch that is in quarantine already is refused by the table's primary key
  unfoldable pub quarantine_batch :
      {S : Type 0} → Service → Env → String → Batch F → String → Db F S → Result (Unit {0}) × Db F S
  quarantine_batch svc env from_peer_id batch reason db =
      if is_some (find (by quarantine_key batch.batch_id) db.quarantine)
      then (err (engine "UNIQUE constraint failed: sync_quarantine.batch_id"), db)
      else (
        err (message reason),
        mark_sync_error svc env from_peer_id batch.namespace reason (contains reason "schema")
            (record db {
              quarantine = insert (quarantine_row env from_peer_id batch reason) db.quarantine;
            }),
      )
