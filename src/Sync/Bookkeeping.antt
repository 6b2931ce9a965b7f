-- ===== src/Sync/Bookkeeping.antt =====
-- What ApplyBatch writes beside the changes: upsertVerificationStateTX, the cursor, the peer's row,
-- and enqueueNamespace of internal/memsync/service.go.
use mathlib.Core.List.{reverse}
use crdt_agent_memory.Prelude.{
  ℕ, ◌+◌, ℤ, pos, is_pos, Option, some, none, Result, ok, err, engine, String, ◌&&◌, List, [], ◌∷◌,
  not, take, any, ◌==◌, if◌then◌else◌,
}
use crdt_agent_memory.Table.{upsert, insert}
use crdt_agent_memory.Table.Keyed.{by_pair}
use crdt_agent_memory.Sync.Types.{
  Batch, LogRow, TrackedPeer, VerificationRow, QueueRow, Engine, Db, Service, Env,
}
use crdt_agent_memory.Sync.PeerStates.{for_peer, success_row, set_success}
use crdt_agent_memory.Sync.Extract.{cursor_peer, cursor_namespace}
use crdt_agent_memory.Sync.Verification.{VerificationResult}

abbrev pub space_of : VerificationRow → String
space_of r = r.memory_space

abbrev pub memory_of : VerificationRow → String
memory_of r = r.memory_id

-- upsertVerificationStateTX, for a shared memory
abbrev pub set_status : Env → VerificationResult → VerificationRow → VerificationRow
set_status env r v = record v {
  signature_status = r.status;
  detail = r.detail;
  checked_at_ms = env.now;
}

abbrev pub status_row : Env → VerificationResult → VerificationRow
status_row env r = record {
  memory_space = "shared";
  memory_id = r.memory_id;
  signature_status = r.status;
  detail = r.detail;
  checked_at_ms = env.now;
}

unfoldable pub record_results :
    Env → List VerificationResult → List VerificationRow → List VerificationRow
record_results env [] t = t
record_results env (r ∷ rs) t = record_results env rs (
    upsert (by_pair space_of memory_of "shared" r.memory_id) (set_status env r) (status_row env r)
      t)

-- sync_cursors: a batch with no version leaves the cursor
abbrev pub set_cursor : Env → ℤ → TrackedPeer → TrackedPeer
set_cursor env version r = record r { version = version; updated_at_ms = env.now }

abbrev pub cursor_row : Env → String → String → ℤ → TrackedPeer
cursor_row env peer_id namespace version = record {
  peer_id = peer_id;
  namespace = namespace;
  version = version;
  updated_at_ms = env.now;
}

unfoldable pub move_cursor : Env → String → String → ℤ → List TrackedPeer → List TrackedPeer
move_cursor env peer_id namespace version t =
    if is_pos version
    then upsert (by_pair cursor_peer cursor_namespace peer_id namespace) (set_cursor env version)
        (cursor_row env peer_id namespace version) t
    else t

-- the memories of a namespace in the log, latest entry first, each once
unfoldable pub logged_memories : String → List String → List LogRow → List String
logged_memories namespace seen [] = []
logged_memories namespace seen (r ∷ rs) =
    let rest = logged_memories namespace seen rs in
    let fresh = r.memory_id ∷ logged_memories namespace (r.memory_id ∷ seen) rs in
    if (r.namespace == namespace)
      && not (r.memory_id == "")
      && not (any (λ m. m == r.memory_id) seen)
    then fresh
    else rest

-- the loop of enqueueNamespace; `i` counts the identifiers drawn
unfoldable pub enqueue :
    (ℕ → Option String) → Env → ℕ → List String → List QueueRow → Result (Unit {0}) × List QueueRow
enqueue queue_error env i [] t = elim (queue_error i) [
  | some msg ↦ (err (engine msg), t)
  | none ↦ (ok tt, t)
]
enqueue queue_error env i (m ∷ ms) t = elim (queue_error i) [
  | some msg ↦ (err (engine msg), t)
  | none ↦ enqueue queue_error env (i + 1) ms (
      insert
        (record {
          queue_id = env.uuid i;
          memory_space = "shared";
          memory_id = m;
          enqueued_at_ms = env.now;
          processed_at_ms = pos 0;
        })
        t)
]

module _ (e : Engine) where
  open e use {Float, Shared, change_log, queue_error}

  -- enqueueNamespace, outside any transaction: what is queued before an error stays
  unfoldable pub enqueue_namespace :
      Env → String → Db Float Shared → Result (Unit {0}) × Db Float Shared
  enqueue_namespace env namespace db =
      let queued =
        enqueue queue_error env 0
          (take 32 (logged_memories namespace [] (reverse (change_log db.shared))))
          db.index_queue in
      (queued.0, record db { index_queue = queued.1 })

  -- the state that the transaction commits
  unfoldable pub commit_batch :
      Service
      → Env
      → String
      → Batch Float
      → List VerificationResult
      → Shared
      → Db Float Shared
      → Db Float Shared
  commit_batch svc env from_peer_id batch results s db = record db {
    shared = s;
    verification = record_results env results db.verification;
    cursors = move_cursor env from_peer_id batch.namespace batch.max_version db.cursors;
    peer_states =
        upsert (for_peer from_peer_id batch.namespace) (set_success svc env)
          (success_row svc env from_peer_id batch.namespace) db.peer_states;
  }
