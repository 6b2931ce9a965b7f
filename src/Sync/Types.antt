-- ===== src/Sync/Types.antt =====
-- internal/memsync/types.go, storage.Metadata, and the rows of the tables that synchronisation
-- reads and writes. cr-sqlite, which holds the replicated tables, is the parameter `Engine`.
use crdt_agent_memory.Prelude.{ℕ, ℤ, String, Bool, Option, List}
use crdt_agent_memory.Policy.{PeerPolicy}

-- storage.Metadata
pub record Metadata : Type 0 where
  pub schema_hash : String
  pub crr_manifest_hash : String
  pub protocol_version : String
  pub min_compatible_protocol_version : String

pub record HandshakeRequest : Type 0 where
  pub protocol_version : String
  pub min_compatible_protocol_version : String
  pub peer_id : String
  pub schema_hash : String
  pub crr_manifest_hash : String
  pub namespaces : List String

pub record HandshakeResponse : Type 0 where
  pub peer_id : String
  pub schema_hash : String
  pub crr_manifest_hash : String
  pub namespaces : List String
  pub negotiated_protocol : String

-- A value on the wire, over the type of 64-bit floats; a nil pointer is `none`.
pub record Value (F : Type 0) : Type 0 where
  pub is_null : Bool
  pub integer : Option ℤ
  pub float : Option F
  pub text : Option String
  pub blob_b64 : Option String

pub record Change (F : Type 0) : Type 0 where
  pub table : String
  pub pk_b64 : String
  pub cid : String
  pub val : Value F
  pub col_version : ℤ
  pub db_version : ℤ
  pub site_id_b64 : String
  pub cl : ℤ
  pub seq : ℤ

pub record Batch (F : Type 0) : Type 0 where
  pub batch_id : String
  pub from_peer_id : String
  pub namespace : String
  pub schema_hash : String
  pub crr_manifest_hash : String
  pub max_version : ℤ
  pub changes : List (Change F)

pub record PullRequest : Type 0 where
  pub peer_id : String
  pub namespace : String
  pub limit : ℤ

pub record ApplyRequest (F : Type 0) : Type 0 where
  pub from_peer_id : String
  pub batch : Batch F

-- a row of peer_sync_state
pub record PeerState : Type 0 where
  pub peer_id : String
  pub namespace : String
  pub last_seen_at_ms : ℤ
  pub last_transport : String
  pub last_path_type : String
  pub last_error : String
  pub last_success_at_ms : ℤ
  pub schema_fenced : Bool

-- a row of sync_cursors
pub record TrackedPeer : Type 0 where
  pub peer_id : String
  pub namespace : String
  pub version : ℤ
  pub updated_at_ms : ℤ

pub record Diagnostics : Type 0 where
  pub schema_hash : String
  pub crr_manifest_hash : String
  pub tracked_peers : List TrackedPeer
  pub peer_states : List PeerState
  pub quarantine_count : ℕ

pub record SyncStatus : Type 0 where
  pub namespace : String
  pub state : String
  pub schema_fenced : Bool
  pub peers : List PeerState

-- a row of sync_quarantine; payload_json is the batch itself
pub record QuarantineRow (F : Type 0) : Type 0 where
  pub batch_id : String
  pub peer_id : String
  pub namespace : String
  pub reason : String
  pub payload : Batch F
  pub created_at_ms : ℤ

-- a row of memory_verification_state
pub record VerificationRow : Type 0 where
  pub memory_space : String
  pub memory_id : String
  pub signature_status : String
  pub detail : String
  pub checked_at_ms : ℤ

-- a row of index_queue; processed_at_ms is 0 until the item is processed
pub record QueueRow : Type 0 where
  pub queue_id : String
  pub memory_space : String
  pub memory_id : String
  pub enqueued_at_ms : ℤ
  pub processed_at_ms : ℤ

-- a row of sync_change_log, which the triggers write
pub record LogRow : Type 0 where
  pub db_version : ℤ
  pub table_name : String
  pub namespace : String
  pub memory_id : String

-- a row of memory_nodes, as far as a signed claim needs it
pub record NodeRow : Type 0 where
  pub memory_type : String
  pub namespace : String
  pub subject : String
  pub body : String
  pub source_uri : String
  pub source_hash : String
  pub author_agent_id : String
  pub origin_peer_id : String
  pub authored_at_ms : ℤ
  pub valid_from_ms : ℤ
  pub valid_to_ms : ℤ
  pub author_signature : String

-- a value that goes into the database
pub data SqlValue (F : Type 0) : Type 0 where
  null : SqlValue F
  int : ℤ → SqlValue F
  real : F → SqlValue F
  text : String → SqlValue F
  blob : String → SqlValue F

-- a row of crsql_changes, over the type of its value
pub record ChangeRow (V : Type 0) : Type 0 where
  pub table : String
  pub pk : String
  pub cid : String
  pub val : V
  pub col_version : ℤ
  pub db_version : ℤ
  pub site_id : String
  pub cl : ℤ
  pub seq : ℤ

-- what the engine answers to an INSERT INTO crsql_changes
pub data Merge (S : Type 0) : Type 0 where
  merged : S → Merge S
  refused : String → Merge S

-- cr-sqlite and the floats. `Shared` is the content of the replicated tables, with their change
-- history and the log that the triggers write.
pub record Engine : Type 1 where
  pub Float : Type 0
  -- strconv.FormatFloat(x, 'f', -1, 64)
  pub format_float : Float → String
  pub Shared : Type 0
  -- SELECT ... FROM crsql_changes, a value as the bytes that the driver returns
  pub changes : Shared → List (ChangeRow (Option String))
  -- INSERT INTO crsql_changes
  pub merge : ChangeRow (SqlValue Float) → Shared → Merge Shared
  -- sync_change_log, by ascending id
  pub change_log : Shared → List LogRow
  -- the row of memory_nodes with this memory_id
  pub node : Shared → String → Option NodeRow
  -- what a write on another connection meets while a transaction holds the write lock:
  -- `some` error, or `none` where it goes through
  pub second_writer : Option String
  -- the error, if any, that enqueueNamespace meets after so many insertions: of its query, of the
  -- rows, or of the next insertion
  pub queue_error : ℕ → Option String

pub record Db (F S : Type 0) : Type 0 where
  pub shared : S
  pub policies : List PeerPolicy
  pub cursors : List TrackedPeer
  pub peer_states : List PeerState
  pub quarantine : List (QuarantineRow F)
  pub verification : List VerificationRow
  pub index_queue : List QueueRow

-- the clock, read once in a call, and the identifiers that uuid.NewString hands out during it
pub record Env : Type 0 where
  pub now : ℤ
  pub uuid : ℕ → String

-- memsync.Service without its database
pub record Service : Type 0 where
  pub meta : Metadata
  pub self_peer : String
  pub transport : String
