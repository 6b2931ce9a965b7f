-- ===== src/Memory/Tables.antt =====
-- The tables that internal/memory, internal/ingest and internal/indexer write, as
-- migrations/0001_base.sql, 0004_artifact_spans.sql and 0006_transcript_memory.sql declare them. The
-- tables memory_nodes, memory_signals, memory_edges, artifact_refs and artifact_spans have a private
-- twin, so that a row of either is one record; a column that the private twin lacks is empty.
use crdt_agent_memory.Prelude.{ℕ, ℤ, String, Bool, List, is_some, ◌==◌, if◌then◌else◌}
use crdt_agent_memory.Table.{find}
use crdt_agent_memory.Table.Keyed.{by}
use crdt_agent_memory.Sync.Types.{VerificationRow, QueueRow}

pub record MemoryRow : Type 0 where
  pub memory_id : String
  pub memory_type : String
  pub namespace : String
  pub scope : String
  pub subject : String
  pub body : String
  pub source_uri : String
  pub source_hash : String
  pub author_agent_id : String
  pub origin_peer_id : String
  pub authored_at_ms : ℤ
  pub valid_from_ms : ℤ
  pub valid_to_ms : ℤ
  pub lifecycle_state : String
  pub author_signature : String

pub record SignalRow : Type 0 where
  pub signal_id : String
  pub memory_id : String
  pub peer_id : String
  pub agent_id : String
  pub signal_type : String
  pub value : ℤ
  pub reason : String
  pub authored_at_ms : ℤ

pub record MemoryEdge : Type 0 where
  pub edge_id : String
  pub from_memory_id : String
  pub to_memory_id : String
  pub relation_type : String
  pub weight : ℤ
  pub origin_peer_id : String
  pub authored_at_ms : ℤ

pub record ArtifactRef : Type 0 where
  pub artifact_id : String
  pub namespace : String
  pub uri : String
  pub content_hash : String
  pub title : String
  pub mime_type : String
  pub origin_peer_id : String
  pub authored_at_ms : ℤ

pub record ArtifactSpan : Type 0 where
  pub span_id : String
  pub artifact_id : String
  -- the memory, or the chunk in transcript_artifact_spans
  pub owner_id : String
  pub start_offset : ℤ
  pub end_offset : ℤ
  pub start_line : ℤ
  pub end_line : ℤ
  pub quote_hash : String
  pub authored_at_ms : ℤ

-- the tables of one memory space
pub record Space : Type 0 where
  pub nodes : List MemoryRow
  pub signals : List SignalRow
  pub edges : List MemoryEdge
  pub refs : List ArtifactRef
  pub spans : List ArtifactSpan

pub record RetrievalUnit : Type 0 where
  pub unit_id : String
  pub source_type : String
  pub source_id : String
  pub memory_space : String
  pub namespace : String
  pub unit_kind : String
  pub title : String
  pub body : String
  pub body_hash : String
  pub authored_at_ms : ℤ
  pub sensitivity : String
  pub retention_class : String
  pub state : String
  pub source_uri : String
  pub project_key : String
  pub branch_name : String

-- a row of retrieval_index_queue; processed_at_ms is 0 until the item is processed
pub record UnitQueueRow : Type 0 where
  pub queue_id : String
  pub unit_id : String
  pub enqueued_at_ms : ℤ
  pub processed_at_ms : ℤ

-- a row of transcript_chunks, without the columns that are constant
pub record ChunkRow : Type 0 where
  pub chunk_id : String
  pub session_id : String
  pub chunk_seq : ℕ
  pub chunk_kind : String
  pub start_seq : ℤ
  pub end_seq : ℤ
  pub text : String
  pub normalized_text : String
  pub content_hash : String
  pub authored_at_ms : ℤ
  pub sensitivity : String
  pub retention_class : String

-- a row of transcript_promotions or of memory_publications: from a chunk or a private memory to
-- the memory made of it
pub record Derivation : Type 0 where
  pub derivation_id : String
  pub from_id : String
  pub memory_id : String
  pub created_at_ms : ℤ

pub record StoreDb : Type 0 where
  pub shared : Space
  pub private : Space
  pub verification : List VerificationRow
  pub units : List RetrievalUnit
  pub unit_queue : List UnitQueueRow
  pub index_queue : List QueueRow
  pub chunks : List ChunkRow
  pub transcript_spans : List ArtifactSpan
  pub promotions : List Derivation
  pub publications : List Derivation

abbrev pub memory_key : MemoryRow → String
memory_key r = r.memory_id

abbrev pub ref_key : ArtifactRef → String
ref_key r = r.artifact_id

abbrev pub unit_key : RetrievalUnit → String
unit_key u = u.unit_id

abbrev pub chunk_key : ChunkRow → String
chunk_key c = c.chunk_id

-- the tables of a memory space, once it is known to be one
abbrev pub tables : String → StoreDb → Space
tables space db = if space == "private" then db.private else db.shared

abbrev pub set_tables : String → Space → StoreDb → StoreDb
set_tables space t db =
    if space == "private" then record db { private = t } else record db { shared = t }

abbrev pub on_space : String → (Space → Space) → StoreDb → StoreDb
on_space space f db = set_tables space (f (tables space db)) db

-- SELECT EXISTS(SELECT 1 FROM ... WHERE memory_id = ?)
abbrev pub memory_exists : String → List MemoryRow → Bool
memory_exists memory_id rows = is_some (find (by memory_key memory_id) rows)
