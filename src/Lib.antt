-- ===== src/Lib.antt =====
-- crdt_agent_memory: a model of the synchronisation, storage, ingestion, indexing and repair of the
-- agent memory.
--
-- The program keeps memories of agents in SQLite, in shared tables that cr-sqlite replicates and in
-- private ones. Peers exchange the changes of the shared tables by namespace (internal/memsync,
-- driven by cmd/syncd), let in the peers of a registry only (internal/policy, internal/config),
-- verify the authors' signatures (internal/signing), and repair what arrives incomplete
-- (internal/scrubber). internal/memory stores memories and answers queries about them.
--
-- Files, and what they model:
-- - Policy: AllowPeer, SyncRegistry and IsAllowed of internal/policy/repository.go, with the key
--   lookup of internal/memsync/service.go; the table peer_policies is a list of rows.
-- - Signing: internal/signing/signing.go: the fields of a canonical claim, key parsing, signing and
--   verification. Ed25519 and the rendering of JSON are the parameter `Crypto`.
-- - Config: applyDefaults, Validate and Load of internal/config/config.go, behind the decoding.
-- - Sync: internal/memsync. Types holds the messages, the rows and the state `Db`; Values the
--   encoding of values and primary keys; Handshake, Extract (ExtractBatch), Verification
--   (evaluateBatchVerification), Quarantine, Changes (the loop of ApplyBatch), Bookkeeping (the
--   rest
--   of its transaction and enqueueNamespace), Apply (ApplyBatch as a whole), Status (Diagnostics,
--   SyncStatus), Transport (transport.go, and the handlers of http_transport.go), Cycle (syncPeer
--   and runOnce of cmd/syncd/main.go, over any client).
-- - Scrubber: RunActiveRepair and Diagnose of internal/scrubber/service.go.
-- - Memory: of internal/memory/service.go, walkTraceDecision with its queries (Memory.Trace), the
--   normalisation of requests and the ranking bucket (Memory.Requests), and Store, Supersede and
--   Signal (Memory.Store, with the units of internal/memory/retrieval_units.go) over the rows of
--   Memory.Tables; internal/memory/candidates.go (Memory.Candidates), with ApproveCandidate beside
--   Promote (Memory.Promote) and Publish (Memory.Publish) of retrieval_units.go; scores
--   and ranking (Memory.Ranking), where Go's floats are the parameter `Floats`, and RecallDetailed
--   with its merge (Memory.Recall), where the queries are the parameter `RecallQueries`.
-- - Ingest: internal/ingest/session_ingest.go: requests and messages (Ingest), chunks
--   (Ingest.Chunks),
--   what is written for a chunk, and IngestSession (Ingest.Write). The regular expressions are
--   functions of the parameter `Library`.
-- - Indexer: internal/indexer/worker.go: ProcessOnce over both queues, and Diagnostics. The
--   provider of
--   embeddings and sqlite-vec are the parameter `Backend`.
-- - Text, Encoding, Table: what the source uses of Go's strings, hex, base64 and strconv packages,
--   and SQL statements on a table that is a list of rows. Prelude: shared names and lemmas.
-- - Sample, SyncTests, PeerTests, StoreTests, MemoryTests, PublishTests, RecallTests, IndexTests:
--   small
--   data, and the theorems applied to it.
--
-- How state and effects are written: an operation takes the database and returns a result with the
-- database after it. The clock and the identifiers of a call come in as `Env`. A transaction is the
-- state after its commit; what the source writes on another connection while one is open goes
-- through `quarantine_in_tx`, where the parameter `Engine` says whether the write lock stops it.
-- The replicated tables are the abstract type `Shared` of `Engine`, with the queries and the insert
-- into crsql_changes that the source makes; the calls of internal/memory, which write ordinary
-- rows,
-- have the same tables as lists of rows (`StoreDb`). A Go string or byte slice is a text with one
-- character
-- per byte; letter case and white space are those of ASCII. An int64 is an unbounded integer, which
-- is only compared, copied and subtracted; weights are in thousandths. A Go map is a list of
-- entries; where promotion goes over one, the order decides only which identifiers the new edges
-- get.
--
-- Fuel: none. Loops recurse on the list that they go through; the walk of a trace recurses on the
-- number of depths that are left, which is the source's own bound.
--
-- Not modelled: failures of the database other than a refused row, a duplicate batch in the
-- quarantine, a repeated link of a candidate, a busy writer, and the errors of enqueueNamespace;
-- HTTP, JSON and YAML framing; files, processes and printing; migrations and triggers
-- (internal/storage); of internal/memory, the queries of a recall, its search terms (which depend
-- on
-- the tables of Unicode), and explanation; internal/embedding, internal/api, internal/cam, and the
-- commands but syncd's cycle. Texts of third-party errors are shortened.
mod Prelude
pub mod Text
pub mod Table
pub mod Policy
pub mod Encoding
pub mod Signing
pub mod Sync
pub mod Config
pub mod Scrubber
pub mod Memory
pub mod Ingest
pub mod Indexer
pub mod Sample
pub mod SyncTests
pub mod PeerTests
pub mod StoreTests
pub mod MemoryTests
pub mod IndexTests
pub mod PublishTests
pub mod RecallTests
