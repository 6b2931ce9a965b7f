-- ===== src/Memory/Store.antt =====
-- Store, Supersede and Signal of internal/memory/service.go with all that they call, and the
-- retrieval unit of a stored memory of internal/memory/retrieval_units.go. The body of a transaction
-- is a function to a result with the tables after it; `commit` keeps the old ones on an error.
-- Which number a fresh identifier has is of no matter, as long as no two of a call share it.
pub mod Sound
pub mod View
pub mod Signed
pub mod Steps
pub mod Refine
use crdt_agent_memory.Prelude.{
  ℕ, ◌+◌, ◌*◌, ℤ, pos, is_zero, String, Bool, not, Option, List, [], ◌∷◌, ◌++◌, length, message,
  not_found, engine, Result, ok, err, ◌>>=◌, ◌>>◌, refuse, ◌==◌, if◌then◌else◌,
}
use crdt_agent_memory.Table.{upsert, insert, update}
use crdt_agent_memory.Table.Keyed.{by, by_pair}
use crdt_agent_memory.Encoding.Hex.{hex_encode}
use crdt_agent_memory.Signing.{Crypto, ClaimPayload, Signer, current_version, sign_claim}
use crdt_agent_memory.Sync.Types.{Env, VerificationRow}
use crdt_agent_memory.Memory.Requests.{
  ArtifactSpanInput, MemoryRelationInput, StoreRequest, SignalRequest, or_else, or_number, is_space,
  normalize_store_request, normalize_signal_request,
}
use crdt_agent_memory.Memory.Tables.{
  MemoryRow, SignalRow, MemoryEdge, ArtifactRef, ArtifactSpan, Space, RetrievalUnit, StoreDb,
  memory_key, ref_key, unit_key, tables, on_space, memory_exists,
}

-- memory.Service without its database, with crypto/sha256
pub record MemoryService : Type 0 where
  pub crypto : Crypto
  pub sha256 : String → String
  pub signer : Option Signer

unfoldable pub claim_payload : StoreRequest → ClaimPayload
claim_payload req = record {
  memory_id = req.memory_id;
  memory_type = req.memory_type;
  namespace = req.namespace;
  subject = req.subject;
  body = req.body;
  source_uri = req.source_uri;
  source_hash = req.source_hash;
  author_agent_id = req.author_agent_id;
  origin_peer_id = req.origin_peer_id;
  authored_at_ms = req.authored_at_ms;
  valid_from_ms = pos 0;
  valid_to_ms = pos 0;
  payload_version = current_version;
}

unfoldable pub prepare_store : MemoryService → Env → StoreRequest → Result (StoreRequest × String)
prepare_store svc env req = do
  normal ← normalize_store_request env req
  signature ← sign_claim svc.crypto svc.signer (claim_payload normal)
  ok (normal, signature)

-- the row that storeTx inserts; private_memory_nodes has no scope
unfoldable pub node_row : StoreRequest → String → MemoryRow
node_row req signature = record {
  memory_id = req.memory_id;
  memory_type = req.memory_type;
  namespace = req.namespace;
  scope = if req.visibility == "private" then "" else req.scope;
  subject = req.subject;
  body = req.body;
  source_uri = req.source_uri;
  source_hash = req.source_hash;
  author_agent_id = req.author_agent_id;
  origin_peer_id = req.origin_peer_id;
  authored_at_ms = req.authored_at_ms;
  valid_from_ms = pos 0;
  valid_to_ms = pos 0;
  lifecycle_state = "active";
  author_signature = signature;
}

abbrev pub insert_node : StoreRequest → String → Space → Space
insert_node req signature t = record t { nodes = insert (node_row req signature) t.nodes }

abbrev set_checked : Env → String → String → VerificationRow → VerificationRow
set_checked env status detail v = record v {
  signature_status = status;
  detail = detail;
  checked_at_ms = env.now;
}

unfoldable pub upsert_verification_state :
    Env → String → String → String → String → List VerificationRow → List VerificationRow
upsert_verification_state env memory_space memory_id status detail t =
    upsert (by_pair (λ v. v.memory_space) (λ v. v.memory_id) memory_space memory_id)
      (set_checked env status detail)
      (record {
        memory_space = memory_space;
        memory_id = memory_id;
        signature_status = status;
        detail = detail;
        checked_at_ms = env.now;
      })
      t

unfoldable pub initial_signal : Env → StoreRequest → SignalRow
initial_signal env req = record {
  signal_id = env.uuid 1;
  memory_id = req.memory_id;
  peer_id = if req.visibility == "private" then "" else req.origin_peer_id;
  agent_id = req.author_agent_id;
  signal_type = "store";
  value = pos 1000;
  reason = "initial write";
  authored_at_ms = req.authored_at_ms;
}

abbrev pub insert_signal : SignalRow → Space → Space
insert_signal s t = record t { signals = insert s t.signals }

unfoldable pub ref_row : StoreRequest → String → ArtifactSpanInput → ArtifactRef
ref_row req artifact_id span = record {
  artifact_id = artifact_id;
  namespace = req.namespace;
  uri = span.uri;
  content_hash = span.content_hash;
  title = span.title;
  mime_type = span.mime_type;
  origin_peer_id = if req.visibility == "private" then "" else req.origin_peer_id;
  authored_at_ms = req.authored_at_ms;
}

-- ON CONFLICT(artifact_id) DO UPDATE SET every other column
unfoldable pub upsert_ref :
    StoreRequest → String → ArtifactSpanInput → List ArtifactRef → List ArtifactRef
upsert_ref req artifact_id span t =
    if span.uri == ""
    then t
    else upsert (by ref_key artifact_id)
        (λ r. record (ref_row req artifact_id span) { artifact_id = r.artifact_id })
        (ref_row req artifact_id span) t

unfoldable pub span_row : StoreRequest → String → String → ArtifactSpanInput → ArtifactSpan
span_row req span_id artifact_id span = record {
  span_id = span_id;
  artifact_id = artifact_id;
  owner_id = req.memory_id;
  start_offset = span.start_offset;
  end_offset = span.end_offset;
  start_line = span.start_line;
  end_line = span.end_line;
  quote_hash = span.quote_hash;
  authored_at_ms = req.authored_at_ms;
}

-- the loop of insertArtifactSpans; `i` counts the identifiers drawn
unfoldable pub insert_artifact_spans :
    Env → StoreRequest → ℕ → List ArtifactSpanInput → Space → Space
insert_artifact_spans env req i [] t = t
insert_artifact_spans env req i (span ∷ spans) t =
    let artifact_id = or_else span.artifact_id (env.uuid i) in
    insert_artifact_spans env req (i + 2) spans (record t {
      refs = upsert_ref req artifact_id span t.refs;
      spans = insert (span_row req (env.uuid (i + 1)) artifact_id span) t.spans;
    })

unfoldable pub edge_row : StoreRequest → String → String → String → ℤ → MemoryEdge
edge_row req edge_id to relation_type weight = record {
  edge_id = edge_id;
  from_memory_id = req.memory_id;
  to_memory_id = to;
  relation_type = relation_type;
  weight = weight;
  origin_peer_id = if req.visibility == "private" then "" else req.origin_peer_id;
  authored_at_ms = req.authored_at_ms;
}

abbrev pub insert_edge : MemoryEdge → Space → Space
insert_edge edge t = record t { edges = insert edge t.edges }

-- the loop of insertRelations; `i` counts the identifiers drawn. The text that wraps
-- ErrMemoryNotFound is left out.
unfoldable pub insert_relations :
    Env → StoreRequest → ℕ → List MemoryRelationInput → Space → Result Space
insert_relations env req i [] t = ok t
insert_relations env req i (rel ∷ rels) t = do
  refuse (rel.to_memory_id == req.memory_id)
      (message "relations[].to_memory_id cannot reference the stored memory itself")
  refuse (not (memory_exists rel.to_memory_id t.nodes)) not_found
  insert_relations env req (i + 1) rels
      (insert_edge (edge_row req (env.uuid i) rel.to_memory_id rel.relation_type rel.weight) t)

abbrev pub retrieval_source_type_for_visibility : String → String
retrieval_source_type_for_visibility v =
    if v == "private" then "private_memory" else "shared_memory"

unfoldable pub retrieval_unit_hash : MemoryService → String → String
retrieval_unit_hash svc v = hex_encode (svc.sha256 v)

unfoldable pub unit_of : StoreRequest → RetrievalUnit
unit_of req = record {
  unit_id = req.memory_id;
  source_type = retrieval_source_type_for_visibility req.visibility;
  source_id = req.memory_id;
  memory_space = req.visibility;
  namespace = req.namespace;
  unit_kind = req.memory_type;
  title = req.subject;
  body = req.body;
  body_hash = "";
  authored_at_ms = req.authored_at_ms;
  sensitivity = "private";
  retention_class = "default";
  state = "active";
  source_uri = req.source_uri;
  project_key = "";
  branch_name = "";
}

-- the defaults of upsertRetrievalUnit, and the hash of the body
unfoldable pub complete_unit : MemoryService → Env → RetrievalUnit → RetrievalUnit
complete_unit svc env unit = record unit {
  authored_at_ms = or_number unit.authored_at_ms env.now;
  state = or_else unit.state "active";
  sensitivity = or_else unit.sensitivity "private";
  retention_class = or_else unit.retention_class "default";
  body_hash = retrieval_unit_hash svc unit.body;
}

unfoldable pub upsert_retrieval_unit : MemoryService → Env → RetrievalUnit → StoreDb → StoreDb
upsert_retrieval_unit svc env unit db = record db {
  units =
      upsert (by unit_key unit.unit_id)
        (λ u. record (complete_unit svc env unit) { unit_id = u.unit_id })
        (complete_unit svc env unit) db.units;
  unit_queue =
      insert
        (record {
          queue_id = env.uuid 2;
          unit_id = unit.unit_id;
          enqueued_at_ms = env.now;
          processed_at_ms = pos 0;
        })
        db.unit_queue;
}

unfoldable pub enqueue_memory : Env → StoreRequest → StoreDb → StoreDb
enqueue_memory env req db = record db {
  index_queue =
      insert
        (record {
          queue_id = env.uuid 3;
          memory_space = req.visibility;
          memory_id = req.memory_id;
          enqueued_at_ms = env.now;
          processed_at_ms = pos 0;
        })
        db.index_queue;
}

-- what storeTx writes to the tables of the memory's space
unfoldable pub store_space : Env → StoreRequest → String → Space → Result Space
store_space env req signature t = do
  refuse (memory_exists req.memory_id t.nodes)
      (engine "UNIQUE constraint failed: memory_nodes.memory_id")
  insert_relations env req (5 + 2 * length req.artifact_spans) req.relations (
      insert_artifact_spans env req 5 req.artifact_spans
        (insert_signal (initial_signal env req) (insert_node req signature t)))

-- what storeTx writes to the other tables
unfoldable pub store_rest : MemoryService → Env → StoreRequest → StoreDb → StoreDb
store_rest svc env req db = enqueue_memory env req (
    upsert_retrieval_unit svc env (unit_of req) (record db {
      verification =
          upsert_verification_state env req.visibility req.memory_id "valid" "" db.verification;
    }))

unfoldable pub store_tx : MemoryService → Env → StoreRequest → String → StoreDb → Result StoreDb
store_tx svc env req signature db = do
  refuse (not (is_space req.visibility)) (message "visibility must be shared or private")
  t ← store_space env req signature (tables req.visibility db)
  ok (store_rest svc env req (on_space req.visibility (λ old. t) db))

-- tx.Commit(), or tx.Rollback() on an error
unfoldable pub commit {ℓ} : {V : Type ℓ} → StoreDb → Result (V × StoreDb) → Result V × StoreDb
commit db (err e) = (err e, db)
commit db (ok (v, new)) = (ok v, new)

-- prepareStore and storeTx, with the identifier that Store returns
unfoldable pub prepare_and_store :
    MemoryService → Env → StoreRequest → StoreDb → Result (StoreRequest × StoreDb)
prepare_and_store svc env req db = do
  (normal, signature) ← prepare_store svc env req
  new ← store_tx svc env normal signature db
  ok (normal, new)

abbrev pub with_id : StoreRequest × StoreDb → Result (String × StoreDb)
with_id (req, db) = ok (req.memory_id, db)

unfoldable pub store : MemoryService → Env → StoreRequest → StoreDb → Result String × StoreDb
store svc env req db = commit db (prepare_and_store svc env req db >>= with_id)

abbrev pub set_superseded : MemoryRow → MemoryRow
set_superseded r = record r { lifecycle_state = "superseded" }

-- the two statements of Supersede behind storeTx; the edge's identifier is a fresh one
unfoldable pub mark_superseded : Env → StoreRequest → String → Space → Space
mark_superseded env req old_memory_id t = record t {
  nodes = update (by memory_key old_memory_id) set_superseded t.nodes;
  edges = insert (edge_row req (env.uuid 4) old_memory_id "supersedes" (pos 1000)) t.edges;
}

abbrev after_supersede : Env → String → StoreRequest × StoreDb → Result (String × StoreDb)
after_supersede env old_memory_id (req, db) =
    ok (req.memory_id, record db { shared = mark_superseded env req old_memory_id db.shared })

-- The order of the checks is the source's: the request first, then the old memory, then storeTx.
unfoldable pub supersede_tx :
    MemoryService → Env → String → StoreRequest → StoreDb → Result (String × StoreDb)
supersede_tx svc env old_memory_id req db = do
  (normal, signature) ← prepare_store svc env (record req { visibility = "shared" })
  refuse (not (memory_exists old_memory_id db.shared.nodes)) not_found
  new ← store_tx svc env normal signature db
  after_supersede env old_memory_id (normal, new)

unfoldable pub supersede :
    MemoryService → Env → String → StoreRequest → StoreDb → Result String × StoreDb
supersede svc env old_memory_id req db = commit db (supersede_tx svc env old_memory_id req db)

unfoldable pub signal_row : Env → SignalRequest → SignalRow
signal_row env req = record {
  signal_id = env.uuid 0;
  memory_id = req.memory_id;
  peer_id = if req.memory_space == "private" then "" else req.origin_peer_id;
  agent_id = req.author_agent_id;
  signal_type = req.signal_type;
  value = req.value;
  reason = req.reason;
  authored_at_ms = req.authored_at_ms;
}

unfoldable pub signal_tx : Env → SignalRequest → StoreDb → Result (String × StoreDb)
signal_tx env req db = do
  normal ← normalize_signal_request env req
  refuse (not (memory_exists normal.memory_id (tables normal.memory_space db).nodes)) not_found
  ok (env.uuid 0, on_space normal.memory_space (insert_signal (signal_row env normal)) db)

unfoldable pub signal : Env → SignalRequest → StoreDb → Result String × StoreDb
signal env req db = commit db (signal_tx env req db)
