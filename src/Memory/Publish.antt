-- ===== src/Memory/Publish.antt =====
-- Publish, normalizeRedactionPolicy, redactText and redactSourceURI of
-- internal/memory/retrieval_units.go. The four regular expressions are the parameter `Redaction`.
pub mod Redacted
pub mod Returns
use crdt_agent_memory.Prelude.{
  ℕ, ◌+◌, ◌*◌, String, Bool, ◌&&◌, ◌||◌, Option, none, some, List, [], ◌∷◌, any, length, message,
  not_found, Result, ok, err, ◌>>=◌, ◌>>◌, refuse, ◌==◌, if◌then◌else◌,
}
use crdt_agent_memory.Text.{trim, to_lower, has_prefix}
use crdt_agent_memory.Table.{find, insert}
use crdt_agent_memory.Table.Keyed.{by}
use crdt_agent_memory.Sync.Types.{Env}
use crdt_agent_memory.Memory.Requests.{StoreRequest}
use crdt_agent_memory.Memory.Tables.{MemoryRow, Derivation, StoreDb, memory_key}
use crdt_agent_memory.Memory.Store.{MemoryService, commit, prepare_store, store_tx}

pub record Redaction : Type 0 where
  -- ReplaceAllString of the patterns, with their replacements
  pub secret_assignments : String → String
  pub bearers : String → String
  pub file_uris : String → String
  pub user_paths : String → String
  -- strings.ReplaceAll(s, old, "")
  pub remove_all : String → String → String

unfoldable pub normalize_redaction_policy : String → Result String
normalize_redaction_policy policy =
    let p = trim (to_lower policy) in
    if p == ""
    then ok "default"
    else if (p == "default") || (p == "strict")
    then ok p
    else err (message "redaction_policy must be default or strict")

unfoldable pub redact_text : Redaction → String → String → String
redact_text r policy text =
    let redacted = r.user_paths (r.file_uris (r.bearers (r.secret_assignments text))) in
    if policy == "strict"
    then r.remove_all "https://" (r.remove_all "http://" redacted)
    else redacted

abbrev pub is_local_uri : String → Bool
is_local_uri uri = has_prefix uri "/" || has_prefix (to_lower uri) "file://"

unfoldable pub redact_source_uri : String → String → String
redact_source_uri policy source_uri =
    let uri = trim source_uri in
    if uri == ""
    then ""
    else if is_local_uri uri
    then ""
    else if policy == "strict"
    then ""
    else uri

-- the private row as Publish turns it into a request
unfoldable pub published_request : Redaction → String → MemoryRow → StoreRequest
published_request r policy row = record {
  memory_id = "";
  visibility = "shared";
  namespace = row.namespace;
  memory_type = row.memory_type;
  scope = "";
  subject = redact_text r policy row.subject;
  body = redact_text r policy row.body;
  source_uri = redact_source_uri policy row.source_uri;
  source_hash = row.source_hash;
  author_agent_id = row.author_agent_id;
  origin_peer_id = row.origin_peer_id;
  authored_at_ms = row.authored_at_ms;
  artifact_spans = [];
  relations = [];
}

-- ON CONFLICT(private_memory_id, shared_memory_id) DO NOTHING
unfoldable pub insert_publication : Derivation → List Derivation → List Derivation
insert_publication d t =
    if any (λ p. (p.from_id == d.from_id) && (p.memory_id == d.memory_id)) t then t else insert d t

unfoldable pub load_private : String → StoreDb → Result MemoryRow
load_private memory_id db = elim (find (by memory_key memory_id) db.private.nodes) [
  | none ↦ err not_found
  | some row ↦ ok row
]

unfoldable pub record_publication : Env → String → String → StoreDb → StoreDb
record_publication env private_memory_id memory_id db = record db {
  publications =
      insert_publication
        (record {
          derivation_id = env.uuid 5;
          from_id = private_memory_id;
          memory_id = memory_id;
          created_at_ms = env.now;
        })
        db.publications;
}

unfoldable pub publish_tx :
    MemoryService → Redaction → Env → String → String → StoreDb → Result (String × StoreDb)
publish_tx svc r env private_memory_id policy db = do
  row ← load_private private_memory_id db
  (normal, signature) ← prepare_store svc env (published_request r policy row)
  new ← store_tx svc env normal signature db
  ok (normal.memory_id, record_publication env private_memory_id normal.memory_id new)

unfoldable pub publish :
    MemoryService → Redaction → Env → String → String → StoreDb → Result String × StoreDb
publish svc r env private_memory_id redaction_policy db =
    let id = trim private_memory_id in
    commit db (do
      refuse (id == "") (message "private_memory_id is required")
      policy ← normalize_redaction_policy redaction_policy
      publish_tx svc r env id policy db)
