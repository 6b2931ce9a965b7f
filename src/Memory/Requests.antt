-- ===== src/Memory/Requests.antt =====
-- normalizeStoreRequest, normalizeArtifactSpanInput, normalizeMemoryRelationInput,
-- normalizeSignalRequest and rankingBucket of internal/memory/service.go, with the requests of
-- internal/memory/types.go. Weights and values are in thousandths; a slice that the source changes
-- in place is a new list.
pub mod Normal
use crdt_agent_memory.Prelude.{
  ℕ, ℤ, pos, lt_int, is_zero, is_neg, is_pos, String, Bool, not, ◌&&◌, ◌||◌, List, [], ◌∷◌, message,
  Result, ok, err, ◌>>=◌, ◌>>◌, refuse, ◌==◌, if◌then◌else◌,
}
use crdt_agent_memory.Text.{trim, is_blank, one_of}
use crdt_agent_memory.Sync.Types.{Env}

pub record ArtifactSpanInput : Type 0 where
  pub artifact_id : String
  pub uri : String
  pub content_hash : String
  pub title : String
  pub mime_type : String
  pub start_offset : ℤ
  pub end_offset : ℤ
  pub start_line : ℤ
  pub end_line : ℤ
  pub quote_hash : String

pub record MemoryRelationInput : Type 0 where
  pub relation_type : String
  pub to_memory_id : String
  pub weight : ℤ

pub record StoreRequest : Type 0 where
  pub memory_id : String
  pub visibility : String
  pub namespace : String
  pub memory_type : String
  pub scope : String
  pub subject : String
  pub body : String
  pub source_uri : String
  pub source_hash : String
  pub author_agent_id : String
  pub origin_peer_id : String
  pub authored_at_ms : ℤ
  pub artifact_spans : List ArtifactSpanInput
  pub relations : List MemoryRelationInput

pub record SignalRequest : Type 0 where
  pub memory_space : String
  pub memory_id : String
  pub signal_type : String
  pub value : ℤ
  pub reason : String
  pub author_agent_id : String
  pub origin_peer_id : String
  pub authored_at_ms : ℤ

-- if s == "" { s = d }
abbrev pub or_else : String → String → String
or_else s d = if s == "" then d else s

-- if n == 0 { n = d }
abbrev pub or_number : ℤ → ℤ → ℤ
or_number n d = if is_zero n then d else n

abbrev pub is_space : String → Bool
is_space s = (s == "shared") || (s == "private")

unfoldable pub trim_span : ArtifactSpanInput → ArtifactSpanInput
trim_span span = record span {
  artifact_id = trim span.artifact_id;
  uri = trim span.uri;
  content_hash = trim span.content_hash;
  title = trim span.title;
  mime_type = trim span.mime_type;
  quote_hash = trim span.quote_hash;
}

-- the checks, on a span that is trimmed
unfoldable pub check_span : ArtifactSpanInput → Result ArtifactSpanInput
check_span span = do
  refuse ((span.artifact_id == "") && (span.uri == ""))
      (message "artifact_spans[].uri is required when artifact_id is empty")
  refuse
      (is_neg span.start_offset
        || is_neg span.end_offset
        || is_neg span.start_line
        || is_neg span.end_line)
      (message "artifact_spans offsets and lines must be greater than or equal to 0")
  refuse (is_pos span.end_offset && lt_int span.end_offset span.start_offset)
      (message "artifact_spans end_offset must be greater than or equal to start_offset")
  refuse (is_pos span.end_line && lt_int span.end_line span.start_line)
      (message "artifact_spans end_line must be greater than or equal to start_line")
  ok span

unfoldable pub normalize_artifact_span_input : ArtifactSpanInput → Result ArtifactSpanInput
normalize_artifact_span_input span = check_span (trim_span span)

unfoldable pub is_allowed_store_relation_type : String → Bool
is_allowed_store_relation_type relation_type =
    one_of (trim relation_type)
      ("supports" ∷ "contradicts" ∷ "derived_from" ∷ "about" ∷ "caused_by" ∷ "references" ∷ [])

unfoldable pub trim_relation : MemoryRelationInput → MemoryRelationInput
trim_relation rel = record rel {
  relation_type = trim rel.relation_type;
  to_memory_id = trim rel.to_memory_id;
}

-- the checks, on a relation that is trimmed
unfoldable pub check_relation : MemoryRelationInput → Result MemoryRelationInput
check_relation rel = do
  refuse (rel.relation_type == "") (message "relations[].relation_type is required")
  refuse (not (is_allowed_store_relation_type rel.relation_type)) (
      message
        "relations[].relation_type must be supports, contradicts, derived_from, about, caused_by, or references")
  refuse (rel.to_memory_id == "") (message "relations[].to_memory_id is required")
  refuse (is_neg rel.weight) (message "relations[].weight must be greater than or equal to 0")
  ok (record rel { weight = or_number rel.weight (pos 1000) })

unfoldable pub normalize_memory_relation_input : MemoryRelationInput → Result MemoryRelationInput
normalize_memory_relation_input rel = check_relation (trim_relation rel)

-- a loop that normalises each element, up to the first error
unfoldable pub each : {A : Type 0} → (A → Result A) → List A → Result (List A)
each f [] = ok []
each f (x ∷ xs) = do y ← f x; ys ← each f xs; ok (y ∷ ys)

-- the defaults of normalizeStoreRequest
unfoldable pub with_defaults : Env → StoreRequest → StoreRequest
with_defaults env req = record req {
  memory_id = or_else req.memory_id (env.uuid 0);
  authored_at_ms = or_number req.authored_at_ms env.now;
  scope = or_else req.scope "team";
  memory_type = or_else req.memory_type "fact";
  author_agent_id = or_else req.author_agent_id "agent/default";
  origin_peer_id = or_else req.origin_peer_id "peer/local";
}

unfoldable pub normalize_store_request : Env → StoreRequest → Result StoreRequest
normalize_store_request env req = do
  refuse (is_blank req.body) (message "body is required")
  refuse (not (is_space req.visibility)) (message "visibility must be shared or private")
  refuse (is_blank req.namespace) (message "namespace is required")
  spans ← each normalize_artifact_span_input req.artifact_spans
  relations ← each normalize_memory_relation_input req.relations
  ok (record (with_defaults env req) { artifact_spans = spans; relations = relations })

unfoldable pub is_allowed_signal_type : String → Bool
is_allowed_signal_type signal_type =
    one_of signal_type ("reinforce" ∷ "deprecate" ∷ "confirm" ∷ "deny" ∷ "pin" ∷ "bookmark" ∷ [])

unfoldable pub trim_signal : SignalRequest → SignalRequest
trim_signal req = record req {
  memory_space = trim req.memory_space;
  memory_id = trim req.memory_id;
  signal_type = trim req.signal_type;
}

-- the checks and defaults, on a request that is trimmed
unfoldable pub check_signal : Env → SignalRequest → Result SignalRequest
check_signal env req = do
  refuse (not (is_space req.memory_space)) (message "memory_space must be shared or private")
  refuse (req.memory_id == "") (message "memory_id is required")
  refuse (not (is_allowed_signal_type req.signal_type))
      (message "signal_type must be reinforce, deprecate, confirm, deny, pin, or bookmark")
  refuse (not (is_pos req.value)) (message "value must be greater than 0")
  ok (record req {
    authored_at_ms = or_number req.authored_at_ms env.now;
    author_agent_id = or_else req.author_agent_id "agent/default";
    origin_peer_id =
        if (req.memory_space == "shared") && (req.origin_peer_id == "")
        then "peer/local"
        else req.origin_peer_id;
  })

unfoldable pub normalize_signal_request : Env → SignalRequest → Result SignalRequest
normalize_signal_request env req = check_signal env (trim_signal req)

unfoldable pub ranking_bucket : String → String → Bool → ℕ
ranking_bucket memory_space signature_status has_signature =
    if memory_space == "private"
    then 0
    else if signature_status == "valid"
    then 0
    else if signature_status == "missing_signature"
    then 1
    else if signature_status == "unknown_peer"
    then 2
    else if not has_signature
    then 1
    else 1
