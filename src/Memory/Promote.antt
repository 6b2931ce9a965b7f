-- ===== src/Memory/Promote.antt =====
-- Promote with promoteTx, and what it calls, of internal/memory/retrieval_units.go, and
-- ApproveCandidate of internal/memory/candidates.go. A set of keys that is only asked is a list; the
-- sessions are visited in the order of their first chunks.
pub mod Approved
use Prim.Native.String.{◌++◌}
use crdt_agent_memory.Prelude.{
  ℕ, ◌+◌, ◌*◌, ℤ, pos, lt_int, eq_int, is_zero, String, Bool, not, ◌&&◌, ◌||◌, Option, none, some,
  List, [], ◌∷◌, map, any, select, sort_by, is_some, length, message, not_found, Result, ok, err,
  ◌>>=◌, ◌>>◌, refuse, eqb, ◌==◌, if◌then◌else◌,
}
use crdt_agent_memory.Text.{trim, is_blank, to_lower, contains, one_of, lt_text}
use crdt_agent_memory.Table.{find, insert}
use crdt_agent_memory.Table.Keyed.{by}
use crdt_agent_memory.Encoding.Decimal.{format_int}
use crdt_agent_memory.Sync.Types.{Env}
use crdt_agent_memory.Memory.Requests.{ArtifactSpanInput, StoreRequest, or_else, or_number}
use crdt_agent_memory.Memory.Tables.{
  MemoryRow, MemoryEdge, ArtifactRef, ArtifactSpan, ChunkRow, Derivation, StoreDb, memory_key,
  chunk_key,
}
use crdt_agent_memory.Memory.Store.{MemoryService, commit, prepare_store, store_tx}
use crdt_agent_memory.Memory.Candidates.{
  Candidate, CandidateDb, load_candidate_for_update, load_candidate_chunk_ids,
  mark_candidate_approved,
}
use crdt_agent_memory.Ingest.Chunks.{join, rejection_word}

pub record PromoteRequest : Type 0 where
  pub chunk_ids : List String
  pub memory_type : String
  pub subject : String
  pub namespace : String
  pub author_agent_id : String
  pub origin_peer_id : String
  pub authored_at_ms : ℤ
  pub source_uri : String

-- LEFT JOIN private_artifact_refs, with COALESCE(..., '')
unfoldable pub span_input : String → List ArtifactRef → ArtifactSpan → ArtifactSpanInput
span_input namespace refs s =
    let ref = find (λ r. (r.artifact_id == s.artifact_id) && (r.namespace == namespace)) refs in
    record {
      artifact_id = s.artifact_id;
      uri = elim ref [ none ↦ "" | some r ↦ r.uri ];
      content_hash = elim ref [ none ↦ "" | some r ↦ r.content_hash ];
      title = elim ref [ none ↦ "" | some r ↦ r.title ];
      mime_type = elim ref [ none ↦ "" | some r ↦ r.mime_type ];
      start_offset = s.start_offset;
      end_offset = s.end_offset;
      start_line = s.start_line;
      end_line = s.end_line;
      quote_hash = s.quote_hash;
    }

-- ORDER BY s.start_offset, s.end_offset, s.span_id
unfoldable pub span_before : ArtifactSpan → ArtifactSpan → Bool
span_before a b =
    lt_int a.start_offset b.start_offset
    || (eq_int a.start_offset b.start_offset
        && (lt_int a.end_offset b.end_offset
            || (eq_int a.end_offset b.end_offset && lt_text a.span_id b.span_id)))

unfoldable pub load_transcript_artifact_inputs : String → String → StoreDb → List ArtifactSpanInput
load_transcript_artifact_inputs namespace chunk_id db =
    map (span_input namespace db.private.refs)
      (sort_by span_before (select (λ s. s.owner_id == chunk_id) db.transcript_spans))

-- what the loop over the chunks has gathered
pub record Gathered : Type 0 where
  pub chunks : List ChunkRow
  pub spans : List ArtifactSpanInput
  pub seen : List String
  pub source_uri : String

unfoldable pub span_key : ArtifactSpanInput → String
span_key s =
    s.artifact_id
    ++ "|"
    ++ s.quote_hash
    ++ "|"
    ++ format_int s.start_offset
    ++ ":"
    ++ format_int s.end_offset

unfoldable pub add_span : ArtifactSpanInput → Gathered → Gathered
add_span s g = if one_of (span_key s) g.seen then g else record g {
  seen = span_key s ∷ g.seen;
  spans = insert s g.spans;
  source_uri = or_else g.source_uri s.uri;
}

unfoldable pub add_spans : List ArtifactSpanInput → Gathered → Gathered
add_spans [] g = g
add_spans (s ∷ ss) g = add_spans ss (add_span s g)

-- the loop over req.ChunkIDs
unfoldable pub gather : String → StoreDb → List String → Gathered → Result Gathered
gather namespace db [] g = ok g
gather namespace db (id ∷ ids) g = elim (find (by chunk_key id) db.chunks) [
  | none ↦ err not_found
  | some chunk ↦ gather namespace db ids (
      add_spans (load_transcript_artifact_inputs namespace id db)
        (record g { chunks = insert chunk g.chunks }))
]

-- the bytes of a Japanese word for giving up
abbrev pub giving_up_word : String
giving_up_word = "ã\u{82}\u{84}ã\u{82}\u{81}ã\u{82}\u{8b}"

unfoldable pub combined_text : List ChunkRow → String
combined_text [] = ""
combined_text (c ∷ cs) = "\n" ++ to_lower c.text ++ combined_text cs

unfoldable pub infer_promotion_relation_type : List ChunkRow → Option String
infer_promotion_relation_type chunks =
    let combined = combined_text chunks in
    if contains combined "contradict"
      || contains combined "instead"
      || contains combined giving_up_word
      || contains combined rejection_word
    then some "contradicts"
    else if any (λ c. one_of c.chunk_kind ("rationale" ∷ "debug_trace" ∷ "task_candidate" ∷ []))
        chunks
    then some "supports"
    else none

-- each text once, at its first place
unfoldable pub distinct : List String → List String → List String
distinct seen [] = []
distinct seen (s ∷ ss) =
    let rest = distinct seen ss in
    let fresh = s ∷ distinct (s ∷ seen) ss in if one_of s seen then rest else fresh

abbrev is_some_that : {A : Type 0} → (A → Bool) → Option A → Bool
is_some_that p none = Bool.false
is_some_that p (some a) = p a

-- the decisions that chunks of the session were promoted to
unfoldable pub decisions_of : String → String → StoreDb → List String
decisions_of session_id memory_id db = distinct [] (
    map (λ p. p.memory_id)
      (select
        (λ p.
          is_some_that (λ c. c.session_id == session_id) (find (by chunk_key p.from_id) db.chunks)
          && (not (p.memory_id == memory_id)
              && is_some_that (λ n. n.memory_type == "decision")
                  (find (by memory_key p.memory_id) db.private.nodes)))
        db.promotions))

unfoldable pub inferred_edge : String → String → String → String → ℤ → MemoryEdge
inferred_edge edge_id from to relation_type authored_at_ms = record {
  edge_id = edge_id;
  from_memory_id = from;
  to_memory_id = to;
  relation_type = relation_type;
  weight = pos 1000;
  origin_peer_id = "";
  authored_at_ms = authored_at_ms;
}

abbrev same_edge : MemoryEdge → MemoryEdge → Bool
same_edge a b =
    (a.from_memory_id == b.from_memory_id)
    && ((a.to_memory_id == b.to_memory_id) && (a.relation_type == b.relation_type))

-- INSERT ... WHERE NOT EXISTS
unfoldable pub insert_new_edge : MemoryEdge → List MemoryEdge → List MemoryEdge
insert_new_edge e t = if any (same_edge e) t then t else insert e t

-- the edges to the targets; `i` counts the identifiers drawn
unfoldable pub insert_inferred :
    Env → ℕ → String → String → ℤ → List String → List MemoryEdge → List MemoryEdge
insert_inferred env i memory_id relation_type authored_at_ms [] t = t
insert_inferred env i memory_id relation_type authored_at_ms (to ∷ tos) t =
    insert_inferred env (i + 1) memory_id relation_type authored_at_ms tos
      (insert_new_edge (inferred_edge (env.uuid i) memory_id to relation_type authored_at_ms) t)

abbrev followed_by : List String → List String → List String
followed_by [] ys = ys
followed_by (x ∷ xs) ys = x ∷ followed_by xs ys

-- the loop over the sessions
unfoldable pub targets_of : List String → String → StoreDb → List String
targets_of [] memory_id db = []
targets_of (s ∷ ss) memory_id db =
    followed_by (decisions_of s memory_id db) (targets_of ss memory_id db)

unfoldable pub promote_inferred_relations : Env → ℕ → String → ℤ → List ChunkRow → StoreDb → StoreDb
promote_inferred_relations env i memory_id authored_at_ms chunks db =
    elim (infer_promotion_relation_type chunks) [
      | none ↦ db
      | some relation_type ↦ record db {
        private = record db.private {
          edges =
              insert_inferred env i memory_id relation_type authored_at_ms
                (targets_of (distinct [] (map (λ c. c.session_id) chunks)) memory_id db)
                db.private.edges;
        };
      }
    ]

-- ON CONFLICT(chunk_id, memory_id) DO NOTHING
unfoldable pub insert_promotion : Derivation → List Derivation → List Derivation
insert_promotion d t =
    if any (λ p. (p.from_id == d.from_id) && (p.memory_id == d.memory_id)) t then t else insert d t

unfoldable pub insert_promotions :
    Env → ℕ → String → ℤ → List String → List Derivation → List Derivation
insert_promotions env i memory_id at [] t = t
insert_promotions env i memory_id at (id ∷ ids) t = insert_promotions env (i + 1) memory_id at ids (
    insert_promotion
      (record {
        derivation_id = env.uuid i;
        from_id = id;
        memory_id = memory_id;
        created_at_ms = at;
      })
      t)

unfoldable pub promote_defaults : Env → PromoteRequest → PromoteRequest
promote_defaults env req = record req {
  memory_type = or_else req.memory_type "note";
  authored_at_ms = or_number req.authored_at_ms env.now;
  author_agent_id = or_else req.author_agent_id "agent/default";
  origin_peer_id = or_else req.origin_peer_id "peer/local";
}

-- the request that promoteTx stores
unfoldable pub promoted_request : PromoteRequest → Gathered → StoreRequest
promoted_request req g = record {
  memory_id = "";
  visibility = "private";
  namespace = req.namespace;
  memory_type = req.memory_type;
  scope = "";
  subject = or_else req.subject "promoted transcript memory";
  body = join "\n\n" (map (λ c. c.text) g.chunks);
  source_uri = g.source_uri;
  source_hash = "";
  author_agent_id = req.author_agent_id;
  origin_peer_id = req.origin_peer_id;
  authored_at_ms = req.authored_at_ms;
  artifact_spans = g.spans;
  relations = [];
}

-- what promoteTx does behind storeTx; the identifiers of the store come first
unfoldable pub link_promotion : Env → PromoteRequest → Gathered → String → StoreDb → StoreDb
link_promotion env req g memory_id db =
    let i = 5 + 2 * length g.spans in
    let linked = promote_inferred_relations env i memory_id req.authored_at_ms g.chunks db in
    record linked {
      promotions =
          insert_promotions env i memory_id req.authored_at_ms req.chunk_ids linked.promotions;
    }

unfoldable pub promote_tx :
    MemoryService → Env → PromoteRequest → StoreDb → Result (String × StoreDb)
promote_tx svc env given db = do
  refuse (eqb (length given.chunk_ids) 0) (message "chunk_ids is required")
  refuse (is_blank given.namespace) (message "namespace is required")
  g ←
      gather given.namespace db given.chunk_ids
        (record { chunks = []; spans = []; seen = []; source_uri = given.source_uri })
  (normal, signature) ← prepare_store svc env (promoted_request (promote_defaults env given) g)
  new ← store_tx svc env normal signature db
  ok (normal.memory_id, link_promotion env (promote_defaults env given) g normal.memory_id new)

unfoldable pub promote : MemoryService → Env → PromoteRequest → StoreDb → Result String × StoreDb
promote svc env req db = commit db (promote_tx svc env req db)

pub record ApproveCandidateRequest : Type 0 where
  pub candidate_id : String
  pub memory_type : String
  pub subject : String
  pub namespace : String
  pub author_agent_id : String
  pub origin_peer_id : String
  pub authored_at_ms : ℤ
  pub source_uri : String

-- the tables that a review writes
pub record ReviewDb : Type 0 where
  pub store : StoreDb
  pub candidates : CandidateDb

-- the first of two values that is not blank, as it is
unfoldable pub first_non_empty : String → String → String
first_non_empty a b = if not (is_blank a) then a else if not (is_blank b) then b else ""

unfoldable pub promote_request_of :
    ApproveCandidateRequest → Candidate → List String → PromoteRequest
promote_request_of req c chunk_ids = record {
  chunk_ids = chunk_ids;
  memory_type = first_non_empty (trim req.memory_type) c.candidate_type;
  subject = first_non_empty (trim req.subject) c.subject;
  namespace = first_non_empty (trim req.namespace) c.namespace;
  author_agent_id = first_non_empty (trim req.author_agent_id) c.author_agent_id;
  origin_peer_id = first_non_empty (trim req.origin_peer_id) c.origin_peer_id;
  authored_at_ms = or_number req.authored_at_ms c.authored_at_ms;
  source_uri = first_non_empty (trim req.source_uri) c.source_uri;
}

abbrev marked : String → StoreDb → Result (Unit {0}) × CandidateDb → Result (String × ReviewDb)
marked memory_id store (err e, candidates) = err e
marked memory_id store (ok done, candidates) =
    ok (memory_id, record { store = store; candidates = candidates })

unfoldable pub approve_tx :
    MemoryService → Env → ApproveCandidateRequest → String → ReviewDb → Result (String × ReviewDb)
approve_tx svc env req id db =
    let chunk_ids = load_candidate_chunk_ids id db.candidates.chunks in
    do
      c ← load_candidate_for_update id db.candidates.candidates
      refuse (eqb (length chunk_ids) 0) (message "candidate has no transcript chunks")
      (memory_id, store) ← promote_tx svc env (promote_request_of req c chunk_ids) db.store
      marked memory_id store (mark_candidate_approved env id memory_id db.candidates)

abbrev after_approve : ReviewDb → Result (String × ReviewDb) → Result String × ReviewDb
after_approve db (err e) = (err e, db)
after_approve db (ok (memory_id, new)) = (ok memory_id, new)

unfoldable pub approve_candidate :
    MemoryService → Env → ApproveCandidateRequest → ReviewDb → Result String × ReviewDb
approve_candidate svc env req db =
    let id = trim req.candidate_id in
    after_approve db
      (refuse (id == "") (message "candidate_id is required") >> approve_tx svc env req id db)
