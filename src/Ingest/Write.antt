-- ===== src/Ingest/Write.antt =====
-- upsertChunks, upsertPromotionCandidate, inferCandidateSubject, upsertTranscriptArtifacts and
-- IngestSession of internal/ingest/session_ingest.go.
use Prim.Native.String.{◌++◌}
use Prim.Native.Char.{code}
use crdt_agent_memory.Prelude.{
  ℕ, zero, suc, ◌+◌, ◌-◌, ◌*◌, pos, String, Bool, ◌&&◌, List, [], ◌∷◌, Option, none, some, is_some,
  eqb, ltb, Result, ok, err, ◌>>=◌, ◌>>◌, ◌==◌, if◌then◌else◌,
}
use crdt_agent_memory.Text.{trim, to_lower, one_of, has_prefix}
use crdt_agent_memory.Table.{find, upsert, insert, delete}
use crdt_agent_memory.Table.Keyed.{by}
use crdt_agent_memory.Sync.Types.{Env}
use crdt_agent_memory.Memory.Tables.{
  ArtifactRef, RetrievalUnit, ChunkRow, StoreDb, ref_key, unit_key, chunk_key,
}
use crdt_agent_memory.Memory.Candidates.{Candidate, CandidateDb, candidate_key, is_pending}
use crdt_agent_memory.Ingest.{
  SessionIngestRequest, IngestDb, Library, digest, normalize_request, validate_request,
  upsert_session, upsert_messages, load_messages,
}
use crdt_agent_memory.Ingest.Chunks.{Chunk, build_chunks, line_range}

unfoldable pub is_promotion_candidate_kind : String → Bool
is_promotion_candidate_kind kind =
    one_of kind ("decision" ∷ "task_candidate" ∷ "rationale" ∷ "debug_trace" ∷ [])

-- the text before the first byte c, the whole where there is none
unfoldable pub before : ℕ → String → String
before c String.[] = ""
before c (String.◌∷◌ d s) =
    let rest = before c s in if eqb (code d) c then "" else String.◌∷◌ d rest

-- the text behind the first byte c, if there is one
unfoldable pub after : ℕ → String → Option String
after c String.[] = none
after c (String.◌∷◌ d s) = let rest = after c s in if eqb (code d) c then some s else rest

-- firstLine without what comes up to its first colon, unless that is its last byte
unfoldable pub without_role : String → String
without_role line = elim (after 58 line) [
  | none ↦ line
  | some rest ↦ if rest == "" then line else trim rest
]

-- the first n bytes and those behind them
unfoldable pub take_text : ℕ → String → String
take_text zero s = ""
take_text (suc n) String.[] = ""
take_text (suc n) (String.◌∷◌ c s) = String.◌∷◌ c (take_text n s)

unfoldable pub drop_text : ℕ → String → String
drop_text zero s = s
drop_text (suc n) String.[] = ""
drop_text (suc n) (String.◌∷◌ c s) = drop_text n s

-- the bytes of the first n runes: a byte from 128 to 191 goes on with a rune
unfoldable pub first_runes : ℕ → String → String
first_runes n String.[] = ""
first_runes zero (String.◌∷◌ c s) =
    let rest = first_runes zero s in
    if ltb 127 (code c) && ltb (code c) 192 then String.◌∷◌ c rest else ""
first_runes (suc n) (String.◌∷◌ c s) =
    let same = first_runes (suc n) s in
    let fewer = first_runes n s in
    String.◌∷◌ c (if ltb 127 (code c) && ltb (code c) 192 then same else fewer)

unfoldable pub infer_candidate_subject : String → String → String
infer_candidate_subject kind text =
    let whole = trim text in
    let line = trim (without_role (before 10 whole)) in
    if whole == "" then kind else if line == "" then kind else first_runes 80 line

unfoldable pub candidate_of : Library → Env → SessionIngestRequest → Chunk → Candidate
candidate_of lib env req chunk = record {
  candidate_id = "cand_" ++ digest lib chunk.chunk_id;
  namespace = req.namespace;
  candidate_type = chunk.chunk_kind;
  status = "pending";
  subject = infer_candidate_subject chunk.chunk_kind chunk.text;
  body = chunk.text;
  source_uri = "";
  author_agent_id = "agent/ingest";
  origin_peer_id = "peer/local";
  sensitivity = chunk.sensitivity;
  retention_class = req.retention_class;
  project_key = req.project_key;
  branch_name = req.branch_name;
  authored_at_ms = chunk.authored_at_ms;
  created_at_ms = env.now;
  updated_at_ms = env.now;
  approved_memory_id = "";
  reviewed_at_ms = pos 0;
  review_note = "";
}

-- ON CONFLICT DO UPDATE ... WHERE memory_candidates.status = 'pending'
unfoldable pub refresh_candidate : Candidate → Candidate → Candidate
refresh_candidate fresh c =
    if is_pending c
    then record fresh {
      candidate_id = c.candidate_id;
      status = c.status;
      source_uri = c.source_uri;
      created_at_ms = c.created_at_ms;
      approved_memory_id = c.approved_memory_id;
      reviewed_at_ms = c.reviewed_at_ms;
      review_note = c.review_note;
    }
    else c

unfoldable pub upsert_promotion_candidate :
    Library → Env → SessionIngestRequest → Chunk → CandidateDb → CandidateDb
upsert_promotion_candidate lib env req chunk db =
    let fresh = candidate_of lib env req chunk in
    if is_promotion_candidate_kind chunk.chunk_kind
    then record {
      candidates =
          upsert (by candidate_key fresh.candidate_id) (refresh_candidate fresh) fresh
            db.candidates;
      chunks =
          insert
            (record {
              link_id = env.uuid chunk.chunk_seq;
              candidate_id = fresh.candidate_id;
              chunk_id = chunk.chunk_id;
              ordinal = 0;
            })
            (delete (λ k. k.candidate_id == fresh.candidate_id) db.chunks);
    }
    else db

-- strings.TrimPrefix(uri, "file://")
unfoldable pub without_scheme : String → String
without_scheme uri = if has_prefix uri "file://" then drop_text 7 uri else uri

unfoldable pub artifact_of : Library → String → Chunk → String → ArtifactRef
artifact_of lib namespace chunk uri = record {
  artifact_id = "artifact_" ++ digest lib uri;
  namespace = namespace;
  uri = uri;
  content_hash = digest lib uri;
  title = lib.path_base (without_scheme uri);
  mime_type = "";
  origin_peer_id = "";
  authored_at_ms = chunk.authored_at_ms;
}

-- the number of an identifier that is drawn for a place in a chunk: another for every place
abbrev place_number : ℕ → ℕ → ℕ
place_number chunk_seq start = (chunk_seq + start) * (chunk_seq + start) + start

-- the loop of upsertTranscriptArtifacts over the matches
unfoldable pub insert_artifacts : Library → Env → String → Chunk → List (ℕ × ℕ) → StoreDb → StoreDb
insert_artifacts lib env namespace chunk [] db = db
insert_artifacts lib env namespace chunk ((start, end) ∷ rest) db =
    let uri = take_text (end - start) (drop_text start chunk.text) in
    let row = artifact_of lib namespace chunk uri in
    let (start_line, end_line) = line_range chunk.text start end in
    insert_artifacts lib env namespace chunk rest (record db {
      private = record db.private {
        refs =
            upsert (by ref_key row.artifact_id)
              (λ r. record row { artifact_id = r.artifact_id; mime_type = r.mime_type }) row
              db.private.refs;
      };
      transcript_spans =
          insert
            (record {
              span_id = env.uuid (place_number chunk.chunk_seq start);
              artifact_id = row.artifact_id;
              owner_id = chunk.chunk_id;
              start_offset = pos start;
              end_offset = pos end;
              start_line = pos start_line;
              end_line = pos end_line;
              quote_hash = digest lib uri;
              authored_at_ms = chunk.authored_at_ms;
            })
            db.transcript_spans;
    })

unfoldable pub chunk_row : Library → SessionIngestRequest → Chunk → ChunkRow
chunk_row lib req chunk = record {
  chunk_id = chunk.chunk_id;
  session_id = req.session_id;
  chunk_seq = chunk.chunk_seq;
  chunk_kind = chunk.chunk_kind;
  start_seq = chunk.start_seq;
  end_seq = chunk.end_seq;
  text = chunk.text;
  normalized_text = to_lower (trim chunk.text);
  content_hash = digest lib chunk.text;
  authored_at_ms = chunk.authored_at_ms;
  sensitivity = chunk.sensitivity;
  retention_class = req.retention_class;
}

unfoldable pub chunk_unit : Library → SessionIngestRequest → Chunk → RetrievalUnit
chunk_unit lib req chunk = record {
  unit_id = chunk.chunk_id;
  source_type = "transcript_chunk";
  source_id = chunk.chunk_id;
  memory_space = "transcript";
  namespace = req.namespace;
  unit_kind = chunk.chunk_kind;
  title = "";
  body = chunk.text;
  body_hash = digest lib chunk.text;
  authored_at_ms = chunk.authored_at_ms;
  sensitivity = chunk.sensitivity;
  retention_class = req.retention_class;
  state = "active";
  source_uri = "";
  project_key = req.project_key;
  branch_name = req.branch_name;
}

-- ON CONFLICT(unit_id) DO NOTHING
unfoldable pub insert_unit : RetrievalUnit → List RetrievalUnit → List RetrievalUnit
insert_unit u t = if is_some (find (by unit_key u.unit_id) t) then t else insert u t

-- the statements for a chunk that is new
unfoldable pub write_chunk : Library → Env → SessionIngestRequest → Chunk → IngestDb → IngestDb
write_chunk lib env req chunk db =
    let store = record db.store {
      chunks = insert (chunk_row lib req chunk) db.store.chunks;
      units = insert_unit (chunk_unit lib req chunk) db.store.units;
      unit_queue =
          insert
            (record {
              queue_id = env.uuid chunk.chunk_seq;
              unit_id = chunk.chunk_id;
              enqueued_at_ms = env.now;
              processed_at_ms = pos 0;
            })
            db.store.unit_queue;
    } in
    record db {
      store = insert_artifacts lib env req.namespace chunk (lib.artifacts chunk.text) store;
      candidates = upsert_promotion_candidate lib env req chunk db.candidates;
    }

-- the loop of upsertChunks: ON CONFLICT(chunk_id) DO NOTHING, and nothing more for such a chunk
unfoldable pub upsert_chunks :
    Library → Env → SessionIngestRequest → List Chunk → IngestDb → IngestDb
upsert_chunks lib env req [] db = db
upsert_chunks lib env req (chunk ∷ chunks) db = upsert_chunks lib env req chunks (
    if is_some (find (by chunk_key chunk.chunk_id) db.store.chunks)
    then db
    else write_chunk lib env req chunk db)

unfoldable pub ingest_tx : Library → Env → SessionIngestRequest → IngestDb → Result IngestDb
ingest_tx lib env req db = do
  messages ← upsert_messages lib req.session_id req.messages db.messages
  ok (
      upsert_chunks lib env req
        (build_chunks lib req.session_id req.sensitivity (load_messages req.session_id messages))
        (record db { sessions = upsert_session env req db.sessions; messages = messages }))

abbrev after_tx : IngestDb → Result IngestDb → Result (Unit {0}) × IngestDb
after_tx db (err e) = (err e, db)
after_tx db (ok new) = (ok tt, new)

unfoldable pub ingest_session :
    Library → Env → SessionIngestRequest → IngestDb → Result (Unit {0}) × IngestDb
ingest_session lib env req db =
    let normal = normalize_request env req in
    after_tx db (validate_request normal >> ingest_tx lib env normal db)
