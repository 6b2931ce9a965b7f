-- ===== src/Memory/Candidates.antt =====
-- internal/memory/candidates.go: memory candidates, which wait for a review. ApproveCandidate stands
-- beside the promotion of chunks in Memory.Promote; loadCandidateForUpdate, loadCandidateChunkIDs and
-- markCandidateApprovedTx, which it calls, are here.
pub mod Review
use crdt_agent_memory.Prelude.{
  ℕ, ◌+◌, ◌≡◌, ℤ, pos, pos_part, is_zero, is_pos, lt_int, eq_int, eqb, ltb, String, Bool, not, ◌&&◌,
  ◌||◌, Option, none, some, List, [], ◌∷◌, map, take, select, sort_by, message, Result, ok, err,
  ◌==◌, if◌then◌else◌, refuse, ◌>>◌, is_some, engine,
}
use crdt_agent_memory.Text.{trim, is_blank, lt_text}
use crdt_agent_memory.Table.{find, upsert, insert, update, delete, affected}
use crdt_agent_memory.Table.Keyed.{by}
use crdt_agent_memory.Sync.Types.{Env}

-- a row of memory_candidates
pub record Candidate : Type 0 where
  pub candidate_id : String
  pub namespace : String
  pub candidate_type : String
  pub status : String
  pub subject : String
  pub body : String
  pub source_uri : String
  pub author_agent_id : String
  pub origin_peer_id : String
  pub sensitivity : String
  pub retention_class : String
  pub project_key : String
  pub branch_name : String
  pub authored_at_ms : ℤ
  pub created_at_ms : ℤ
  pub updated_at_ms : ℤ
  pub approved_memory_id : String
  pub reviewed_at_ms : ℤ
  pub review_note : String

-- a row of memory_candidate_chunks
pub record CandidateChunk : Type 0 where
  pub link_id : String
  pub candidate_id : String
  pub chunk_id : String
  pub ordinal : ℕ

pub record CandidateDb : Type 0 where
  pub candidates : List Candidate
  pub chunks : List CandidateChunk

pub record UpsertCandidateRequest : Type 0 where
  pub candidate_id : String
  pub chunk_ids : List String
  pub namespace : String
  pub candidate_type : String
  pub subject : String
  pub body : String
  pub source_uri : String
  pub author_agent_id : String
  pub origin_peer_id : String
  pub sensitivity : String
  pub retention_class : String
  pub project_key : String
  pub branch_name : String
  pub authored_at_ms : ℤ
  pub created_at_ms : ℤ
  pub updated_at_ms : ℤ

pub record ListCandidatesRequest : Type 0 where
  pub namespace : String
  pub status : String
  pub project_key : String
  pub branch_name : String
  pub limit : ℤ

abbrev pub candidate_key : Candidate → String
candidate_key c = c.candidate_id

abbrev pub is_pending : Candidate → Bool
is_pending c = c.status == "pending"

-- AND column = ?, where the filter is given
abbrev pub matches : String → String → Bool
matches wanted column = (trim wanted == "") || (column == trim wanted)

unfoldable pub is_listed : ListCandidatesRequest → Candidate → Bool
is_listed req c =
    matches req.namespace c.namespace
    && (matches req.status c.status
        && (matches req.project_key c.project_key && matches req.branch_name c.branch_name))

-- ORDER BY authored_at_ms DESC, created_at_ms DESC
abbrev pub newer : Candidate → Candidate → Bool
newer a b =
    lt_int b.authored_at_ms a.authored_at_ms
    || (eq_int a.authored_at_ms b.authored_at_ms && lt_int b.created_at_ms a.created_at_ms)

abbrev pub list_limit : ℤ → ℕ
list_limit n = if is_pos n then pos_part n else 50

unfoldable pub list_candidates : ListCandidatesRequest → CandidateDb → List Candidate
list_candidates req db =
    take (list_limit req.limit) (sort_by newer (select (is_listed req) db.candidates))

unfoldable pub load_candidate_for_update : String → List Candidate → Result Candidate
load_candidate_for_update candidate_id t = elim (find (by candidate_key candidate_id) t) [
  | none ↦ err (message "candidate not found")
  | some c ↦ if is_pending c then ok c else err (message "candidate is not pending")
]

unfoldable pub load_candidate_chunk_ids : String → List CandidateChunk → List String
load_candidate_chunk_ids candidate_id t =
    map (λ k. k.chunk_id)
      (sort_by
        (λ a b.
          ltb a.ordinal b.ordinal || (eqb a.ordinal b.ordinal && lt_text a.chunk_id b.chunk_id))
        (select (λ k. k.candidate_id == candidate_id) t))

-- WHERE candidate_id = ? AND status = 'pending'
abbrev pub pending_row : String → Candidate → Bool
pending_row candidate_id c = (c.candidate_id == candidate_id) && is_pending c

abbrev pub set_approved : Env → String → Candidate → Candidate
set_approved env memory_id c = record c {
  status = "approved";
  approved_memory_id = memory_id;
  reviewed_at_ms = env.now;
  updated_at_ms = env.now;
  review_note = "";
}

abbrev pub set_rejected : Env → String → Candidate → Candidate
set_rejected env note c = record c {
  status = "rejected";
  reviewed_at_ms = env.now;
  updated_at_ms = env.now;
  review_note = note;
}

-- an UPDATE that must affect a row
unfoldable pub update_pending :
    String → (Candidate → Candidate) → CandidateDb → Result (Unit {0}) × CandidateDb
update_pending candidate_id set db =
    if eqb (affected (pending_row candidate_id) db.candidates) 0
    then (err (message "candidate is not pending"), db)
    else (ok tt, record db { candidates = update (pending_row candidate_id) set db.candidates })

unfoldable pub mark_candidate_approved :
    Env → String → String → CandidateDb → Result (Unit {0}) × CandidateDb
mark_candidate_approved env candidate_id memory_id db =
    update_pending candidate_id (set_approved env memory_id) db

-- RejectCandidate behind the check of the trimmed identifier
unfoldable pub reject_loaded :
    Env → String → String → Result Candidate → CandidateDb → Result (Unit {0}) × CandidateDb
reject_loaded env candidate_id note (err e) db = (err e, db)
reject_loaded env candidate_id note (ok c) db =
    update_pending candidate_id (set_rejected env (trim note)) db

unfoldable pub reject_candidate :
    Env → String → String → CandidateDb → Result (Unit {0}) × CandidateDb
reject_candidate env candidate_id note db =
    let id = trim candidate_id in
    if id == ""
    then (err (message "candidate_id is required"), db)
    else reject_loaded env id note (load_candidate_for_update id db.candidates) db

abbrev pub or_now : Env → ℤ → ℤ
or_now env t = if is_zero t then env.now else t

abbrev pub candidate_row : Env → UpsertCandidateRequest → Candidate
candidate_row env req = record {
  candidate_id = req.candidate_id;
  namespace = req.namespace;
  candidate_type = req.candidate_type;
  status = "pending";
  subject = req.subject;
  body = req.body;
  source_uri = req.source_uri;
  author_agent_id = req.author_agent_id;
  origin_peer_id = req.origin_peer_id;
  sensitivity = req.sensitivity;
  retention_class = req.retention_class;
  project_key = req.project_key;
  branch_name = req.branch_name;
  authored_at_ms = req.authored_at_ms;
  created_at_ms = or_now env req.created_at_ms;
  updated_at_ms = or_now env req.updated_at_ms;
  approved_memory_id = "";
  reviewed_at_ms = pos 0;
  review_note = "";
}

-- ON CONFLICT DO UPDATE ... WHERE status = 'pending'
abbrev pub refresh : Env → UpsertCandidateRequest → Candidate → Candidate
refresh env req c =
    if is_pending c
    then record c {
      namespace = req.namespace;
      candidate_type = req.candidate_type;
      subject = req.subject;
      body = req.body;
      source_uri = req.source_uri;
      authored_at_ms = req.authored_at_ms;
      updated_at_ms = or_now env req.updated_at_ms;
      author_agent_id = req.author_agent_id;
      origin_peer_id = req.origin_peer_id;
      sensitivity = req.sensitivity;
      retention_class = req.retention_class;
      project_key = req.project_key;
      branch_name = req.branch_name;
    }
    else c

abbrev pub links : String → String → CandidateChunk → Bool
links candidate_id chunk_id l = (l.candidate_id == candidate_id) && (l.chunk_id == chunk_id)

-- the links of a candidate to its chunks, from ordinal i on; UNIQUE(candidate_id, chunk_id)
unfoldable pub insert_links :
    Env → String → ℕ → List String → List CandidateChunk → Result (List CandidateChunk)
insert_links env candidate_id i [] t = ok t
insert_links env candidate_id i (k ∷ ks) t = do
  refuse (is_some (find (links candidate_id k) t)) (engine "UNIQUE constraint failed")
  insert_links env candidate_id (i + 1) ks (
      insert
        (record { link_id = env.uuid i; candidate_id = candidate_id; chunk_id = k; ordinal = i }) t)

abbrev pub has_no_chunks : List String → Bool
has_no_chunks [] = Bool.true
has_no_chunks (k ∷ ks) = Bool.false

-- what the transaction of the caller keeps
abbrev with_links :
    List Candidate → CandidateDb → Result (List CandidateChunk) → Result (Unit {0}) × CandidateDb
with_links candidates db (err e) = (err e, db)
with_links candidates db (ok t) = (ok tt, record { candidates = candidates; chunks = t })

unfoldable pub upsert_memory_candidate :
    Env → UpsertCandidateRequest → CandidateDb → Result (Unit {0}) × CandidateDb
upsert_memory_candidate env req db =
    if req.candidate_id == ""
    then (err (message "candidate_id is required"), db)
    else if req.namespace == ""
    then (err (message "namespace is required"), db)
    else if req.candidate_type == ""
    then (err (message "candidate_type is required"), db)
    else if has_no_chunks req.chunk_ids
    then (err (message "chunk_ids is required"), db)
    else with_links
        (upsert (by candidate_key req.candidate_id) (refresh env req) (candidate_row env req)
          db.candidates)
        db
        (insert_links env req.candidate_id 0 req.chunk_ids
          (delete (λ k. k.candidate_id == req.candidate_id) db.chunks))
