-- ===== src/Ingest.antt =====
-- internal/ingest/session_ingest.go: a session's messages, stored and cut into chunks. The regular
-- expressions, SHA-256 and path.Base are the parameter `Library`. Metadata is the JSON text that the
-- source writes for it. Which number a fresh identifier has is of no matter.
pub mod Chunks
pub mod Write
pub mod Groups
use Prim.Native.String.{◌++◌}
use crdt_agent_memory.Prelude.{
  ℕ, ◌+◌, ℤ, pos, lt_int, eq_int, String, Bool, not, ◌&&◌, List, [], ◌∷◌, map, Option, none, some,
  select, sort_by, is_some, length, eqb, message, engine, Result, ok, err, ◌>>=◌, ◌>>◌, refuse,
  ◌==◌, if◌then◌else◌,
}
use crdt_agent_memory.Text.{trim}
use crdt_agent_memory.Table.{find, upsert}
use crdt_agent_memory.Table.Keyed.{by}
use crdt_agent_memory.Encoding.Decimal.{format_int}
use crdt_agent_memory.Encoding.Hex.{hex_encode}
use crdt_agent_memory.Sync.Types.{Env}
use crdt_agent_memory.Memory.Requests.{or_else, or_number}
use crdt_agent_memory.Memory.Tables.{StoreDb}
use crdt_agent_memory.Memory.Candidates.{CandidateDb}

pub record SessionMessage : Type 0 where
  pub message_id : String
  pub seq : ℤ
  pub role : String
  pub tool_name : String
  pub content : String
  pub authored_at_ms : ℤ
  pub metadata : String

pub record SessionIngestRequest : Type 0 where
  pub session_id : String
  pub source_kind : String
  pub namespace : String
  pub repo_path : String
  pub repo_root_hash : String
  pub branch_name : String
  pub title : String
  pub agent_name : String
  pub user_identity : String
  pub started_at_ms : ℤ
  pub ended_at_ms : ℤ
  pub ingest_version : ℤ
  pub metadata : String
  pub sensitivity : String
  pub retention_class : String
  pub messages : List SessionMessage
  pub project_key : String

-- a row of transcript_sessions
pub record SessionRow : Type 0 where
  pub session_id : String
  pub request : SessionIngestRequest
  pub created_at_ms : ℤ

-- a row of transcript_messages
pub record MessageRow : Type 0 where
  pub session_id : String
  pub content_hash : String
  pub msg : SessionMessage

pub record IngestDb : Type 0 where
  pub sessions : List SessionRow
  pub messages : List MessageRow
  pub store : StoreDb
  pub candidates : CandidateDb

pub record Library : Type 0 where
  pub sha256 : String → String
  -- secretPattern.MatchString
  pub has_secret : String → Bool
  -- artifactPattern.FindAllStringIndex(text, -1)
  pub artifacts : String → List (ℕ × ℕ)
  -- path.Base
  pub path_base : String → String

unfoldable pub digest : Library → String → String
digest lib v = hex_encode (lib.sha256 v)

unfoldable pub normalize_message : Env → SessionMessage → SessionMessage
normalize_message env m = record m {
  role = trim m.role;
  tool_name = trim m.tool_name;
  content = trim m.content;
  authored_at_ms = or_number m.authored_at_ms env.now;
}

unfoldable pub normalize_request : Env → SessionIngestRequest → SessionIngestRequest
normalize_request env req = record req {
  session_id = trim req.session_id;
  source_kind = trim req.source_kind;
  namespace = trim req.namespace;
  branch_name = trim req.branch_name;
  project_key = trim req.project_key;
  ingest_version = or_number req.ingest_version (pos 1);
  sensitivity = or_else req.sensitivity "private";
  retention_class = or_else req.retention_class "default";
  messages = map (normalize_message env) req.messages;
}

unfoldable pub validate_request : SessionIngestRequest → Result (Unit {0})
validate_request req = do
  refuse (req.session_id == "") (message "session_id is required")
  refuse (req.source_kind == "") (message "source_kind is required")
  refuse (req.namespace == "") (message "namespace is required")
  refuse (eqb (length req.messages) 0) (message "messages is required")
  ok tt

abbrev session_key : SessionRow → String
session_key r = r.session_id

-- ON CONFLICT(session_id) DO UPDATE SET every column but created_at_ms
unfoldable pub upsert_session : Env → SessionIngestRequest → List SessionRow → List SessionRow
upsert_session env req t =
    upsert (by session_key req.session_id) (λ r. record r { request = req })
      (record { session_id = req.session_id; request = req; created_at_ms = env.now }) t

abbrev pub at_seq : String → ℤ → MessageRow → Bool
at_seq session_id seq r = (r.session_id == session_id) && eq_int r.msg.seq seq

-- fmt.Sprintf("%s:%d", req.SessionID, msg.Seq) where there is no identifier
unfoldable pub message_key : String → SessionMessage → String
message_key session_id m = or_else m.message_id (session_id ++ ":" ++ format_int m.seq)

unfoldable pub message_row : Library → String → SessionMessage → MessageRow
message_row lib session_id m = record {
  session_id = session_id;
  content_hash = digest lib m.content;
  msg = record m { message_id = message_key session_id m };
}

-- DO UPDATE SET ... = CASE WHEN the hashes are equal THEN excluded ELSE what is there
unfoldable pub merge_message : MessageRow → MessageRow → MessageRow
merge_message fresh r =
    if r.content_hash == fresh.content_hash
    then record r { msg = record fresh.msg { message_id = r.msg.message_id; seq = r.msg.seq } }
    else r

-- the insert meets the primary key where the message is new under this number
abbrev pub takes_identifier : MessageRow → List MessageRow → Bool
takes_identifier fresh t =
    not (is_some (find (at_seq fresh.session_id fresh.msg.seq) t))
    && is_some (find (λ r. r.msg.message_id == fresh.msg.message_id) t)

-- SELECT content_hash, and the comparison behind it
unfoldable pub check_hash : MessageRow → List MessageRow → Result (List MessageRow)
check_hash fresh t = elim (find (at_seq fresh.session_id fresh.msg.seq) t) [
  | none ↦ err (engine "sql: no rows in result set")
  | some r ↦ do
    refuse (not (r.content_hash == fresh.content_hash))
        (message ("seq " ++ format_int fresh.msg.seq ++ " reused with different content"))
    ok t
]

unfoldable pub upsert_message :
    Library → String → SessionMessage → List MessageRow → Result (List MessageRow)
upsert_message lib session_id m t =
    let fresh = message_row lib session_id m in
    do
      refuse (takes_identifier fresh t)
          (engine "UNIQUE constraint failed: transcript_messages.message_id")
      check_hash fresh (upsert (at_seq session_id m.seq) (merge_message fresh) fresh t)

-- the loop of upsertMessages
unfoldable pub upsert_messages :
    Library → String → List SessionMessage → List MessageRow → Result (List MessageRow)
upsert_messages lib session_id [] t = ok t
upsert_messages lib session_id (m ∷ ms) t = do
  u ← upsert_message lib session_id m t
  upsert_messages lib session_id ms u

abbrev pub by_seq : SessionMessage → SessionMessage → Bool
by_seq a b = lt_int a.seq b.seq

unfoldable pub load_messages : String → List MessageRow → List SessionMessage
load_messages session_id t =
    sort_by by_seq (map (λ r. r.msg) (select (λ r. r.session_id == session_id) t))
