-- ===== src/IndexTests.antt =====
-- Runs of the ingestion of a session and of the indexing worker on small data.
use crdt_agent_memory.Prelude.{
  ◌∙◌, sym, ap, true, false, inl, inr, Bool-cases, ◌&&◌, ℤ, pos, String, Bool, ◌≡◌, refl, Option,
  none, some, List, [], ◌∷◌, ok, err, message, ◌==◌, if◌then◌else◌, arith,
}
use crdt_agent_memory.Text.{contains}
use crdt_agent_memory.Memory.Tables.{RetrievalUnit}
use crdt_agent_memory.MemoryTests.{empty_db}
use crdt_agent_memory.Ingest.{SessionMessage, Library}
use crdt_agent_memory.Indexer.{
  Embedding, Backend, IndexDb, fetch_indexable_unit, process_retrieval_items,
}
use crdt_agent_memory.Indexer.Rounds.{Answers, pending, pending_units, rounds, rounds-drain}
use crdt_agent_memory.Table.{find}
use crdt_agent_memory.Indexer.Secrets.{AgreeOnOpen, process_retrieval_items-alike}

abbrev plain_library : Library
plain_library = record {
  sha256 = λ s. s;
  has_secret = λ s. contains s "token";
  artifacts = λ s. [];
  path_base = λ s. s;
}

abbrev said : ℤ → String → String → SessionMessage
said seq role content = record {
  message_id = "";
  seq = seq;
  role = role;
  tool_name = "";
  content = content;
  authored_at_ms = seq;
  metadata = "{}";
}

-- out of order, with an answer in front of the first question
abbrev talk : List SessionMessage
talk =
    said (pos 3) "assistant" "decision: my token"
    ∷ said (pos 1) "system" "hello"
    ∷ said (pos 2) "user" "which?"
    ∷ []

abbrev flat : Embedding
flat = record { json = "[1]"; dim = 1 }

abbrev plain_backend : Backend
plain_backend = record {
  from_document = λ s. ok flat;
  memory_vectors = ok Bool.true;
  unit_vectors = ok Bool.false;
  vec_f32 = λ s. if s == "[1]" then ok s else err (message "not a vector");
}

plain_backend-Answers : Answers plain_backend
plain_backend-Answers = record {
  memory_vectors = (Bool.true, refl);
  unit_vectors = (Bool.false, refl);
  from_document = λ s. (flat, refl, ("[1]", refl));
}

abbrev hidden_unit : RetrievalUnit
hidden_unit = record {
  unit_id = "u1";
  source_type = "transcript_chunk";
  source_id = "u1";
  memory_space = "transcript";
  namespace = "team/dev";
  unit_kind = "decision";
  title = "";
  body = "my token";
  body_hash = "";
  authored_at_ms = pos 3;
  sensitivity = "secret";
  retention_class = "default";
  state = "active";
  source_uri = "";
  project_key = "";
  branch_name = "";
}

-- a queued unit that is secret, and a queued memory that is gone
abbrev waiting_db : IndexDb
waiting_db = record {
  store = record empty_db {
    units = hidden_unit ∷ [];
    unit_queue =
        record { queue_id = "q1"; unit_id = "u1"; enqueued_at_ms = pos 4; processed_at_ms = pos 0 }
        ∷ [];
    index_queue =
        record {
          queue_id = "q2";
          memory_space = "shared";
          memory_id = "m1";
          enqueued_at_ms = pos 4;
          processed_at_ms = pos 0;
        }
        ∷ [];
  };
  memory_embeddings = [];
  memory_vectors = [];
  unit_embeddings = [];
  unit_vectors = [];
}

rounds-drain_example :
    (pending (rounds plain_backend (pos 9 ∷ []) waiting_db) ≡ 0)
    × (pending_units (rounds plain_backend (pos 9 ∷ []) waiting_db) ≡ 0)
unfolding crdt_agent_memory.Prelude.Lists.select
rounds-drain_example =
    rounds-drain plain_backend (pos 9 ∷ []) waiting_db plain_backend-Answers (refl, tt)
      (omega arith) (omega arith)

-- a backend that refuses to embed
abbrev mute_backend : Backend
mute_backend = record plain_backend { from_document = λ t. err (message "unavailable") }

only_hidden :
    (p : RetrievalUnit → Bool) (u : RetrievalUnit)
    → find p (hidden_unit ∷ []) ≡ some u
    → hidden_unit ≡ u
unfolding find
only_hidden p u found = elim (Bool-cases (p hidden_unit)) [
  | inl e ↦ let same : some hidden_unit ≡ some u = rw e at found in cc
  | inr e ↦ let gone : none ≡ some u = rw e at found in cc
]

all_secret : AgreeOnOpen plain_backend mute_backend waiting_db.store.units
unfolding fetch_indexable_unit
all_secret = record {
  unit_vectors = refl;
  vec_f32 = λ s. refl;
  from_document = λ db id u same found is_open.
      let here = rw same at found in
      let secret = ap (λ v. v.sensitivity == "secret") (only_hidden _ u here) in
      let bad : true ≡ false = secret ∙ is_open in cc;
}

process_retrieval_items-alike_example :
    process_retrieval_items plain_backend (pos 9) waiting_db
    ≡ process_retrieval_items mute_backend (pos 9) waiting_db
process_retrieval_items-alike_example =
    process_retrieval_items-alike plain_backend mute_backend (pos 9) waiting_db all_secret
