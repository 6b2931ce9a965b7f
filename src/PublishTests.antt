-- ===== src/PublishTests.antt =====
-- Runs of publication and of a review on small tables.
use crdt_agent_memory.Prelude.{pos, String, ◌≡◌, ◌⊎◌, [], ◌∷◌, ok, err, Error, refl}
use crdt_agent_memory.Text.{trim, to_lower}
use crdt_agent_memory.Sample.{noon}
use crdt_agent_memory.Memory.Tables.{MemoryRow, ChunkRow, StoreDb}
use crdt_agent_memory.Memory.Candidates.{Candidate}
use crdt_agent_memory.Memory.Promote.{ApproveCandidateRequest, ReviewDb}
use crdt_agent_memory.Memory.Promote.Approved.{Approved}
use crdt_agent_memory.Memory.Publish.{Redaction, publish, normalize_redaction_policy, redact_text}
use crdt_agent_memory.Memory.Publish.Redacted.{Published, publish_lem}
use crdt_agent_memory.Memory.Publish.Returns.{publish-returns}
use crdt_agent_memory.Table.{find}
use crdt_agent_memory.MemoryTests.{own_signer, own_service, empty_space, empty_db}

-- patterns that match nothing
abbrev plain : Redaction
plain = record {
  secret_assignments = λ s. s;
  bearers = λ s. s;
  file_uris = λ s. s;
  user_paths = λ s. s;
  remove_all = λ old s. s;
}

abbrev private_row : MemoryRow
private_row = record {
  memory_id = "p1";
  memory_type = "note";
  namespace = "team/dev";
  scope = "";
  subject = "s";
  body = "b";
  source_uri = "/home/a";
  source_hash = "";
  author_agent_id = "a";
  origin_peer_id = "peer/local";
  authored_at_ms = pos 5;
  valid_from_ms = pos 0;
  valid_to_ms = pos 0;
  lifecycle_state = "active";
  author_signature = "";
}

abbrev chunk : ChunkRow
chunk = record {
  chunk_id = "t1";
  session_id = "s1";
  chunk_seq = 0;
  chunk_kind = "rationale";
  start_seq = pos 0;
  end_seq = pos 1;
  text = "because";
  normalized_text = "because";
  content_hash = "";
  authored_at_ms = pos 4;
  sensitivity = "private";
  retention_class = "default";
}

abbrev private_db : StoreDb
private_db = record empty_db {
  private = record empty_space { nodes = private_row ∷ [] };
  chunks = chunk ∷ [];
}

publish_lem_example :
    ((failure : Error) × (publish own_service plain noon "p1" "" private_db
        ≡ (err failure, private_db)))
    ⊎ ((id : String) × (new : StoreDb) × (publish own_service plain noon "p1" "" private_db
          ≡ (ok id, new))
        × Published plain "p1" "" id private_db new)
publish_lem_example = publish_lem own_service plain noon "p1" "" private_db

abbrev candidate : Candidate
candidate = record {
  candidate_id = "c1";
  namespace = "team/dev";
  candidate_type = "decision";
  status = "pending";
  subject = "s";
  body = "b";
  source_uri = "";
  author_agent_id = "";
  origin_peer_id = "";
  sensitivity = "private";
  retention_class = "default";
  project_key = "";
  branch_name = "";
  authored_at_ms = pos 4;
  created_at_ms = pos 4;
  updated_at_ms = pos 4;
  approved_memory_id = "";
  reviewed_at_ms = pos 0;
  review_note = "";
}

abbrev review_db : ReviewDb
review_db = record {
  store = private_db;
  candidates = record {
    candidates = candidate ∷ [];
    chunks = record { link_id = "l1"; candidate_id = "c1"; chunk_id = "t1"; ordinal = 0 } ∷ [];
  };
}

abbrev approval : ApproveCandidateRequest
approval = record {
  candidate_id = "c1 ";
  memory_type = "";
  subject = "";
  namespace = "";
  author_agent_id = "";
  origin_peer_id = "";
  authored_at_ms = pos 0;
  source_uri = "";
}

publish-returns_example : (publish own_service plain noon "p1" "" private_db).0 ≡ ok (noon.uuid 0)
unfolding trim normalize_redaction_policy to_lower find redact_text
publish-returns_example =
    publish-returns own_service own_signer plain noon "p1" "" "default" private_row private_db refl
      refl refl refl refl refl refl
