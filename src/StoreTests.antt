-- ===== src/StoreTests.antt =====
-- Runs of the scrubber, the trace, the configuration and the request checks on small data.
use crdt_agent_memory.Prelude.{
  some, if◌then◌else◌, ℤ, pos, ◌≡◌, ◌&&◌, [], ◌∷◌, ok, any, String, refl, ◌==◌,
}
use crdt_agent_memory.Sample.{plain_crypto, noon, entry_a, policy_a, key_text}
use crdt_agent_memory.Sync.Types.{NodeRow}
use crdt_agent_memory.Scrubber.Tables.{Suspension, RepairDb}
use crdt_agent_memory.Scrubber.Repair.{run_active_repair, is_orphan_edge, is_orphan_signal}
use crdt_agent_memory.Scrubber.Repair.Exact.{is_open, run_active_repair-exact}
use crdt_agent_memory.Scrubber.Diagnose.{Self, diagnose, with_self, load_peer_trust}
use crdt_agent_memory.Scrubber.Diagnose.Counts.{IsTally, diagnose-IsTally}
use crdt_agent_memory.Memory.Trace.{
  TraceDecisionNode, EdgeRow, GraphDb, walk_trace_decision, depth_of,
}
use crdt_agent_memory.Memory.Trace.Paths.{HasRoutes, walk_trace_decision-HasRoutes}
use crdt_agent_memory.Memory.Requests.{StoreRequest, MemoryRelationInput, normalize_store_request}
use crdt_agent_memory.Memory.Requests.Normal.{normalize_store_request_idem}
use crdt_agent_memory.Text.{trim}
use crdt_agent_memory.Memory.Candidates.{Candidate, CandidateDb, reject_candidate, set_rejected}
use crdt_agent_memory.Memory.Candidates.Review.{
  candidate, Step, Steps, reviewed-Steps, reject_candidate_lem,
}
use crdt_agent_memory.Config.{Config, Embedding, Search, apply_defaults, load}
use crdt_agent_memory.Config.Valid.{IsValid, load-IsValid}

abbrev fact : String → String → NodeRow
fact origin signature = record {
  memory_type = "fact";
  namespace = "team/dev";
  subject = "";
  body = "b";
  source_uri = "";
  source_hash = "";
  author_agent_id = "agent";
  origin_peer_id = origin;
  authored_at_ms = pos 1;
  valid_from_ms = pos 0;
  valid_to_ms = pos 0;
  author_signature = signature;
}

abbrev old_suspension : Suspension
old_suspension = record {
  entity_type = "memory_signal";
  entity_id = "s1";
  memory_space = "shared";
  memory_id = "m1";
  reason = "orphaned";
  detail = "missing_memory";
  first_seen_at_ms = pos 1;
  last_seen_at_ms = pos 1;
  resolved_at_ms = pos 0;
}

-- an edge to a memory that is missing, and a signal whose memory has come back
abbrev torn_graph : RepairDb ℤ
torn_graph = record {
  nodes =
      record { memory_id = "m1"; row = fact "peer-a" "m1" }
      ∷ record { memory_id = "m2"; row = fact "peer-a" "" }
      ∷ record { memory_id = "m3"; row = fact "peer-z" "m3" }
      ∷ [];
  edges = record { edge_id = "e1"; from_memory_id = "m1"; to_memory_id = "m9" } ∷ [];
  signals = record { signal_id = "s1"; memory_id = "m1" } ∷ [];
  suspensions = old_suspension ∷ [];
  quarantine = [];
  policies = policy_a ∷ [];
}

run_active_repair-exact_example :
    (is_open "memory_edge" "e1" (run_active_repair (pos 9) (pos 0) torn_graph).1.suspensions
      ≡ any (λ e. (e.edge_id == "e1") && is_orphan_edge torn_graph.nodes e) torn_graph.edges)
    × (is_open "memory_signal" "e1" (run_active_repair (pos 9) (pos 0) torn_graph).1.suspensions
        ≡ any
            (λ s. (s.signal_id == "e1") && is_orphan_signal torn_graph.nodes s)
            torn_graph.signals)
    × ((run_active_repair (pos 9) (pos 0) torn_graph).1.edges ≡ torn_graph.edges)
    × ((run_active_repair (pos 9) (pos 0) torn_graph).1.nodes ≡ torn_graph.nodes)
run_active_repair-exact_example = run_active_repair-exact (pos 9) (pos 0) torn_graph "e1" refl

abbrev own_key : Self
own_key = record { peer_id = "peer-b"; public_key_hex = key_text }

diagnose-IsTally_example :
    IsTally plain_crypto
      (with_self own_key (load_peer_trust torn_graph.policies).1)
      torn_graph.nodes
      (diagnose plain_crypto own_key torn_graph).signatures
diagnose-IsTally_example = diagnose-IsTally plain_crypto own_key torn_graph

abbrev decision : String → TraceDecisionNode
decision memory_id = record {
  memory_space = "shared";
  memory_id = memory_id;
  namespace = "team/dev";
  memory_type = "decision";
  subject = "";
  body = "b";
  lifecycle_state = "active";
  source_uri = "";
  source_hash = "";
  origin_peer_id = "peer-a";
  authored_at_ms = pos 1;
}

abbrev relation : String → String → String → String → EdgeRow
relation edge_id from to relation_type = record {
  edge_id = edge_id;
  from_memory_id = from;
  to_memory_id = to;
  relation_type = relation_type;
  authored_at_ms = pos 1;
}

abbrev small_graph : GraphDb
small_graph = record {
  memory_nodes = decision "a" ∷ decision "b" ∷ decision "c" ∷ [];
  private_memory_nodes = [];
  memory_edges = relation "e1" "a" "b" "supports" ∷ relation "e2" "b" "c" "contradicts" ∷ [];
  private_memory_edges = [];
  suspensions = [];
}

walk_trace_decision-HasRoutes_example :
    HasRoutes "shared" small_graph "a"
      (depth_of (pos 2))
      (walk_trace_decision "shared" "a" (pos 2) small_graph)
walk_trace_decision-HasRoutes_example =
    walk_trace_decision-HasRoutes "shared" "a" (pos 2) small_graph

abbrev note : StoreRequest
note = record {
  memory_id = "";
  visibility = "shared";
  namespace = "team/dev";
  memory_type = "";
  scope = "";
  subject = "s";
  body = "b";
  source_uri = "";
  source_hash = "";
  author_agent_id = "";
  origin_peer_id = "";
  authored_at_ms = pos 0;
  artifact_spans = [];
  relations = record { relation_type = " supports"; to_memory_id = "m1 "; weight = pos 0 } ∷ [];
}

abbrev stored_note : StoreRequest
stored_note = record {
  memory_id = "id";
  visibility = "shared";
  namespace = "team/dev";
  memory_type = "fact";
  scope = "team";
  subject = "s";
  body = "b";
  source_uri = "";
  source_hash = "";
  author_agent_id = "agent/default";
  origin_peer_id = "peer/local";
  authored_at_ms = pos 1000;
  artifact_spans = [];
  relations = record { relation_type = "supports"; to_memory_id = "m1"; weight = pos 1000 } ∷ [];
}

note_normal : normalize_store_request noon note ≡ ok stored_note
unfolding normalize_store_request crdt_agent_memory.Text.trim crdt_agent_memory.Memory.Requests.each
    crdt_agent_memory.Memory.Requests.normalize_memory_relation_input
    crdt_agent_memory.Memory.Requests.check_relation crdt_agent_memory.Memory.Requests.trim_relation
    crdt_agent_memory.Memory.Requests.is_allowed_store_relation_type crdt_agent_memory.Text.one_of
    crdt_agent_memory.Memory.Requests.with_defaults
note_normal = refl

normalize_store_request_idem_example : normalize_store_request noon stored_note ≡ ok stored_note
normalize_store_request_idem_example =
    normalize_store_request_idem noon noon note stored_note refl refl note_normal

abbrev given : Config
given = record {
  peer_id = "peer-b";
  database_path = "db";
  signing_key_path = "key";
  namespaces = "team/dev" ∷ [];
  extensions = record { crsqlite_path = ""; sqlite_vec_path = "" };
  transport = record { discovery_profile = ""; relay_profile = "" };
  api = record { listen_addr = ":1"; base_url = "http://b" };
  sync = record {
    listen_addr = ":2";
    public_url = "http://b";
    interval_ms = pos 0;
    batch_limit = pos 0;
    once_timeout = pos 0;
  };
  search = record { profile = ""; fts_tokenizer = "Trigram"; ranking_profile = "" };
  embedding = record {
    provider = "";
    model = "";
    base_url = "";
    dimension = pos 0;
    timeout_ms = pos 0;
  };
  peer_registry = entry_a ∷ [];
}

given_loads : load given ≡ ok (apply_defaults given)
unfolding load crdt_agent_memory.Config.validate crdt_agent_memory.Text.trim apply_defaults
    crdt_agent_memory.Text.to_lower crdt_agent_memory.Config.validate_peers
    crdt_agent_memory.Config.validate_peer crdt_agent_memory.Signing.parse_public_key_hex
    crdt_agent_memory.Encoding.Hex.hex_decode
given_loads = refl

load-IsValid_example :
    (apply_defaults given ≡ apply_defaults given) × IsValid (apply_defaults given)
load-IsValid_example = load-IsValid given (apply_defaults given) given_loads

abbrev proposal : String → Candidate
proposal status = record {
  candidate_id = "c1";
  namespace = "team/dev";
  candidate_type = "fact";
  status = status;
  subject = "s";
  body = "b";
  source_uri = "";
  author_agent_id = "";
  origin_peer_id = "";
  sensitivity = "";
  retention_class = "";
  project_key = "";
  branch_name = "";
  authored_at_ms = pos 1;
  created_at_ms = pos 1;
  updated_at_ms = pos 1;
  approved_memory_id = "";
  reviewed_at_ms = pos 0;
  review_note = "";
}

abbrev inbox : String → CandidateDb
inbox status = record { candidates = proposal status ∷ []; chunks = [] }

reject_candidate_lem_example :
    ((reject_candidate noon " c1" "no" (inbox "pending")).0 ≡ ok tt)
    × (candidate "c1" (reject_candidate noon " c1" "no" (inbox "pending")).1 ≡ (
        if "c1" == trim " c1"
        then some (set_rejected noon (trim "no") (proposal "pending"))
        else candidate "c1" (inbox "pending")))
unfolding crdt_agent_memory.Text.trim crdt_agent_memory.Table.find
reject_candidate_lem_example =
    reject_candidate_lem noon " c1" "no" (inbox "pending") (proposal "pending") "c1" refl refl refl

abbrev rejected_inbox : CandidateDb
rejected_inbox = inbox "rejected"

reviewed-Steps_example :
    candidate "c1" (reject_candidate noon "c1" "again" rejected_inbox).1
    ≡ some (proposal "rejected")
unfolding crdt_agent_memory.Table.find
reviewed-Steps_example =
    reviewed-Steps "c1" (proposal "rejected") refl refl
      (Steps.more Steps.done (Step.reject noon "c1" "again"))
