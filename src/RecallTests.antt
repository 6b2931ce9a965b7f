-- ===== src/RecallTests.antt =====
-- Runs of a recall over small searches; the floats are integers.
use crdt_agent_memory.Prelude.{
  not, ◌&&◌, ℕ, ◌+◌, ◌*◌, ◌≡◌, ◌≤◌, ℤ, pos, lt_int, eq_int, is_some, length, refl, true, false,
  Bool, String, List, [], ◌∷◌, Error, Result, ok, err, message, ◌>>=◌, ◌==◌,
}
use crdt_agent_memory.Text.{trim}
use crdt_agent_memory.Table.{find}
use crdt_agent_memory.Memory.Ranking.{RecallResult, RecallCandidateRow, Floats}
use crdt_agent_memory.Memory.Recall.{
  RecallRequest, RecallResponse, RecallQueries, RecallCandidate, skipped_warning, recall_limit,
  recall_detailed, normalize_recall_request, merge_retrieval_candidates,
}
use crdt_agent_memory.Memory.Recall.Merge.{IsBestRank, rank_in, merge-best}
use crdt_agent_memory.Memory.Recall.Bounds.{
  warned, without_vectors, recall-degrades, recall_detailed-bounded,
}

abbrev hit : String → ℕ → ℕ → RecallCandidate ℤ
hit memory_id semantic_rank lexical_rank = record {
  memory_id = memory_id;
  semantic_rank = semantic_rank;
  lexical_rank = lexical_rank;
  semantic_distance = pos 0;
  lexical_bm25 = pos 0;
}

abbrev two_searches : List (RecallCandidate ℤ)
two_searches = hit "m1" 2 0 ∷ hit "m2" 1 0 ∷ hit "m1" 0 1 ∷ []

merge-best_example :
    IsBestRank
      (λ c. c.semantic_rank)
      "m1"
      two_searches
      (rank_in (λ c. c.semantic_rank) "m1" (merge_retrieval_candidates [] two_searches))
    × IsBestRank
        (λ c. c.lexical_rank)
        "m1"
        two_searches
        (rank_in (λ c. c.lexical_rank) "m1" (merge_retrieval_candidates [] two_searches))
merge-best_example = merge-best "m1" two_searches

abbrev integers : Floats ℤ
integers = record {
  lit = λ s. pos 0;
  float = λ i. i;
  plus = λ a b. a;
  minus = λ a b. a;
  times = λ a b. a;
  over = λ a b. a;
  below = lt_int;
  same = eq_int;
}

abbrev item : String → RecallResult
item unit_id = record {
  unit_id = unit_id;
  source_type = "memory";
  memory_space = "private";
  memory_id = unit_id;
  namespace = "team/dev";
  unit_kind = "fact";
  memory_type = "fact";
  subject = "s";
  body = "b";
  lifecycle_state = "active";
  authored_at_ms = pos 5;
  source_uri = "";
  source_hash = "";
  origin_peer_id = "";
}

abbrev found_row : RecallCandidate ℤ → RecallCandidateRow ℤ
found_row c = record {
  key = record { memory_space = "private"; memory_id = c.memory_id };
  found = item c.memory_id;
  signature_status = "";
  has_signature = false;
  trust_weight = pos 1;
  semantic_rank = c.semantic_rank;
  lexical_rank = c.lexical_rank;
}

abbrev unavailable : Error
unavailable = message "semantic provider unavailable"

abbrev queries : RecallQueries ℤ
queries = record {
  vector_enabled = ok true;
  vector_candidates = λ req limit. err unavailable;
  is_unavailable = λ e. true;
  fts_candidates = λ req limit. ok (hit "m1" 0 1 ∷ hit "m2" 0 2 ∷ []);
  candidate_rows = λ t. ok (found_row (hit "m1" 0 1) ∷ found_row (hit "m2" 0 2) ∷ []);
  graph_stats = λ keys.
      ok (λ k. record { edge_count = pos 0; support_weight = pos 0; contradict_weight = pos 0 });
  artifact_stats = λ keys. ok (λ k. record { span_count = pos 0; quote_count = pos 0 });
  ranking_profile = ok "default";
}

abbrev question : RecallRequest
question = record {
  query = " ring ";
  namespaces = [];
  include_private = false;
  include_shared = false;
  include_transcript = false;
  project_key = "";
  branch_name = "";
  unit_kinds = [];
  source_types = [];
  limit = pos 1;
}

recall-degrades_example :
    recall_detailed integers queries question (pos 9)
    ≡ (recall_detailed integers (without_vectors queries) question (pos 9) >>= warned)
recall-degrades_example =
    recall-degrades integers queries question (pos 9) unavailable refl refl refl

abbrev answer : RecallResponse
answer = record { items = item "m1" ∷ []; warnings = skipped_warning ∷ [] }

answered : recall_detailed integers queries question (pos 9) ≡ ok answer
unfolding recall_detailed normalize_recall_request trim
    crdt_agent_memory.Memory.Recall.recall_retrieval_units
    crdt_agent_memory.Memory.Recall.semantic_candidates crdt_agent_memory.Memory.Recall.rank_found
    merge_retrieval_candidates crdt_agent_memory.Table.upsert
    crdt_agent_memory.Memory.Ranking.rank_retrieval_rows crdt_agent_memory.Prelude.take
    crdt_agent_memory.Prelude.sort_by crdt_agent_memory.Memory.Ranking.outranks
    crdt_agent_memory.Memory.Ranking.scored_row crdt_agent_memory.Memory.Ranking.recall_score
    crdt_agent_memory.Memory.Ranking.row_bucket crdt_agent_memory.Memory.Requests.ranking_bucket
answered = refl

recall_detailed-bounded_example : length answer.items ≤ recall_limit question.limit
recall_detailed-bounded_example =
    recall_detailed-bounded integers queries question (pos 9) answer answered
