-- ===== src/Memory/Recall.antt =====
-- Of internal/memory/retrieval_units.go, what RecallDetailed does to a request and to what its
-- queries find, with the merge of candidates. The queries are the parameter `RecallQueries`.
pub mod Merge
pub mod Bounds
use Prim.Native.Char.{Char, code}
use crdt_agent_memory.Prelude.{
  ℕ, ◌+◌, ◌*◌, ◌-◌, ◌-ℤ◌, ℤ, pos, negsuc, lt_int, eq_int, is_pos, pos_part, String, Bool, not, ◌&&◌,
  ◌||◌, Option, none, some, List, [], ◌∷◌, true, false, map, select, take, sort_by, length, message,
  Result, ok, err, ◌>>=◌, ◌>>◌, refuse, eqb, ltb, leb, ◌==◌, if◌then◌else◌, Error,
}
use crdt_agent_memory.Text.{trim, to_lower, contains, one_of, is_space, lt_text}
use crdt_agent_memory.Table.{find, upsert}
use crdt_agent_memory.Table.Keyed.{by}
use crdt_agent_memory.Memory.Ranking.{
  RecallResult, RecallKey, RecallCandidateRow, RecallGraphStat, RecallArtifactStat, Floats,
  RankingConfig, ScoredRow, retrieval_ranking_profile, recall_graph_score, recall_artifact_score,
  recall_recency_score, recall_source_score, exact_match_score, row_bucket, recall_score,
  scored_row, outranks, rank_retrieval_rows,
}

pub record RecallRequest : Type 0 where
  pub query : String
  pub namespaces : List String
  pub include_private : Bool
  pub include_shared : Bool
  pub include_transcript : Bool
  pub project_key : String
  pub branch_name : String
  pub unit_kinds : List String
  pub source_types : List String
  pub limit : ℤ

unfoldable pub normalize_recall_request : RecallRequest → RecallRequest
normalize_recall_request req =
    let none_chosen =
      not req.include_private && (not req.include_shared && not req.include_transcript) in
    record req {
      query = trim req.query;
      project_key = trim req.project_key;
      branch_name = trim req.branch_name;
      include_private = req.include_private || none_chosen;
      include_shared = req.include_shared || none_chosen;
    }

abbrev when : Bool → String → List String → List String
when true s rest = s ∷ rest
when false s rest = rest

unfoldable pub allowed_memory_spaces : RecallRequest → List String
allowed_memory_spaces req =
    when req.include_transcript "transcript"
      (when req.include_private "private" (when req.include_shared "shared" []))

-- the key's identifier; ranks count from 1, and 0 is no rank
pub record RecallCandidate (F : Type 0) : Type 0 where
  pub memory_id : String
  pub semantic_rank : ℕ
  pub lexical_rank : ℕ
  pub semantic_distance : F
  pub lexical_bm25 : F

abbrev pub improves : ℕ → ℕ → Bool
improves rank old = ltb 0 rank && (eqb old 0 || ltb rank old)

unfoldable pub merge_candidate :
    {F : Type 0} → RecallCandidate F → RecallCandidate F → RecallCandidate F
merge_candidate c old = record old {
  semantic_rank =
      if improves c.semantic_rank old.semantic_rank then c.semantic_rank else old.semantic_rank;
  semantic_distance =
      if improves c.semantic_rank old.semantic_rank
      then c.semantic_distance
      else old.semantic_distance;
  lexical_rank =
      if improves c.lexical_rank old.lexical_rank then c.lexical_rank else old.lexical_rank;
  lexical_bm25 =
      if improves c.lexical_rank old.lexical_rank then c.lexical_bm25 else old.lexical_bm25;
}

abbrev pub candidate_id : {F : Type 0} → RecallCandidate F → String
candidate_id c = c.memory_id

unfoldable pub merge_retrieval_candidates :
    {F : Type 0} → List (RecallCandidate F) → List (RecallCandidate F) → List (RecallCandidate F)
merge_retrieval_candidates dst [] = dst
merge_retrieval_candidates dst (c ∷ cs) =
    merge_retrieval_candidates (upsert (by candidate_id c.memory_id) (merge_candidate c) c dst) cs

-- the queries of a recall, on the database as it is; a key that a query of statistics does not
-- return has the zero value
pub record RecallQueries (F : Type 0) : Type 0 where
  pub vector_enabled : Result Bool
  pub vector_candidates : RecallRequest → ℕ → Result (List (RecallCandidate F))
  -- errors.Is(err, errSemanticProviderUnavailable)
  pub is_unavailable : Error → Bool
  pub fts_candidates : RecallRequest → ℕ → Result (List (RecallCandidate F))
  pub candidate_rows : List (RecallCandidate F) → Result (List (RecallCandidateRow F))
  pub graph_stats : List RecallKey → Result (RecallKey → RecallGraphStat F)
  pub artifact_stats : List RecallKey → Result (RecallKey → RecallArtifactStat)
  pub ranking_profile : Result String

pub record RecallResponse : Type 0 where
  pub items : List RecallResult
  pub warnings : List String

abbrev pub skipped_warning : String
skipped_warning = "embedding provider unavailable; semantic ranking skipped"

-- the identifiers of idsBySpace
abbrev has_stats : {F : Type 0} → RecallCandidateRow F → Bool
has_stats row = (row.found.memory_space == "shared") || (row.found.memory_space == "private")

abbrev stats_key : {F : Type 0} → RecallCandidateRow F → RecallKey
stats_key row = record { memory_space = row.found.memory_space; memory_id = row.found.memory_id }

abbrev pub candidate_limit : ℕ → ℕ
candidate_limit limit = if ltb (limit * 10) 50 then 50 else limit * 10

abbrev pub recall_limit : ℤ → ℕ
recall_limit limit = if is_pos limit then pos_part limit else 10

module _ {F : Type 0} (fl : Floats F) (q : RecallQueries F) where
  -- what the vector index adds: the candidates, and the warnings
  unfoldable pub semantic_candidates :
      RecallRequest → ℕ → Result (List (RecallCandidate F) × List String)
  semantic_candidates req limit = q.vector_enabled >>= λ enabled.
      if enabled
      then elim (q.vector_candidates req (candidate_limit limit)) [
        | err e ↦ if q.is_unavailable e then ok ([], skipped_warning ∷ []) else err e
        | ok rows ↦ ok (rows, [])
      ]
      else ok ([], [])

  unfoldable pub rank_found :
      RecallRequest → ℕ → ℤ → List (RecallCandidate F) → Result (List RecallResult)
  rank_found req limit now_ms [] = ok []
  rank_found req limit now_ms (c ∷ cs) = do
    rows ← q.candidate_rows (c ∷ cs)
    graph ← q.graph_stats (map stats_key (select has_stats rows))
    artifact ← q.artifact_stats (map stats_key (select has_stats rows))
    profile ← q.ranking_profile
    ok (rank_retrieval_rows fl rows graph artifact limit now_ms profile req.query)

  unfoldable pub recall_retrieval_units : RecallRequest → ℕ → ℤ → Result RecallResponse
  recall_retrieval_units req limit now_ms = do
    (vector_rows, warnings) ← semantic_candidates req limit
    fts_rows ← q.fts_candidates req (candidate_limit limit)
    items ←
        rank_found req limit now_ms
          (merge_retrieval_candidates (merge_retrieval_candidates [] vector_rows) fts_rows)
    ok (record { items = items; warnings = warnings })

  unfoldable pub recall_detailed : RecallRequest → ℤ → Result RecallResponse
  recall_detailed given now_ms =
      let req = normalize_recall_request given in
      refuse (req.query == "") (message "query is required")
      >> recall_retrieval_units req (recall_limit req.limit) now_ms

  unfoldable pub recall : RecallRequest → ℤ → Result (List RecallResult)
  recall req now_ms = recall_detailed req now_ms >>= λ response. ok response.items
