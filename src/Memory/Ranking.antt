-- ===== src/Memory/Ranking.antt =====
-- The scores and the ranking of a recall in internal/memory/retrieval_units.go and service.go. Go's
-- floats are the parameter `Floats`.
use crdt_agent_memory.Prelude.{
  ℕ, ◌-◌, ◌-ℤ◌, ℤ, pos, lt_int, eq_int, is_pos, String, Bool, not, ◌||◌, List, [], ◌∷◌, map, take,
  sort_by, ltb, ◌==◌, if◌then◌else◌,
}
use crdt_agent_memory.Text.{trim, to_lower, contains, one_of, lt_text}
use crdt_agent_memory.Memory.Requests.{ranking_bucket}

pub record RecallResult : Type 0 where
  pub unit_id : String
  pub source_type : String
  pub memory_space : String
  pub memory_id : String
  pub namespace : String
  pub unit_kind : String
  pub memory_type : String
  pub subject : String
  pub body : String
  pub lifecycle_state : String
  pub authored_at_ms : ℤ
  pub source_uri : String
  pub source_hash : String
  pub origin_peer_id : String

pub record RecallKey : Type 0 where
  pub memory_space : String
  pub memory_id : String

pub record RecallCandidateRow (F : Type 0) : Type 0 where
  pub key : RecallKey
  pub found : RecallResult
  pub signature_status : String
  pub has_signature : Bool
  pub trust_weight : F
  pub semantic_rank : ℕ
  pub lexical_rank : ℕ

pub record RecallGraphStat (F : Type 0) : Type 0 where
  pub edge_count : ℤ
  pub support_weight : F
  pub contradict_weight : F

pub record RecallArtifactStat : Type 0 where
  pub span_count : ℤ
  pub quote_count : ℤ

-- a float literal, a conversion, and Go's operators
pub record Floats (F : Type 0) : Type 0 where
  pub lit : String → F
  pub float : ℤ → F
  pub plus : F → F → F
  pub minus : F → F → F
  pub times : F → F → F
  pub over : F → F → F
  pub below : F → F → Bool
  pub same : F → F → Bool

pub record RankingConfig (F : Type 0) : Type 0 where
  pub name : String
  pub semantic_weight : F
  pub lexical_weight : F
  pub graph_weight : F
  pub artifact_weight : F
  pub recency_weight : F
  pub source_weight : F
  pub exact_match_boost : F
  pub transcript_bonus : F

pub record ScoredRow (F : Type 0) : Type 0 where
  pub row : RecallCandidateRow F
  pub score : F
  pub bucket : ℕ
  pub trust_weight : F

module _ {F : Type 0} (fl : Floats F) where
  unfoldable pub retrieval_ranking_profile : String → RankingConfig F
  retrieval_ranking_profile name =
      if one_of (to_lower (trim name)) ("ja" ∷ "ja-default" ∷ [])
      then record {
        name = "ja-default";
        semantic_weight = fl.lit "0.80";
        lexical_weight = fl.lit "0.50";
        graph_weight = fl.lit "42.0";
        artifact_weight = fl.lit "40.0";
        recency_weight = fl.lit "5.0";
        source_weight = fl.lit "24.0";
        exact_match_boost = fl.lit "30.0";
        transcript_bonus = fl.lit "40.0";
      }
      else record {
        name = "default";
        semantic_weight = fl.lit "0.60";
        lexical_weight = fl.lit "0.40";
        graph_weight = fl.lit "40.0";
        artifact_weight = fl.lit "40.0";
        recency_weight = fl.lit "5.0";
        source_weight = fl.lit "20.0";
        exact_match_boost = fl.lit "0";
        transcript_bonus = fl.lit "25.0";
      }

  unfoldable pub recall_graph_score : RecallGraphStat F → F
  recall_graph_score stat =
      let score =
        fl.minus
          (fl.plus (fl.times (fl.float stat.edge_count) (fl.lit "0.15"))
            (fl.times stat.support_weight (fl.lit "0.20")))
          (fl.times stat.contradict_weight (fl.lit "0.25")) in
      if fl.below score (fl.lit "0")
      then fl.lit "0"
      else if fl.below (fl.lit "1") score
      then fl.lit "1"
      else score

  unfoldable pub recall_artifact_score : RecallArtifactStat → F
  recall_artifact_score stat =
      let score =
        fl.plus (fl.times (fl.float stat.span_count) (fl.lit "0.25"))
          (fl.times (fl.float stat.quote_count) (fl.lit "0.15")) in
      if fl.below (fl.lit "1") score then fl.lit "1" else score

  unfoldable pub recall_recency_score : ℤ → ℤ → F
  recall_recency_score authored_at_ms now_ms =
      let age_hours = fl.over (fl.float (now_ms -ℤ authored_at_ms)) (fl.float (pos 3600000)) in
      if not (is_pos authored_at_ms) || not (is_pos now_ms)
      then fl.lit "0"
      else if lt_int now_ms authored_at_ms
      then fl.lit "1"
      else fl.over (fl.lit "1") (fl.plus (fl.lit "1") (fl.over age_hours (fl.lit "24.0")))

  unfoldable pub recall_source_score : RecallCandidateRow F → RankingConfig F → F
  recall_source_score row profile =
      let semantic =
        if ltb 0 row.semantic_rank
        then fl.plus (fl.lit "0.0")
            (fl.over profile.semantic_weight (fl.float (pos row.semantic_rank)))
        else fl.lit "0.0" in
      if ltb 0 row.lexical_rank
      then fl.plus semantic (fl.over profile.lexical_weight (fl.float (pos row.lexical_rank)))
      else semantic

  unfoldable pub exact_match_score : RecallCandidateRow F → String → F
  exact_match_score row query =
      let q = trim (to_lower query) in
      if q == ""
      then fl.lit "0"
      else if contains (to_lower row.found.subject) q
      then fl.lit "1.0"
      else if contains (to_lower row.found.body) q
      then fl.lit "0.75"
      else fl.lit "0"

  unfoldable pub row_bucket : RecallCandidateRow F → ℕ
  row_bucket row = ranking_bucket row.found.memory_space row.signature_status row.has_signature

  unfoldable pub recall_score :
      RecallCandidateRow F
      → RecallGraphStat F
      → RecallArtifactStat
      → ℤ
      → RankingConfig F
      → String
      → F
  recall_score row graph artifact now_ms profile query =
      let start = fl.times (fl.float (pos (3 - row_bucket row))) (fl.lit "1000.0") in
      let trusted = fl.plus start (fl.times row.trust_weight (fl.lit "100.0")) in
      let sourced =
        fl.plus trusted (fl.times (recall_source_score row profile) profile.source_weight) in
      let linked = fl.plus sourced (fl.times (recall_graph_score graph) profile.graph_weight) in
      let backed =
        fl.plus linked (fl.times (recall_artifact_score artifact) profile.artifact_weight) in
      let recent =
        fl.plus backed (
          fl.times (recall_recency_score row.found.authored_at_ms now_ms) profile.recency_weight) in
      fl.plus recent (fl.times (exact_match_score row query) profile.exact_match_boost)

  unfoldable pub scored_row :
      (RecallKey → RecallGraphStat F)
      → (RecallKey → RecallArtifactStat)
      → ℤ
      → RankingConfig F
      → String
      → RecallCandidateRow F
      → ScoredRow F
  scored_row graph artifact now_ms profile query row =
      let score = recall_score row (graph row.key) (artifact row.key) now_ms profile query in
      record {
        row = row;
        score =
            if row.found.memory_space == "transcript"
            then fl.plus score profile.transcript_bonus
            else score;
        bucket = row_bucket row;
        trust_weight = row.trust_weight;
      }

  -- the comparison of sort.SliceStable
  unfoldable pub outranks : ScoredRow F → ScoredRow F → Bool
  outranks a b =
      if not (fl.same a.score b.score)
      then fl.below b.score a.score
      else if not (eq_int a.row.found.authored_at_ms b.row.found.authored_at_ms)
      then lt_int b.row.found.authored_at_ms a.row.found.authored_at_ms
      else lt_text a.row.found.unit_id b.row.found.unit_id

  unfoldable pub rank_retrieval_rows :
      List (RecallCandidateRow F)
      → (RecallKey → RecallGraphStat F)
      → (RecallKey → RecallArtifactStat)
      → ℕ
      → ℤ
      → String
      → String
      → List RecallResult
  rank_retrieval_rows rows graph artifact limit now_ms ranking_profile query =
      map (λ s. s.row.found)
        (take limit (
          sort_by outranks (
            map (scored_row graph artifact now_ms (retrieval_ranking_profile ranking_profile) query)
              rows)))
