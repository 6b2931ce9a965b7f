-- ===== src/Memory/Recall/Bounds.antt =====
-- The items and the warnings of RecallDetailed of internal/memory/retrieval_units.go.
use crdt_agent_memory.Prelude.{
  ℕ, ◌≡◌, ◌≤◌, refl, true, Bool, String, List, [], ◌∷◌, Error, Result, Result-cases, ok, err, inl,
  inr, length, >>=-eq-ok, refuse-passed, ◌>>=◌, map, arith, ℤ, Bool-cases, ◌==◌,
}
use crdt_agent_memory.Prelude.Lists.{length-take-le}
use crdt_agent_memory.Memory.Ranking.{
  Floats, RecallResult, RecallKey, RecallGraphStat, RecallArtifactStat, RecallCandidateRow,
  rank_retrieval_rows,
}
use crdt_agent_memory.Memory.Recall.{
  RecallRequest, RecallResponse, RecallQueries, RecallCandidate, candidate_limit, recall_limit,
  merge_retrieval_candidates, recall_detailed, rank_found, recall_retrieval_units,
  semantic_candidates, skipped_warning, normalize_recall_request,
}

-- the queries of a service without a vector index
abbrev pub without_vectors : {F : Type 0} → RecallQueries F → RecallQueries F
without_vectors q = record q { vector_enabled = ok Bool.false }

abbrev pub warned : RecallResponse → Result RecallResponse
warned r = ok (record r { warnings = skipped_warning ∷ [] })

same_rows :
    {F : Type 0} (fl : Floats F) (q : RecallQueries F) (req : RecallRequest) (limit : ℕ)
    (now_ms : ℤ) (t : List (RecallCandidate F))
    → rank_found fl (without_vectors q) req limit now_ms t ≡ rank_found fl q req limit now_ms t
unfolding rank_found
same_rows fl q req limit now_ms [] = refl
same_rows fl q req limit now_ms (c ∷ cs) = refl

skipped :
    {F : Type 0} (fl : Floats F) (q : RecallQueries F) (req : RecallRequest) (limit : ℕ)
    (failure : Error)
    → q.vector_enabled ≡ ok true
    → q.vector_candidates req (candidate_limit limit) ≡ err failure
    → q.is_unavailable failure ≡ true
    → semantic_candidates fl q req limit ≡ ok ([], skipped_warning ∷ [])
unfolding semantic_candidates
skipped fl q req limit failure enabled failed unavailable = rw (enabled, failed, unavailable) refl

units-degrade :
    {F : Type 0} (fl : Floats F) (q : RecallQueries F) (req : RecallRequest) (limit : ℕ)
    (now_ms : ℤ)
    → semantic_candidates fl q req limit ≡ ok ([], skipped_warning ∷ [])
    → recall_retrieval_units fl q req limit now_ms
      ≡ (recall_retrieval_units fl (without_vectors q) req limit now_ms >>= warned)
unfolding recall_retrieval_units semantic_candidates
units-degrade fl q req limit now_ms semantic =
    elim (Result-cases (q.fts_candidates req (candidate_limit limit))) [
      | inr (x, e) ↦ rw (semantic, e) refl
      | inl (rows, e) ↦
          let found = merge_retrieval_candidates (merge_retrieval_candidates [] []) rows in
          elim (Result-cases (rank_found fl q req limit now_ms found)) [
            | inr (x, f) ↦ rw (semantic, e, same_rows fl q req limit now_ms found, f) refl
            | inl (items, f) ↦ rw (semantic, e, same_rows fl q req limit now_ms found, f) refl
          ]
    ]

-- Where the embedding provider is unavailable, RecallDetailed answers, errors included, what it
-- answers without a vector index, with the warning that semantic ranking was skipped.
pub recall-degrades :
    {F : Type 0} (fl : Floats F) (q : RecallQueries F) (req : RecallRequest) (now_ms : ℤ)
    (failure : Error)
    → q.vector_enabled ≡ ok true
    → q.vector_candidates
        (normalize_recall_request req)
        (candidate_limit (recall_limit (normalize_recall_request req).limit))
      ≡ err failure
    → q.is_unavailable failure ≡ true
    → recall_detailed fl q req now_ms
      ≡ (recall_detailed fl (without_vectors q) req now_ms >>= warned)
unfolding recall_detailed
recall-degrades fl q req now_ms failure enabled failed unavailable =
    let normal = normalize_recall_request req in
    elim (Bool-cases (normal.query == "")) [
      | inl e ↦ rw e refl
      | inr e ↦ rw e (
          units-degrade fl q normal (recall_limit normal.limit) now_ms
            (skipped fl q normal (recall_limit normal.limit) failure enabled failed unavailable))
    ]

length-map_lem : {A B : Type 0} (f : A → B) (xs : List A) → length (map f xs) ≡ length xs
length-map_lem f [] = refl
length-map_lem f (x ∷ xs) = ground (arith, length-map_lem f xs)

ranked-bounded :
    {F : Type 0} (fl : Floats F) (rows : List (RecallCandidateRow F))
    (graph : RecallKey → RecallGraphStat F) (artifact : RecallKey → RecallArtifactStat) (limit : ℕ)
    (now_ms : ℤ) (profile query : String)
    → length (rank_retrieval_rows fl rows graph artifact limit now_ms profile query) ≤ limit
unfolding rank_retrieval_rows
ranked-bounded fl rows graph artifact limit now_ms profile query =
    rw (length-map_lem _ _) (length-take-le limit _)

found-bounded :
    {F : Type 0} (fl : Floats F) (q : RecallQueries F) (req : RecallRequest) (limit : ℕ)
    (now_ms : ℤ) (t : List (RecallCandidate F)) (items : List RecallResult)
    → rank_found fl q req limit now_ms t ≡ ok items
    → length items ≤ limit
unfolding rank_found
found-bounded fl q req limit now_ms [] items done =
    let same : [] ≡ items = cc in rw (← same) (omega arith)
found-bounded fl q req limit now_ms (c ∷ cs) items done =
    let (rows, e₁, h₁) = >>=-eq-ok (q.candidate_rows (c ∷ cs)) _ done in
    let (graph, e₂, h₂) = >>=-eq-ok (q.graph_stats _) _ h₁ in
    let (artifact, e₃, h₃) = >>=-eq-ok (q.artifact_stats _) _ h₂ in
    let (profile, e₄, last) = >>=-eq-ok q.ranking_profile _ h₃ in
    let same : rank_retrieval_rows fl rows graph artifact limit now_ms profile req.query ≡ items =
      cc in
    rw (← same) (ranked-bounded fl rows graph artifact limit now_ms profile req.query)

-- A call of RecallDetailed that succeeds returns no more items than the limit of the request, or
-- than 10 where that is not positive.
pub recall_detailed-bounded :
    {F : Type 0} (fl : Floats F) (q : RecallQueries F) (req : RecallRequest) (now_ms : ℤ)
    (response : RecallResponse)
    → recall_detailed fl q req now_ms ≡ ok response
    → length response.items ≤ recall_limit req.limit
unfolding recall_detailed recall_retrieval_units normalize_recall_request
recall_detailed-bounded fl q req now_ms response done =
    let normal = normalize_recall_request req in
    let (b, h₁) = refuse-passed (normal.query == "") _ _ _ done in
    let (semantic, e₁, h₂) =
      >>=-eq-ok (semantic_candidates fl q normal (recall_limit normal.limit)) _ h₁ in
    let (rows, e₂, h₃) =
      >>=-eq-ok (q.fts_candidates normal (candidate_limit (recall_limit normal.limit))) _ h₂ in
    let (items, e₃, last) =
      >>=-eq-ok (rank_found fl q normal (recall_limit normal.limit) now_ms _) _ h₃ in
    let same : items ≡ response.items = cc in
    let bound = found-bounded fl q normal (recall_limit normal.limit) now_ms _ items e₃ in
    rw (← same) bound
