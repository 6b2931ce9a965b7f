-- ===== src/Memory/Recall/Merge.antt =====
-- The ranks that mergeRetrievalCandidates of internal/memory/retrieval_units.go keeps.
use mathlib.Core.Path.{subst}
use crdt_agent_memory.Prelude.{
  ℕ, ◌≡◌, ◌∙◌, ◌≤◌, ◌<◌, ◌&&◌, ◌⊎◌, All, any, sym, ap, refl, true, Bool, String, Option, some, none,
  List, [], ◌∷◌, arith, inl, inr, Bool-cases, eqb, ◌==◌, eq_iff, if◌then◌else◌,
}
use crdt_agent_memory.Table.{find, upsert}
use crdt_agent_memory.Table.Laws.{merged}
use crdt_agent_memory.Table.Keyed.{by, find-upsert}
use crdt_agent_memory.Memory.Recall.{
  RecallCandidate, improves, merge_candidate, merge_retrieval_candidates, candidate_id,
}

-- the better of two ranks, where 0 is none
abbrev pub best : ℕ → ℕ → ℕ
best a b = if improves b a then b else a

same_key :
    {F : Type 0} (c old : RecallCandidate F)
    → candidate_id (merge_candidate c old) ≡ candidate_id old
unfolding merge_candidate
same_key c old = refl

semantic-merge :
    {F : Type 0} (c old : RecallCandidate F)
    → (merge_candidate c old).semantic_rank ≡ best old.semantic_rank c.semantic_rank
unfolding merge_candidate
semantic-merge c old = refl

lexical-merge :
    {F : Type 0} (c old : RecallCandidate F)
    → (merge_candidate c old).lexical_rank ≡ best old.lexical_rank c.lexical_rank
unfolding merge_candidate
lexical-merge c old = refl

module _ {F : Type 0} (rank : RecallCandidate F → ℕ) where
  abbrev rank_of : Option (RecallCandidate F) → ℕ
  rank_of none = 0
  rank_of (some c) = rank c

  -- the rank that the row for `id` has, or 0
  abbrev pub rank_in : String → List (RecallCandidate F) → ℕ
  rank_in id t = rank_of (find (by candidate_id id) t)

  -- the best rank that the rows for `id` have, starting from one
  unfoldable pub best_of : String → ℕ → List (RecallCandidate F) → ℕ
  best_of id r [] = r
  best_of id r (c ∷ cs) = best_of id (if c.memory_id == id then best r (rank c) else r) cs

  merged_rank :
      (o : Option (RecallCandidate F)) (c : RecallCandidate F)
      → ((old : RecallCandidate F) → rank (merge_candidate c old) ≡ best (rank old) (rank c))
      → rank_of (some (merged (merge_candidate c) c o)) ≡ best (rank_of o) (rank c)
  merged_rank none c merges = ground arith
  merged_rank (some old) c merges = merges old

  rank-upsert :
      (id : String) (t : List (RecallCandidate F)) (c : RecallCandidate F)
      → ((old : RecallCandidate F) → rank (merge_candidate c old) ≡ best (rank old) (rank c))
      → rank_in id (upsert (by candidate_id c.memory_id) (merge_candidate c) c t)
        ≡ (if c.memory_id == id then best (rank_in id t) (rank c) else rank_in id t)
  rank-upsert id t c merges =
      let at = find-upsert candidate_id c.memory_id id (merge_candidate c) c t (same_key c) refl in
      ap rank_of at ∙ elim (Bool-cases (c.memory_id == id)) [
        | inl e ↦
            rw (e, ← (eq_iff c.memory_id id).0 e)
              (merged_rank (find (by candidate_id c.memory_id) t) c merges)
        | inr e ↦ rw e refl
      ]

  pub rank-merge :
      (id : String) (dst src : List (RecallCandidate F))
      → ((c old : RecallCandidate F) → rank (merge_candidate c old) ≡ best (rank old) (rank c))
      → rank_in id (merge_retrieval_candidates dst src) ≡ best_of id (rank_in id dst) src
  unfolding merge_retrieval_candidates best_of
  rank-merge id dst [] merges = refl
  rank-merge id dst (c ∷ cs) merges =
      let first =
        rank-merge id (upsert (by candidate_id c.memory_id) (merge_candidate c) c dst) cs merges in
      first ∙ ap (λ r. best_of id r cs) (rank-upsert id dst c (merges c))

  -- no row of the list for `id` has a better rank than r
  abbrev pub IsNoBetter : String → ℕ → RecallCandidate F → Type 0
  IsNoBetter id r c = (c.memory_id == id) ≡ true → 0 < rank c → (0 < r) × (r ≤ rank c)

  abbrev pub has_rank : String → ℕ → RecallCandidate F → Bool
  has_rank id r c = (c.memory_id == id) && eqb (rank c) r

  best_of-start :
      (id : String) (r : ℕ) (cs : List (RecallCandidate F))
      → 0 < r
      → (0 < best_of id r cs) × (best_of id r cs ≤ r)
  unfolding best_of
  best_of-start id r [] h = (h, omega arith)
  best_of-start id r (c ∷ cs) h = elim (Bool-cases (c.memory_id == id)) [
    | inr e ↦ rw e (best_of-start id r cs h)
    | inl e ↦
        let start : 0 < best r (rank c) = ground arith in
        let least : best r (rank c) ≤ r = ground arith in
        let (some_rank, better) = best_of-start id (best r (rank c)) cs start in
        rw e (some_rank, omega (arith, least, better))
  ]

  best_of-IsNoBetter :
      (id : String) (r : ℕ) (cs : List (RecallCandidate F))
      → All (IsNoBetter id (best_of id r cs)) cs
  unfolding best_of
  best_of-IsNoBetter id r [] = tt
  best_of-IsNoBetter id r (c ∷ cs) = (
    λ e h.
        let start : 0 < best r (rank c) = ground arith in
        let least : best r (rank c) ≤ rank c = ground arith in
        let (some_rank, better) = best_of-start id (best r (rank c)) cs start in
        rw e (some_rank, omega (arith, least, better)),
    best_of-IsNoBetter id (if c.memory_id == id then best r (rank c) else r) cs,
  )

  best_of-attained :
      (id : String) (r : ℕ) (cs : List (RecallCandidate F))
      → (best_of id r cs ≡ r) ⊎ (any (has_rank id (best_of id r cs)) cs ≡ true)
  unfolding best_of any
  best_of-attained id r [] = inl refl
  best_of-attained id r (c ∷ cs) =
      ground (arith, best_of-attained id (if c.memory_id == id then best r (rank c) else r) cs)

  -- what a merge into an empty table leaves of the ranks for an identifier
  abbrev pub IsBestRank : String → List (RecallCandidate F) → ℕ → Type 0
  IsBestRank id src r = All (IsNoBetter id r) src × ((r ≡ 0) ⊎ (any (has_rank id r) src ≡ true))

  kept :
      (id : String) (src : List (RecallCandidate F))
      → ((c old : RecallCandidate F) → rank (merge_candidate c old) ≡ best (rank old) (rank c))
      → IsBestRank id src (rank_in id (merge_retrieval_candidates [] src))
  unfolding find
  kept id src merges =
      subst (IsBestRank id src) (sym (rank-merge id [] src merges))
        (best_of-IsNoBetter id 0 src, best_of-attained id 0 src)

-- The table that merges the rows of the searches keeps for every identifier its best rank in each
-- of the two orders: the rank is no worse than that of any row for the identifier, and it is the
-- rank of such a row, or 0 where none has a rank.
pub merge-best :
    {F : Type 0} (id : String) (src : List (RecallCandidate F))
    → IsBestRank
        (λ c. c.semantic_rank)
        id
        src
        (rank_in (λ c. c.semantic_rank) id (merge_retrieval_candidates [] src))
      × IsBestRank
          (λ c. c.lexical_rank)
          id
          src
          (rank_in (λ c. c.lexical_rank) id (merge_retrieval_candidates [] src))
merge-best id src = (
  kept (λ c. c.semantic_rank) id src semantic-merge,
  kept (λ c. c.lexical_rank) id src lexical-merge,
)
