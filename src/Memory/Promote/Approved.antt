-- ===== src/Memory/Promote/Approved.antt =====
-- What ApproveCandidate of internal/memory/candidates.go makes, and what it leaves.
use crdt_agent_memory.Ingest.Chunks.{join}
use crdt_agent_memory.Prelude.{
  map, is_ok, ℕ, ◌+◌, ◌*◌, ℤ, String, ◌≡◌, ◌∙◌, ap, refl, true, some, List, inl, inr, Option-cases,
  length, ok, ◌==◌, if◌then◌else◌, none, sym, false,
}
use crdt_agent_memory.Text.{trim}
use crdt_agent_memory.Table.{find}
use crdt_agent_memory.Table.Keyed.{by}
use crdt_agent_memory.Sync.Types.{Env}
use crdt_agent_memory.Memory.Requests.{StoreRequest, with_defaults, or_else}
use crdt_agent_memory.Memory.Tables.{chunk_key, ChunkRow, MemoryRow, StoreDb, memory_key}
use crdt_agent_memory.Memory.Store.{MemoryService, node_row, prepare_store, store_tx}
use crdt_agent_memory.Memory.Store.Sound.{store_tx-tables}
use crdt_agent_memory.Memory.Store.View.{accepts, store_tx-accepts, view, put, store_tx-view}
use crdt_agent_memory.Memory.Store.Steps.{prepare_store-made}
use crdt_agent_memory.Memory.Candidates.{
  Candidate, is_pending, set_approved, load_candidate_chunk_ids,
}
use crdt_agent_memory.Memory.Candidates.Review.{candidate}
use crdt_agent_memory.Memory.Promote.{
  PromoteRequest, Gathered, infer_promotion_relation_type, promote_inferred_relations,
  promoted_request, promote_defaults, link_promotion, ApproveCandidateRequest, ReviewDb,
  promote_request_of,
}

-- what is inferred from the chunks is edges between private memories
inferred-nodes :
    (env : Env) (i : ℕ) (id : String) (at : ℤ) (chunks : List ChunkRow) (db : StoreDb)
    → ((promote_inferred_relations env i id at chunks db).shared ≡ db.shared)
      × ((promote_inferred_relations env i id at chunks db).private.nodes ≡ db.private.nodes)
unfolding promote_inferred_relations
inferred-nodes env i id at chunks db = elim (Option-cases (infer_promotion_relation_type chunks)) [
  | inl e ↦ rw (promote_inferred_relations, e) (refl, refl)
  | inr (r, e) ↦ rw (promote_inferred_relations, e) (refl, refl)
]

linked-nodes :
    (env : Env) (req : PromoteRequest) (g : Gathered) (id : String) (db : StoreDb)
    → ((link_promotion env req g id db).shared ≡ db.shared)
      × ((link_promotion env req g id db).private.nodes ≡ db.private.nodes)
unfolding link_promotion
linked-nodes env req g id db =
    inferred-nodes env (5 + 2 * length g.spans) id req.authored_at_ms g.chunks db

-- the texts of the chunks, in the order of their identifiers
abbrev pub chunk_text : StoreDb → String → String
chunk_text db id = elim (find (by chunk_key id) db.chunks) [ none ↦ "" | some c ↦ c.text ]

-- The memory that a promotion has made, in tables whose shared part is the old one: its identifier
-- is new, and its text is that of the chunks.
pub record IsPromoted (req : PromoteRequest) (id : String) (db new : StoreDb) : Type 0 where
  pub row : MemoryRow
  pub fresh : view db true id ≡ none
  pub namespace : row.namespace ≡ req.namespace
  pub subject : row.subject ≡ or_else req.subject "promoted transcript memory"
  pub body : row.body ≡ join "\n\n" (map (chunk_text db) req.chunk_ids)
  pub shared : new.shared ≡ db.shared
  pub private : (j : String) → view new true j ≡ (if id == j then some row else view db true j)

fresh_id :
    (svc : MemoryService) (env : Env) (normal : StoreRequest) (signature : String) (db d : StoreDb)
    → normal.visibility ≡ "private"
    → store_tx svc env normal signature db ≡ ok d
    → view db true normal.memory_id ≡ none
unfolding accepts
fresh_id svc env normal signature db d is_private done =
    let taken : accepts normal (view db) ≡ true =
      sym (store_tx-accepts svc env normal signature db) ∙ ap is_ok done in
    elim (Option-cases (view db true normal.memory_id)) [
      | inl none_there ↦ none_there
      | inr (row, there) ↦ let refused : false ≡ true = rw (is_private, there) at taken in cc
    ]

promoted_row :
    (svc : MemoryService) (env : Env) (given : PromoteRequest) (g : Gathered)
    (normal : StoreRequest) (signature : String)
    → prepare_store svc env (promoted_request (promote_defaults env given) g)
      ≡ ok (normal, signature)
    → (normal.visibility ≡ "private")
      × ((node_row normal signature).namespace ≡ given.namespace)
      × ((node_row normal signature).subject ≡ or_else given.subject "promoted transcript memory")
      × ((node_row normal signature).body ≡ join "\n\n" (map (λ c. c.text) g.chunks))
unfolding promoted_request promote_defaults with_defaults node_row
promoted_row svc env given g normal signature prepared =
    let filled = sym (
      prepare_store-made svc env (promoted_request (promote_defaults env given) g) normal signature
        prepared) in
    (
      ap (λ x. x.visibility) filled,
      ap (λ x. x.namespace) filled,
      ap (λ x. x.subject) filled,
      ap (λ x. x.body) filled,
    )

promoted :
    (svc : MemoryService) (env : Env) (given : PromoteRequest) (g : Gathered)
    (normal : StoreRequest) (signature : String) (db d : StoreDb)
    → map (λ c. c.text) g.chunks ≡ map (chunk_text db) given.chunk_ids
    → prepare_store svc env (promoted_request (promote_defaults env given) g)
      ≡ ok (normal, signature)
    → store_tx svc env normal signature db ≡ ok d
    → IsPromoted given normal.memory_id db
        (link_promotion env (promote_defaults env given) g normal.memory_id d)
unfolding put
promoted svc env given g normal signature db d texts prepared done =
    let req = promote_defaults env given in
    let (is_private, namespace, subject, body) =
      promoted_row svc env given g normal signature prepared in
    let (u, made, shared, private) = store_tx-tables svc env normal signature db d done in
    let seen = store_tx-view svc env normal signature db d done in
    let here : (normal.visibility == "private") ≡ true = rw is_private refl in
    let (kept, nodes) = linked-nodes env req g normal.memory_id d in
    record {
      row = node_row normal signature;
      fresh = fresh_id svc env normal signature db d is_private done;
      namespace = namespace;
      subject = subject;
      body = body ∙ ap (join "\n\n") texts;
      shared = kept ∙ (rw here at shared);
      private = λ j. ap (find (by memory_key j)) nodes ∙ (rw here at (ap (λ f. f true j) seen));
    }

-- What a call of ApproveCandidate that succeeds has done.
pub record Approved (env : Env) (req : ApproveCandidateRequest) (id : String) (db new : ReviewDb)
    : Type 0 where
  pub row : Candidate
  pub was : candidate (trim req.candidate_id) db.candidates ≡ some row
  pub pending : is_pending row ≡ true
  pub reviewed :
      (j : String)
      → candidate j new.candidates ≡ (
          if j == trim req.candidate_id
          then some (set_approved env id row)
          else candidate j db.candidates)
  pub promoted :
      IsPromoted
        (promote_request_of req row
          (load_candidate_chunk_ids (trim req.candidate_id) db.candidates.chunks))
        id
        db.store
        new.store
