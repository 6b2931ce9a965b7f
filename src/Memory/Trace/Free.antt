-- ===== src/Memory/Trace/Free.antt =====
-- The edges that walkTraceDecision of internal/memory/service.go may follow: stored, and not suspended.
use crdt_agent_memory.Prelude.{
  Bool, any, not, is_zero, if◌then◌else◌, String, ◌≡◌, true, false, List, [], ◌∷◌, All, All-map_imp,
  All-select, select-All, select, arith, inl, inr, Bool-cases, ◌==◌, eq_iff,
}
use crdt_agent_memory.Memory.Trace.{EdgeRow, GraphDb, followed, is_suspended}

-- membership
pub data IsIn {A : Type 0} (x : A) : List A → Type 0 where
  here : {xs : List A} → IsIn x (x ∷ xs)
  there : {y : A} {xs : List A} → IsIn x xs → IsIn x (y ∷ xs)

-- the edges that are stored in a memory space
abbrev pub edges_of : String → GraphDb → List EdgeRow
edges_of space db = if space == "private" then db.private_memory_edges else db.memory_edges

-- A stored edge; where it is shared, every suspension of it has been resolved.
pub record IsFree (space : String) (db : GraphDb) (e : EdgeRow) : Type 0 where
  pub stored : IsIn e (edges_of space db)
  pub resolved :
      (space == "private") ≡ false
      → All
          (λ s.
            s.entity_type ≡ "memory_edge"
            → s.entity_id ≡ e.edge_id
            → is_zero s.resolved_at_ms ≡ false)
          db.suspensions

all_in : {A : Type 0} (xs : List A) → All (λ x. IsIn x xs) xs
all_in [] = tt
all_in (x ∷ xs) =
    (here, All-map_imp (λ y. IsIn y xs) (λ y. IsIn y (x ∷ xs)) xs (λ y h. there h) (all_in xs))

pub All-both :
    {A : Type 0} (P Q : A → Type 0) (xs : List A) → All P xs → All Q xs → All (λ x. P x × Q x) xs
All-both P Q [] p q = tt
All-both P Q (x ∷ xs) p q = ((p.0, q.0), All-both P Q xs p.1 q.1)

-- a test that no element passes
none_passes :
    {A : Type 0} (p : A → Bool) (xs : List A) → any p xs ≡ false → All (λ x. p x ≡ false) xs
unfolding any
none_passes p [] h = tt
none_passes p (x ∷ xs) h = elim (Bool-cases (p x)) [
  | inl e ↦ let bad : true ≡ false = rw e at h in cc
  | inr e ↦ (e, none_passes p xs (rw e at h))
]

unsuspended-IsFree :
    (space : String) (db : GraphDb) (e : EdgeRow)
    → IsIn e (edges_of space db)
    → ((space == "private") ≡ false → is_suspended e.edge_id db.suspensions ≡ false)
    → IsFree space db e
unfolding is_suspended
unsuspended-IsFree space db e stored free = record {
  stored = stored;
  resolved = λ shared.
      All-map_imp _ _ db.suspensions
        (λ s h a b.
          let type_is = (eq_iff s.entity_type "memory_edge").1 a in
          let id_is = (eq_iff s.entity_id e.edge_id).1 b in rw (type_is, id_is) at h)
        (none_passes _ db.suspensions (free shared));
}

pub followed-IsFree : (space : String) (db : GraphDb) → All (IsFree space db) (followed space db)
unfolding followed
followed-IsFree space db = elim (Bool-cases (space == "private")) [
  | inl e ↦ rw e (
      All-map_imp (λ x. IsIn x db.private_memory_edges) (IsFree space db) db.private_memory_edges
        (λ x h.
          unsuspended-IsFree space db x (rw e h)
            (λ shared. let bad : true ≡ false = rw e at shared in cc))
        (all_in db.private_memory_edges))
  | inr e ↦
      let open_edge = λ (x : EdgeRow). not (is_suspended x.edge_id db.suspensions) in
      let stored =
        All-select (λ x. IsIn x db.memory_edges) open_edge db.memory_edges
          (all_in db.memory_edges) in
      rw e (
        All-map_imp (λ x. IsIn x db.memory_edges × (open_edge x ≡ true)) (IsFree space db)
          (select open_edge db.memory_edges)
          (λ x h.
            unsuspended-IsFree space db x (rw e h.0)
              (λ shared. let free = h.1 in ground (arith, free)))
          (All-both (λ x. IsIn x db.memory_edges) (λ x. open_edge x ≡ true)
            (select open_edge db.memory_edges) stored (select-All open_edge db.memory_edges)))
]
