-- ===== src/Memory/Trace/Paths.antt =====
-- The hops of walkTraceDecision of internal/memory/service.go, and the edges that they come from.
use crdt_agent_memory.Prelude.{
  refl, ℕ, zero, suc, ◌+◌, ◌≤◌, ℤ, String, ◌≡◌, true, false, some, List, [], ◌∷◌, All, All-append,
  All-map_imp, All-select, All-sort_by, select-All, select, arith, inl, inr, Bool-cases,
  Option-cases, ◌==◌, eq_iff,
}
use crdt_agent_memory.Text.{one_of}
use crdt_agent_memory.Memory.Trace.{
  TraceDecisionNode, TraceDecisionHop, EdgeRow, GraphDb, Walk, load_trace_decision_node, followed,
  load_trace_edges, edge_before, is_contradiction_relation, add_hop, add_visited, follow_edge,
  follow_edges, walk_from, walk_trace_decision, depth_of,
}
use crdt_agent_memory.Memory.Trace.Free.{IsFree, All-both, followed-IsFree}

-- A memory lies n edges behind another one: the edges may be followed, and their ends are there.
pub data Route (space : String) (db : GraphDb) (root : String) : ℕ → String → Type 0 where
  start : Route space db root 0 root
  step :
      {n : ℕ} (e : EdgeRow) (node : TraceDecisionNode)
      → Route space db root n e.from_memory_id
      → IsFree space db e
      → load_trace_decision_node space e.to_memory_id db ≡ some node
      → Route space db root (n + 1) node.memory_id

-- a hop over an edge at the end of a path, which names the edge's relation and the memory behind it
pub record IsBehind (space : String) (db : GraphDb) (root : String) (most : ℕ)
    (hop : TraceDecisionHop) : Type 0 where
  pub edge : EdgeRow
  pub before : ℕ
  pub path : Route space db root before edge.from_memory_id
  pub length : hop.depth ≡ before + 1
  pub free : IsFree space db edge
  pub relation : hop.relation_type ≡ edge.relation_type
  pub memory : load_trace_decision_node space edge.to_memory_id db ≡ some hop.memory
  pub depth : hop.depth ≤ most

All-one_of :
    (P : String → Type 0) (n : String) (ns : List String) → All P ns → one_of n ns ≡ true → P n
unfolding one_of
All-one_of P n [] a h = cc
All-one_of P n (m ∷ ns) a h = elim (Bool-cases (n == m)) [
  | inl e ↦ rw ((eq_iff n m).0 e) a.0
  | inr e ↦ All-one_of P n ns a.1 (rw e at h)
]

module _ (space : String) (db : GraphDb) (root : String) (most : ℕ) where
  -- the hops of a walk, each on its side
  pub record HasRoutes (w : Walk) : Type 0 where
    pub supports :
        All
          (λ h. IsBehind space db root most h × (is_contradiction_relation h.relation_type ≡ false))
          w.supports
    pub contradictions :
        All
          (λ h. IsBehind space db root most h × (is_contradiction_relation h.relation_type ≡ true))
          w.contradictions

  -- and what it goes on from
  record GoesOn (n : ℕ) (w : Walk) : Type 0 where
    paths : HasRoutes w
    next : All (Route space db root n) w.next_frontier

  add_hop-GoesOn :
      (n : ℕ) (hop : TraceDecisionHop) (w : Walk)
      → IsBehind space db root most hop
      → GoesOn n w
      → GoesOn n (add_hop hop w)
  unfolding add_hop
  add_hop-GoesOn n hop w b g = elim (Bool-cases (is_contradiction_relation hop.relation_type)) [
    | inl e ↦ simp e (record {
      paths = record {
        supports = g.paths.supports;
        contradictions =
            All-append
              (λ h.
                IsBehind space db root most h × (is_contradiction_relation h.relation_type ≡ true))
              w.contradictions (hop ∷ []) g.paths.contradictions ((b, e), tt);
      };
      next = g.next;
    })
    | inr e ↦ simp e (record {
      paths = record {
        supports =
            All-append
              (λ h.
                IsBehind space db root most h × (is_contradiction_relation h.relation_type ≡ false))
              w.supports (hop ∷ []) g.paths.supports ((b, e), tt);
        contradictions = g.paths.contradictions;
      };
      next = g.next;
    })
  ]

  add_visited-GoesOn :
      (n : ℕ) (m : String) (w : Walk)
      → Route space db root n m
      → GoesOn n w
      → GoesOn n (add_visited m w)
  unfolding add_visited
  add_visited-GoesOn n m w p g = elim (Bool-cases (one_of m w.visited)) [
    | inl e ↦ simp e g
    | inr e ↦ simp e (record {
      paths = record { supports = g.paths.supports; contradictions = g.paths.contradictions };
      next = All-append (Route space db root n) w.next_frontier (m ∷ []) g.next (p, tt);
    })
  ]

  follow_edge-GoesOn :
      (n : ℕ) (e : EdgeRow) (w : Walk)
      → n + 1 ≤ most
      → Route space db root n e.from_memory_id
      → IsFree space db e
      → GoesOn (n + 1) w
      → GoesOn (n + 1) (follow_edge space db (n + 1) e w)
  unfolding follow_edge
  follow_edge-GoesOn n e w h p i g =
      elim (Option-cases (load_trace_decision_node space e.to_memory_id db)) [
        | inl gone ↦ rw (follow_edge, gone) g
        | inr (node, found) ↦
            let there : Route space db root (n + 1) node.memory_id = step e node p i found in
            let hop : TraceDecisionHop = record {
              relation_type = e.relation_type;
              depth = n + 1;
              memory = node;
            } in
            rw (follow_edge, found)
              (add_visited-GoesOn (n + 1) node.memory_id (add_hop hop w) there (
                add_hop-GoesOn (n + 1) hop w
                  (record {
                    edge = e;
                    before = n;
                    path = p;
                    length = refl;
                    free = i;
                    relation = refl;
                    memory = found;
                    depth = h;
                  })
                  g))
      ]

  follow_edges-GoesOn :
      (n : ℕ) (es : List EdgeRow) (w : Walk)
      → n + 1 ≤ most
      → All (λ e. Route space db root n e.from_memory_id × IsFree space db e) es
      → GoesOn (n + 1) w
      → GoesOn (n + 1) (follow_edges space db (n + 1) es w)
  unfolding follow_edges
  follow_edges-GoesOn n [] w h a g = g
  follow_edges-GoesOn n (e ∷ es) w h a g =
      follow_edges-GoesOn n es (follow_edge space db (n + 1) e w) h a.1
        (follow_edge-GoesOn n e w h a.0.0 a.0.1 g)

  loaded_edges :
      (n : ℕ) (frontier : List String)
      → All (Route space db root n) frontier
      → All
          (λ e. Route space db root n e.from_memory_id × IsFree space db e)
          (load_trace_edges space frontier db)
  unfolding load_trace_edges
  loaded_edges n frontier a =
      let from = λ (e : EdgeRow). one_of e.from_memory_id frontier in
      let edges = followed space db in
      All-sort_by edge_before (λ e. Route space db root n e.from_memory_id × IsFree space db e)
        (select from edges)
        (All-both (λ e. Route space db root n e.from_memory_id) (IsFree space db)
          (select from edges)
          (All-map_imp (λ e. from e ≡ true) (λ e. Route space db root n e.from_memory_id)
            (select from edges)
            (λ e f. All-one_of (Route space db root n) e.from_memory_id frontier a f)
            (select-All from edges))
          (All-select (IsFree space db) from edges (followed-IsFree space db)))

  walk_from-HasRoutes :
      (left n : ℕ) (frontier : List String) (w : Walk)
      → n + left ≤ most
      → All (Route space db root n) frontier
      → HasRoutes w
      → HasRoutes (walk_from space db left (n + 1) frontier w)
  unfolding walk_from
  walk_from-HasRoutes zero n frontier w h a p = p
  walk_from-HasRoutes (suc left) n [] w h a p = p
  walk_from-HasRoutes (suc left) n (m ∷ ms) w h a p =
      let g =
        follow_edges-GoesOn n (load_trace_edges space (m ∷ ms) db) (record w { next_frontier = [] })
          (omega (arith, h)) (loaded_edges n (m ∷ ms) a)
          (record {
            paths = record { supports = p.supports; contradictions = p.contradictions };
            next = tt;
          }) in
      let w' =
        follow_edges space db (n + 1) (load_trace_edges space (m ∷ ms) db)
          (record w { next_frontier = [] }) in
      walk_from-HasRoutes left (n + 1) w'.next_frontier w' (omega (arith, h)) g.next g.paths

-- Every hop of a trace comes from an edge: it shows the relation of that edge and the memory at its
-- end. The edge is the last one of a path from the root, as long as the depth that the hop shows and
-- no longer than the depth asked for, whose edges are all stored and, in the shared space, have no
-- suspension that is not resolved. The hops by a relation that contradicts are among the
-- contradictions, and the others among the supports.
pub walk_trace_decision-HasRoutes :
    (space root : String) (depth : ℤ) (db : GraphDb)
    → HasRoutes space db root (depth_of depth) (walk_trace_decision space root depth db)
unfolding walk_trace_decision
walk_trace_decision-HasRoutes space root depth db =
    walk_from-HasRoutes space db root (depth_of depth) (depth_of depth) 0 (root ∷ [])
      (record { supports = []; contradictions = []; visited = root ∷ []; next_frontier = [] })
      (omega arith) (start, tt) (record { supports = tt; contradictions = tt })
