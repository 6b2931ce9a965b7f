-- ===== src/Scrubber/Repair/Exact.antt =====
-- The open suspensions after RunActiveRepair of internal/scrubber/service.go.
use crdt_agent_memory.Prelude.{
  ℤ, is_zero, String, ◌≡◌, refl, ◌∙◌, Bool, true, false, not, ◌&&◌, Option, none, some, List, [],
  ◌∷◌, any, select, arith, inl, inr, Option-cases, ◌==◌, eq_iff, if◌then◌else◌,
}
use crdt_agent_memory.Table.{find, upsert, update}
use crdt_agent_memory.Table.Laws.{merged, find-update, find-test}
use crdt_agent_memory.Table.Keyed.{by_pair, find-upsert_pair, pair_eq}
use crdt_agent_memory.Scrubber.Tables.{Suspension, RepairDb, MemoryNode, MemoryEdge, MemorySignal}
use crdt_agent_memory.Scrubber.Repair.{
  OrphanState, entity_type_of, entity_id_of, set_suspended, suspension_row, upsert_suspensions,
  is_active, is_cleared, set_resolved, resolve_cleared_suspensions, run_active_repair, orphan_edges,
  orphan_signals, is_orphan_edge, is_orphan_signal, edge_state, signal_state,
}

abbrev pub open_row : Option Suspension → Bool
open_row none = false
open_row (some r) = is_zero r.resolved_at_ms

-- whether an entity has an open suspension
abbrev pub is_open : String → String → List Suspension → Bool
is_open entity_type id t = open_row (find (by_pair entity_type_of entity_id_of entity_type id) t)

suspended :
    (s : OrphanState) (now : ℤ) (k : String) (o : Option Suspension)
    → is_zero (merged (set_suspended s now) (suspension_row k s now) o).resolved_at_ms ≡ true
suspended s now k none = refl
suspended s now k (some r) = refl

is_open-upsert :
    (k id : String) (s : OrphanState) (now : ℤ) (t : List Suspension) (k' : String)
    → is_open k' id (
        upsert
          (by_pair entity_type_of entity_id_of k s.entity_id)
          (set_suspended s now)
          (suspension_row k s now)
          t)
      ≡ (if (k == k') && (s.entity_id == id) then true else is_open k' id t)
is_open-upsert k id s now t k' = ground (
  arith,
  find-upsert_pair entity_type_of entity_id_of k s.entity_id k' id (set_suspended s now)
      (suspension_row k s now) t (λ r. refl) (λ r. refl) refl refl,
  suspended s now k (find (by_pair entity_type_of entity_id_of k s.entity_id) t),
)

is_open-upsert_suspensions :
    (k id k' : String) (ss : List OrphanState) (now : ℤ) (t : List Suspension)
    → is_open k' id (upsert_suspensions k ss now t)
      ≡ (if (k == k') && is_active ss id then true else is_open k' id t)
unfolding upsert_suspensions any
is_open-upsert_suspensions k id k' [] now t = ground arith
is_open-upsert_suspensions k id k' (s ∷ ss) now t =
    let after =
      upsert (by_pair entity_type_of entity_id_of k s.entity_id) (set_suspended s now)
        (suspension_row k s now) t in
    ground (arith, is_open-upsert_suspensions k id k' ss now after, is_open-upsert k id s now t k')

resolved_row :
    (k id k' : String) (ss : List OrphanState) (now : ℤ) (r : Suspension)
    → is_zero now ≡ false
    → r.entity_type ≡ k'
    → r.entity_id ≡ id
    → open_row (some (if is_cleared k ss r then set_resolved now r else r))
      ≡ (if (k' == k) && not (is_active ss id) then false else is_zero r.resolved_at_ms)
resolved_row k id k' ss now r z a b = rw (← a, ← b) (ground arith)

is_open-resolve :
    (k id k' : String) (ss : List OrphanState) (now : ℤ) (t : List Suspension)
    → is_zero now ≡ false
    → is_open k' id (resolve_cleared_suspensions k ss now t).1
      ≡ (if (k' == k) && not (is_active ss id) then false else is_open k' id t)
unfolding resolve_cleared_suspensions
is_open-resolve k id k' ss now t z =
    let at =
      find-update (is_cleared k ss) (by_pair entity_type_of entity_id_of k' id) (set_resolved now) t
        (λ r. refl) in
    elim (Option-cases (find (by_pair entity_type_of entity_id_of k' id) t)) [
      | inl n ↦
          let gone : find (by_pair entity_type_of entity_id_of k' id)
                (update (is_cleared k ss) (set_resolved now) t)
              ≡ none =
            rw n at at in
          rw (n, gone) (ground arith)
      | inr (r, f) ↦
          let hit : find (by_pair entity_type_of entity_id_of k' id)
                (update (is_cleared k ss) (set_resolved now) t)
              ≡ some (if is_cleared k ss r then set_resolved now r else r) =
            rw f at at in
          let (a, b) =
            pair_eq r.entity_type r.entity_id k' id
              (find-test (by_pair entity_type_of entity_id_of k' id) t r f) in
          rw (f, hit) (resolved_row k id k' ss now r z a b)
    ]

-- one pass over one kind of entity: its open suspensions are the active ones, the others' stay
is_open-pass :
    (k id k' : String) (ss : List OrphanState) (now : ℤ) (t : List Suspension)
    → is_zero now ≡ false
    → is_open k' id (resolve_cleared_suspensions k ss now (upsert_suspensions k ss now t)).1
      ≡ (if k == k' then is_active ss id else is_open k' id t)
is_open-pass k id k' ss now t z = ground (
  arith,
  eq_iff k k',
  eq_iff k' k,
  is_open-resolve k id k' ss now (upsert_suspensions k ss now t) z,
  is_open-upsert_suspensions k id k' ss now t,
)

active_edges :
    (nodes : List MemoryNode) (es : List MemoryEdge) (id : String)
    → is_active (orphan_edges nodes es) id
      ≡ any (λ e. (e.edge_id == id) && is_orphan_edge nodes e) es
unfolding orphan_edges select any edge_state
active_edges nodes [] id = refl
active_edges nodes (e ∷ es) id = ground (arith, active_edges nodes es id)

active_signals :
    (nodes : List MemoryNode) (ss : List MemorySignal) (id : String)
    → is_active (orphan_signals nodes ss) id
      ≡ any (λ s. (s.signal_id == id) && is_orphan_signal nodes s) ss
unfolding orphan_signals select any signal_state
active_signals nodes [] id = refl
active_signals nodes (s ∷ ss) id = ground (arith, active_signals nodes ss id)

-- After a repair, an edge or a signal has an open suspension exactly if it is there and an orphan,
-- one of the memories that it names missing, whatever suspensions there were before; the graph
-- itself is as it was. The clock does not read 0.
pub run_active_repair-exact :
    {F : Type 0} (now ttl : ℤ) (db : RepairDb F) (id : String)
    → is_zero now ≡ false
    → (is_open "memory_edge" id (run_active_repair now ttl db).1.suspensions
        ≡ any (λ e. (e.edge_id == id) && is_orphan_edge db.nodes e) db.edges)
      × (is_open "memory_signal" id (run_active_repair now ttl db).1.suspensions
          ≡ any (λ s. (s.signal_id == id) && is_orphan_signal db.nodes s) db.signals)
      × ((run_active_repair now ttl db).1.edges ≡ db.edges)
      × ((run_active_repair now ttl db).1.nodes ≡ db.nodes)
unfolding run_active_repair
run_active_repair-exact now ttl db id z =
    let edges = orphan_edges db.nodes db.edges in
    let signals = orphan_signals db.nodes db.signals in
    let first =
      (resolve_cleared_suspensions "memory_edge" edges now
        (upsert_suspensions "memory_edge" edges now db.suspensions)).1 in
    (
      is_open-pass "memory_signal" id "memory_edge" signals now first z
          ∙ is_open-pass "memory_edge" id "memory_edge" edges now db.suspensions z
          ∙ active_edges db.nodes db.edges id,
      is_open-pass "memory_signal" id "memory_signal" signals now first z
          ∙ active_signals db.nodes db.signals id,
      refl,
      refl,
    )
