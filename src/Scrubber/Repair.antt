-- ===== src/Scrubber/Repair.antt =====
-- RunActiveRepair, loadOrphanState, upsertSuspensions and resolveClearedSuspensions of
-- internal/scrubber/service.go. One transaction: the result is the state after its commit.
pub mod Exact
use Prim.Native.String.{◌++◌}
use crdt_agent_memory.Prelude.{
  ℕ, ◌*◌, ◌/◌, ℤ, pos, negsuc, ◌-ℤ◌, lt_int, is_zero, is_pos, String, Bool, true, false, not, ◌&&◌,
  ◌||◌, List, [], ◌∷◌, map, select, any, length, ◌==◌, if◌then◌else◌,
}
use crdt_agent_memory.Text.{trim}
use crdt_agent_memory.Table.{upsert, update, delete, affected}
use crdt_agent_memory.Table.Keyed.{by_pair}
use crdt_agent_memory.Sync.Types.{QuarantineRow}
use crdt_agent_memory.Scrubber.Tables.{
  MemoryNode, MemoryEdge, MemorySignal, Suspension, RepairDb, has_node,
}

pub record RepairReport : Type 0 where
  pub deleted_quarantine_batches : ℕ
  pub suspended_edges : ℕ
  pub suspended_signals : ℕ
  pub resolved_edge_suspensions : ℕ
  pub resolved_signal_suspensions : ℕ

-- orphanState, with the key of the map
pub record OrphanState : Type 0 where
  pub entity_id : String
  pub memory_id : String
  pub detail : String

unfoldable pub is_orphan_edge : List MemoryNode → MemoryEdge → Bool
is_orphan_edge nodes e =
    not (has_node nodes e.from_memory_id) || not (has_node nodes e.to_memory_id)

unfoldable pub edge_state : List MemoryNode → MemoryEdge → OrphanState
edge_state nodes e = record {
  entity_id = e.edge_id;
  memory_id = e.from_memory_id;
  detail = trim (
      (if not (has_node nodes e.from_memory_id) then "missing_from " else "")
      ++ (if not (has_node nodes e.to_memory_id) then "missing_to" else ""));
}

unfoldable pub orphan_edges : List MemoryNode → List MemoryEdge → List OrphanState
unfolding is_orphan_edge edge_state
orphan_edges nodes es = map (edge_state nodes) (select (is_orphan_edge nodes) es)

unfoldable pub is_orphan_signal : List MemoryNode → MemorySignal → Bool
is_orphan_signal nodes s = not (has_node nodes s.memory_id)

unfoldable pub signal_state : MemorySignal → OrphanState
signal_state s = record {
  entity_id = s.signal_id;
  memory_id = s.memory_id;
  detail = "missing_memory";
}

unfoldable pub orphan_signals : List MemoryNode → List MemorySignal → List OrphanState
unfolding is_orphan_signal signal_state
orphan_signals nodes ss = map signal_state (select (is_orphan_signal nodes) ss)

abbrev pub entity_type_of : Suspension → String
entity_type_of r = r.entity_type

abbrev pub entity_id_of : Suspension → String
entity_id_of r = r.entity_id

-- what ON CONFLICT sets
abbrev pub set_suspended : OrphanState → ℤ → Suspension → Suspension
set_suspended state now r = record r {
  memory_id = state.memory_id;
  reason = "orphaned";
  detail = state.detail;
  last_seen_at_ms = now;
  resolved_at_ms = pos 0;
}

abbrev pub suspension_row : String → OrphanState → ℤ → Suspension
suspension_row entity_type state now = record {
  entity_type = entity_type;
  entity_id = state.entity_id;
  memory_space = "shared";
  memory_id = state.memory_id;
  reason = "orphaned";
  detail = state.detail;
  first_seen_at_ms = now;
  last_seen_at_ms = now;
  resolved_at_ms = pos 0;
}

unfoldable pub upsert_suspensions :
    String → List OrphanState → ℤ → List Suspension → List Suspension
upsert_suspensions entity_type [] now t = t
upsert_suspensions entity_type (s ∷ ss) now t = upsert_suspensions entity_type ss now (
    upsert (by_pair entity_type_of entity_id_of entity_type s.entity_id) (set_suspended s now)
      (suspension_row entity_type s now) t)

-- whether an entity is among these
abbrev pub is_active : List OrphanState → String → Bool
is_active active id = any (λ s. s.entity_id == id) active

-- WHERE entity_type = ? AND resolved_at_ms = 0 AND entity_id NOT IN (...)
abbrev pub is_cleared : String → List OrphanState → Suspension → Bool
is_cleared entity_type active r =
    (r.entity_type == entity_type)
    && (is_zero r.resolved_at_ms && not (is_active active r.entity_id))

abbrev pub set_resolved : ℤ → Suspension → Suspension
set_resolved now r = record r { resolved_at_ms = now }

unfoldable pub resolve_cleared_suspensions :
    String → List OrphanState → ℤ → List Suspension → ℕ × List Suspension
resolve_cleared_suspensions entity_type active now t = (
  affected (is_cleared entity_type active) t,
  update (is_cleared entity_type active) (set_resolved now) t,
)

-- a time.Duration, in nanoseconds; 7 days stand for none
unfoldable pub ttl_ms : ℤ → ℤ
ttl_ms (pos n) = if is_zero (pos n) then pos (7 * 24 * 3600 * 1000) else pos (n / 1000000)
ttl_ms (negsuc n) = pos (7 * 24 * 3600 * 1000)

module _ {F : Type 0} where
  abbrev pub is_expired : ℤ → QuarantineRow F → Bool
  is_expired cutoff r = lt_int r.created_at_ms cutoff

  unfoldable pub run_active_repair : ℤ → ℤ → RepairDb F → RepairReport × RepairDb F
  run_active_repair now quarantine_ttl db =
      let cutoff = now -ℤ ttl_ms quarantine_ttl in
      let edge_map = orphan_edges db.nodes db.edges in
      let edges =
        resolve_cleared_suspensions "memory_edge" edge_map now
          (upsert_suspensions "memory_edge" edge_map now db.suspensions) in
      let signal_map = orphan_signals db.nodes db.signals in
      let signals =
        resolve_cleared_suspensions "memory_signal" signal_map now
          (upsert_suspensions "memory_signal" signal_map now edges.1) in
      (
        record {
          deleted_quarantine_batches = affected (is_expired cutoff) db.quarantine;
          suspended_edges = length edge_map;
          suspended_signals = length signal_map;
          resolved_edge_suspensions = edges.0;
          resolved_signal_suspensions = signals.0;
        },
        record db {
          quarantine = delete (is_expired cutoff) db.quarantine;
          suspensions = signals.1;
        },
      )
