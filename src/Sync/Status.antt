-- ===== src/Sync/Status.antt =====
-- Service.Diagnostics and Service.SyncStatus of internal/memsync/service.go.
pub mod Fenced
use crdt_agent_memory.Prelude.{
  String, Bool, true, false, List, [], ◌∷◌, not, ◌&&◌, ◌||◌, length, select, sort_by, ◌==◌,
  if◌then◌else◌,
}
use crdt_agent_memory.Table.{insert}
use crdt_agent_memory.Text.{lt_text}
use crdt_agent_memory.Sync.Types.{
  Diagnostics, SyncStatus, PeerState, TrackedPeer, Metadata, Service, Db,
}
use crdt_agent_memory.Sync.PeerStates.{state_peer, state_namespace}
use crdt_agent_memory.Sync.Extract.{cursor_peer, cursor_namespace}

-- ORDER BY peer_id, namespace
unfoldable pub pair_before : {R : Type 0} → (R → String) → (R → String) → R → R → Bool
pair_before k l a b = lt_text (k a) (k b) || ((k a == k b) && lt_text (l a) (l b))

-- one round of SyncStatus's loop
unfoldable pub add_peer : SyncStatus → PeerState → SyncStatus
add_peer status state =
    let seen = record status { peers = insert state status.peers } in
    if state.schema_fenced
    then record seen { schema_fenced = true; state = "schema_fenced" }
    else if not (state.last_error == "") && (status.state == "healthy")
    then record seen { state = "degraded" }
    else seen

unfoldable pub add_peers : SyncStatus → List PeerState → SyncStatus
add_peers status [] = status
add_peers status (state ∷ rest) = add_peers (add_peer status state) rest

abbrev pub start : String → SyncStatus
start namespace = record {
  namespace = namespace;
  state = "healthy";
  schema_fenced = false;
  peers = [];
}

-- WHERE namespace = ? ORDER BY peer_id
abbrev pub peers_of : String → List PeerState → List PeerState
peers_of namespace t =
    sort_by (λ a b. lt_text (state_peer a) (state_peer b))
      (select (λ r. r.namespace == namespace) t)

module _ {F S : Type 0} where
  unfoldable pub diagnostics : Service → Db F S → Diagnostics
  unfolding pair_before
  diagnostics svc db = record {
    schema_hash = svc.meta.schema_hash;
    crr_manifest_hash = svc.meta.crr_manifest_hash;
    tracked_peers = sort_by (pair_before cursor_peer cursor_namespace) db.cursors;
    peer_states = sort_by (pair_before state_peer state_namespace) db.peer_states;
    quarantine_count = length db.quarantine;
  }

  unfoldable pub sync_status : String → Db F S → SyncStatus
  sync_status namespace db = add_peers (start namespace) (peers_of namespace db.peer_states)
