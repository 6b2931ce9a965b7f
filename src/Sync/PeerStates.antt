-- ===== src/Sync/PeerStates.antt =====
-- The rows of peer_sync_state: markSyncError, the row that a successful ApplyBatch writes, and
-- firstNamespace of internal/memsync/service.go.
pub mod Fence
use crdt_agent_memory.Prelude.{pos, String, Bool, false, List, [], ◌∷◌, Option, none, some}
use crdt_agent_memory.Table.{find, upsert}
use crdt_agent_memory.Table.Keyed.{by_pair}
use crdt_agent_memory.Sync.Types.{PeerState, Service, Env, Db}

abbrev pub state_peer : PeerState → String
state_peer r = r.peer_id

abbrev pub state_namespace : PeerState → String
state_namespace r = r.namespace

-- WHERE peer_id = ? AND namespace = ?
abbrev pub for_peer : String → String → PeerState → Bool
for_peer = by_pair state_peer state_namespace

abbrev pub first_namespace : List String → String
first_namespace [] = ""
first_namespace (n ∷ ns) = n

-- the row that markSyncError inserts, and what it sets in a row that is there
abbrev pub error_row : Service → Env → String → String → String → Bool → PeerState
error_row svc env peer_id namespace msg fenced = record {
  peer_id = peer_id;
  namespace = namespace;
  last_seen_at_ms = env.now;
  last_transport = svc.transport;
  last_path_type = "direct";
  last_error = msg;
  last_success_at_ms = pos 0;
  schema_fenced = fenced;
}

abbrev pub set_error : Service → Env → String → Bool → PeerState → PeerState
set_error svc env msg fenced r = record r {
  last_seen_at_ms = env.now;
  last_transport = svc.transport;
  last_path_type = "direct";
  last_error = msg;
  schema_fenced = fenced;
}

unfoldable pub mark_sync_error :
    {F S : Type 0} → Service → Env → String → String → String → Bool → Db F S → Db F S
mark_sync_error svc env peer_id namespace msg fenced db = record db {
  peer_states =
      upsert (for_peer peer_id namespace) (set_error svc env msg fenced)
        (error_row svc env peer_id namespace msg fenced) db.peer_states;
}

-- the row that ApplyBatch inserts at its end, and what it sets in a row that is there
abbrev pub success_row : Service → Env → String → String → PeerState
success_row svc env peer_id namespace = record {
  peer_id = peer_id;
  namespace = namespace;
  last_seen_at_ms = env.now;
  last_transport = svc.transport;
  last_path_type = "direct";
  last_error = "";
  last_success_at_ms = env.now;
  schema_fenced = false;
}

abbrev pub set_success : Service → Env → PeerState → PeerState
set_success svc env r = record r {
  last_seen_at_ms = env.now;
  last_transport = svc.transport;
  last_path_type = "direct";
  last_error = "";
  last_success_at_ms = env.now;
  schema_fenced = false;
}

abbrev pub fence_of : Option PeerState → Option Bool
fence_of none = none
fence_of (some r) = some r.schema_fenced

-- what the table says of the schema fence of a peer in a namespace
abbrev pub fence : String → String → List PeerState → Option Bool
fence peer_id namespace t = fence_of (find (for_peer peer_id namespace) t)
