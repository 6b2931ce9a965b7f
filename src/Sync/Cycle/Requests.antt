-- ===== src/Sync/Cycle/Requests.antt =====
-- The requests of a sync cycle, a client that keeps a record of them, and which of them keep to the
-- namespaces that two peers share.
use crdt_agent_memory.Prelude.{String, ◌≡◌, true, ◌&&◌, List, ◌∷◌, All, All-map_imp, sym, ◌∙◌}
use crdt_agent_memory.Text.{one_of}
use crdt_agent_memory.Sync.Types.{HandshakeRequest, PullRequest, ApplyRequest}
use crdt_agent_memory.Sync.Transport.{intersect_namespaces}
use crdt_agent_memory.Sync.Transport.Allowlist.{one_of-intersect_namespaces}
use crdt_agent_memory.Sync.Cycle.{TransportClient}

-- a request to a peer
pub data Sent (F : Type 0) : Type 0 where
  hello_sent : HandshakeRequest → Sent F
  pull_sent : PullRequest → Sent F
  apply_sent : ApplyRequest F → Sent F

-- the client, with a record of its requests, the latest first
abbrev pub recording : {F W : Type 0} → TransportClient F W → TransportClient F (W × List (Sent F))
recording client = record {
  handshake =
      λ req s. ((client.handshake req s.0).0, ((client.handshake req s.0).1, hello_sent req ∷ s.1));
  pull = λ req s. ((client.pull req s.0).0, ((client.pull req s.0).1, pull_sent req ∷ s.1));
  apply = λ req s. ((client.apply req s.0).0, ((client.apply req s.0).1, apply_sent req ∷ s.1));
}

-- a request that is sent in one's own name, about namespaces of this list only
abbrev pub IsWithin : {F : Type 0} → String → List String → Sent F → Type 0
IsWithin self ns (hello_sent r) = (r.peer_id ≡ self) × All (λ n. one_of n ns ≡ true) r.namespaces
IsWithin self ns (pull_sent r) = (r.peer_id ≡ self) × (one_of r.namespace ns ≡ true)
IsWithin self ns (apply_sent r) = (r.from_peer_id ≡ self) × (one_of r.batch.namespace ns ≡ true)

-- a request in one's own name about namespaces that are local and in an allowlist
abbrev pub IsShared : {F : Type 0} → String → List String → List String → Sent F → Type 0
IsShared self local allow (hello_sent r) =
    (r.peer_id ≡ self) × All (λ n. one_of n local && one_of n allow ≡ true) r.namespaces
IsShared self local allow (pull_sent r) =
    (r.peer_id ≡ self) × (one_of r.namespace local && one_of r.namespace allow ≡ true)
IsShared self local allow (apply_sent r) =
    (r.from_peer_id ≡ self)
    × (one_of r.batch.namespace local && one_of r.batch.namespace allow ≡ true)

pub within-IsShared :
    {F : Type 0} (self : String) (local allow : List String) (r : Sent F)
    → IsWithin self (intersect_namespaces local allow) r
    → IsShared self local allow r
within-IsShared self local allow (hello_sent r) h = (
  h.0,
  All-map_imp (λ n. one_of n (intersect_namespaces local allow) ≡ true)
      (λ n. one_of n local && one_of n allow ≡ true) r.namespaces
      (λ n i. sym (one_of-intersect_namespaces n local allow) ∙ i) h.1,
)
within-IsShared self local allow (pull_sent r) h =
    (h.0, sym (one_of-intersect_namespaces r.namespace local allow) ∙ h.1)
within-IsShared self local allow (apply_sent r) h =
    (h.0, sym (one_of-intersect_namespaces r.batch.namespace local allow) ∙ h.1)
