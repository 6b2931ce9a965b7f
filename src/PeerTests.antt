-- ===== src/PeerTests.antt =====
-- Peers on the sample data: the handshake, the handlers, a sync cycle, the status and the registry.
use crdt_agent_memory.Prelude.{
  ℤ, pos, ◌≡◌, true, ◌&&◌, some, [], ◌∷◌, List, All, Error, ok, err, any, String, refl, ◌==◌, ◌||◌,
  if◌then◌else◌,
}
use crdt_agent_memory.Text.{one_of}
use crdt_agent_memory.Policy.{
  PeerPolicy, is_allowed, lookup_signing_public_key, allow_peer, sync_registry,
}
use crdt_agent_memory.Policy.Trust.{
  is_allowed-sync_registry, key-sync_registry, names_peer, registry_key,
}
use crdt_agent_memory.Sample.{
  plain_crypto, list_engine, local_service, noon, signed_batch, local_db, hello_with, entry_a,
  policy_a, local_meta,
}
use crdt_agent_memory.Sync.Types.{PullRequest, ApplyRequest, HandshakeRequest, HandshakeResponse}
use crdt_agent_memory.Sync.PeerStates.{fence}
use crdt_agent_memory.Sync.Handshake.{handshake, response}
use crdt_agent_memory.Sync.Handshake.Gate.{IsCompatible, handshake_lem, handshake-fences}
use crdt_agent_memory.Sync.Status.{peers_of, sync_status}
use crdt_agent_memory.Sync.Status.Fenced.{shown, is_fenced, has_error, sync_status_lem}
use crdt_agent_memory.Sync.Transport.{
  forbidden, handle_handshake, handle_pull, handle_apply, intersect_namespaces,
}
use crdt_agent_memory.Sync.Transport.Allowlist.{handlers-forbid, one_of-intersect_namespaces}
use crdt_agent_memory.Sync.Cycle.{TransportClient, sync_peer}
use crdt_agent_memory.Sync.Cycle.Requests.{Sent, recording, IsShared}
use crdt_agent_memory.Sync.Cycle.Shared.{sync_peer-within}

handshake_lem_example :
    ((r : HandshakeResponse)
      → (handshake local_service noon (hello_with "s1") local_db).0 ≡ ok r
      → IsCompatible local_service (hello_with "s1") local_db)
    × (IsCompatible local_service (hello_with "s1") local_db
        → handshake local_service noon (hello_with "s1") local_db
          ≡ (ok (response local_service (hello_with "s1")), local_db))
handshake_lem_example = handshake_lem local_service noon (hello_with "s1") local_db

handshake-fences_example :
    ((x : Error) × ((handshake local_service noon (hello_with "s2") local_db).0 ≡ err x))
    × (fence "peer-a" "team/dev"
          (handshake local_service noon (hello_with "s2") local_db).1.peer_states
        ≡ (if ("peer-a" == "peer-a") && ("team/dev" == "team/dev")
            then some true
            else fence "peer-a" "team/dev" local_db.peer_states))
unfolding crdt_agent_memory.Policy.is_allowed crdt_agent_memory.Table.find
handshake-fences_example =
    handshake-fences local_service noon (hello_with "s2") local_db "peer-a" "team/dev" refl refl

sync_status_lem_example :
    sync_status "team/dev" local_db
    ≡ shown "team/dev"
        (peers_of "team/dev" local_db.peer_states)
        (any (λ r. (r.namespace == "team/dev") && is_fenced r) local_db.peer_states)
        (any (λ r. (r.namespace == "team/dev") && has_error r) local_db.peer_states)
sync_status_lem_example = sync_status_lem "team/dev" local_db

abbrev allow_dev : String → List String
allow_dev peer_id = if peer_id == "peer-a" then "team/dev" ∷ [] else []

abbrev ops_hello : HandshakeRequest
ops_hello = record (hello_with "s1") { namespaces = "team/dev" ∷ "team/ops" ∷ [] }

abbrev ops_pull : PullRequest
ops_pull = record { peer_id = "peer-a"; namespace = "team/ops"; limit = pos 10 }

abbrev ops_apply : ApplyRequest ℤ
ops_apply = record { from_peer_id = "peer-c"; batch = signed_batch }

handlers-forbid_example :
    (handle_handshake plain_crypto list_engine
        (some allow_dev)
        local_service
        noon
        (ok ops_hello)
        local_db
      ≡ (forbidden, local_db))
    × (handle_pull plain_crypto list_engine
          (some allow_dev)
          local_service
          noon
          (ok ops_pull)
          local_db
        ≡ (forbidden, local_db))
    × (handle_apply plain_crypto list_engine
          (some allow_dev)
          local_service
          noon
          (ok ops_apply)
          local_db
        ≡ (forbidden, local_db))
unfolding crdt_agent_memory.Text.one_of
handlers-forbid_example =
    handlers-forbid plain_crypto list_engine allow_dev local_service noon local_db "team/ops"
      ops_hello ops_pull ops_apply refl refl refl refl

one_of-intersect_namespaces_example :
    one_of "b" (intersect_namespaces ("b" ∷ "a" ∷ []) ("c" ∷ "b" ∷ []))
    ≡ one_of "b" ("b" ∷ "a" ∷ []) && one_of "b" ("c" ∷ "b" ∷ [])
one_of-intersect_namespaces_example =
    one_of-intersect_namespaces "b" ("b" ∷ "a" ∷ []) ("c" ∷ "b" ∷ [])

-- a peer that takes everything, and gives an empty batch
abbrev quiet_client : TransportClient ℤ (Unit {0})
quiet_client = record {
  handshake = λ req w. (ok (response local_service req), w);
  pull = λ req w. (ok (record signed_batch { namespace = req.namespace; changes = [] }), w);
  apply = λ req w. (ok tt, w);
}

sync_peer-within_example :
    All
      (IsShared "peer-b" ("team/dev" ∷ "home" ∷ []) ("team/dev" ∷ "team/ops" ∷ []))
      (sync_peer plain_crypto list_engine
        (Unit {0} × List (Sent ℤ))
        local_service
        "peer-b"
        (pos 10)
        (recording quiet_client)
        (λ i. noon)
        local_meta
        entry_a
        ("team/dev" ∷ "home" ∷ [])
        local_db
        (tt, [])).2.1
sync_peer-within_example =
    sync_peer-within plain_crypto list_engine (Unit {0}) local_service "peer-b" (pos 10)
      quiet_client (λ i. noon) local_meta entry_a ("team/dev" ∷ "home" ∷ []) local_db tt

is_allowed-sync_registry_example :
    is_allowed "peer-z" (sync_registry (pos 5) (entry_a ∷ []) (policy_a ∷ []))
    ≡ (names_peer "peer-z" (entry_a ∷ []) || is_allowed "peer-z" (policy_a ∷ []))
is_allowed-sync_registry_example =
    is_allowed-sync_registry (pos 5) (entry_a ∷ []) "peer-z" (policy_a ∷ [])

key-sync_registry_example :
    lookup_signing_public_key "peer-a" (sync_registry (pos 5) (entry_a ∷ []) (policy_a ∷ []))
    ≡ registry_key "peer-a" (entry_a ∷ []) (lookup_signing_public_key "peer-a" (policy_a ∷ []))
key-sync_registry_example = key-sync_registry (pos 5) (entry_a ∷ []) "peer-a" (policy_a ∷ [])
