-- ===== src/Sync/Cycle.antt =====
-- syncPeer and runOnce of cmd/syncd/main.go. The client of a peer is the interface TransportClient
-- of internal/memsync/transport.go, over the state `W` of what lies behind the connections. Each
-- call of the service has its own clock and identifiers. The status that is logged after each
-- namespace changes nothing and is left out.
pub mod Requests
pub mod Shared
use crdt_agent_memory.Prelude.{ℕ, ◌+◌, ◌*◌, ℤ, String, List, [], ◌∷◌, Error, Result, ok, err}
use crdt_agent_memory.Policy.{PeerRegistryEntry}
use crdt_agent_memory.Signing.{Crypto}
use crdt_agent_memory.Sync.Types.{
  Batch, Metadata, HandshakeRequest, HandshakeResponse, PullRequest, ApplyRequest, Engine, Db,
  Service, Env,
}
use crdt_agent_memory.Sync.Extract.{extract_batch}
use crdt_agent_memory.Sync.Apply.{apply_batch}
use crdt_agent_memory.Sync.Transport.{intersect_namespaces}

-- TransportClient
pub record TransportClient (F W : Type 0) : Type 0 where
  pub handshake : HandshakeRequest → W → Result HandshakeResponse × W
  pub pull : PullRequest → W → Result (Batch F) × W
  pub apply : ApplyRequest F → W → Result (Unit {0}) × W

-- the metadata that syncPeer sends
unfoldable pub hello : Metadata → String → List String → HandshakeRequest
hello meta self_peer namespaces = record {
  protocol_version = meta.protocol_version;
  min_compatible_protocol_version = meta.min_compatible_protocol_version;
  peer_id = self_peer;
  schema_hash = meta.schema_hash;
  crr_manifest_hash = meta.crr_manifest_hash;
  namespaces = namespaces;
}

module _ (crypto : Crypto) (e : Engine) (W : Type 0) (svc : Service) (self_peer : String)
    (limit : ℤ) where
  open e use {Float, Shared}

  -- what a step ends with: an error or not, the local database, and the rest of the world
  abbrev pub Ended : Type 0
  Ended = Result (Unit {0}) × Db Float Shared × W

  -- the rest of a loop, unless there has been an error
  unfoldable pub go_on : Ended → (Db Float Shared → W → Ended) → Ended
  go_on (err x, db, w) rest = (err x, db, w)
  go_on (ok _, db, w) rest = rest db w

  -- ApplyBatch of what was pulled
  unfoldable pub after_pull : Env → String → Db Float Shared → Result (Batch Float) × W → Ended
  after_pull env peer_id db (err x, w) = (err x, db, w)
  after_pull env peer_id db (ok remote_batch, w) =
      let applied = apply_batch crypto e svc env peer_id remote_batch db in
      (applied.0, applied.1, w)

  module _ (client : TransportClient Float W) where
    -- Pull, once the peer has taken the local batch
    unfoldable pub after_apply :
        Env → String → String → Db Float Shared → Result (Unit {0}) × W → Ended
    after_apply env peer_id namespace db (err x, w) = (err x, db, w)
    after_apply env peer_id namespace db (ok _, w) =
        after_pull env peer_id db
          (client.pull (record { peer_id = self_peer; namespace = namespace; limit = limit }) w)

    -- one round of the loop over the namespaces
    unfoldable pub sync_namespace : Env → Env → String → String → Db Float Shared → W → Ended
    sync_namespace env₁ env₂ peer_id namespace db w = after_apply env₂ peer_id namespace db (
        client.apply
          (record {
            from_peer_id = self_peer;
            batch = extract_batch e svc env₁ peer_id namespace limit db;
          })
          w)

    -- the loop; the i-th round makes the calls 2 * i and 2 * i + 1
    unfoldable pub sync_namespaces :
        (ℕ → Env) → ℕ → String → List String → Db Float Shared → W → Ended
    sync_namespaces calls i peer_id [] db w = (ok tt, db, w)
    sync_namespaces calls i peer_id (n ∷ ns) db w =
        go_on (sync_namespace (calls (2 * i)) (calls (2 * i + 1)) peer_id n db w)
          (λ db' w'. sync_namespaces calls (i + 1) peer_id ns db' w')

    -- the loop, once the handshake has been answered
    unfoldable pub after_handshake :
        (ℕ → Env) → String → List String → Db Float Shared → Result HandshakeResponse × W → Ended
    after_handshake calls peer_id namespaces db (err x, w) = (err x, db, w)
    after_handshake calls peer_id namespaces db (ok _, w) =
        sync_namespaces calls 0 peer_id namespaces db w

    unfoldable pub with_namespaces :
        (ℕ → Env) → Metadata → String → List String → Db Float Shared → W → Ended
    with_namespaces calls meta peer_id [] db w = (ok tt, db, w)
    with_namespaces calls meta peer_id (n ∷ ns) db w =
        after_handshake calls peer_id (n ∷ ns) db
          (client.handshake (hello meta self_peer (n ∷ ns)) w)

    unfoldable pub sync_peer :
        (ℕ → Env) → Metadata → PeerRegistryEntry → List String → Db Float Shared → W → Ended
    sync_peer calls meta peer local_namespaces db w =
        with_namespaces calls meta peer.peer_id
          (intersect_namespaces local_namespaces peer.namespace_allowlist) db w

  -- runOnce: the peers in order, up to the first error; each with its own client and calls
  unfoldable pub run_once :
      (PeerRegistryEntry → TransportClient Float W)
      → (PeerRegistryEntry → ℕ → Env)
      → Metadata
      → List PeerRegistryEntry
      → List String
      → Db Float Shared
      → W
      → Ended
  run_once client calls meta [] local_namespaces db w = (ok tt, db, w)
  run_once client calls meta (p ∷ ps) local_namespaces db w =
      go_on (sync_peer (client p) (calls p) meta p local_namespaces db w)
        (λ db' w'. run_once client calls meta ps local_namespaces db' w')
