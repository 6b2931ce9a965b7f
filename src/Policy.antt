-- ===== src/Policy.antt =====
-- internal/policy/repository.go: the peers that this node knows, in the table peer_policies.
-- A REAL column is held in thousandths.
pub mod Trust
use crdt_agent_memory.Prelude.{
  ℤ, pos, String, Bool, true, false, Option, none, some, List, [], ◌∷◌, ◌==◌,
}
use crdt_agent_memory.Table.{find, upsert}
use crdt_agent_memory.Table.Keyed.{by}

pub record PeerPolicy : Type 0 where
  pub peer_id : String
  pub display_name : String
  pub trust_state : String
  pub trust_weight : ℤ
  pub signing_public_key : String
  pub discovery_profile : String
  pub relay_profile : String
  pub updated_at_ms : ℤ

-- WHERE peer_id = ?
abbrev pub by_peer : String → PeerPolicy → Bool
by_peer = by (λ (r : PeerPolicy). r.peer_id)

-- config.PeerRegistryEntry
pub record PeerRegistryEntry : Type 0 where
  pub peer_id : String
  pub display_name : String
  pub signing_public_key : String
  pub namespace_allowlist : List String
  pub discovery_profile : String
  pub relay_profile : String
  pub sync_url : String

-- the row that AllowPeer inserts, and the one that it leaves where the peer is known
abbrev pub allowed_row : ℤ → String → String → String → PeerPolicy
allowed_row now peer_id display_name signing_public_key = record {
  peer_id = peer_id;
  display_name = display_name;
  trust_state = "allow";
  trust_weight = pos 1000;
  signing_public_key = signing_public_key;
  discovery_profile = "";
  relay_profile = "";
  updated_at_ms = now;
}

abbrev pub allow_row : ℤ → String → String → PeerPolicy → PeerPolicy
allow_row now display_name signing_public_key r = record r {
  display_name = display_name;
  trust_state = "allow";
  signing_public_key = signing_public_key;
  updated_at_ms = now;
}

unfoldable pub allow_peer : ℤ → String → String → String → List PeerPolicy → List PeerPolicy
allow_peer now peer_id display_name signing_public_key =
    upsert (by_peer peer_id) (allow_row now display_name signing_public_key)
      (allowed_row now peer_id display_name signing_public_key)

-- the rows of SyncRegistry
abbrev pub registered_row : ℤ → PeerRegistryEntry → PeerPolicy
registered_row now peer = record {
  peer_id = peer.peer_id;
  display_name = peer.display_name;
  trust_state = "allow";
  trust_weight = pos 1000;
  signing_public_key = peer.signing_public_key;
  discovery_profile = peer.discovery_profile;
  relay_profile = peer.relay_profile;
  updated_at_ms = now;
}

abbrev pub register_row : ℤ → PeerRegistryEntry → PeerPolicy → PeerPolicy
register_row now peer r = record r {
  display_name = peer.display_name;
  trust_state = "allow";
  signing_public_key = peer.signing_public_key;
  discovery_profile = peer.discovery_profile;
  relay_profile = peer.relay_profile;
  updated_at_ms = now;
}

-- one round of the loop in SyncRegistry
unfoldable pub register : ℤ → PeerRegistryEntry → List PeerPolicy → List PeerPolicy
register now peer = upsert (by_peer peer.peer_id) (register_row now peer) (registered_row now peer)

unfoldable pub sync_registry : ℤ → List PeerRegistryEntry → List PeerPolicy → List PeerPolicy
sync_registry now [] t = t
sync_registry now (peer ∷ peers) t = sync_registry now peers (register now peer t)

-- a peer with no row is not allowed
unfoldable pub is_allowed : String → List PeerPolicy → Bool
is_allowed peer_id t = elim (find (by_peer peer_id) t) [
  | none ↦ false
  | some r ↦ r.trust_state == "allow"
]

-- lookupSigningPublicKey of internal/memsync/service.go
unfoldable pub lookup_signing_public_key : String → List PeerPolicy → String
lookup_signing_public_key peer_id t = elim (find (by_peer peer_id) t) [
  | none ↦ ""
  | some r ↦ r.signing_public_key
]
