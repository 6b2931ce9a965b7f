-- ===== src/Sync/Handshake.antt =====
-- Service.Handshake and NewService of internal/memsync/service.go.
pub mod Gate
use crdt_agent_memory.Prelude.{
  String, Bool, true, false, not, ◌||◌, [], ◌∷◌, List, message, Result, ok, err, ◌==◌,
  if◌then◌else◌,
}
use crdt_agent_memory.Text.{lt_text}
use crdt_agent_memory.Policy.{is_allowed}
use crdt_agent_memory.Sync.Types.{Metadata, HandshakeRequest, HandshakeResponse, Service, Env, Db}
use crdt_agent_memory.Sync.PeerStates.{mark_sync_error, first_namespace}

-- NewService: an empty transport name stands for the development transport
unfoldable pub new_service : Metadata → String → String → Service
new_service meta self_peer transport = record {
  meta = meta;
  self_peer = self_peer;
  transport = if transport == "" then "http-dev" else transport;
}

-- either side refuses the other's protocol; versions are compared as texts
unfoldable pub protocol_mismatch : HandshakeRequest → Metadata → Bool
protocol_mismatch req meta =
    lt_text meta.protocol_version req.min_compatible_protocol_version
    || lt_text req.protocol_version meta.min_compatible_protocol_version

unfoldable pub response : Service → HandshakeRequest → HandshakeResponse
response svc req = record {
  peer_id = svc.self_peer;
  schema_hash = svc.meta.schema_hash;
  crr_manifest_hash = svc.meta.crr_manifest_hash;
  namespaces = req.namespaces;
  negotiated_protocol = svc.meta.protocol_version;
}

abbrev pub is_empty : List String → Bool
is_empty [] = true
is_empty (n ∷ ns) = false

module _ {F S : Type 0} where
  unfoldable pub handshake :
      Service → Env → HandshakeRequest → Db F S → Result HandshakeResponse × Db F S
  handshake svc env req db =
      let mark = mark_sync_error svc env req.peer_id (first_namespace req.namespaces) in
      if not (is_allowed req.peer_id db.policies)
      then (err (message "peer is not allowlisted"), db)
      else if not (req.schema_hash == svc.meta.schema_hash)
      then (err (message "schema hash mismatch"), mark "schema hash mismatch" true db)
      else if not (req.crr_manifest_hash == svc.meta.crr_manifest_hash)
      then (err (message "crr manifest hash mismatch"), mark "crr manifest hash mismatch" true db)
      else if protocol_mismatch req svc.meta
      then (err (message "protocol mismatch"), mark "protocol mismatch" false db)
      else if is_empty req.namespaces
      then (err (message "at least one namespace is required"), db)
      else (ok (response svc req), db)
