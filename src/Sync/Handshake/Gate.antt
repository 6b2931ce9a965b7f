-- ===== src/Sync/Handshake/Gate.antt =====
-- Who passes the handshake, and what a refusal leaves behind.
use crdt_agent_memory.Prelude.{
  Error, message, err, ◌&&◌, inl, inr, Bool-cases, if◌then◌else◌, String, ◌≡◌, refl, true, false,
  some, [], ok, arith, eq_iff, ◌==◌, ◌≢◌,
}
use crdt_agent_memory.Policy.{is_allowed}
use crdt_agent_memory.Sync.Types.{HandshakeRequest, HandshakeResponse, Service, Env, Db}
use crdt_agent_memory.Sync.PeerStates.{fence, first_namespace}
use crdt_agent_memory.Sync.PeerStates.Fence.{fence-mark_sync_error}
use crdt_agent_memory.Sync.Handshake.{protocol_mismatch, response, handshake}

-- what a peer must show to be let in
pub record IsCompatible {F S : Type 0} (svc : Service) (req : HandshakeRequest) (db : Db F S)
    : Type 0 where
  pub allowed : is_allowed req.peer_id db.policies ≡ true
  pub schema : req.schema_hash ≡ svc.meta.schema_hash
  pub manifest : req.crr_manifest_hash ≡ svc.meta.crr_manifest_hash
  pub protocol : protocol_mismatch req svc.meta ≡ false
  pub namespaces : req.namespaces ≢ []

module _ {F S : Type 0} (svc : Service) (env : Env) (req : HandshakeRequest) (db : Db F S) where
  handshake_sound :
      (r : HandshakeResponse) → (handshake svc env req db).0 ≡ ok r → IsCompatible svc req db
  unfolding handshake
  handshake_sound r h = ground (
    arith,
    eq_iff req.schema_hash svc.meta.schema_hash,
    eq_iff req.crr_manifest_hash svc.meta.crr_manifest_hash,
  )

  handshake_complete :
      IsCompatible svc req db → handshake svc env req db ≡ (ok (response svc req), db)
  unfolding handshake
  handshake_complete c = ground (
    arith,
    eq_iff req.schema_hash svc.meta.schema_hash,
    eq_iff req.crr_manifest_hash svc.meta.crr_manifest_hash,
  )

  -- The handshake lets in exactly the peers that are allowed, hold the same schema and the same
  -- replicated tables, speak a compatible protocol and ask for a namespace; whom it lets in gets the
  -- local metadata and the namespaces asked for, and leaves the database as it was.
  pub handshake_lem :
      ((r : HandshakeResponse) → (handshake svc env req db).0 ≡ ok r → IsCompatible svc req db)
      × (IsCompatible svc req db → handshake svc env req db ≡ (ok (response svc req), db))
  handshake_lem = (handshake_sound, handshake_complete)

  -- A handshake of an allowed peer with another schema or other replicated tables is answered with
  -- an error, and raises the schema fence of that peer in the first namespace it asked for; the
  -- fences of the other peers and namespaces are as before.
  pub handshake-fences :
      (p n : String)
      → is_allowed req.peer_id db.policies ≡ true
      → ((req.schema_hash == svc.meta.schema_hash)
          && (req.crr_manifest_hash == svc.meta.crr_manifest_hash))
        ≡ false
      → ((x : Error) × ((handshake svc env req db).0 ≡ err x))
        × (fence p n (handshake svc env req db).1.peer_states ≡ (
            if (req.peer_id == p) && (first_namespace req.namespaces == n)
            then some true
            else fence p n db.peer_states))
  unfolding handshake
  handshake-fences p n a m = elim (Bool-cases (req.schema_hash == svc.meta.schema_hash)) [
    | inr e ↦
        rw (a, e)
          (
            (message "schema hash mismatch", refl),
            fence-mark_sync_error svc env req.peer_id (first_namespace req.namespaces) p n
                "schema hash mismatch" true db,
          )
    | inl e ↦
        let other : (req.crr_manifest_hash == svc.meta.crr_manifest_hash) ≡ false = rw e at m in
        rw (a, e, other)
          (
            (message "crr manifest hash mismatch", refl),
            fence-mark_sync_error svc env req.peer_id (first_namespace req.namespaces) p n
                "crr manifest hash mismatch" true db,
          )
  ]
