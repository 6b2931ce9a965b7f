-- ===== src/Policy/Trust.antt =====
-- Who is allowed after the registry has been read, and with which key.
use crdt_agent_memory.Prelude.{
  ℤ, String, ◌≡◌, refl, Bool, true, Option, none, some, ◌||◌, ap, ◌∙◌, List, [], ◌∷◌, arith, ◌==◌,
  if◌then◌else◌,
}
use crdt_agent_memory.Table.{find}
use crdt_agent_memory.Table.Laws.{merged}
use crdt_agent_memory.Table.Keyed.{by, find-upsert}
use crdt_agent_memory.Policy.{
  PeerPolicy, PeerRegistryEntry, allowed_row, allow_row, registered_row, register_row, allow_peer,
  register, sync_registry, is_allowed, lookup_signing_public_key,
}

abbrev pub names_peer : String → List PeerRegistryEntry → Bool
names_peer j [] = Bool.false
names_peer j (p ∷ ps) = (p.peer_id == j) || names_peer j ps

abbrev id_of : PeerPolicy → String
id_of r = r.peer_id

registered :
    (now : ℤ) (p : PeerRegistryEntry) (o : Option PeerPolicy)
    → ((merged (register_row now p) (registered_row now p) o).trust_state == "allow") ≡ true
registered now p none = refl
registered now p (some r) = refl

allowed :
    (now : ℤ) (k name key : String) (o : Option PeerPolicy)
    → ((merged (allow_row now name key) (allowed_row now k name key) o).trust_state == "allow")
      ≡ true
allowed now k name key none = refl
allowed now k name key (some r) = refl

is_allowed-register :
    (now : ℤ) (p : PeerRegistryEntry) (j : String) (t : List PeerPolicy)
    → is_allowed j (register now p t) ≡ ((p.peer_id == j) || is_allowed j t)
unfolding is_allowed register
is_allowed-register now p j t = ground (
  arith,
  find-upsert id_of p.peer_id j (register_row now p) (registered_row now p) t (λ r. refl) refl,
  registered now p (find (by id_of p.peer_id) t),
)

key-register :
    (now : ℤ) (p : PeerRegistryEntry) (j : String) (t : List PeerPolicy)
    → lookup_signing_public_key j (register now p t)
      ≡ (if p.peer_id == j then p.signing_public_key else lookup_signing_public_key j t)
unfolding lookup_signing_public_key register
key-register now p j t = ground (
  arith,
  find-upsert id_of p.peer_id j (register_row now p) (registered_row now p) t (λ r. refl) refl,
)

-- After SyncRegistry a peer is allowed exactly when the registry names it or it was allowed
-- before: a peer that has left the registry keeps its access.
pub is_allowed-sync_registry :
    (now : ℤ) (ps : List PeerRegistryEntry) (j : String) (t : List PeerPolicy)
    → is_allowed j (sync_registry now ps t) ≡ (names_peer j ps || is_allowed j t)
unfolding sync_registry
is_allowed-sync_registry now [] j t = refl
is_allowed-sync_registry now (p ∷ ps) j t =
    ground
      (arith, is_allowed-sync_registry now ps j (register now p t), is_allowed-register now p j t)

-- the key of the last entry for a peer, and else the key that was there
abbrev pub registry_key : String → List PeerRegistryEntry → String → String
registry_key j [] old = old
registry_key j (p ∷ ps) old =
    registry_key j ps (if p.peer_id == j then p.signing_public_key else old)

-- After SyncRegistry the signing key of a peer is that of its last entry in the registry, and the
-- key from before where the registry does not name the peer.
pub key-sync_registry :
    (now : ℤ) (ps : List PeerRegistryEntry) (j : String) (t : List PeerPolicy)
    → lookup_signing_public_key j (sync_registry now ps t)
      ≡ registry_key j ps (lookup_signing_public_key j t)
unfolding sync_registry
key-sync_registry now [] j t = refl
key-sync_registry now (p ∷ ps) j t =
    key-sync_registry now ps j (register now p t) ∙ ap (registry_key j ps) (key-register now p j t)

-- AllowPeer allows its peer with the given key, and changes neither for another peer.
pub allow_peer_lem :
    (now : ℤ) (k name key j : String) (t : List PeerPolicy)
    → (is_allowed j (allow_peer now k name key t) ≡ ((k == j) || is_allowed j t))
      × (lookup_signing_public_key j (allow_peer now k name key t)
          ≡ (if k == j then key else lookup_signing_public_key j t))
unfolding is_allowed lookup_signing_public_key allow_peer
allow_peer_lem now k name key j t =
    let at =
      find-upsert id_of k j (allow_row now name key) (allowed_row now k name key) t (λ r. refl)
        refl in
    (ground (arith, at, allowed now k name key (find (by id_of k) t)), ground (arith, at))
