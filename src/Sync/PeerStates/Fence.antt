-- ===== src/Sync/PeerStates/Fence.antt =====
-- What the writes to peer_sync_state do to the schema fence of each peer and namespace.
use crdt_agent_memory.Prelude.{
  String, ◌≡◌, refl, Bool, false, Option, none, some, List, inl, inr, ap, ◌∙◌, Bool-cases, ◌&&◌,
  ◌==◌, if◌then◌else◌,
}
use crdt_agent_memory.Table.{find, upsert}
use crdt_agent_memory.Table.Laws.{merged}
use crdt_agent_memory.Table.Keyed.{find-upsert_pair}
use crdt_agent_memory.Sync.Types.{PeerState, Service, Env, Db}
use crdt_agent_memory.Sync.PeerStates.{
  state_peer, state_namespace, for_peer, fence_of, fence, mark_sync_error, set_error, error_row,
  set_success, success_row,
}

-- An upsert that sets the fence sets it for its own peer and namespace.
fence-upsert :
    (a b p n : String) (fenced : Bool) (set : PeerState → PeerState) (row : PeerState)
    (t : List PeerState)
    → ((r : PeerState) → state_peer (set r) ≡ state_peer r)
    → ((r : PeerState) → state_namespace (set r) ≡ state_namespace r)
    → state_peer row ≡ a
    → state_namespace row ≡ b
    → ((o : Option PeerState) → (merged set row o).schema_fenced ≡ fenced)
    → fence p n (upsert (for_peer a b) set row t)
      ≡ (if (a == p) && (b == n) then some fenced else fence p n t)
fence-upsert a b p n fenced set row t keeps₁ keeps₂ here₁ here₂ sets =
    let at =
      find-upsert_pair state_peer state_namespace a b p n set row t keeps₁ keeps₂ here₁ here₂ in
    elim (Bool-cases ((a == p) && (b == n))) [
      | inl e ↦
          let hit : find (for_peer p n) (upsert (for_peer a b) set row t)
              ≡ some (merged set row (find (for_peer a b) t)) =
            rw e at at in
          rw e (ap fence_of hit ∙ ap some (sets (find (for_peer a b) t)))
      | inr e ↦
          let miss : find (for_peer p n) (upsert (for_peer a b) set row t) ≡ find (for_peer p n) t =
            rw e at at in
          rw e (ap fence_of miss)
    ]

error_fence :
    (svc : Service) (env : Env) (a b msg : String) (fenced : Bool) (o : Option PeerState)
    → (merged (set_error svc env msg fenced) (error_row svc env a b msg fenced) o).schema_fenced
      ≡ fenced
error_fence svc env a b msg fenced none = refl
error_fence svc env a b msg fenced (some r) = refl

success_fence :
    (svc : Service) (env : Env) (a b : String) (o : Option PeerState)
    → (merged (set_success svc env) (success_row svc env a b) o).schema_fenced ≡ false
success_fence svc env a b none = refl
success_fence svc env a b (some r) = refl

module _ (svc : Service) (env : Env) (peer_id namespace p n : String) where
  pub fence-mark_sync_error :
      {F S : Type 0} (msg : String) (fenced : Bool) (db : Db F S)
      → fence p n (mark_sync_error svc env peer_id namespace msg fenced db).peer_states
        ≡ (if (peer_id == p) && (namespace == n) then some fenced else fence p n db.peer_states)
  unfolding mark_sync_error
  fence-mark_sync_error msg fenced db =
      fence-upsert peer_id namespace p n fenced (set_error svc env msg fenced)
        (error_row svc env peer_id namespace msg fenced) db.peer_states (λ r. refl) (λ r. refl) refl
        refl (error_fence svc env peer_id namespace msg fenced)

  pub fence-success :
      (t : List PeerState)
      → fence p n (
          upsert
            (for_peer peer_id namespace)
            (set_success svc env)
            (success_row svc env peer_id namespace)
            t)
        ≡ (if (peer_id == p) && (namespace == n) then some false else fence p n t)
  fence-success t =
      fence-upsert peer_id namespace p n false (set_success svc env)
        (success_row svc env peer_id namespace) t (λ r. refl) (λ r. refl) refl refl
        (success_fence svc env peer_id namespace)
