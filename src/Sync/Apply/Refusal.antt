-- ===== src/Sync/Apply/Refusal.antt =====
-- What ApplyBatch of internal/memsync/service.go leaves behind where it refuses a batch.
use crdt_agent_memory.Table.Laws.{find-append}
use crdt_agent_memory.Prelude.{
  [], ◌∷◌, ◌∙◌, inl, inr, Option-cases, eq_refl, String, ◌≡◌, refl, true, false, ◌&&◌, some,
  is_some, err, message, ◌==◌, if◌then◌else◌,
}
use crdt_agent_memory.Signing.{Crypto}
use crdt_agent_memory.Text.{contains}
use crdt_agent_memory.Table.{find, insert}
use crdt_agent_memory.Table.Keyed.{by}
use crdt_agent_memory.Sync.Types.{Batch, Engine, Db, Service, Env}
use crdt_agent_memory.Sync.PeerStates.{fence, mark_sync_error}
use crdt_agent_memory.Sync.PeerStates.Fence.{fence-mark_sync_error}
use crdt_agent_memory.Sync.Quarantine.{quarantine_key, quarantine_row, quarantine_batch}
use crdt_agent_memory.Sync.Apply.{is_foreign, apply_batch}

-- the batch has not been put into quarantine before
abbrev pub IsNew : {F S : Type 0} → Batch F → Db F S → Type 0
IsNew batch db = is_some (find (by quarantine_key batch.batch_id) db.quarantine) ≡ false

module _ {F S : Type 0} (svc : Service) (env : Env) (from : String) (batch : Batch F)
    (db : Db F S) where
  -- the state that a quarantine leaves
  abbrev pub quarantined : String → Db F S
  quarantined reason =
      mark_sync_error svc env from batch.namespace reason (contains reason "schema")
        (record db { quarantine = insert (quarantine_row env from batch reason) db.quarantine })

  quarantine_new :
      (reason : String)
      → IsNew batch db
      → quarantine_batch svc env from batch reason db ≡ (err (message reason), quarantined reason)
  unfolding quarantine_batch
  quarantine_new reason n = rw n

  kept_in_quarantine :
      (reason : String)
      → IsNew batch db
      → find (by quarantine_key batch.batch_id) (quarantined reason).quarantine
        ≡ some (quarantine_row env from batch reason)
  unfolding mark_sync_error find
  kept_in_quarantine reason new =
      let row = quarantine_row env from batch reason in
      elim (Option-cases (find (by quarantine_key batch.batch_id) db.quarantine)) [
        | inl none_there ↦
            find-append (by quarantine_key batch.batch_id) db.quarantine (row ∷ []) none_there
            ∙ rw (eq_refl batch.batch_id) refl
        | inr (r, e) ↦ let taken : true ≡ false = rw e at new in cc
      ]

module _ (crypto : Crypto) (e : Engine) (svc : Service) (env : Env) (from : String) where
  open e use {Float, Shared, second_writer}

  module _ (batch : Batch Float) (db : Db Float Shared) where
    -- A new batch for another schema or other replicated tables is answered with an error and put
    -- into quarantine under its identifier, with the peer and the reason; the schema fence of its peer and namespace is then down, whatever it was; the fences of the other peers
    -- and namespaces are as before.
    pub foreign_batch_unfences :
        (p n : String)
        → is_foreign crypto e svc batch ≡ true
        → IsNew batch db
        → ((apply_batch crypto e svc env from batch db).0
            ≡ err (message "incompatible batch metadata"))
          × (find
                (by quarantine_key batch.batch_id)
                (apply_batch crypto e svc env from batch db).1.quarantine
              ≡ some (quarantine_row env from batch "incompatible batch metadata"))
          × (fence p n (apply_batch crypto e svc env from batch db).1.peer_states ≡ (
              if (from == p) && (batch.namespace == n)
              then some false
              else fence p n db.peer_states))
    unfolding apply_batch
    foreign_batch_unfences p n f new =
        rw (f, quarantine_new svc env from batch db "incompatible batch metadata" new)
          (
            refl,
            kept_in_quarantine svc env from batch db "incompatible batch metadata" new,
            fence-mark_sync_error svc env from batch.namespace p n "incompatible batch metadata"
                false
                (record db {
                  quarantine =
                      insert (quarantine_row env from batch "incompatible batch metadata")
                        db.quarantine;
                }),
          )
