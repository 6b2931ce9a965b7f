-- ===== src/Sync/Apply/Cursor.antt =====
-- How ApplyBatch moves the cursor and the schema fence, and what a later batch for the same peer
-- then leaves out.
use crdt_agent_memory.Prelude.{
  false, ℤ, String, ◌≡◌, refl, true, ◌&&◌, Option, none, some, List, is_pos, ap, ◌∙◌, arith, ok,
  pos, ◌==◌, eq_refl, if◌then◌else◌,
}
use mathlib.Core.Path.{subst}
use crdt_agent_memory.Signing.{Crypto}
use crdt_agent_memory.Table.{find}
use crdt_agent_memory.Table.Laws.{merged}
use crdt_agent_memory.Table.Keyed.{by_pair, find-upsert_pair}
use crdt_agent_memory.Sync.Types.{Batch, TrackedPeer, Engine, Db, Service, Env}
use crdt_agent_memory.Sync.Extract.{cursor_peer, cursor_namespace, cursor, batch_versions}
use crdt_agent_memory.Sync.Extract.Window.{Ascending, batch_versions-Ascending}
use crdt_agent_memory.Sync.Bookkeeping.{
  commit_batch, enqueue_namespace, move_cursor, set_cursor, cursor_row,
}
use crdt_agent_memory.Sync.PeerStates.{fence}
use crdt_agent_memory.Sync.PeerStates.Fence.{fence-success}
use crdt_agent_memory.Sync.Apply.{apply_batch}
use crdt_agent_memory.Sync.Apply.Effects.{apply_batch-ok}

version_of : Option TrackedPeer → ℤ
version_of none = pos 0
version_of (some r) = r.version

moved :
    (env : Env) (a b : String) (v : ℤ) (o : Option TrackedPeer)
    → (merged (set_cursor env v) (cursor_row env a b v) o).version ≡ v
moved env a b v none = refl
moved env a b v (some r) = refl

-- The cursor of a peer and a namespace, after a move.
pub cursor-move_cursor :
    (env : Env) (a b p n : String) (v : ℤ) (t : List TrackedPeer)
    → cursor p n (move_cursor env a b v t)
      ≡ (if is_pos v && ((a == p) && (b == n)) then v else cursor p n t)
unfolding cursor move_cursor
cursor-move_cursor env a b p n v t = ground (
  arith,
  find-upsert_pair cursor_peer cursor_namespace a b p n (set_cursor env v) (cursor_row env a b v) t
      (λ r. refl) (λ r. refl) refl refl,
  moved env a b v (find (by_pair cursor_peer cursor_namespace a b) t),
)

module _ (crypto : Crypto) (e : Engine) (svc : Service) (env : Env) (from : String) where
  open e use {Float, Shared}

  module _ (batch : Batch Float) (db : Db Float Shared) where
    -- After a batch from a peer has been applied, the cursor of that peer and the batch's namespace
    -- is the batch's max_version, where that is positive; every other cursor, and this one where
    -- max_version is not positive, is as before.
    pub cursor-apply_batch :
        (p n : String)
        → (apply_batch crypto e svc env from batch db).0 ≡ ok tt
        → cursor p n (apply_batch crypto e svc env from batch db).1.cursors ≡ (
            if is_pos batch.max_version && ((from == p) && (batch.namespace == n))
            then batch.max_version
            else cursor p n db.cursors)
    unfolding commit_batch enqueue_namespace
    cursor-apply_batch p n h =
        let (results, s, f, v, a, r) = apply_batch-ok crypto e svc env from batch db h in
        ap (λ (d : Db Float Shared). cursor p n d.cursors) r
        ∙ cursor-move_cursor env from batch.namespace p n batch.max_version db.cursors

    -- After a batch from a peer has been applied, the schema fence of that peer in the batch's
    -- namespace is down; the fences of other peers and namespaces are as before.
    pub fence-apply_batch :
        (p n : String)
        → (apply_batch crypto e svc env from batch db).0 ≡ ok tt
        → fence p n (apply_batch crypto e svc env from batch db).1.peer_states
          ≡ (if (from == p) && (batch.namespace == n) then some false else fence p n db.peer_states)
    unfolding commit_batch enqueue_namespace
    fence-apply_batch p n h =
        let (results, s, f, v, a, r) = apply_batch-ok crypto e svc env from batch db h in
        ap (λ (d : Db Float Shared). fence p n d.peer_states) r
        ∙ fence-success svc env from batch.namespace p n db.peer_states

    -- Once a batch from a peer has been applied, a batch that is then extracted for that peer and
    -- namespace covers only versions above the max_version that the peer's own batch carried:
    -- local changes logged at or below it, sent or not, are left out.
    pub apply_batch-skips :
        (limit : ℤ)
        → (apply_batch crypto e svc env from batch db).0 ≡ ok tt
        → is_pos batch.max_version ≡ true
        → Ascending batch.max_version (
            batch_versions e from batch.namespace limit
              (apply_batch crypto e svc env from batch db).1)
    apply_batch-skips limit h m =
        let d : Db Float Shared = (apply_batch crypto e svc env from batch db).1 in
        let at : cursor from batch.namespace d.cursors ≡ batch.max_version =
          rw
            (cursor-apply_batch from batch.namespace h, m, eq_refl from, eq_refl batch.namespace) in
        subst (λ v. Ascending v (batch_versions e from batch.namespace limit d)) at
          (batch_versions-Ascending e svc env from batch.namespace limit d)
