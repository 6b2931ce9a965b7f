-- ===== src/Sync/Extract/Content.antt =====
-- The changes that ExtractBatch of internal/memsync/service.go carries.
use crdt_agent_memory.Prelude.{
  ℤ, String, ◌≡◌, refl, ◌∙◌, Bool, false, ◌&&◌, Option, List, [], ◌∷◌, any, any-select, any-sort_by,
  any-map, select, sort_by, eq_int,
}
use crdt_agent_memory.Sync.Types.{ChangeRow, Change, Engine, Db, Service, Env}
use crdt_agent_memory.Sync.Extract.{
  change_before, wire_change, changes_at, batch_of, batch_versions, extract_batch, header,
}

-- a row of crsql_changes whose version is among these
abbrev pub is_at : {V : Type 0} → List ℤ → ChangeRow V → Bool
is_at vs r = any (λ v. eq_int v r.db_version) vs

module _ (engine : Engine) where
  open engine use {Float, Shared, changes}

  any-changes_at :
      (p : Change Float → Bool) (vs : List ℤ) (s : Shared)
      → any p (changes_at engine vs s) ≡ any (λ r. is_at vs r && p (wire_change r)) (changes s)
  unfolding changes_at
  any-changes_at p vs s =
      any-map p wire_change (sort_by change_before (select (is_at vs) (changes s)))
      ∙ any-sort_by change_before (λ r. p (wire_change r)) (select (is_at vs) (changes s))
      ∙ any-select (λ r. p (wire_change r)) (is_at vs) (changes s)

  none_at :
      (p : Change Float → Bool) (rs : List (ChangeRow (Option String)))
      → false ≡ any (λ r. is_at [] r && p (wire_change r)) rs
  unfolding any
  none_at p [] = refl
  none_at p (r ∷ rs) = none_at p rs

  any-batch_of :
      (p : Change Float → Bool) (svc : Service) (env : Env) (n : String) (vs : List ℤ) (s : Shared)
      → any p (batch_of engine svc env n vs s).changes
        ≡ any (λ r. is_at vs r && p (wire_change r)) (changes s)
  unfolding batch_of header any
  any-batch_of p svc env n [] s = none_at p (changes s)
  any-batch_of p svc env n (v ∷ vs) s = any-changes_at p (v ∷ vs) s

  -- A batch carries the changes of exactly the versions that it covers, each in its wire form, and of
  -- whatever namespace: a test holds for one of its changes exactly if it holds for the wire form of
  -- a row of crsql_changes with one of these versions.
  pub extract_batch-changes :
      (p : Change Float → Bool) (svc : Service) (env : Env) (peer_id namespace : String) (limit : ℤ)
      (db : Db Float Shared)
      → any p (extract_batch engine svc env peer_id namespace limit db).changes
        ≡ any
            (λ r. is_at (batch_versions engine peer_id namespace limit db) r && p (wire_change r))
            (changes db.shared)
  unfolding extract_batch
  extract_batch-changes p svc env peer_id namespace limit db =
      any-batch_of p svc env namespace (batch_versions engine peer_id namespace limit db) db.shared
