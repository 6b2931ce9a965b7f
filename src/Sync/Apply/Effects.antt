-- ===== src/Sync/Apply/Effects.antt =====
-- What ApplyBatch of internal/memsync/service.go does to the database.
use crdt_agent_memory.Prelude.{
  ℕ, ◌+◌, Option, some, [], ◌∷◌, sym, ◌∙◌, ◌⊎◌, String, ◌≡◌, ◌≢◌, refl, ap, Bool, true, false, List,
  is_some, inl, inr, arith, Error, engine, error_text, Result, ok, err, Bool-cases, Option-cases,
}
use crdt_agent_memory.Signing.{Crypto}
use crdt_agent_memory.Table.{find}
use crdt_agent_memory.Table.Keyed.{by}
use crdt_agent_memory.Sync.Types.{QueueRow, Batch, Engine, Db, Service, Env}
use crdt_agent_memory.Sync.PeerStates.{mark_sync_error}
use crdt_agent_memory.Sync.Quarantine.{quarantine_key, quarantine_batch}
use crdt_agent_memory.Sync.Changes.{Applied, applied, undecodable, failed, apply_changes}
use crdt_agent_memory.Sync.Bookkeeping.{commit_batch, enqueue, enqueue_namespace}
use crdt_agent_memory.Sync.Verification.{VerificationResult, evaluate_batch_verification}
use crdt_agent_memory.Sync.Apply.{
  is_foreign, apply_batch, verified_batch, finish_batch, quarantine_in_tx,
}

-- Nothing that a batch may write has changed, but for the quarantine and the peers' rows.
pub record IsUntouched {F S : Type 0} (a b : Db F S) : Type 0 where
  pub shared : b.shared ≡ a.shared
  pub policies : b.policies ≡ a.policies
  pub cursors : b.cursors ≡ a.cursors
  pub verification : b.verification ≡ a.verification
  pub index_queue : b.index_queue ≡ a.index_queue

untouched : {F S : Type 0} (a : Db F S) → IsUntouched a a
untouched a = record {
  shared = refl;
  policies = refl;
  cursors = refl;
  verification = refl;
  index_queue = refl;
}

-- An error of the queueing is one of the engine.
enqueue-err :
    (queue_error : ℕ → Option String) (env : Env) (i : ℕ) (ms : List String) (t : List QueueRow)
    (x : Error)
    → (enqueue queue_error env i ms t).0 ≡ err x
    → (n : ℕ) × (msg : String) × (queue_error n ≡ some msg) × (engine msg ≡ x)
unfolding enqueue
enqueue-err queue_error env i [] t x h = elim (Option-cases (queue_error i)) [
  | inl e ↦ let fine : ok tt ≡ err x = rw (enqueue, e) at h in cc
  | inr (msg, e) ↦ let stop : err (engine msg) ≡ err x = rw (enqueue, e) at h in (i, msg, e, cc)
]
enqueue-err queue_error env i (m ∷ ms) t x h = elim (Option-cases (queue_error i)) [
  | inl e ↦ enqueue-err queue_error env (i + 1) ms _ x (rw (enqueue, e) at h)
  | inr (msg, e) ↦ let stop : err (engine msg) ≡ err x = rw (enqueue, e) at h in (i, msg, e, cc)
]

module _ {F S : Type 0} (svc : Service) (env : Env) (from : String) (batch : Batch F)
    (reason : String) (db : Db F S) where
  quarantine-IsUntouched : IsUntouched db (quarantine_batch svc env from batch reason db).1
  unfolding quarantine_batch mark_sync_error
  quarantine-IsUntouched =
      elim (Bool-cases (is_some (find (by quarantine_key batch.batch_id) db.quarantine))) [
        | inl e ↦ simp e (untouched db)
        | inr e ↦ simp e (record {
          shared = refl;
          policies = refl;
          cursors = refl;
          verification = refl;
          index_queue = refl;
        })
      ]

  quarantine-ne-ok : (quarantine_batch svc env from batch reason db).0 ≢ ok tt
  unfolding quarantine_batch
  quarantine-ne-ok h = ground arith

module _ (crypto : Crypto) (e : Engine) where
  open e use {Float, Shared, second_writer, queue_error}

  module _ (svc : Service) (env : Env) (from : String) (batch : Batch Float)
      (db : Db Float Shared) where
    in_tx-IsUntouched :
        (wrote : Bool) (reason : String)
        → IsUntouched db (quarantine_in_tx crypto e wrote svc env from batch reason db).1
    unfolding quarantine_in_tx
    in_tx-IsUntouched false reason = quarantine-IsUntouched svc env from batch reason db
    in_tx-IsUntouched true reason = elim (Option-cases second_writer) [
      | inl n ↦ rw n (quarantine-IsUntouched svc env from batch reason db)
      | inr (busy, b) ↦ rw b (untouched db)
    ]

    in_tx-ne-ok :
        (wrote : Bool) (reason : String)
        → (quarantine_in_tx crypto e wrote svc env from batch reason db).0 ≢ ok tt
    unfolding quarantine_in_tx
    in_tx-ne-ok false reason h = quarantine-ne-ok svc env from batch reason db h
    in_tx-ne-ok true reason h = elim (Option-cases second_writer) [
      | inl n ↦ quarantine-ne-ok svc env from batch reason db (rw n at h)
      | inr (busy, b) ↦ let stopped : err (engine busy) ≡ ok tt = rw b at h in cc
    ]

    -- the state that a successful batch leaves
    abbrev pub after_batch : List VerificationResult → Shared → Db Float Shared
    after_batch results s =
        (enqueue_namespace e env batch.namespace (commit_batch e svc env from batch results s db)).1

    -- how ApplyBatch ends
    pub data Outcome (r : Result (Unit {0}) × Db Float Shared) : Type 0 where
      done :
          (results : List VerificationResult) (s : Shared)
          → is_foreign crypto e svc batch ≡ false
          → evaluate_batch_verification crypto e db batch ≡ ok results
          → apply_changes e false batch.changes db.shared ≡ applied s
          → r
            ≡ enqueue_namespace e env batch.namespace
                (commit_batch e svc env from batch results s db)
          → Outcome r
      stopped : r.0 ≢ ok tt → IsUntouched db r.1 → Outcome r

    finish-Outcome :
        (results : List VerificationResult)
        → is_foreign crypto e svc batch ≡ false
        → evaluate_batch_verification crypto e db batch ≡ ok results
        → (a : Applied Shared) → apply_changes e false batch.changes db.shared ≡ a
        → Outcome (finish_batch crypto e svc env from batch results db a)
    unfolding finish_batch
    finish-Outcome results f v (applied s) a = done results s f v a refl
    finish-Outcome results f v (undecodable reason wrote) a =
        stopped (in_tx-ne-ok wrote (error_text reason))
          (in_tx-IsUntouched wrote (error_text reason))
    finish-Outcome results f v (failed msg) a = stopped (λ h. cc) (untouched db)

    verified-Outcome :
        is_foreign crypto e svc batch ≡ false
        → (r : Result (List VerificationResult)) → evaluate_batch_verification crypto e db batch ≡ r
        → Outcome (verified_batch crypto e svc env from batch db r)
    unfolding verified_batch
    verified-Outcome f (ok results) v =
        finish-Outcome results f v (apply_changes e false batch.changes db.shared) refl
    verified-Outcome f (err x) v =
        stopped (quarantine-ne-ok svc env from batch (error_text x) db)
          (quarantine-IsUntouched svc env from batch (error_text x) db)

    pub apply_batch-Outcome : Outcome (apply_batch crypto e svc env from batch db)
    unfolding apply_batch
    apply_batch-Outcome = elim (Bool-cases (is_foreign crypto e svc batch)) [
      | inl f ↦ rw f (
          stopped (quarantine-ne-ok svc env from batch "incompatible batch metadata" db)
            (quarantine-IsUntouched svc env from batch "incompatible batch metadata" db))
      | inr f ↦ rw f (verified-Outcome f (evaluate_batch_verification crypto e db batch) refl)
    ]

    -- The transaction has been committed, and then the queueing has met an error of the engine.
    pub record IsCommitted (x : Error) (new : Db Float Shared) : Type 0 where
      pub results : List VerificationResult
      pub merged : Shared
      pub queue : List QueueRow
      pub after : ℕ
      pub error : String
      pub verified : evaluate_batch_verification crypto e db batch ≡ ok results
      pub changed : apply_changes e false batch.changes db.shared ≡ applied merged
      pub met : queue_error after ≡ some error
      pub answered : engine error ≡ x
      pub committed :
          new ≡ record (commit_batch e svc env from batch results merged db) { index_queue = queue }

    -- A batch that ApplyBatch answers with an error leaves the replicated tables, the policies, the
    -- cursors, the verification states and the index queue as they were, unless the error is one of
    -- the engine's that enqueueNamespace meets: then the changes, the verification states, the
    -- cursor and the peer's row have been committed, and only the index queue may be incomplete.
    pub apply_batch-error_lem :
        (x : Error)
        → (apply_batch crypto e svc env from batch db).0 ≡ err x
        → IsUntouched db (apply_batch crypto e svc env from batch db).1
          ⊎ IsCommitted x (apply_batch crypto e svc env from batch db).1
    unfolding enqueue_namespace
    apply_batch-error_lem x h = elim apply_batch-Outcome [
      | stopped n u ↦ inl u
      | done results s f v a r ↦
          let stop = ap (λ p. p.0) (sym r) ∙ h in
          let (n, msg, met, named) = enqueue-err queue_error env 0 _ _ x stop in
          inr (record {
            results = results;
            merged = s;
            queue = _;
            after = n;
            error = msg;
            verified = v;
            changed = a;
            met = met;
            answered = named;
            committed = ap (λ p. p.1) r;
          })
    ]

    -- ApplyBatch accepts a batch only for the local schema and replicated tables, only after the
    -- verification has passed every memory in it, and only where no change has stopped it; it
    -- leaves then exactly the state with the merged tables, the recorded results, the moved cursor,
    -- the peer's row set to success and the namespace's memories queued.
    pub apply_batch-ok :
        (apply_batch crypto e svc env from batch db).0 ≡ ok tt
        → (results : List VerificationResult) × (s : Shared) × (is_foreign crypto e svc batch
            ≡ false)
          × (evaluate_batch_verification crypto e db batch ≡ ok results)
          × (apply_changes e false batch.changes db.shared ≡ applied s)
          × ((apply_batch crypto e svc env from batch db).1 ≡ after_batch results s)
    apply_batch-ok h = elim apply_batch-Outcome [
      | done results s f v a r ↦ (results, s, f, v, a, ap (λ p. p.1) r)
      | stopped n u ↦ absurd (n h)
    ]
