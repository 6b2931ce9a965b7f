-- ===== src/Sync/Apply/Verified.antt =====
-- The verification states that ApplyBatch of internal/memsync/service.go records with a batch.
use mathlib.Core.Path.{subst}
use crdt_agent_memory.Prelude.{
  ◌⊎◌, String, ◌≡◌, ◌∙◌, ap, refl, true, false, Option, some, none, List, [], ◌∷◌, any, arith, inl,
  inr, Bool-cases, Option-cases, is_some, ok, >>=-eq-ok, ◌==◌, eq_iff, eq_refl, if◌then◌else◌,
}
use crdt_agent_memory.Text.{is_blank}
use crdt_agent_memory.Table.{find, upsert}
use crdt_agent_memory.Table.Laws.{merged}
use crdt_agent_memory.Table.Keyed.{by, by_pair, find-upsert_pair}
use crdt_agent_memory.Signing.{Crypto}
use crdt_agent_memory.Sync.Types.{Batch, VerificationRow, Engine, Db, Service, Env}
use crdt_agent_memory.Sync.Verification.{
  VerificationResult, Candidate, candidate_key, load_candidate, candidate_for, evaluate,
  evaluate_all, evaluate_batch_verification, collect,
}
use crdt_agent_memory.Sync.Verification.Outcome.{IsChecked, unsigned, signed, evaluate_sound}
use crdt_agent_memory.Sync.Verification.Keys.{all_distinct}
use crdt_agent_memory.Sync.Verification.Patched.{
  concerns, patched, collect-patched, collect-distinct, collect-there,
}
use crdt_agent_memory.Sync.Bookkeeping.{
  space_of, memory_of, set_status, status_row, record_results, commit_batch, enqueue_namespace,
}
use crdt_agent_memory.Sync.Apply.{is_foreign, apply_batch}
use crdt_agent_memory.Sync.Apply.Effects.{apply_batch-ok}

abbrev status_of : Option VerificationRow → Option String
status_of none = none
status_of (some r) = some r.signature_status

-- the recorded state of a shared memory
abbrev pub status_in : String → List VerificationRow → Option String
status_in id t = status_of (find (by_pair space_of memory_of "shared" id) t)

status-merged :
    (env : Env) (r : VerificationResult) (o : Option VerificationRow)
    → status_of (some (merged (set_status env r) (status_row env r) o)) ≡ some r.status
status-merged env r none = refl
status-merged env r (some v) = refl

status-upsert :
    (env : Env) (id : String) (r : VerificationResult) (t : List VerificationRow)
    → status_in id (
        upsert
          (by_pair space_of memory_of "shared" r.memory_id)
          (set_status env r)
          (status_row env r)
          t)
      ≡ (if r.memory_id == id then some r.status else status_in id t)
status-upsert env id r t =
    let at =
      find-upsert_pair space_of memory_of "shared" r.memory_id "shared" id (set_status env r)
        (status_row env r) t (λ v. refl) (λ v. refl) refl refl in
    ap status_of at ∙ elim (Bool-cases (r.memory_id == id)) [
      | inl e ↦
          rw e (status-merged env r (find (by_pair space_of memory_of "shared" r.memory_id) t))
      | inr e ↦ rw e refl
    ]

absent_later :
    (d : Candidate) (ds : List Candidate) (id : String)
    → d.key ≡ id
    → all_distinct (d ∷ ds) ≡ true
    → find (by candidate_key id) ds ≡ none
unfolding all_distinct
absent_later d ds id named h = elim (Option-cases (find (by candidate_key id) ds)) [
  | inl gone ↦ gone
  | inr (c, there) ↦ let bad : false ≡ true = rw (named, there) at h in cc
]

module _ (crypto : Crypto) (e : Engine) where
  open e use {Float, Shared, node}

  module _ (env : Env) (db : Db Float Shared) where
    evaluated-key :
        (c : Candidate) (r : VerificationResult)
        → evaluate crypto e db c ≡ ok r
        → r.memory_id ≡ c.key
    evaluated-key c r h = elim (evaluate_sound crypto e db c r h) [
      | unsigned m same ↦ ap (λ x. x.memory_id) same
      | signed b v same ↦ ap (λ x. x.memory_id) same
    ]

    -- a memory that is no candidate keeps its state
    unrecorded :
        (id : String) (cs : List Candidate) (rs : List VerificationResult)
        (t : List VerificationRow)
        → evaluate_all crypto e db cs ≡ ok rs
        → find (by candidate_key id) cs ≡ none
        → status_in id (record_results env rs t) ≡ status_in id t
    unfolding evaluate_all record_results find
    unrecorded id [] rs t done absent = let same : [] ≡ rs = cc in rw (← same) refl
    unrecorded id (c ∷ cs) rs t done absent =
        let (r, one, rest) = >>=-eq-ok (evaluate crypto e db c) _ done in
        let (rs', all, last) = >>=-eq-ok (evaluate_all crypto e db cs) _ rest in
        let split : r ∷ rs' ≡ rs = cc in
        let key = evaluated-key c r one in
        elim (Bool-cases (c.key == id)) [
          | inl own ↦ let bad : some c ≡ none = rw own at absent in cc
          | inr other ↦
              let apart : (r.memory_id == id) ≡ false = rw key other in
              rw (← split) (
                unrecorded id cs rs' _ all (rw other at absent)
                ∙ status-upsert env id r t
                ∙ rw apart refl)
        ]

    recorded :
        (id : String) (cs : List Candidate) (rs : List VerificationResult)
        (t : List VerificationRow) (c : Candidate)
        → evaluate_all crypto e db cs ≡ ok rs
        → all_distinct cs ≡ true
        → find (by candidate_key id) cs ≡ some c
        → (r : VerificationResult) × IsChecked crypto e db c r
          × (status_in id (record_results env rs t) ≡ some r.status)
    unfolding evaluate_all record_results find all_distinct
    recorded id [] rs t c done distinct there = cc
    recorded id (d ∷ ds) rs t c done distinct there =
        let (r, one, rest) = >>=-eq-ok (evaluate crypto e db d) _ done in
        let (rs', all, last) = >>=-eq-ok (evaluate_all crypto e db ds) _ rest in
        let split : r ∷ rs' ≡ rs = cc in
        let key = evaluated-key d r one in
        elim (Bool-cases (d.key == id)) [
          | inl own ↦
              let found : some d ≡ some c = rw own at there in
              let same : d ≡ c = cc in
              let named : d.key ≡ id = (eq_iff d.key id).0 own in
              let here : (r.memory_id == id) ≡ true = rw (key ∙ named) (eq_refl id) in
              let absent = absent_later d ds id named distinct in
              let at =
                unrecorded id ds rs' _ all absent ∙ status-upsert env id r t ∙ rw here refl in
              (
                r,
                subst (λ x. IsChecked crypto e db x r) same (evaluate_sound crypto e db d r one),
                subst (λ xs. status_in id (record_results env xs t) ≡ some r.status) split at,
              )
          | inr other ↦
              let (q, checked, at) =
                recorded id ds rs' _ c all (ground (arith, distinct)) (rw other at there) in
              (
                q,
                checked,
                subst (λ xs. status_in id (record_results env xs t) ≡ some q.status) split at,
              )
        ]

  -- A memory that a batch writes: the stored row with the batch's changes is a candidate that is
  -- unsigned, or signed with the key registered for its origin peer, and this is what is recorded.
  pub record IsSettled (db : Db Float Shared) (batch : Batch Float) (id : String)
      (after : List VerificationRow) : Type 0 where
    pub memory : Candidate
    pub result : VerificationResult
    pub changed :
        patched crypto e id batch.changes (load_candidate id (node db.shared id)) ≡ ok memory
    pub checked : IsChecked crypto e db memory result
    pub recorded : status_in id after ≡ some result.status

  module _ (svc : Service) (env : Env) (from : String) (batch : Batch Float)
      (db : Db Float Shared) where
    same_meta :
        is_foreign crypto e svc batch ≡ false
        → (batch.schema_hash ≡ svc.meta.schema_hash)
          × (batch.crr_manifest_hash ≡ svc.meta.crr_manifest_hash)
    same_meta f =
        let a = eq_iff batch.schema_hash svc.meta.schema_hash in
        let b = eq_iff batch.crr_manifest_hash svc.meta.crr_manifest_hash in
        (a.0 (ground (arith, f)), b.0 (ground (arith, f)))

    settled :
        (id : String) (cs : List Candidate) (rs : List VerificationResult)
        (after : List VerificationRow)
        → all_distinct cs ≡ true
        → evaluate_all crypto e db cs ≡ ok rs
        → after ≡ record_results env rs db.verification
        → is_some (find (by candidate_key id) cs) ≡ true
        → patched crypto e id batch.changes (load_candidate id (node db.shared id))
          ≡ ok (candidate_for crypto e db.shared id cs)
        → IsSettled db batch id after
    unfolding candidate_for
    settled id cs rs after once all same there whole =
        elim (Option-cases (find (by candidate_key id) cs)) [
          | inl gone ↦ let bad : false ≡ true = rw gone at there in cc
          | inr (c, found) ↦
              let (result, checked, at) =
                recorded env db id cs rs db.verification c all once found in
              let this : candidate_for crypto e db.shared id cs ≡ c =
                rw (candidate_for, found) refl in
              record {
                memory = c;
                result = result;
                changed = whole ∙ ap ok this;
                checked = checked;
                recorded = ap (status_in id) same ∙ at;
              }
        ]

    unsettled :
        (id : String) (cs : List Candidate) (rs : List VerificationResult)
        (after : List VerificationRow)
        → evaluate_all crypto e db cs ≡ ok rs
        → after ≡ record_results env rs db.verification
        → is_some (find (by candidate_key id) cs) ≡ false
        → status_in id after ≡ status_in id db.verification
    unsettled id cs rs after all same absent = elim (Option-cases (find (by candidate_key id) cs)) [
      | inl gone ↦ ap (status_in id) same ∙ unrecorded env db id cs rs db.verification all gone
      | inr (c, found) ↦ let bad : true ≡ false = rw found at absent in cc
    ]

    -- A batch that ApplyBatch accepts has the local schema and manifest hashes. Take a memory whose
    -- identifier is not blank. Where a change of memory_nodes in the batch names it, the stored claim
    -- with the batch's changes of it is unsigned, or its signature verifies under the key registered
    -- for its origin peer, and the verification state that is then stored for the memory says which.
    -- Where no such change names it, its verification state is as before.
    pub apply_batch-verified :
        (id : String)
        → (apply_batch crypto e svc env from batch db).0 ≡ ok tt
        → is_blank id ≡ false
        → (batch.schema_hash ≡ svc.meta.schema_hash)
          × (batch.crr_manifest_hash ≡ svc.meta.crr_manifest_hash)
          × (((any (concerns id) batch.changes ≡ true)
                × IsSettled db batch id (apply_batch crypto e svc env from batch db).1.verification)
              ⊎ ((any (concerns id) batch.changes ≡ false)
                  × (status_in id (apply_batch crypto e svc env from batch db).1.verification
                      ≡ status_in id db.verification)))
    unfolding evaluate_batch_verification commit_batch enqueue_namespace candidate_for find
        all_distinct
    apply_batch-verified id h named =
        let (results, s, f, v, a, r) = apply_batch-ok crypto e svc env from batch db h in
        let (cs, first, rest) = >>=-eq-ok (collect crypto e db.shared batch.changes []) _ v in
        let after : (apply_batch crypto e svc env from batch db).1.verification
            ≡ record_results env results db.verification =
          ap (λ (d : Db Float Shared). d.verification) r in
        let once = collect-distinct crypto e db.shared batch.changes [] cs first refl in
        let there = collect-there crypto e db.shared id batch.changes [] cs named first in
        let whole = collect-patched crypto e db.shared id batch.changes [] cs named first in
        let (schema, manifest) = same_meta f in
        (
          schema,
          manifest,
          elim (Bool-cases (any (concerns id) batch.changes)) [
            | inl hit ↦
                inl (hit, settled id cs results _ once rest after (there ∙ rw hit refl) whole)
            | inr miss ↦ inr (miss, unsettled id cs results _ rest after (there ∙ rw miss refl))
          ],
        )
