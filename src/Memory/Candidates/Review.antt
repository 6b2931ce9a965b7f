-- ===== src/Memory/Candidates/Review.antt =====
-- What happens to a candidate of internal/memory/candidates.go once it is reviewed, and what a
-- review does. Besides the calls of that file, ingestion upserts candidates.
use crdt_agent_memory.Prelude.{
  String, ◌≡◌, ◌∙◌, sym, ap, message, refl, true, false, Option, some, List, [], ◌∷◌, select, arith,
  inl, inr, Bool-cases, Option-cases, Result-cases, Result, ok, err, eqb, eq_iff, ◌==◌,
  if◌then◌else◌,
}
use crdt_agent_memory.Text.{trim}
use crdt_agent_memory.Table.{find, delete, upsert, update, affected}
use crdt_agent_memory.Table.Laws.{find-update, find-test}
use crdt_agent_memory.Table.Keyed.{by, find-upsert}
use crdt_agent_memory.Sync.Types.{Env}
use crdt_agent_memory.Ingest.{SessionIngestRequest, Library}
use crdt_agent_memory.Ingest.Chunks.{Chunk}
use crdt_agent_memory.Ingest.Write.{
  candidate_of, refresh_candidate, is_promotion_candidate_kind, upsert_promotion_candidate,
}
use crdt_agent_memory.Memory.Candidates.{
  insert_links, Candidate, CandidateDb, UpsertCandidateRequest, candidate_key, is_pending,
  has_no_chunks, pending_row, set_approved, set_rejected, update_pending, mark_candidate_approved,
  load_candidate_for_update, reject_loaded, reject_candidate, refresh, candidate_row,
  upsert_memory_candidate,
}

abbrev pub candidate : String → CandidateDb → Option Candidate
candidate id db = find (by candidate_key id) db.candidates

-- an update of pending rows leaves a row that is not pending
update_pending-reviewed :
    (j : String) (set : Candidate → Candidate) (db : CandidateDb) (id : String) (c : Candidate)
    → ((r : Candidate) → candidate_key (set r) ≡ candidate_key r)
    → candidate id db ≡ some c
    → is_pending c ≡ false
    → candidate id (update_pending j set db).1 ≡ some c
unfolding update_pending
update_pending-reviewed j set db id c keeps f p =
    let at =
      find-update (pending_row j) (by candidate_key id) set db.candidates
        (λ r. rw (keeps r) refl) in
    let left : find (by candidate_key id) (update (pending_row j) set db.candidates)
        ≡ some (if pending_row j c then set c else c) =
      rw f at at in
    elim (Bool-cases (eqb (affected (pending_row j) db.candidates) 0)) [
      | inl e ↦ rw e f
      | inr e ↦ rw e (rw left (ground arith))
    ]

reject_loaded-reviewed :
    (env : Env) (j note : String) (l : Result Candidate) (db : CandidateDb) (id : String)
    (c : Candidate)
    → candidate id db ≡ some c
    → is_pending c ≡ false
    → candidate id (reject_loaded env j note l db).1 ≡ some c
unfolding reject_loaded
reject_loaded-reviewed env j note (err x) db id c f p = f
reject_loaded-reviewed env j note (ok d) db id c f p =
    update_pending-reviewed j (set_rejected env (trim note)) db id c (λ r. refl) f p

reject-reviewed :
    (env : Env) (j note : String) (db : CandidateDb) (id : String) (c : Candidate)
    → candidate id db ≡ some c
    → is_pending c ≡ false
    → candidate id (reject_candidate env j note db).1 ≡ some c
unfolding reject_candidate
reject-reviewed env j note db id c f p = elim (Bool-cases (trim j == "")) [
  | inl e ↦ rw e f
  | inr e ↦ rw e (
      reject_loaded-reviewed env (trim j) note (load_candidate_for_update (trim j) db.candidates) db
        id c f p)
]

refresh-key :
    (env : Env) (req : UpsertCandidateRequest) (r : Candidate)
    → candidate_key (refresh env req r) ≡ candidate_key r
refresh-key env req r = elim (Bool-cases (is_pending r)) [ inl e ↦ rw e refl | inr e ↦ rw e refl ]

refresh_candidate-key :
    (fresh r : Candidate) → candidate_key (refresh_candidate fresh r) ≡ candidate_key r
unfolding refresh_candidate
refresh_candidate-key fresh r = elim (Bool-cases (is_pending r)) [
  | inl e ↦ rw e refl
  | inr e ↦ rw e refl
]

refreshed :
    (env : Env) (req : UpsertCandidateRequest) (id : String) (t : List Candidate) (c : Candidate)
    → find (by candidate_key id) t ≡ some c
    → is_pending c ≡ false
    → find
        (by candidate_key id)
        (upsert (by candidate_key req.candidate_id) (refresh env req) (candidate_row env req) t)
      ≡ some c
refreshed env req id t c f p =
    let at =
      find-upsert candidate_key req.candidate_id id (refresh env req) (candidate_row env req) t
        (refresh-key env req) refl in
    elim (Bool-cases (req.candidate_id == id)) [
      | inl e ↦ ground (arith, at, eq_iff req.candidate_id id)
      | inr e ↦ ground (arith, at)
    ]

upsert-reviewed :
    (env : Env) (req : UpsertCandidateRequest) (db : CandidateDb) (id : String) (c : Candidate)
    → candidate id db ≡ some c
    → is_pending c ≡ false
    → candidate id (upsert_memory_candidate env req db).1 ≡ some c
unfolding upsert_memory_candidate
upsert-reviewed env req db id c f p =
    let kept = refreshed env req id db.candidates c f p in
    elim (Bool-cases (req.candidate_id == "")) [
      | inl e₁ ↦ rw e₁ f
      | inr e₁ ↦ elim (Bool-cases (req.namespace == "")) [
        | inl e₂ ↦ rw (e₁, e₂) f
        | inr e₂ ↦ elim (Bool-cases (req.candidate_type == "")) [
          | inl e₃ ↦ rw (e₁, e₂, e₃) f
          | inr e₃ ↦ elim (Bool-cases (has_no_chunks req.chunk_ids)) [
            | inl e₄ ↦ rw (e₁, e₂, e₃, e₄) f
            | inr e₄ ↦
                elim (Result-cases (
                  insert_links env req.candidate_id 0 req.chunk_ids
                    (delete (λ k. k.candidate_id == req.candidate_id) db.chunks))) [
                      | inl (t, e₅) ↦ rw (e₁, e₂, e₃, e₄, e₅) kept
                      | inr (x, e₅) ↦ rw (e₁, e₂, e₃, e₄, e₅) f
                    ]
          ]
        ]
      ]
    ]

-- the upsert of IngestSession
ingest-reviewed :
    (lib : Library) (env : Env) (req : SessionIngestRequest) (chunk : Chunk) (db : CandidateDb)
    (id : String) (c : Candidate)
    → candidate id db ≡ some c
    → is_pending c ≡ false
    → candidate id (upsert_promotion_candidate lib env req chunk db) ≡ some c
unfolding upsert_promotion_candidate refresh_candidate
ingest-reviewed lib env req chunk db id c f p =
    let fresh = candidate_of lib env req chunk in
    let at =
      find-upsert candidate_key fresh.candidate_id id (refresh_candidate fresh) fresh db.candidates
        (refresh_candidate-key fresh) refl in
    elim (Bool-cases (is_promotion_candidate_kind chunk.chunk_kind)) [
      | inr e ↦ rw e f
      | inl e ↦ elim (Bool-cases (fresh.candidate_id == id)) [
        | inr other ↦ rw e (at ∙ rw other f)
        | inl own ↦
            let same : fresh.candidate_id ≡ id = (eq_iff fresh.candidate_id id).0 own in
            rw e (at ∙ rw (own, same, f, p) refl)
      ]
    ]

-- one call on the candidates
pub data Step (db : CandidateDb) : CandidateDb → Type 0 where
  approve :
      (env : Env) (id memory_id : String) → Step db (mark_candidate_approved env id memory_id db).1
  reject : (env : Env) (id note : String) → Step db (reject_candidate env id note db).1
  ingested :
      (lib : Library) (env : Env) (req : SessionIngestRequest) (chunk : Chunk)
      → Step db (upsert_promotion_candidate lib env req chunk db)
  upserted :
      (env : Env) (req : UpsertCandidateRequest) → Step db (upsert_memory_candidate env req db).1

-- any number of calls, one after the other
pub data Steps (db : CandidateDb) : CandidateDb → Type 0 where
  done : Steps db db
  more : {d d' : CandidateDb} → Steps db d → Step d d' → Steps db d'

Step-reviewed :
    (id : String) (c : Candidate)
    → is_pending c ≡ false
    → {d d' : CandidateDb} → Step d d'
    → candidate id d ≡ some c
    → candidate id d' ≡ some c
unfolding mark_candidate_approved
Step-reviewed id c p {d} (approve env j m) f =
    update_pending-reviewed j (set_approved env m) d id c (λ r. refl) f p
Step-reviewed id c p {d} (reject env j note) f = reject-reviewed env j note d id c f p
Step-reviewed id c p {d} (ingested lib env req chunk) f =
    ingest-reviewed lib env req chunk d id c f p
Step-reviewed id c p {d} (upserted env req) f = upsert-reviewed env req d id c f p

-- A candidate that has been approved or rejected stays exactly as it is, whatever approvals, rejections,
-- upserts by ingestion and other upserts follow, in whatever order and of whichever candidates.
pub reviewed-Steps :
    (id : String) (c : Candidate) {db d : CandidateDb}
    → candidate id db ≡ some c
    → is_pending c ≡ false
    → Steps db d
    → candidate id d ≡ some c
reviewed-Steps id c f p done = f
reviewed-Steps id c f p (more ss s) = Step-reviewed id c p s (reviewed-Steps id c f p ss)

some-affected :
    (k : String) (c : Candidate) (t : List Candidate)
    → find (by candidate_key k) t ≡ some c
    → is_pending c ≡ true
    → eqb (affected (pending_row k) t) 0 ≡ false
unfolding find select
some-affected k c [] f p = cc
some-affected k c (r ∷ t) f p = elim (Bool-cases (r.candidate_id == k)) [
  | inl e ↦
      let hit : some r ≡ some c = rw e at f in
      let same : r ≡ c = cc in let q : is_pending r ≡ true = rw same p in simp (e, q) (ground arith)
  | inr e ↦
      let later : find (by candidate_key k) t ≡ some c = rw e at f in
      simp e (some-affected k c t later p)
]

-- An update of the pending candidate k succeeds, and changes that candidate and no other.
pub updated_row :
    (k : String) (set : Candidate → Candidate) (db : CandidateDb) (c : Candidate) (j : String)
    → ((r : Candidate) → candidate_key (set r) ≡ candidate_key r)
    → candidate k db ≡ some c
    → is_pending c ≡ true
    → ((update_pending k set db).0 ≡ ok tt)
      × (candidate j (update_pending k set db).1
          ≡ (if j == k then some (set c) else candidate j db))
unfolding update_pending
updated_row k set db c j keeps f p =
    let at =
      find-update (pending_row k) (by candidate_key j) set db.candidates (λ r. rw (keeps r) refl) in
    rw (some-affected k c db.candidates f p) (
      refl,
      elim (Bool-cases (j == k)) [
        | inl e ↦
            let same : j ≡ k = (eq_iff j k).0 e in
            let named = find-test (by candidate_key k) db.candidates c f in
            let there : find (by candidate_key j) db.candidates ≡ some c = rw same f in
            rw (e, at, there) (rw (named, p) refl)
        | inr e ↦ elim (Option-cases (find (by candidate_key j) db.candidates)) [
          | inl gone ↦ rw (e, at, gone) refl
          | inr (r, there) ↦
              let named = find-test (by candidate_key j) db.candidates r there in
              let other : (r.candidate_id == k) ≡ false =
                rw ((eq_iff r.candidate_id j).0 named) e in
              rw (e, at, there) (rw other refl)
        ]
      ],
    )

loaded :
    (k : String) (t : List Candidate) (c : Candidate)
    → find (by candidate_key k) t ≡ some c
    → is_pending c ≡ true
    → load_candidate_for_update k t ≡ ok c
unfolding load_candidate_for_update
loaded k t c f p = rw (load_candidate_for_update, f) (rw p refl)

pub load-pending :
    (k : String) (t : List Candidate) (c : Candidate)
    → load_candidate_for_update k t ≡ ok c
    → (find (by candidate_key k) t ≡ some c) × (is_pending c ≡ true)
unfolding load_candidate_for_update
load-pending k t c h = elim (Option-cases (find (by candidate_key k) t)) [
  | inl e ↦
      let gone : err (message "candidate not found") ≡ ok c =
        rw (load_candidate_for_update, e) at h in
      cc
  | inr (r, e) ↦ elim (Bool-cases (is_pending r)) [
    | inl f ↦
        let same : ok r ≡ ok c = rw f at (rw (load_candidate_for_update, e) at h) in
        let here : r ≡ c = cc in (e ∙ ap some here, (sym (ap is_pending here)) ∙ f)
    | inr f ↦
        let gone : err (message "candidate is not pending") ≡ ok c =
          rw f at (rw (load_candidate_for_update, e) at h) in
        cc
  ]
]

-- RejectCandidate of a candidate that is pending succeeds, makes it rejected with the note and the
-- time of the review, and leaves every other candidate as it was.
pub reject_candidate_lem :
    (env : Env) (id note : String) (db : CandidateDb) (c : Candidate) (j : String)
    → (trim id == "") ≡ false
    → candidate (trim id) db ≡ some c
    → is_pending c ≡ true
    → ((reject_candidate env id note db).0 ≡ ok tt)
      × (candidate j (reject_candidate env id note db).1
          ≡ (if j == trim id then some (set_rejected env (trim note) c) else candidate j db))
unfolding reject_candidate reject_loaded
reject_candidate_lem env id note db c j n f p =
    rw (n, loaded (trim id) db.candidates c f p)
      (updated_row (trim id) (set_rejected env (trim note)) db c j (λ r. refl) f p)
