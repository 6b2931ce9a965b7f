-- ===== src/Sync/Extract/Window.antt =====
-- The versions that ExtractBatch of internal/memsync/service.go covers.
use crdt_agent_memory.Prelude.{
  ℕ, zero, suc, ℤ, pos, String, ◌≡◌, refl, Bool, true, ◌&&◌, ◌||◌, List, [], ◌∷◌, inl, inr, arith,
  ◌<ℤ◌, ◌≤ℤ◌, lt_int, eq_int, any, take, pos_part, Bool-cases, ◌==◌,
}
use crdt_agent_memory.Sync.Types.{LogRow, Engine, Db, Service, Env}
use crdt_agent_memory.Sync.Extract.{
  cursor, place_distinct, versions_after, batch_limit, last_version, batch_of, header,
  batch_versions, extract_batch,
}

-- v is one of the values
abbrev pub listed : ℤ → List ℤ → Bool
listed v = any (λ w. eq_int v w)

-- the log has an entry of the namespace at version v
unfoldable pub logged : String → ℤ → List LogRow → Bool
logged namespace v = any (λ (r : LogRow). (r.namespace == namespace) && eq_int v r.db_version)

-- ascending, and all above a bound
abbrev pub Ascending : ℤ → List ℤ → Type 0
Ascending low [] = Unit
Ascending low (v ∷ vs) = (low <ℤ v) × Ascending v vs

place_distinct-Ascending :
    (low v : ℤ) (vs : List ℤ) → low <ℤ v → Ascending low vs → Ascending low (place_distinct v vs)
unfolding place_distinct
place_distinct-Ascending low v [] h a = (h, tt)
place_distinct-Ascending low v (w ∷ ws) h a = elim (Bool-cases (eq_int v w)) [
  | inl e ↦ simp e a
  | inr e ↦ elim (Bool-cases (lt_int v w)) [
    | inl l ↦ simp (e, l) (h, (ground arith, a.1))
    | inr l ↦ simp (e, l) (a.0, place_distinct-Ascending w v ws (ground arith) a.1)
  ]
]

pub versions_after-Ascending :
    (namespace : String) (after : ℤ) (log : List LogRow)
    → Ascending after (versions_after namespace after log)
unfolding versions_after
versions_after-Ascending namespace after [] = tt
versions_after-Ascending namespace after (r ∷ rs) =
    elim (Bool-cases ((r.namespace == namespace) && lt_int after r.db_version)) [
      | inl e ↦ simp e (
          place_distinct-Ascending after r.db_version (versions_after namespace after rs)
            (ground arith) (versions_after-Ascending namespace after rs))
      | inr e ↦ simp e (versions_after-Ascending namespace after rs)
    ]

listed-place_distinct :
    (u v : ℤ) (vs : List ℤ) → listed u (place_distinct v vs) ≡ (eq_int u v || listed u vs)
unfolding place_distinct any
listed-place_distinct u v [] = ground arith
listed-place_distinct u v (w ∷ ws) = ground (arith, listed-place_distinct u v ws)

-- A version is selected exactly if it is logged for the namespace and lies behind the cursor.
pub listed-versions_after :
    (namespace : String) (after v : ℤ) (log : List LogRow)
    → listed v (versions_after namespace after log) ≡ (lt_int after v && logged namespace v log)
unfolding versions_after any logged
listed-versions_after namespace after v [] = ground arith
listed-versions_after namespace after v (r ∷ rs) =
    elim (Bool-cases ((r.namespace == namespace) && lt_int after r.db_version)) [
      | inl e ↦ simp e (
          ground (
            arith,
            listed-place_distinct v r.db_version (versions_after namespace after rs),
            listed-versions_after namespace after v rs,
          ))
      | inr e ↦ simp e (ground (arith, listed-versions_after namespace after v rs))
    ]

listed-above : (low u : ℤ) (vs : List ℤ) → Ascending low vs → listed u vs ≡ true → low <ℤ u
unfolding any
listed-above low u [] a l = cc
listed-above low u (v ∷ vs) a l = elim (Bool-cases (eq_int u v)) [
  | inl e ↦ ground arith
  | inr e ↦ let above = listed-above v u vs a.1 (ground arith) in omega arith
]

-- Up to the last of the first n, an ascending list holds nothing that the first n lack.
take-no_gap :
    (n : ℕ) (low v u : ℤ) (vs : List ℤ)
    → Ascending low (v ∷ vs)
    → listed u (v ∷ vs) ≡ true
    → u ≤ℤ last_version v (take n vs)
    → listed u (v ∷ take n vs) ≡ true
unfolding take any
take-no_gap zero low v u vs a l h = elim (Bool-cases (eq_int u v)) [
  | inl e ↦ rw e
  | inr e ↦ let above = listed-above v u vs a.1 (ground arith) in absurd (omega arith)
]
take-no_gap (suc n) low v u [] a l h = l
take-no_gap (suc n) low v u (w ∷ ws) a l h = elim (Bool-cases (eq_int u v)) [
  | inl e ↦ rw e
  | inr e ↦ rw e (take-no_gap n v w u ws a.1 (ground arith) h)
]

pos_limit : (limit : ℤ) → (n : ℕ) × (pos_part (batch_limit limit) ≡ suc n)
pos_limit (ℤ.pos zero) = (255, refl)
pos_limit (ℤ.pos (suc n)) = (n, refl)
pos_limit (ℤ.negsuc n) = (255, refl)

take-Ascending : (n : ℕ) (low : ℤ) (vs : List ℤ) → Ascending low vs → Ascending low (take n vs)
unfolding take
take-Ascending zero low vs a = tt
take-Ascending (suc n) low [] a = tt
take-Ascending (suc n) low (v ∷ vs) a = (a.0, take-Ascending n v vs a.1)

listed-take : (n : ℕ) (u : ℤ) (vs : List ℤ) → listed u (take n vs) ≡ true → listed u vs ≡ true
unfolding take any
listed-take zero u vs h = cc
listed-take (suc n) u [] h = cc
listed-take (suc n) u (v ∷ vs) h = ground (arith, listed-take n u vs)

abbrev max_of : List ℤ → ℤ
max_of [] = pos 0
max_of (v ∷ vs) = last_version v vs

window-no_gap :
    (n : ℕ) (low u : ℤ) (vs : List ℤ)
    → Ascending low vs
    → listed u vs ≡ true
    → u ≤ℤ max_of (take (suc n) vs)
    → listed u (take (suc n) vs) ≡ true
unfolding take any
window-no_gap n low u [] a l h = cc
window-no_gap n low u (v ∷ vs) a l h = take-no_gap n low v u vs a l h

module _ (engine : Engine) where
  open engine use {Float, Shared, change_log}

  module _ (svc : Service) (env : Env) (peer_id namespace : String) (limit : ℤ)
      (db : Db Float Shared) where
    -- The versions that a batch covers are ascending, and all lie behind the cursor.
    pub batch_versions-Ascending :
        Ascending
          (cursor peer_id namespace db.cursors)
          (batch_versions engine peer_id namespace limit db)
    unfolding batch_versions
    batch_versions-Ascending =
        let after = cursor peer_id namespace db.cursors in
        take-Ascending (pos_part (batch_limit limit)) after
          (versions_after namespace after (change_log db.shared))
          (versions_after-Ascending namespace after (change_log db.shared))

    -- Every version that a batch covers is logged for the namespace.
    pub batch_versions-logged :
        (u : ℤ)
        → listed u (batch_versions engine peer_id namespace limit db) ≡ true
        → logged namespace u (change_log db.shared) ≡ true
    unfolding batch_versions
    batch_versions-logged u h =
        let after = cursor peer_id namespace db.cursors in
        let l =
          listed-take (pos_part (batch_limit limit)) u
            (versions_after namespace after (change_log db.shared)) h in
        ground (arith, listed-versions_after namespace after u (change_log db.shared))

    batch_of-namespace :
        (vs : List ℤ) → (batch_of engine svc env namespace vs db.shared).namespace ≡ namespace
    unfolding batch_of header
    batch_of-namespace [] = refl
    batch_of-namespace (v ∷ vs) = refl

    pub extract_batch-namespace :
        (extract_batch engine svc env peer_id namespace limit db).namespace ≡ namespace
    unfolding extract_batch
    extract_batch-namespace = batch_of-namespace (batch_versions engine peer_id namespace limit db)

    extract_batch-max :
        (vs : List ℤ) → (batch_of engine svc env namespace vs db.shared).max_version ≡ max_of vs
    unfolding batch_of
    extract_batch-max [] = refl
    extract_batch-max (v ∷ vs) = refl

    -- A version of the namespace that is logged behind the cursor and does not exceed the batch's
    -- max_version is covered by the batch: a receiver that moves to max_version has missed none.
    pub extract_batch-no_gap :
        (u : ℤ)
        → logged namespace u (change_log db.shared) ≡ true
        → cursor peer_id namespace db.cursors <ℤ u
        → u ≤ℤ (extract_batch engine svc env peer_id namespace limit db).max_version
        → listed u (batch_versions engine peer_id namespace limit db) ≡ true
    unfolding extract_batch
    extract_batch-no_gap u l c h =
        let after = cursor peer_id namespace db.cursors in
        let vs = versions_after namespace after (change_log db.shared) in
        let (n, e) = pos_limit limit in
        let window = batch_versions engine peer_id namespace limit db in
        let top : u ≤ℤ max_of window = rw (← extract_batch-max window) h in
        rw e (
          window-no_gap n after u vs
            (versions_after-Ascending namespace after (change_log db.shared))
            (ground (arith, listed-versions_after namespace after u (change_log db.shared)))
            (rw e at top))
