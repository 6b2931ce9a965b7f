-- ===== src/Indexer/Drain.antt =====
-- Rounds of ProcessOnce of internal/indexer/worker.go over a queue: the rows that are left pending.
use crdt_agent_memory.Prelude.{
  ℕ, zero, suc, ◌-◌, ◌≤◌, String, ◌≡◌, ◌∙◌, sym, ap, refl, true, false, Bool, not, ◌&&◌, List, [],
  ◌∷◌, map, take, arith, inl, inr, Bool-cases, any, length, select, All, All-map_imp, sort_by,
  length-sort_by, length-select-sort_by, length-select-le, Result, ok, ◌==◌, eq_refl, if◌then◌else◌,
}
use crdt_agent_memory.Table.{update}
use crdt_agent_memory.Indexer.{IndexDb, settle, process_all}

-- one test behind another is both
pub select-select {ℓ} :
    {A : Type ℓ} (p q : A → Bool) (xs : List A)
    → select p (select q xs) ≡ select (λ x. q x && p x) xs
unfolding select
select-select p q [] = refl
select-select p q (x ∷ xs) = elim (Bool-cases (q x)) [
  | inl e ↦ rw e (ground (arith, select-select p q xs))
  | inr e ↦ rw e (select-select p q xs)
]

pub select-congr {ℓ} :
    {A : Type ℓ} (p q : A → Bool) (xs : List A) → ((x : A) → p x ≡ q x) → select p xs ≡ select q xs
unfolding select
select-congr p q [] same = refl
select-congr p q (x ∷ xs) same = rw (same x, select-congr p q xs same) refl

select-true {ℓ} :
    {A : Type ℓ} (p : A → Bool) (xs : List A) → ((x : A) → p x ≡ true) → select p xs ≡ xs
unfolding select
select-true p [] all = refl
select-true p (x ∷ xs) all = rw (all x, select-true p xs all) refl

-- Where the first n elements fail a test, no more than the others pass it.
length-select-rest {ℓ} :
    {A : Type ℓ} (p : A → Bool) (n : ℕ) (xs : List A)
    → All (λ x. p x ≡ false) (take n xs)
    → length (select p xs) ≤ length xs - n
unfolding take select
length-select-rest p zero xs h = omega (arith, length-select-le p xs)
length-select-rest p (suc n) [] h = omega arith
length-select-rest p (suc n) (x ∷ xs) h =
    let rest = length-select-rest p n xs h.1 in rw h.0 (omega (arith, rest))

module _ {ℓ} {R : Type ℓ} (key : R → String) where
  -- the rows whose keys are none of these
  abbrev pub others : List String → R → Bool
  others ks r = not (any (λ k. key r == k) ks)

  abbrev pub remaining : List String → List R → List R
  remaining ks = select (others ks)

  others-own : (xs : List R) → All (λ r. others (map key xs) r ≡ false) xs
  unfolding any
  others-own [] = tt
  others-own (x ∷ xs) = (
    rw (eq_refl (key x)) refl,
    All-map_imp (λ r. others (map key xs) r ≡ false) (λ r. others (map key (x ∷ xs)) r ≡ false) xs
        (λ r h. elim (Bool-cases (key r == key x)) [ inl e ↦ rw e refl | inr e ↦ rw e h ])
        (others-own xs),
  )

  -- Of n items taken in some order, none remains.
  pub length-remaining :
      (before : R → R → Bool) (n : ℕ) (xs : List R)
      → length (remaining (map key (take n (sort_by before xs))) xs) ≤ length xs - n
  length-remaining before n xs =
      let taken = take n (sort_by before xs) in
      let few =
        length-select-rest (others (map key taken)) n (sort_by before xs) (others-own taken) in
      let same = length-select-sort_by before (others (map key taken)) xs in
      let all = length-sort_by before xs in omega (arith, few, same, all)

  -- Rows of one key are marked, so that they no longer pass the test.
  pub select-update :
      (pending hit : R → Bool) (mark : R → R) (k : String) (xs : List R)
      → ((r : R) → pending (mark r) ≡ false)
      → ((r : R) → pending r ≡ true → hit r ≡ (key r == k))
      → ((r : R) → pending r ≡ false → pending (if hit r then mark r else r) ≡ false)
      → select pending (update hit mark xs) ≡ select (λ r. not (key r == k)) (select pending xs)
  unfolding select update
  select-update pending hit mark k [] off same stays = refl
  select-update pending hit mark k (x ∷ xs) off same stays =
      let rest = select-update pending hit mark k xs off same stays in
      elim (Bool-cases (pending x)) [
        | inr e ↦ rw (stays x e, e) rest
        | inl e ↦ elim (Bool-cases (key x == k)) [
          | inl f ↦ rw (same x e, f, off x, e) (rw f rest)
          | inr f ↦ rw (same x e, f, e) (rw f (ap (λ zs. x ∷ zs) rest))
        ]
      ]

  -- A step that succeeds and marks the rows of its item, over all items.
  pub process_all-remaining :
      {A : Type 0} (name : A → String) (step : A → IndexDb → Result IndexDb)
      (rows : IndexDb → List R)
      → ((x : A) (db : IndexDb)
          → (new : IndexDb) × (step x db ≡ ok new)
            × (rows new ≡ select (λ r. not (key r == name x)) (rows db)))
      → (xs : List A) (db : IndexDb)
      → ((process_all step xs ([], db)).0 ≡ [])
        × (rows (process_all step xs ([], db)).1 ≡ remaining (map name xs) (rows db))
  unfolding process_all settle any
  process_all-remaining name step rows good [] db =
      (refl, sym (select-true (others []) (rows db) (λ r. refl)))
  process_all-remaining name step rows good (x ∷ xs) db =
      let (new, done, marked) = good x db in
      let (quiet, rest) = process_all-remaining name step rows good xs new in
      let both = select-select (others (map name xs)) (λ r. not (key r == name x)) (rows db) in
      let same =
        select-congr (λ r. not (key r == name x) && others (map name xs) r)
          (others (name x ∷ map name xs)) (rows db)
          (λ r. elim (Bool-cases (key r == name x)) [ inl e ↦ rw e refl | inr e ↦ rw e refl ]) in
      (
        rw (process_all, done) quiet,
        rw (process_all, done) (rest ∙ ap (remaining (map name xs)) marked ∙ both ∙ same),
      )

-- A step that succeeds and leaves a part of the state, over all items.
pub process_all-keeps {κ} :
    {V : Type κ} {A : Type 0} (part : IndexDb → V) (step : A → IndexDb → Result IndexDb)
    → ((x : A) (db : IndexDb) → (new : IndexDb) × (step x db ≡ ok new) × (part new ≡ part db))
    → (xs : List A) (db : IndexDb) → part (process_all step xs ([], db)).1 ≡ part db
unfolding process_all settle
process_all-keeps part step good [] db = refl
process_all-keeps part step good (x ∷ xs) db =
    let (new, done, same) = good x db in
    let rest = process_all-keeps part step good xs new in rw (process_all, done) (rest ∙ same)
