-- ===== src/Table/Laws.antt =====
-- What a statement on one key does to the rows of that key and of the others.
use crdt_agent_memory.Prelude.{
  ◌+◌, ◌≡◌, refl, Bool, true, false, Option, none, some, List, [], ◌∷◌, ◌++◌, inl, inr, arith,
  length, Bool-cases, is_some, select, if◌then◌else◌,
}
use crdt_agent_memory.Table.{find, upsert, update, delete, affected}

-- the row that an upsert leaves at its key
abbrev pub merged {ℓ} : {R : Type ℓ} → (R → R) → R → Option R → R
merged merge fresh none = fresh
merged merge fresh (some r) = merge r

module _ {ℓ} {R : Type ℓ} where
  pub find-upsert_self :
      (p : R → Bool) (merge : R → R) (fresh : R) (rs : List R)
      → ((r : R) → p r ≡ true → p (merge r) ≡ true)
      → p fresh ≡ true
      → find p (upsert p merge fresh rs) ≡ some (merged merge fresh (find p rs))
  unfolding find upsert
  find-upsert_self p merge fresh [] keeps here = rw here
  find-upsert_self p merge fresh (r ∷ rs) keeps here = elim (Bool-cases (p r)) [
    | inl e ↦ simp (e, keeps r e)
    | inr e ↦ simp e (find-upsert_self p merge fresh rs keeps here)
  ]

  -- A row of another key is left alone.
  pub find-upsert_ne :
      (p q : R → Bool) (merge : R → R) (fresh : R) (rs : List R)
      → ((r : R) → p r ≡ true → q r ≡ false)
      → ((r : R) → p r ≡ true → q (merge r) ≡ false)
      → q fresh ≡ false
      → find q (upsert p merge fresh rs) ≡ find q rs
  unfolding find upsert
  find-upsert_ne p q merge fresh [] apart keeps here = rw here
  find-upsert_ne p q merge fresh (r ∷ rs) apart keeps here = elim (Bool-cases (p r)) [
    | inl e ↦ simp (e, keeps r e, apart r e)
    | inr e ↦ simp e (ground (arith, find-upsert_ne p q merge fresh rs apart keeps here))
  ]

  pub find-append :
      (p : R → Bool) (rs ss : List R) → find p rs ≡ none → find p (rs ++ ss) ≡ find p ss
  unfolding find
  find-append p [] ss h = refl
  find-append p (r ∷ rs) ss h = elim (Bool-cases (p r)) [
    | inl e ↦ ground arith
    | inr e ↦ simp e (find-append p rs ss (ground arith))
  ]

  pub find-append_some :
      (p : R → Bool) (rs ss : List R) (r : R) → find p rs ≡ some r → find p (rs ++ ss) ≡ some r
  unfolding find
  find-append_some p [] ss r h = cc
  find-append_some p (x ∷ rs) ss r h = elim (Bool-cases (p x)) [
    | inl e ↦ simp e (ground arith)
    | inr e ↦ simp e (find-append_some p rs ss r (ground arith))
  ]

  -- What `find` answers passes the test.
  pub find-test : (p : R → Bool) (rs : List R) (r : R) → find p rs ≡ some r → p r ≡ true
  unfolding find
  find-test p [] r h = cc
  find-test p (x ∷ rs) r h = elim (Bool-cases (p x)) [
    | inl e ↦ ground arith
    | inr e ↦ find-test p rs r (ground arith)
  ]

  -- An UPDATE that keeps the keys changes the rows that it names, and no others.
  pub find-update :
      (p q : R → Bool) (f : R → R) (rs : List R)
      → ((r : R) → q (f r) ≡ q r)
      → find q (update p f rs)
        ≡ (elim (find q rs) [ none ↦ none | some r ↦ some (if p r then f r else r) ])
  unfolding find update
  find-update p q f [] keeps = refl
  find-update p q f (r ∷ rs) keeps = elim (Bool-cases (p r)) [
    | inl e ↦ simp (e, keeps r) (ground (arith, find-update p q f rs keeps))
    | inr e ↦ simp e (ground (arith, find-update p q f rs keeps))
  ]

  -- The rows that a DELETE removes and those that it leaves make up the table.
  pub length-delete :
      (p : R → Bool) (rs : List R) → length (delete p rs) + affected p rs ≡ length rs
  unfolding select
  length-delete p [] = omega arith
  length-delete p (r ∷ rs) = ground (arith, length-delete p rs)

  -- What a DELETE leaves was there before.
  pub find-select :
      (p q : R → Bool) (rs : List R)
      → is_some (find p (select q rs)) ≡ true
      → is_some (find p rs) ≡ true
  unfolding find select
  find-select p q [] h = h
  find-select p q (r ∷ rs) h = elim (Bool-cases (p r)) [
    | inl e ↦ rw e refl
    | inr e ↦ rw e (find-select p q rs (ground (arith, h)))
  ]
