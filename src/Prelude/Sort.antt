-- ===== src/Prelude/Sort.antt =====
-- ORDER BY and sort.SliceStable: a stable insertion sort by a Boolean "stands before".
use mathlib.Core.Bool.{Bool}
use mathlib.Core.List.{List, [], ◌∷◌}
use mathlib.Core.Path.{◌≡◌, refl}
use native.Mathlib.Omega.{arith}
use crdt_agent_memory.Prelude.Tests.{if◌then◌else◌}
use crdt_agent_memory.Prelude.Lists.{length, select, All, any}

module _ {ℓ} {A : Type ℓ} (before : A → A → Bool) where
  unfoldable pub place : A → List A → List A
  place x [] = x ∷ []
  place x (y ∷ ys) = let later = y ∷ place x ys in if before y x then later else x ∷ y ∷ ys

  unfoldable pub sort_by : List A → List A
  unfolding place
  sort_by [] = []
  sort_by (x ∷ xs) = place x (sort_by xs)

  length-place : (x : A) (ys : List A) → length (place x ys) ≡ length (x ∷ ys)
  unfolding place
  length-place x [] = refl
  length-place x (y ∷ ys) = ground (arith, length-place x ys)

  pub length-sort_by : (xs : List A) → length (sort_by xs) ≡ length xs
  unfolding sort_by
  length-sort_by [] = refl
  length-sort_by (x ∷ xs) = ground (arith, length-place x (sort_by xs), length-sort_by xs)

  All-place {κ} : (P : A → Type κ) (x : A) (ys : List A) → P x → All P ys → All P (place x ys)
  unfolding place
  All-place P x [] hx h = (hx, tt)
  All-place P x (y ∷ ys) hx h =
      elim (before y x) as (λ b. All P (if b then y ∷ place x ys else x ∷ y ∷ ys)) [
        | Bool.true ↦ (h.0, All-place P x ys hx h.1)
        | Bool.false ↦ (hx, h)
      ]

  -- Sorting keeps what holds of every element.
  pub All-sort_by {κ} : (P : A → Type κ) (xs : List A) → All P xs → All P (sort_by xs)
  unfolding sort_by
  All-sort_by P [] h = tt
  All-sort_by P (x ∷ xs) h = All-place P x (sort_by xs) h.0 (All-sort_by P xs h.1)

  any-place : (p : A → Bool) (x : A) (ys : List A) → any p (place x ys) ≡ any p (x ∷ ys)
  unfolding place any
  any-place p x [] = refl
  any-place p x (y ∷ ys) = ground (arith, any-place p x ys)

  -- Sorting keeps whether an element passes a test.
  pub any-sort_by : (p : A → Bool) (xs : List A) → any p (sort_by xs) ≡ any p xs
  unfolding sort_by any
  any-sort_by p [] = refl
  any-sort_by p (x ∷ xs) = ground (arith, any-place p x (sort_by xs), any-sort_by p xs)

  length-select-place :
      (p : A → Bool) (x : A) (xs : List A)
      → length (select p (place x xs)) ≡ length (select p (x ∷ xs))
  unfolding place select
  length-select-place p x [] = refl
  length-select-place p x (y ∷ ys) = ground (arith, length-select-place p x ys)

  -- Sorting does not change how many elements pass a test.
  pub length-select-sort_by :
      (p : A → Bool) (xs : List A) → length (select p (sort_by xs)) ≡ length (select p xs)
  unfolding sort_by select
  length-select-sort_by p [] = refl
  length-select-sort_by p (x ∷ xs) =
      ground (arith, length-select-place p x (sort_by xs), length-select-sort_by p xs)
