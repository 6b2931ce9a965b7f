-- ===== src/Table/Keyed.antt =====
-- Tables whose primary key is one text column or two: an upsert at a key, read back at any key.
use crdt_agent_memory.Prelude.{
  String, ◌≡◌, Bool, true, false, ◌&&◌, some, List, inl, inr, arith, Bool-cases, ◌==◌, eq_iff,
  eq_refl, if◌then◌else◌,
}
use crdt_agent_memory.Table.{find, upsert}
use crdt_agent_memory.Table.Laws.{merged, find-upsert_self, find-upsert_ne}

other_text : (a b c : String) → (b == c) ≡ false → (a == b) ≡ true → (a == c) ≡ false
other_text a b c n h = ground (arith, eq_iff a b, eq_iff a c, eq_iff b c)

pub pair_eq : (a b c d : String) → ((a == c) && (b == d)) ≡ true → (a ≡ c) × (b ≡ d)
pair_eq a b c d h = ground (arith, eq_iff a c, eq_iff b d)

pair_refl : (a b : String) → ((a == a) && (b == b)) ≡ true
pair_refl a b = rw (eq_refl a) (eq_refl b)

other_pair :
    (x y a b c d : String)
    → ((a == c) && (b == d)) ≡ false
    → ((x == a) && (y == b)) ≡ true
    → ((x == c) && (y == d)) ≡ false
other_pair x y a b c d n h = let (e₁, e₂) = pair_eq x y a b h in rw (e₁, e₂) n

module _ {ℓ} {R : Type ℓ} (key : R → String) where
  -- WHERE key = k
  abbrev pub by : String → R → Bool
  by k r = key r == k

  pub find-upsert :
      (k j : String) (merge : R → R) (fresh : R) (rs : List R)
      → ((r : R) → key (merge r) ≡ key r)
      → key fresh ≡ k
      → find (by j) (upsert (by k) merge fresh rs)
        ≡ (if k == j then some (merged merge fresh (find (by k) rs)) else find (by j) rs)
  find-upsert k j merge fresh rs keeps here = elim (Bool-cases (k == j)) [
    | inl e ↦
        let same : k ≡ j = (eq_iff k j).0 e in
        rw e (
          rw (← same)
            (find-upsert_self (by k) merge fresh rs (λ r h. rw (keeps r) h) (rw here (eq_refl k))))
    | inr e ↦ rw e (
        find-upsert_ne (by k) (by j) merge fresh rs (λ r h. other_text (key r) k j e h)
          (λ r h. rw (keeps r) (other_text (key r) k j e h)) (rw here e))
  ]

module _ {ℓ} {R : Type ℓ} (key₁ key₂ : R → String) where
  -- WHERE key₁ = a AND key₂ = b
  abbrev pub by_pair : String → String → R → Bool
  by_pair a b r = (key₁ r == a) && (key₂ r == b)

  pub find-upsert_pair :
      (a b c d : String) (merge : R → R) (fresh : R) (rs : List R)
      → ((r : R) → key₁ (merge r) ≡ key₁ r)
      → ((r : R) → key₂ (merge r) ≡ key₂ r)
      → key₁ fresh ≡ a
      → key₂ fresh ≡ b
      → find (by_pair c d) (upsert (by_pair a b) merge fresh rs) ≡ (
          if (a == c) && (b == d)
          then some (merged merge fresh (find (by_pair a b) rs))
          else find (by_pair c d) rs)
  find-upsert_pair a b c d merge fresh rs keeps₁ keeps₂ here₁ here₂ =
      elim (Bool-cases ((a == c) && (b == d))) [
        | inl e ↦
            let (same₁, same₂) = pair_eq a b c d e in
            rw e (
              rw (← same₁, ← same₂)
                (find-upsert_self (by_pair a b) merge fresh rs (λ r h. rw (keeps₁ r, keeps₂ r) h)
                  (rw (here₁, here₂) (pair_refl a b))))
        | inr e ↦ rw e (
            find-upsert_ne (by_pair a b) (by_pair c d) merge fresh rs
              (λ r h. other_pair (key₁ r) (key₂ r) a b c d e h)
              (λ r h. rw (keeps₁ r, keeps₂ r) (other_pair (key₁ r) (key₂ r) a b c d e h))
              (rw (here₁, here₂) e))
      ]
