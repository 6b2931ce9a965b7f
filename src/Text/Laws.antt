-- ===== src/Text/Laws.antt =====
-- Trimming twice is trimming once.
use Prim.Native.Nat.{compare, Ordering}
use Prim.Native.Char.{Char, code}
use Prim.Native.String.{String}
use crdt_agent_memory.Prelude.{ℕ, ◌<◌, arith, ◌≡◌, refl, inl, inr, true, Bool-cases}
use crdt_agent_memory.Text.{is_space, trim_left, trim_right, keep, trim, char_of, scalar_below}

trim_right-keep : (c : Char) (s : String) → trim_right s ≡ s → trim_right (keep c s) ≡ keep c s
unfolding keep trim_right
trim_right-keep c String.[] h = elim (Bool-cases (is_space (code c))) [
  | inl e ↦ simp e
  | inr e ↦ simp (e, e)
]
trim_right-keep c (String.◌∷◌ d s) h = rw h

trim_right_idem : (s : String) → trim_right (trim_right s) ≡ trim_right s
unfolding trim_right
trim_right_idem String.[] = refl
trim_right_idem (String.◌∷◌ c s) = trim_right-keep c (trim_right s) (trim_right_idem s)

trim_left_idem : (s : String) → trim_left (trim_left s) ≡ trim_left s
unfolding trim_left
trim_left_idem String.[] = refl
trim_left_idem (String.◌∷◌ c s) = elim (Bool-cases (is_space (code c))) [
  | inl e ↦ simp e (trim_left_idem s)
  | inr e ↦ simp (e, e)
]

-- A text with no white space at its end, behind a white space.
keep_space :
    (c : Char) (s t : String) → is_space (code c) ≡ true → keep c t ≡ String.◌∷◌ c s → t ≡ s
unfolding keep
keep_space c s String.[] e h = let gone : String.[] ≡ String.◌∷◌ c s = simp e at h in cc
keep_space c s (String.◌∷◌ d t) e h = cc

trim_right-trim_left : (s : String) → trim_right s ≡ s → trim_right (trim_left s) ≡ trim_left s
unfolding trim_left trim_right
trim_right-trim_left String.[] h = refl
trim_right-trim_left (String.◌∷◌ c s) h = elim (Bool-cases (is_space (code c))) [
  | inl e ↦ simp e (trim_right-trim_left s (keep_space c s (trim_right s) e h))
  | inr e ↦ simp e h
]

pub trim_idem : (s : String) → trim (trim s) ≡ trim s
unfolding trim
trim_idem s =
    rw (trim_right-trim_left (trim_right s) (trim_right_idem s)) (trim_left_idem (trim_right s))

scalar_below-code :
    (n : ℕ) (o : Ordering) (e : compare n 55296 ≡ o)
    → o ≡ Ordering.lt
    → code (scalar_below n o e) ≡ n
unfolding scalar_below
scalar_below-code n Ordering.lt e h = refl
scalar_below-code n Ordering.eq e h = cc
scalar_below-code n Ordering.gt e h = cc

pub code-char_of : (n : ℕ) → n < 55296 → code (char_of n) ≡ n
unfolding char_of
code-char_of n h = scalar_below-code n (compare n 55296) refl (ground arith)
