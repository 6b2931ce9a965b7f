-- ===== src/Encoding/Bytes.antt =====
-- Texts of bytes, and alphabets: a property of the numbers below a bound is checked one by one.
use Prim.Native.Char.{Char, code}
use Prim.Native.String.{String}
use text.Mathlib.TextEquality.{Char-path}
use crdt_agent_memory.Prelude.{
  ℕ, zero, suc, ◌<◌, ◌≡◌, Bool, true, false, ◌&&◌, Option, none, some, eqb, ltb, inl, inr,
  Bool-cases, arith,
}
use crdt_agent_memory.Text.{char_of}
use crdt_agent_memory.Text.Laws.{code-char_of}

-- a Go string as it is modelled: one character below 256 for each byte
abbrev pub IsBytes : String → Type 0
IsBytes String.[] = Unit
IsBytes (String.◌∷◌ c s) = (code c < 256) × IsBytes s

-- the byte of a character is the character
pub char_of-code : (c : Char) (n : ℕ) → code c < 256 → n ≡ code c → char_of n ≡ c
char_of-code c n h e = Char-path (char_of n) c (rw e (code-char_of (code c) (omega arith)))

unfoldable pub every_below : (ℕ → Bool) → ℕ → Bool
every_below p zero = true
every_below p (suc n) = p n && every_below p n

pub every_below-holds : (p : ℕ → Bool) (n k : ℕ) → every_below p n ≡ true → k < n → p k ≡ true
unfolding every_below
every_below-holds p zero k h l = ground arith
every_below-holds p (suc n) k h l = elim (Bool-cases (eqb k n)) [
  | inl e ↦ ground arith
  | inr e ↦ every_below-holds p n k (ground arith) (ground arith)
]

-- whether a decoded digit is the number that was encoded
abbrev pub gives : Option ℕ → ℕ → Bool
gives none n = false
gives (some m) n = eqb m n

pub gives-some : (o : Option ℕ) (n : ℕ) → gives o n ≡ true → o ≡ some n
gives-some none n h = cc
gives-some (some m) n h = ground arith

unfoldable pub all_bytes : String → Bool
all_bytes String.[] = true
all_bytes (String.◌∷◌ c s) = ltb (code c) 256 && all_bytes s

pub all_bytes-IsBytes : (s : String) → all_bytes s ≡ true → IsBytes s
unfolding all_bytes
all_bytes-IsBytes String.[] h = tt
all_bytes-IsBytes (String.◌∷◌ c s) h =
    let (first, rest) : (ltb (code c) 256 ≡ true) × (all_bytes s ≡ true) = ground arith in
    (ground arith, all_bytes-IsBytes s rest)
