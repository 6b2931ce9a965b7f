-- ===== src/Sync/Verification/Keys.antt =====
-- The keys of the candidates that internal/memsync/service.go collects.
use crdt_agent_memory.Prelude.{
  String, ◌≡◌, ◌∙◌, sym, ap, refl, true, false, Bool, ◌&&◌, not, Option, some, none, List, [], ◌∷◌,
  arith, inl, inr, Bool-cases, is_some, Result, ok, err, ◌>>=◌, ◌==◌, eq_iff, if◌then◌else◌,
}
use crdt_agent_memory.Table.{find, upsert}
use crdt_agent_memory.Table.Laws.{merged, find-upsert_ne}
use crdt_agent_memory.Table.Keyed.{by}
use crdt_agent_memory.Sync.Types.{Change, Engine}
use crdt_agent_memory.Sync.Values.{value_as_int64, value_as_bytes}
use crdt_agent_memory.Sync.Verification.{Candidate, candidate_key, apply_memory_node_change}

pub merged-same : (d : Candidate) (o : Option Candidate) → merged (λ _. d) d o ≡ d
merged-same d none = refl
merged-same d (some c) = refl

pub find-put-other :
    (k id : String) (d : Candidate) (cs : List Candidate)
    → d.key ≡ k
    → (k == id) ≡ false
    → find (by candidate_key id) (upsert (by candidate_key k) (λ _. d) d cs)
      ≡ find (by candidate_key id) cs
find-put-other k id d cs key other =
    let apart : (d.key == id) ≡ false = rw key other in
    find-upsert_ne (by candidate_key k) (by candidate_key id) (λ _. d) d cs
      (λ r h. let same : r.key ≡ k = (eq_iff r.key k).0 h in rw same other) (λ r h. apart) apart

-- no key stands twice
unfoldable pub all_distinct : List Candidate → Bool
all_distinct [] = true
all_distinct (c ∷ cs) = not (is_some (find (by candidate_key c.key) cs)) && all_distinct cs

pub put-distinct :
    (k : String) (d : Candidate) (cs : List Candidate)
    → d.key ≡ k
    → all_distinct cs ≡ true
    → all_distinct (upsert (by candidate_key k) (λ _. d) d cs) ≡ true
unfolding all_distinct upsert find
put-distinct k d [] key h = refl
put-distinct k d (c ∷ cs) key h = elim (Bool-cases (c.key == k)) [
  | inl e ↦ let same : c.key ≡ d.key = (eq_iff c.key k).0 e ∙ sym key in rw e (rw (← same) h)
  | inr e ↦
      let other : (k == c.key) ≡ false = ground (arith, e, eq_iff c.key k, eq_iff k c.key) in
      let rest = put-distinct k d cs key (ground (arith, h)) in
      rw (e, find-put-other k c.key d cs key other) (ground (arith, h, rest))
]

-- a result whose candidate, if any, has this key
abbrev Kept : String → Result Candidate → Type 0
Kept k r = (d : Candidate) → r ≡ ok d → d.key ≡ k

ok-Kept : (k : String) (c : Candidate) → c.key ≡ k → Kept k (ok c)
ok-Kept k c h d done = let same : c ≡ d = cc in ap (λ x. x.key) (sym same) ∙ h

if-Kept :
    (k : String) (b : Bool) (x y : Result Candidate)
    → Kept k x
    → Kept k y
    → Kept k (if b then x else y)
if-Kept k true x y hx hy = hx
if-Kept k false x y hx hy = hy

bind-Kept :
    {V : Type 0} (k : String) (v : Result V) (next : V → Result Candidate)
    → ((x : V) → Kept k (next x))
    → Kept k (v >>= next)
bind-Kept k (ok x) next h = h x
bind-Kept k (err x) next h = λ d done. cc

module _ (e : Engine) where
  open e use {Float, format_float}

  all_keep_key :
      (c : Candidate) (ch : Change Float) → Kept c.key (apply_memory_node_change format_float c ch)
  unfolding apply_memory_node_change
  all_keep_key c ch = if-Kept c.key (ch.cid == "memory_id") _ _ (ok-Kept c.key _ refl) (
      if-Kept c.key (ch.cid == "memory_type") _ _ (ok-Kept c.key _ refl) (
        if-Kept c.key (ch.cid == "namespace") _ _ (ok-Kept c.key _ refl) (
          if-Kept c.key (ch.cid == "subject") _ _ (ok-Kept c.key _ refl) (
            if-Kept c.key (ch.cid == "body") _ _ (ok-Kept c.key _ refl) (
              if-Kept c.key (ch.cid == "source_uri") _ _ (ok-Kept c.key _ refl) (
                if-Kept c.key (ch.cid == "source_hash") _ _ (ok-Kept c.key _ refl) (
                  if-Kept c.key (ch.cid == "author_agent_id") _ _ (ok-Kept c.key _ refl) (
                    if-Kept c.key (ch.cid == "origin_peer_id") _ _ (ok-Kept c.key _ refl) (
                      if-Kept c.key (ch.cid == "authored_at_ms") _ _
                        (bind-Kept c.key (value_as_int64 ch.val) _ (λ n. ok-Kept c.key _ refl))
                        (if-Kept c.key (ch.cid == "valid_from_ms") _ _
                          (bind-Kept c.key (value_as_int64 ch.val) _ (λ n. ok-Kept c.key _ refl))
                          (if-Kept c.key (ch.cid == "valid_to_ms") _ _
                            (bind-Kept c.key (value_as_int64 ch.val) _ (λ n. ok-Kept c.key _ refl))
                            (if-Kept c.key (ch.cid == "author_signature") _ _
                              (bind-Kept c.key (value_as_bytes ch.val) _
                                (λ b. ok-Kept c.key _ refl))
                              (ok-Kept c.key c refl)))))))))))))

  pub keeps_key :
      (c d : Candidate) (ch : Change Float)
      → apply_memory_node_change format_float c ch ≡ ok d
      → d.key ≡ c.key
  keeps_key c d ch h = all_keep_key c ch d h
