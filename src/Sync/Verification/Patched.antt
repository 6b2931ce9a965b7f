-- ===== src/Sync/Verification/Patched.antt =====
-- The candidates that evaluateBatchVerification of internal/memsync/service.go collects from the
-- changes of a batch, each described by the changes of its own memory.
use mathlib.Core.Path.{subst}
use crdt_agent_memory.Prelude.{
  String, ◌≡◌, ◌∙◌, sym, ap, refl, true, false, Bool, ◌&&◌, ◌||◌, some, List, [], ◌∷◌, any, arith,
  inl, inr, Bool-cases, Option-cases, is_some, Result, ok, ◌>>=◌, >>=-eq-ok, ◌==◌, eq_iff, eq_refl,
  if◌then◌else◌,
}
use crdt_agent_memory.Text.{is_blank}
use crdt_agent_memory.Table.{find, upsert}
use crdt_agent_memory.Table.Laws.{find-upsert_self, find-test}
use crdt_agent_memory.Table.Keyed.{by}
use crdt_agent_memory.Signing.{Crypto}
use crdt_agent_memory.Sync.Types.{Change, Engine}
use crdt_agent_memory.Sync.Values.{decode_primary_key_text}
use crdt_agent_memory.Sync.Verification.{
  Candidate, candidate_key, load_candidate, apply_memory_node_change, candidate_for, collect_change,
  collect,
}
use crdt_agent_memory.Sync.Verification.Keys.{
  merged-same, find-put-other, all_distinct, put-distinct, keeps_key,
}

-- a change of a column of the memory
abbrev pub concerns : {F : Type 0} → String → Change F → Bool
concerns id ch = (ch.table == "memory_nodes") && (decode_primary_key_text ch.pk_b64 == id)

other_id : (k id : String) → is_blank k ≡ true → is_blank id ≡ false → (k == id) ≡ false
other_id k id b n = elim (Bool-cases (k == id)) [
  | inr e ↦ e
  | inl e ↦
      let same : k ≡ id = (eq_iff k id).0 e in
      let bad : true ≡ false = sym b ∙ ap is_blank same ∙ n in cc
]

module _ (crypto : Crypto) (e : Engine) where
  open e use {Float, Shared, format_float, node}

  -- a stored memory with the changes of a batch that are its own, in their order
  unfoldable pub patched : String → List (Change Float) → Candidate → Result Candidate
  patched id [] c = ok c
  patched id (ch ∷ rest) c =
      (if concerns id ch then apply_memory_node_change format_float c ch else ok c)
      >>= patched id rest

  module _ (s : Shared) where
    candidate_for-key :
        (id : String) (cs : List Candidate) → (candidate_for crypto e s id cs).key ≡ id
    unfolding candidate_for load_candidate
    candidate_for-key id cs = elim (Option-cases (find (by candidate_key id) cs)) [
      | inl gone ↦ rw (candidate_for, gone) refl
      | inr (c, there) ↦
          let test = find-test (by candidate_key id) cs c there in
          rw (candidate_for, there) ((eq_iff c.key id).0 test)
    ]

    candidate_for-put :
        (k : String) (d : Candidate) (cs : List Candidate)
        → d.key ≡ k
        → candidate_for crypto e s k (upsert (by candidate_key k) (λ _. d) d cs) ≡ d
    unfolding candidate_for
    candidate_for-put k d cs key =
        let test : (d.key == k) ≡ true = rw key (eq_refl k) in
        let at = find-upsert_self (by candidate_key k) (λ _. d) d cs (λ r h. test) test in
        let here = at ∙ ap some (merged-same d (find (by candidate_key k) cs)) in
        rw (candidate_for, here) refl

    candidate_for-other :
        (k id : String) (d : Candidate) (cs : List Candidate)
        → d.key ≡ k
        → (k == id) ≡ false
        → candidate_for crypto e s id (upsert (by candidate_key k) (λ _. d) d cs)
          ≡ candidate_for crypto e s id cs
    unfolding candidate_for
    candidate_for-other k id d cs key other =
        let apart : (d.key == id) ≡ false = rw key other in
        rw (candidate_for, find-put-other k id d cs key other) refl

    -- one change, seen from the candidate of a memory
    collect_change-for :
        (id : String) (ch : Change Float) (cs new : List Candidate)
        → is_blank id ≡ false
        → collect_change crypto e s ch cs ≡ ok new
        → (if concerns id ch
            then apply_memory_node_change format_float (candidate_for crypto e s id cs) ch
            else ok (candidate_for crypto e s id cs))
          ≡ ok (candidate_for crypto e s id new)
    unfolding collect_change
    collect_change-for id ch cs new named done =
        let k = decode_primary_key_text ch.pk_b64 in
        elim (Bool-cases (ch.table == "memory_nodes")) [
          | inr t ↦
              let same : ok cs ≡ ok new = rw t at done in
              let kept : cs ≡ new = cc in rw t (ap (λ x. ok (candidate_for crypto e s id x)) kept)
          | inl t ↦ elim (Bool-cases (is_blank k)) [
            | inl b ↦
                let same : ok cs ≡ ok new = rw (t, b) at done in
                let kept : cs ≡ new = cc in
                let apart : (k == id) ≡ false = other_id k id b named in
                rw (t, apart) (ap (λ x. ok (candidate_for crypto e s id x)) kept)
            | inr b ↦
                let (d, first, last) =
                  >>=-eq-ok
                    (apply_memory_node_change format_float (candidate_for crypto e s k cs) ch) _
                    (rw (t, b) at done) in
                let put : upsert (by candidate_key k) (λ _. d) d cs ≡ new = cc in
                let key : d.key ≡ k =
                  keeps_key e (candidate_for crypto e s k cs) d ch first ∙ candidate_for-key k cs in
                elim (Bool-cases (k == id)) [
                  | inl own ↦
                      let same : k ≡ id = (eq_iff k id).0 own in
                      let at = candidate_for-put k d cs key in
                      rw (t, own)
                        (subst
                          (λ i.
                            apply_memory_node_change format_float (candidate_for crypto e s i cs) ch
                            ≡ ok (candidate_for crypto e s i new))
                          same
                          (first
                            ∙ ap ok (sym at)
                            ∙ ap (λ x. ok (candidate_for crypto e s k x)) put))
                  | inr other ↦
                      rw (t, other)
                        (ap ok (sym (candidate_for-other k id d cs key other))
                          ∙ ap (λ x. ok (candidate_for crypto e s id x)) put)
                ]
          ]
        ]

    collect_change-distinct :
        (ch : Change Float) (cs new : List Candidate)
        → collect_change crypto e s ch cs ≡ ok new
        → all_distinct cs ≡ true
        → all_distinct new ≡ true
    unfolding collect_change
    collect_change-distinct ch cs new done h =
        let k = decode_primary_key_text ch.pk_b64 in
        elim (Bool-cases (ch.table == "memory_nodes")) [
          | inr t ↦
              let same : ok cs ≡ ok new = rw t at done in let kept : cs ≡ new = cc in rw (← kept) h
          | inl t ↦ elim (Bool-cases (is_blank k)) [
            | inl b ↦
                let same : ok cs ≡ ok new = rw (t, b) at done in
                let kept : cs ≡ new = cc in rw (← kept) h
            | inr b ↦
                let (d, first, last) =
                  >>=-eq-ok
                    (apply_memory_node_change format_float (candidate_for crypto e s k cs) ch) _
                    (rw (t, b) at done) in
                let put : upsert (by candidate_key k) (λ _. d) d cs ≡ new = cc in
                let key : d.key ≡ k =
                  keeps_key e (candidate_for crypto e s k cs) d ch first ∙ candidate_for-key k cs in
                rw (← put) (put-distinct k d cs key h)
          ]
        ]

    find-put :
        (id k : String) (d : Candidate) (cs : List Candidate)
        → d.key ≡ k
        → is_some (find (by candidate_key id) (upsert (by candidate_key k) (λ _. d) d cs))
          ≡ (k == id) || is_some (find (by candidate_key id) cs)
    find-put id k d cs key = elim (Bool-cases (k == id)) [
      | inl own ↦
          let same : k ≡ id = (eq_iff k id).0 own in
          let test : (d.key == id) ≡ true = rw key own in
          let at = find-upsert_self (by candidate_key id) (λ _. d) d cs (λ r h. test) test in
          rw (same, eq_refl id, at) refl
      | inr other ↦ rw (other, find-put-other k id d cs key other) refl
    ]

    collect_change-there :
        (id : String) (ch : Change Float) (cs new : List Candidate)
        → is_blank id ≡ false
        → collect_change crypto e s ch cs ≡ ok new
        → is_some (find (by candidate_key id) new)
          ≡ concerns id ch || is_some (find (by candidate_key id) cs)
    unfolding collect_change
    collect_change-there id ch cs new named done =
        let k = decode_primary_key_text ch.pk_b64 in
        elim (Bool-cases (ch.table == "memory_nodes")) [
          | inr t ↦
              let same : ok cs ≡ ok new = rw t at done in
              let kept : new ≡ cs = cc in
              rw t (ap (λ x. is_some (find (by candidate_key id) x)) kept)
          | inl t ↦ elim (Bool-cases (is_blank k)) [
            | inl b ↦
                let same : ok cs ≡ ok new = rw (t, b) at done in
                let kept : new ≡ cs = cc in
                let apart : (k == id) ≡ false = other_id k id b named in
                rw (t, apart) (ap (λ x. is_some (find (by candidate_key id) x)) kept)
            | inr b ↦
                let (d, first, last) =
                  >>=-eq-ok
                    (apply_memory_node_change format_float (candidate_for crypto e s k cs) ch) _
                    (rw (t, b) at done) in
                let put : new ≡ upsert (by candidate_key k) (λ _. d) d cs = cc in
                let key : d.key ≡ k =
                  keeps_key e (candidate_for crypto e s k cs) d ch first ∙ candidate_for-key k cs in
                rw t (ap (λ x. is_some (find (by candidate_key id) x)) put ∙ find-put id k d cs key)
          ]
        ]

    pub collect-there :
        (id : String) (chs : List (Change Float)) (cs new : List Candidate)
        → is_blank id ≡ false
        → collect crypto e s chs cs ≡ ok new
        → is_some (find (by candidate_key id) new)
          ≡ any (concerns id) chs || is_some (find (by candidate_key id) cs)
    unfolding collect any
    collect-there id [] cs new named done =
        let same : new ≡ cs = cc in ap (λ x. is_some (find (by candidate_key id) x)) same
    collect-there id (ch ∷ chs) cs new named done =
        let (mid, first, rest) = >>=-eq-ok (collect_change crypto e s ch cs) _ done in
        let one = collect_change-there id ch cs mid named first in
        let others = collect-there id chs mid new named rest in ground (arith, one, others)

    -- What is collected has each memory once, as the changes of the batch patch it.
    pub collect-patched :
        (id : String) (chs : List (Change Float)) (cs new : List Candidate)
        → is_blank id ≡ false
        → collect crypto e s chs cs ≡ ok new
        → patched id chs (candidate_for crypto e s id cs) ≡ ok (candidate_for crypto e s id new)
    unfolding collect patched
    collect-patched id [] cs new named done =
        let same : cs ≡ new = cc in ap (λ x. ok (candidate_for crypto e s id x)) same
    collect-patched id (ch ∷ chs) cs new named done =
        let (mid, first, rest) = >>=-eq-ok (collect_change crypto e s ch cs) _ done in
        rw (collect_change-for id ch cs mid named first) (collect-patched id chs mid new named rest)

    pub collect-distinct :
        (chs : List (Change Float)) (cs new : List Candidate)
        → collect crypto e s chs cs ≡ ok new
        → all_distinct cs ≡ true
        → all_distinct new ≡ true
    unfolding collect
    collect-distinct [] cs new done h = let same : cs ≡ new = cc in rw (← same) h
    collect-distinct (ch ∷ chs) cs new done h =
        let (mid, first, rest) = >>=-eq-ok (collect_change crypto e s ch cs) _ done in
        collect-distinct chs mid new rest (collect_change-distinct ch cs mid first h)
