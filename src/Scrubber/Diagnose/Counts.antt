-- ===== src/Scrubber/Diagnose/Counts.antt =====
-- The counts and the samples of Diagnose of internal/scrubber/service.go.
use mathlib.Core.List.{append_assoc, append-nil}
use crdt_agent_memory.Prelude.{
  ℕ, zero, suc, ◌+◌, leb, String, ◌≡◌, ◌∙◌, sym, refl, true, false, Bool, not, ◌&&◌, some, List, [],
  ◌∷◌, ◌++◌, map, select, take, length, length-append, length-select-sort_by, sort_by, arith, inl,
  inr, Bool-cases, Result-cases, is_ok, ◌==◌, if◌then◌else◌,
}
use crdt_agent_memory.Text.{is_blank, lt_text}
use crdt_agent_memory.Signing.{Crypto, verify_claim}
use crdt_agent_memory.Sync.Verification.{claim_of}
use crdt_agent_memory.Scrubber.Tables.{MemoryNode, RepairDb}
use crdt_agent_memory.Scrubber.Diagnose.{
  SignatureSummary, PeerKey, Self, append_sample, sample_limit, key_of, no_signatures, collect_row,
  collect_signature_summary, diagnose, load_peer_trust, with_self,
}

-- a sample to which identifiers are added one by one
unfoldable samples : List String → List String → List String
samples acc [] = acc
samples acc (id ∷ ids) = samples (append_sample acc id) ids

-- A sample takes identifiers until it is full.
samples_lem :
    (n : ℕ) (acc ids : List String)
    → length acc + n ≡ sample_limit
    → samples acc ids ≡ acc ++ take n ids
unfolding samples take append_sample
samples_lem zero acc [] h = sym (append-nil acc)
samples_lem (suc n) acc [] h = sym (append-nil acc)
samples_lem zero acc (id ∷ ids) h =
    let full : leb sample_limit (length acc) ≡ true = ground (arith, h) in
    rw full (samples_lem zero acc ids h)
samples_lem (suc n) acc (id ∷ ids) h =
    let open_place : leb sample_limit (length acc) ≡ false = ground (arith, h) in
    rw open_place (
      samples_lem n (acc ++ id ∷ []) ids (omega (arith, h, length-append acc (id ∷ [])))
      ∙ append_assoc acc (id ∷ []) (take n ids))

-- one row counted, or not
count-step :
    {A : Type 0} (p : A → Bool) (x : A) (xs : List A) (a b : ℕ)
    → b ≡ (if p x then a + 1 else a)
    → b + length (select p xs) ≡ a + length (select p (x ∷ xs))
unfolding select
count-step p x xs a b h = elim (Bool-cases (p x)) [
  | inl e ↦ let one : b ≡ a + 1 = rw e at h in rw e (omega (arith, one))
  | inr e ↦ let none : b ≡ a = rw e at h in rw e (omega (arith, none))
]

sample-step :
    (p : MemoryNode → Bool) (x : MemoryNode) (xs : List MemoryNode) (acc new : List String)
    → new ≡ (if p x then append_sample acc x.memory_id else acc)
    → samples new (map (λ n. n.memory_id) (select p xs))
      ≡ samples acc (map (λ n. n.memory_id) (select p (x ∷ xs)))
unfolding select samples
sample-step p x xs acc new h = elim (Bool-cases (p x)) [
  | inl e ↦ let one : new ≡ append_sample acc x.memory_id = rw e at h in rw (e, one) refl
  | inr e ↦ let none : new ≡ acc = rw e at h in rw (e, none) refl
]

module _ (crypto : Crypto) (keys : List PeerKey) where
  abbrev pub origin_key : MemoryNode → String
  origin_key n = key_of n.row.origin_peer_id keys

  -- the claim of the row verifies under the key of its origin peer
  abbrev pub verifies : MemoryNode → Bool
  verifies n = is_ok (
      verify_claim crypto (claim_of n.memory_id (some n.row)) n.row.author_signature (origin_key n))

  abbrev pub is_unsigned : MemoryNode → Bool
  is_unsigned n = n.row.author_signature == ""

  abbrev pub is_unknown : MemoryNode → Bool
  is_unknown n = not (is_unsigned n) && is_blank (origin_key n)

  abbrev pub is_valid : MemoryNode → Bool
  is_valid n = not (is_unsigned n) && (not (is_blank (origin_key n)) && verifies n)

  abbrev pub is_invalid : MemoryNode → Bool
  is_invalid n = not (is_unsigned n) && (not (is_blank (origin_key n)) && not (verifies n))

  -- a summary `t` that has gone on from `s` over some rows
  record GoesOn (ns : List MemoryNode) (s t : SignatureSummary) : Type 0 where
    valid : t.valid_signatures ≡ s.valid_signatures + length (select is_valid ns)
    missing : t.missing_signatures ≡ s.missing_signatures + length (select is_unsigned ns)
    invalid : t.invalid_signatures ≡ s.invalid_signatures + length (select is_invalid ns)
    unknown : t.unknown_peer_rows ≡ s.unknown_peer_rows + length (select is_unknown ns)
    missing_ids :
        t.missing_signature_ids
        ≡ samples s.missing_signature_ids (map (λ n. n.memory_id) (select is_unsigned ns))
    invalid_ids :
        t.invalid_signature_ids
        ≡ samples s.invalid_signature_ids (map (λ n. n.memory_id) (select is_invalid ns))
    unknown_ids :
        t.unknown_peer_ids
        ≡ samples s.unknown_peer_ids (map (λ n. n.memory_id) (select is_unknown ns))

  -- a row goes to exactly one class
  collect_row_lem :
      (n : MemoryNode) (s : SignatureSummary)
      → ((collect_row crypto keys n s).valid_signatures
          ≡ (if is_valid n then s.valid_signatures + 1 else s.valid_signatures))
        × ((collect_row crypto keys n s).missing_signatures
            ≡ (if is_unsigned n then s.missing_signatures + 1 else s.missing_signatures))
        × ((collect_row crypto keys n s).invalid_signatures
            ≡ (if is_invalid n then s.invalid_signatures + 1 else s.invalid_signatures))
        × ((collect_row crypto keys n s).unknown_peer_rows
            ≡ (if is_unknown n then s.unknown_peer_rows + 1 else s.unknown_peer_rows))
        × ((collect_row crypto keys n s).missing_signature_ids ≡ (
            if is_unsigned n
            then append_sample s.missing_signature_ids n.memory_id
            else s.missing_signature_ids))
        × ((collect_row crypto keys n s).invalid_signature_ids ≡ (
            if is_invalid n
            then append_sample s.invalid_signature_ids n.memory_id
            else s.invalid_signature_ids))
        × ((collect_row crypto keys n s).unknown_peer_ids ≡ (
            if is_unknown n
            then append_sample s.unknown_peer_ids n.memory_id
            else s.unknown_peer_ids))
  unfolding collect_row claim_of
  collect_row_lem n s = elim (Bool-cases (n.row.author_signature == "")) [
    | inl e ↦ rw e (refl, refl, refl, refl, refl, refl, refl)
    | inr e ↦ elim (Bool-cases (is_blank (origin_key n))) [
      | inl b ↦ rw (e, b) (refl, refl, refl, refl, refl, refl, refl)
      | inr b ↦
          elim (Result-cases (
            verify_claim crypto (claim_of n.memory_id (some n.row)) n.row.author_signature
              (origin_key n))) [
                | inl (t, v) ↦ rw (e, b, v) (refl, refl, refl, refl, refl, refl, refl)
                | inr (x, v) ↦ rw (e, b, v) (refl, refl, refl, refl, refl, refl, refl)
              ]
    ]
  ]

  collect-GoesOn :
      (ns : List MemoryNode) (s : SignatureSummary)
      → GoesOn ns s (collect_signature_summary crypto keys ns s)
  unfolding collect_signature_summary samples select
  collect-GoesOn [] s = record {
    valid = omega arith;
    missing = omega arith;
    invalid = omega arith;
    unknown = omega arith;
    missing_ids = refl;
    invalid_ids = refl;
    unknown_ids = refl;
  }
  collect-GoesOn (n ∷ ns) s =
      let (v, m, i, u, ms, is, us) = collect_row_lem n s in
      let rest = collect-GoesOn ns (collect_row crypto keys n s) in
      record {
        valid = rest.valid ∙ count-step is_valid n ns _ _ v;
        missing = rest.missing ∙ count-step is_unsigned n ns _ _ m;
        invalid = rest.invalid ∙ count-step is_invalid n ns _ _ i;
        unknown = rest.unknown ∙ count-step is_unknown n ns _ _ u;
        missing_ids = rest.missing_ids ∙ sample-step is_unsigned n ns _ _ ms;
        invalid_ids = rest.invalid_ids ∙ sample-step is_invalid n ns _ _ is;
        unknown_ids = rest.unknown_ids ∙ sample-step is_unknown n ns _ _ us;
      }

  -- the first identifiers, in their order, of the rows that pass a test
  abbrev pub first_ids : (MemoryNode → Bool) → List MemoryNode → List String
  first_ids p ns =
      take sample_limit
        (map (λ n. n.memory_id) (select p (sort_by (λ a b. lt_text a.memory_id b.memory_id) ns)))

  -- each count is that of the rows of its class, and each sample the first of them
  pub record IsTally (ns : List MemoryNode) (s : SignatureSummary) : Type 0 where
    pub valid : s.valid_signatures ≡ length (select is_valid ns)
    pub missing : s.missing_signatures ≡ length (select is_unsigned ns)
    pub invalid : s.invalid_signatures ≡ length (select is_invalid ns)
    pub unknown : s.unknown_peer_rows ≡ length (select is_unknown ns)
    pub missing_ids : s.missing_signature_ids ≡ first_ids is_unsigned ns
    pub invalid_ids : s.invalid_signature_ids ≡ first_ids is_invalid ns
    pub unknown_ids : s.unknown_peer_ids ≡ first_ids is_unknown ns

  sorted-IsTally :
      (ns : List MemoryNode)
      → IsTally ns (
          collect_signature_summary crypto keys
            (sort_by (λ a b. lt_text a.memory_id b.memory_id) ns)
            no_signatures)
  sorted-IsTally ns =
      let before = λ (a b : MemoryNode). lt_text a.memory_id b.memory_id in
      let all = collect-GoesOn (sort_by before ns) no_signatures in
      record {
        valid = omega (arith, all.valid, length-select-sort_by before is_valid ns);
        missing = omega (arith, all.missing, length-select-sort_by before is_unsigned ns);
        invalid = omega (arith, all.invalid, length-select-sort_by before is_invalid ns);
        unknown = omega (arith, all.unknown, length-select-sort_by before is_unknown ns);
        missing_ids = all.missing_ids ∙ samples_lem sample_limit [] _ refl;
        invalid_ids = all.invalid_ids ∙ samples_lem sample_limit [] _ refl;
        unknown_ids = all.unknown_ids ∙ samples_lem sample_limit [] _ refl;
      }

-- A diagnosis counts the shared memories that carry no signature; of the others those whose origin
-- peer has no key; and of the rest those whose signature verifies under that key and those whose
-- signature does not. The samples of the three classes that are not valid are the first ten
-- identifiers of each, in the order of the identifiers.
pub diagnose-IsTally :
    (crypto : Crypto) {F : Type 0} (self : Self) (db : RepairDb F)
    → IsTally crypto
        (with_self self (load_peer_trust db.policies).1)
        db.nodes
        (diagnose crypto self db).signatures
unfolding diagnose
diagnose-IsTally crypto self db =
    sorted-IsTally crypto (with_self self (load_peer_trust db.policies).1) db.nodes
