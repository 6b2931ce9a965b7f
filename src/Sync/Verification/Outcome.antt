-- ===== src/Sync/Verification/Outcome.antt =====
-- The results of evaluateBatchVerification of internal/memsync/service.go.
use crdt_agent_memory.Prelude.{
  ◌≡◌, true, false, List, [], ◌∷◌, ok, err, ◌==◌, inl, inr, Bool-cases, Result-cases, >>=-eq-ok,
  message, error_text,
}
use Prim.Native.String.{◌++◌}
use crdt_agent_memory.Text.{is_blank}
use crdt_agent_memory.Policy.{lookup_signing_public_key}
use crdt_agent_memory.Signing.{Crypto, verify_claim}
use crdt_agent_memory.Sync.Types.{Batch, Engine, Db}
use crdt_agent_memory.Sync.Verification.{
  VerificationResult, Candidate, collect, evaluate, evaluate_all, evaluate_batch_verification,
}

module _ (crypto : Crypto) (e : Engine) where
  open e use {Float, Shared}

  -- why a candidate's result is what it is
  pub data IsChecked (db : Db Float Shared) (c : Candidate) (r : VerificationResult) : Type 0 where
    -- it carries no signature
    unsigned :
        (c.signature == "") ≡ true
        → r ≡ record { memory_id = c.key; status = "missing_signature"; detail = "" }
        → IsChecked db c r
    -- its claim is signed with the key registered for its origin peer
    signed :
        is_blank (lookup_signing_public_key c.claim.origin_peer_id db.policies) ≡ false
        → verify_claim crypto c.claim c.signature
            (lookup_signing_public_key c.claim.origin_peer_id db.policies)
          ≡ ok tt
        → r ≡ record { memory_id = c.key; status = "valid"; detail = "" }
        → IsChecked db c r

  -- one result for each candidate, in order
  pub data AreChecked (db : Db Float Shared)
      : List Candidate → List VerificationResult → Type 0 where
    none_left : AreChecked db [] []
    one_more :
        {c : Candidate} {r : VerificationResult} {cs : List Candidate}
        {rs : List VerificationResult}
        → IsChecked db c r
        → AreChecked db cs rs
        → AreChecked db (c ∷ cs) (r ∷ rs)

  module _ (db : Db Float Shared) where
    pub evaluate_sound :
        (c : Candidate) (r : VerificationResult) → evaluate crypto e db c ≡ ok r → IsChecked db c r
    unfolding evaluate
    evaluate_sound c r h = elim (Bool-cases (c.signature == "")) [
      | inl m ↦ unsigned m (
          let got : ok (record { memory_id = c.key; status = "missing_signature"; detail = "" })
              ≡ ok r =
            rw m at h in
          cc)
      | inr m ↦
          elim (Bool-cases
            (is_blank (lookup_signing_public_key c.claim.origin_peer_id db.policies))) [
              | inl b ↦
                  let stop : err (message ("unknown peer signing key for " ++ c.claim.memory_id))
                      ≡ ok r =
                    rw (m, b) at h in
                  cc
              | inr b ↦
                  elim (Result-cases (
                    verify_claim crypto c.claim c.signature
                      (lookup_signing_public_key c.claim.origin_peer_id db.policies))) [
                        | inl (u, v) ↦ signed b v (
                            let got : ok
                                  (record { memory_id = c.key; status = "valid"; detail = "" })
                                ≡ ok r =
                              rw (m, b, v) at h in
                            cc)
                        | inr (x, v) ↦
                            let stop : err (
                                  message (
                                    "invalid signature for "
                                    ++ c.claim.memory_id
                                    ++ ": "
                                    ++ error_text x))
                                ≡ ok r =
                              rw (m, b, v) at h in
                            cc
                      ]
            ]
    ]

    evaluate_all_sound :
        (cs : List Candidate) (rs : List VerificationResult)
        → evaluate_all crypto e db cs ≡ ok rs
        → AreChecked db cs rs
    unfolding evaluate_all
    evaluate_all_sound [] rs h = let none : rs ≡ [] = cc in rw none none_left
    evaluate_all_sound (c ∷ cs) rs h =
        let (r, one, rest) = >>=-eq-ok (evaluate crypto e db c) _ h in
        let (rs', all, last) = >>=-eq-ok (evaluate_all crypto e db cs) _ rest in
        let split : rs ≡ r ∷ rs' = cc in
        rw split (one_more (evaluate_sound c r one) (evaluate_all_sound cs rs' all))

    -- Where the verification of a batch succeeds, it has gone through each memory that the batch
    -- names in a change of memory_nodes, in order: one result each, and each either unsigned or
    -- signed with the key registered for the origin peer of its claim.
    pub evaluate_batch_verification_sound :
        (batch : Batch Float) (rs : List VerificationResult)
        → evaluate_batch_verification crypto e db batch ≡ ok rs
        → (cs : List Candidate) × (collect crypto e db.shared batch.changes [] ≡ ok cs)
          × AreChecked db cs rs
    unfolding evaluate_batch_verification
    evaluate_batch_verification_sound batch rs h =
        let (cs, some_cs, all) = >>=-eq-ok (collect crypto e db.shared batch.changes []) _ h in
        (cs, some_cs, evaluate_all_sound cs rs all)
