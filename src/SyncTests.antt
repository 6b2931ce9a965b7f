-- ===== src/SyncTests.antt =====
-- Batches on the sample data: applied, refused and extracted.
use crdt_agent_memory.Prelude.{
  any, true, false, ◌⊎◌, ℤ, pos, ◌≡◌, ◌≤ℤ◌, ◌<ℤ◌, Bool, true, false, ◌&&◌, Option, none, some, [],
  ◌∷◌, List, All, Error, message, error_text, engine, Result, ok, err, any, String, refl, arith,
  ◌==◌, ◌||◌, if◌then◌else◌, is_pos,
}
use crdt_agent_memory.Text.{one_of}
use crdt_agent_memory.Policy.{
  PeerPolicy, is_allowed, lookup_signing_public_key, allow_peer, sync_registry,
}
use crdt_agent_memory.Sample.{
  plain_crypto, list_engine, local_service, noon, signed_batch, forged_batch, foreign_batch,
  local_db,
}
use crdt_agent_memory.Sync.Types.{Db, SqlValue, ChangeRow, Batch}
use crdt_agent_memory.Sync.PeerStates.{fence}
use crdt_agent_memory.Sync.Extract.{cursor, batch_versions, wire_change, extract_batch}
use crdt_agent_memory.Sync.Extract.Window.{listed, logged, Ascending, extract_batch-no_gap}
use crdt_agent_memory.Sync.Extract.Content.{is_at, extract_batch-changes}
use crdt_agent_memory.Sync.Verification.{
  VerificationResult, Candidate, collect, evaluate_batch_verification,
}
use crdt_agent_memory.Sync.Changes.{applied, undecodable, apply_changes}
use crdt_agent_memory.Sync.Apply.{apply_batch, is_foreign}
use crdt_agent_memory.Sync.Apply.Effects.{IsUntouched, IsCommitted, apply_batch-error_lem}
use crdt_agent_memory.Table.{find}
use crdt_agent_memory.Table.Keyed.{by}
use crdt_agent_memory.Sync.Quarantine.{quarantine_key, quarantine_row}
use crdt_agent_memory.Sync.Apply.Verified.{IsSettled, status_in, apply_batch-verified}
use crdt_agent_memory.Sync.Verification.Patched.{concerns}
use crdt_agent_memory.Text.{is_blank, trim}
use crdt_agent_memory.Sync.Apply.Cursor.{cursor-apply_batch, fence-apply_batch, apply_batch-skips}
use crdt_agent_memory.Sync.Apply.Refusal.{foreign_batch_unfences}

abbrev Content : Type 0
Content = List (ChangeRow (SqlValue ℤ))

-- what ApplyBatch makes of a batch of peer-a
abbrev applied_to : Batch ℤ → Result (Unit {0}) × Db ℤ Content
applied_to batch = apply_batch plain_crypto list_engine local_service noon "peer-a" batch local_db

signed_batch_accepted : (applied_to signed_batch).0 ≡ ok tt
unfolding crdt_agent_memory.Sync.Apply.apply_batch crdt_agent_memory.Sync.Apply.verified_batch
    crdt_agent_memory.Sync.Apply.finish_batch crdt_agent_memory.Sync.Changes.apply_changes
    crdt_agent_memory.Sync.Changes.decode_change crdt_agent_memory.Sync.Quarantine.quarantine_batch
    crdt_agent_memory.Sync.PeerStates.mark_sync_error
    crdt_agent_memory.Sync.Verification.evaluate_batch_verification
    crdt_agent_memory.Sync.Verification.collect crdt_agent_memory.Sync.Verification.collect_change
    crdt_agent_memory.Sync.Verification.apply_memory_node_change
    crdt_agent_memory.Sync.Verification.evaluate_all
    crdt_agent_memory.Sync.Verification.candidate_for
    crdt_agent_memory.Sync.Verification.load_candidate crdt_agent_memory.Sync.Verification.evaluate
    crdt_agent_memory.Sync.Verification.claim_of
    crdt_agent_memory.Sync.Values.decode_primary_key_text
    crdt_agent_memory.Sync.Values.value_as_bytes crdt_agent_memory.Sync.Values.value_as_string
    crdt_agent_memory.Sync.Values.value_as_int64 crdt_agent_memory.Sync.Values.decode_value
    crdt_agent_memory.Encoding.Base64.base64_decode crdt_agent_memory.Encoding.Hex.hex_decode
    crdt_agent_memory.Encoding.Hex.hex_digit crdt_agent_memory.Signing.canonical_bytes
    crdt_agent_memory.Signing.canonical_fields crdt_agent_memory.Signing.parse_public_key_hex
    crdt_agent_memory.Signing.verify_claim crdt_agent_memory.Signing.with_version
    crdt_agent_memory.Table.upsert crdt_agent_memory.Table.find
    crdt_agent_memory.Policy.lookup_signing_public_key crdt_agent_memory.Text.trim
    crdt_agent_memory.Text.trim_left crdt_agent_memory.Text.trim_right crdt_agent_memory.Text.keep
    crdt_agent_memory.Text.is_space crdt_agent_memory.Text.to_lower crdt_agent_memory.Text.char_of
    crdt_agent_memory.Sync.Bookkeeping.enqueue_namespace crdt_agent_memory.Sync.Bookkeeping.enqueue
    crdt_agent_memory.Prelude.take crdt_agent_memory.Sync.Bookkeeping.logged_memories
    crdt_agent_memory.Sync.Bookkeeping.commit_batch crdt_agent_memory.Prelude.any
signed_batch_accepted = refl

named_memory : is_blank "mem-1" ≡ false
unfolding trim
named_memory = refl

apply_batch-verified_example :
    (signed_batch.schema_hash ≡ local_service.meta.schema_hash)
    × (signed_batch.crr_manifest_hash ≡ local_service.meta.crr_manifest_hash)
    × (((any (concerns "mem-1") signed_batch.changes ≡ true)
          × IsSettled plain_crypto list_engine local_db signed_batch "mem-1"
              (applied_to signed_batch).1.verification)
        ⊎ ((any (concerns "mem-1") signed_batch.changes ≡ false)
            × (status_in "mem-1" (applied_to signed_batch).1.verification
                ≡ status_in "mem-1" local_db.verification)))
apply_batch-verified_example =
    apply_batch-verified plain_crypto list_engine local_service noon "peer-a" signed_batch local_db
      "mem-1" signed_batch_accepted named_memory

cursor-apply_batch_example : cursor "peer-a" "team/dev" (applied_to signed_batch).1.cursors ≡ (
    if is_pos (pos 7) && (("peer-a" == "peer-a") && ("team/dev" == "team/dev"))
    then pos 7
    else cursor "peer-a" "team/dev" local_db.cursors)
cursor-apply_batch_example =
    cursor-apply_batch plain_crypto list_engine local_service noon "peer-a" signed_batch local_db
      "peer-a" "team/dev" signed_batch_accepted

fence-apply_batch_example : fence "peer-a" "team/dev" (applied_to signed_batch).1.peer_states ≡ (
    if ("peer-a" == "peer-a") && ("team/dev" == "team/dev")
    then some false
    else fence "peer-a" "team/dev" local_db.peer_states)
fence-apply_batch_example =
    fence-apply_batch plain_crypto list_engine local_service noon "peer-a" signed_batch local_db
      "peer-a" "team/dev" signed_batch_accepted

apply_batch-skips_example :
    Ascending
      (pos 7)
      (batch_versions list_engine "peer-a" "team/dev" (pos 10) (applied_to signed_batch).1)
apply_batch-skips_example =
    apply_batch-skips plain_crypto list_engine local_service noon "peer-a" signed_batch local_db
      (pos 10) signed_batch_accepted refl

abbrev forged_reason : Error
forged_reason = message "invalid signature for mem-1: signature verification failed"

forged_batch_refused : (applied_to forged_batch).0 ≡ err forged_reason
unfolding crdt_agent_memory.Sync.Apply.apply_batch crdt_agent_memory.Sync.Apply.verified_batch
    crdt_agent_memory.Sync.Apply.finish_batch crdt_agent_memory.Sync.Changes.apply_changes
    crdt_agent_memory.Sync.Changes.decode_change crdt_agent_memory.Sync.Quarantine.quarantine_batch
    crdt_agent_memory.Sync.PeerStates.mark_sync_error
    crdt_agent_memory.Sync.Verification.evaluate_batch_verification
    crdt_agent_memory.Sync.Verification.collect crdt_agent_memory.Sync.Verification.collect_change
    crdt_agent_memory.Sync.Verification.apply_memory_node_change
    crdt_agent_memory.Sync.Verification.evaluate_all
    crdt_agent_memory.Sync.Verification.candidate_for
    crdt_agent_memory.Sync.Verification.load_candidate crdt_agent_memory.Sync.Verification.evaluate
    crdt_agent_memory.Sync.Verification.claim_of
    crdt_agent_memory.Sync.Values.decode_primary_key_text
    crdt_agent_memory.Sync.Values.value_as_bytes crdt_agent_memory.Sync.Values.value_as_string
    crdt_agent_memory.Sync.Values.value_as_int64 crdt_agent_memory.Sync.Values.decode_value
    crdt_agent_memory.Encoding.Base64.base64_decode crdt_agent_memory.Encoding.Hex.hex_decode
    crdt_agent_memory.Encoding.Hex.hex_digit crdt_agent_memory.Signing.canonical_bytes
    crdt_agent_memory.Signing.canonical_fields crdt_agent_memory.Signing.parse_public_key_hex
    crdt_agent_memory.Signing.verify_claim crdt_agent_memory.Signing.with_version
    crdt_agent_memory.Table.upsert crdt_agent_memory.Table.find
    crdt_agent_memory.Policy.lookup_signing_public_key crdt_agent_memory.Text.trim
    crdt_agent_memory.Text.trim_left crdt_agent_memory.Text.trim_right crdt_agent_memory.Text.keep
    crdt_agent_memory.Text.is_space crdt_agent_memory.Text.to_lower crdt_agent_memory.Text.char_of
forged_batch_refused = refl

apply_batch-error_lem_example :
    IsUntouched local_db (applied_to forged_batch).1
    ⊎ IsCommitted plain_crypto list_engine local_service noon "peer-a" forged_batch local_db
        forged_reason
        (applied_to forged_batch).1
apply_batch-error_lem_example =
    apply_batch-error_lem plain_crypto list_engine local_service noon "peer-a" forged_batch local_db
      forged_reason forged_batch_refused

foreign_batch_unfences_example :
    ((applied_to foreign_batch).0 ≡ err (message "incompatible batch metadata"))
    × (find (by quarantine_key foreign_batch.batch_id) (applied_to foreign_batch).1.quarantine
        ≡ some (quarantine_row noon "peer-a" foreign_batch "incompatible batch metadata"))
    × (fence "peer-a" "team/dev" (applied_to foreign_batch).1.peer_states ≡ (
        if ("peer-a" == "peer-a") && ("team/dev" == "team/dev")
        then some false
        else fence "peer-a" "team/dev" local_db.peer_states))
unfolding crdt_agent_memory.Table.find
foreign_batch_unfences_example =
    foreign_batch_unfences plain_crypto list_engine local_service noon "peer-a" foreign_batch
      local_db "peer-a" "team/dev" refl refl

extract_batch-no_gap_example :
    listed (pos 3) (batch_versions list_engine "peer-a" "team/dev" (pos 10) local_db) ≡ true
unfolding crdt_agent_memory.Sync.Extract.cursor crdt_agent_memory.Sync.Extract.extract_batch
    crdt_agent_memory.Sync.Extract.batch_versions crdt_agent_memory.Sync.Extract.versions_after
    crdt_agent_memory.Sync.Extract.place_distinct crdt_agent_memory.Prelude.take
    crdt_agent_memory.Prelude.any crdt_agent_memory.Prelude.select crdt_agent_memory.Table.find
    crdt_agent_memory.Sync.Extract.Window.logged
extract_batch-no_gap_example =
    extract_batch-no_gap list_engine local_service noon "peer-a" "team/dev" (pos 10) local_db
      (pos 3) refl (omega arith) (omega arith)

extract_batch-changes_example :
    any
      (λ c. c.table == "memory_nodes")
      (extract_batch list_engine local_service noon "peer-a" "team/dev" (pos 10) local_db).changes
    ≡ any
        (λ r.
          is_at (batch_versions list_engine "peer-a" "team/dev" (pos 10) local_db) r
          && ((wire_change {F = ℤ} r).table == "memory_nodes"))
        (list_engine.changes local_db.shared)
extract_batch-changes_example =
    extract_batch-changes list_engine (λ c. c.table == "memory_nodes") local_service noon "peer-a"
      "team/dev" (pos 10) local_db
