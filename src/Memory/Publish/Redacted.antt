-- ===== src/Memory/Publish/Redacted.antt =====
-- What Publish of internal/memory/retrieval_units.go stores, and what it leaves.
use mathlib.Core.Path.{subst}
use crdt_agent_memory.Prelude.{
  none, is_ok, true, false, String, ◌≡◌, ◌∙◌, sym, ap, refl, some, Error, message, not_found, ◌⊎◌,
  ◌||◌, eq_iff, arith, Result-cases, inl, inr, Bool-cases, Option-cases, ok, err, >>=-eq-ok, ◌==◌,
  if◌then◌else◌,
}
use crdt_agent_memory.Text.{trim}
use crdt_agent_memory.Table.{find}
use crdt_agent_memory.Table.Keyed.{by}
use crdt_agent_memory.Sync.Types.{Env}
use crdt_agent_memory.Memory.Requests.{StoreRequest, with_defaults}
use crdt_agent_memory.Memory.Tables.{MemoryRow, StoreDb, memory_key}
use crdt_agent_memory.Memory.Store.{MemoryService, commit, node_row, prepare_store, store_tx}
use crdt_agent_memory.Memory.Store.Sound.{store_tx-tables}
use crdt_agent_memory.Memory.Store.View.{accepts, store_tx-accepts, view, put, store_tx-view}
use crdt_agent_memory.Memory.Store.Steps.{prepare_store-made}
use crdt_agent_memory.Memory.Publish.{
  Redaction, is_local_uri, redact_text, redact_source_uri, normalize_redaction_policy,
  published_request, load_private, record_publication, publish_tx, publish,
}

-- an empty source stays empty, whatever the tests on it say
redact_source_uri_lem :
    (policy s : String)
    → redact_source_uri policy s
      ≡ (if (policy == "strict") || is_local_uri (trim s) then "" else trim s)
unfolding redact_source_uri
redact_source_uri_lem policy s = let blank = (eq_iff (trim s) "").0 in ground (arith, blank)

-- The shared memory that stands for a private one.
pub record IsRedacted (r : Redaction) (policy : String) (row shared : MemoryRow) : Type 0 where
  pub subject : shared.subject ≡ redact_text r policy row.subject
  pub body : shared.body ≡ redact_text r policy row.body
  pub source_uri : shared.source_uri ≡ (
      if (policy == "strict") || is_local_uri (trim row.source_uri)
      then ""
      else trim row.source_uri)

-- What a call of Publish that succeeds has done to the memories.
pub record Published (r : Redaction) (private_id redaction_policy id : String) (db new : StoreDb)
    : Type 0 where
  pub policy : String
  pub row : MemoryRow
  pub shared : MemoryRow
  pub chosen : normalize_redaction_policy redaction_policy ≡ ok policy
  pub found : view db true (trim private_id) ≡ some row
  pub redacted : IsRedacted r policy row shared
  pub fresh : view db false id ≡ none
  pub private : new.private ≡ db.private
  pub others : (j : String) → view new false j ≡ (if id == j then some shared else view db false j)

stored_row-IsRedacted :
    (svc : MemoryService) (r : Redaction) (env : Env) (policy : String) (row : MemoryRow)
    (normal : StoreRequest) (signature : String)
    → prepare_store svc env (published_request r policy row) ≡ ok (normal, signature)
    → (normal.visibility ≡ "shared") × IsRedacted r policy row (node_row normal signature)
unfolding published_request with_defaults node_row
stored_row-IsRedacted svc r env policy row normal signature done =
    let made =
      sym (prepare_store-made svc env (published_request r policy row) normal signature done) in
    let uri = ap (λ x. x.source_uri) made in
    (
      ap (λ x. x.visibility) made,
      record {
        subject = ap (λ x. x.subject) made;
        body = ap (λ x. x.body) made;
        source_uri = uri ∙ redact_source_uri_lem policy row.source_uri;
      },
    )

load_private-find :
    (id : String) (db : StoreDb) (row : MemoryRow)
    → load_private id db ≡ ok row
    → view db true id ≡ some row
unfolding load_private
load_private-find id db row h = elim (Option-cases (find (by memory_key id) db.private.nodes)) [
  | inl e ↦ let gone : err not_found ≡ ok row = rw (load_private, e) at h in cc
  | inr (x, e) ↦
      let same : ok x ≡ ok row = rw (load_private, e) at h in
      let here : x ≡ row = cc in e ∙ ap some here
]

fresh_id :
    (svc : MemoryService) (env : Env) (normal : StoreRequest) (signature : String) (db d : StoreDb)
    → normal.visibility ≡ "shared"
    → store_tx svc env normal signature db ≡ ok d
    → view db false normal.memory_id ≡ none
unfolding accepts
fresh_id svc env normal signature db d is_shared done =
    let taken : accepts normal (view db) ≡ true =
      sym (store_tx-accepts svc env normal signature db) ∙ ap is_ok done in
    elim (Option-cases (view db false normal.memory_id)) [
      | inl free ↦ free
      | inr (row, there) ↦ let refused : false ≡ true = rw (is_shared, there) at taken in cc
    ]

-- the end of the transaction, with its parts named
stored-Published :
    (svc : MemoryService) (r : Redaction) (env : Env)
    (private_id redaction_policy policy signature : String) (row : MemoryRow)
    (normal : StoreRequest) (db d : StoreDb)
    → normalize_redaction_policy redaction_policy ≡ ok policy
    → view db true (trim private_id) ≡ some row
    → normal.visibility ≡ "shared"
    → IsRedacted r policy row (node_row normal signature)
    → store_tx svc env normal signature db ≡ ok d
    → Published r private_id redaction_policy normal.memory_id db
        (record_publication env (trim private_id) normal.memory_id d)
unfolding put record_publication
stored-Published svc r env private_id redaction_policy policy signature row normal db d chosen found
      is_shared redacted done =
    let (u, made, shared, private) = store_tx-tables svc env normal signature db d done in
    let seen = store_tx-view svc env normal signature db d done in
    let elsewhere : (normal.visibility == "private") ≡ false = rw is_shared refl in
    record {
      policy = policy;
      row = row;
      shared = node_row normal signature;
      chosen = chosen;
      found = found;
      redacted = redacted;
      fresh = fresh_id svc env normal signature db d is_shared done;
      private = rw elsewhere at private;
      others = λ j. rw elsewhere at (ap (λ f. f false j) seen);
    }

publish_tx-Published :
    (svc : MemoryService) (r : Redaction) (env : Env)
    (private_id redaction_policy policy id : String) (db new : StoreDb)
    → normalize_redaction_policy redaction_policy ≡ ok policy
    → publish_tx svc r env (trim private_id) policy db ≡ ok (id, new)
    → Published r private_id redaction_policy id db new
unfolding publish_tx
publish_tx-Published svc r env private_id redaction_policy policy id db new chosen done =
    let (row, first, next) = >>=-eq-ok (load_private (trim private_id) db) _ done in
    let (prepared, second, rest) =
      >>=-eq-ok (prepare_store svc env (published_request r policy row)) _ next in
    let (d, third, last) = >>=-eq-ok (store_tx svc env prepared.0 prepared.1 db) _ rest in
    let (is_shared, redacted) =
      stored_row-IsRedacted svc r env policy row prepared.0 prepared.1 second in
    let named : prepared.0.memory_id ≡ id = cc in
    let same : record_publication env (trim private_id) prepared.0.memory_id d ≡ new = cc in
    subst (λ k. Published r private_id redaction_policy k db new) named
      (subst (Published r private_id redaction_policy prepared.0.memory_id db) same (
        stored-Published svc r env private_id redaction_policy policy prepared.1 row prepared.0 db d
          chosen (load_private-find (trim private_id) db row first) is_shared redacted third))

-- A call of Publish either fails and changes nothing, or stores one shared memory under the
-- identifier that it returns, which named none before: the subject and the body of the private
-- memory, redacted under the policy asked for, and its trimmed source, or no source where the
-- policy is strict or the source is an absolute path or a file URI. The private memories and all
-- that belongs to them stay as they are, and so does every other shared memory.
pub publish_lem :
    (svc : MemoryService) (r : Redaction) (env : Env) (private_id redaction_policy : String)
    (db : StoreDb)
    → ((failure : Error) × (publish svc r env private_id redaction_policy db ≡ (err failure, db)))
      ⊎ ((id : String) × (new : StoreDb) × (publish svc r env private_id redaction_policy db
            ≡ (ok id, new))
          × Published r private_id redaction_policy id db new)
unfolding publish commit
publish_lem svc r env private_id redaction_policy db = elim (Bool-cases (trim private_id == "")) [
  | inl e ↦ inl (message "private_memory_id is required", rw e refl)
  | inr e ↦ elim (Result-cases (normalize_redaction_policy redaction_policy)) [
    | inr (x, f) ↦ inl (x, rw (e, f) refl)
    | inl (policy, f) ↦ elim (Result-cases (publish_tx svc r env (trim private_id) policy db)) [
      | inr (x, g) ↦ inl (x, rw (e, f, g) refl)
      | inl ((id, new), g) ↦ inr (
        id,
        new,
        rw (e, f, g) refl,
        publish_tx-Published svc r env private_id redaction_policy policy id db new f g,
      )
    ]
  ]
]
