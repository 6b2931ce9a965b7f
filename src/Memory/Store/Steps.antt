-- ===== src/Memory/Store/Steps.antt =====
-- Sequences of calls of Store, Supersede and Signal of internal/memory/service.go.
use mathlib.Core.Path.{subst}
use crdt_agent_memory.Prelude.{
  String, ◌≡◌, sym, ap, ◌∙◌, refl, List, [], ◌∷◌, true, false, Bool, not, inl, inr, Bool-cases,
  arith, Result, ok, err, ◌>>=◌, refuse-passed, >>=-eq-ok, ◌==◌, if◌then◌else◌,
}
use crdt_agent_memory.Sync.Types.{Env}
use crdt_agent_memory.Memory.Requests.{
  StoreRequest, SignalRequest, is_space, each, with_defaults, normalize_artifact_span_input,
  normalize_memory_relation_input, normalize_store_request, normalize_signal_request,
}
use crdt_agent_memory.Text.{is_blank}
use crdt_agent_memory.Table.{insert}
use crdt_agent_memory.Signing.{sign_claim}
use crdt_agent_memory.Memory.Tables.{Space, SignalRow, StoreDb, tables, on_space, memory_exists}
use crdt_agent_memory.Memory.Store.{
  MemoryService, claim_payload, node_row, commit, prepare_store, prepare_and_store, store_tx, store,
  with_id, supersede_tx, supersede, mark_superseded, signal_row, insert_signal, signal_tx, signal,
}
use crdt_agent_memory.Memory.Store.Sound.{
  IsSound, Has, Has-insert, Has-insert_self, insert_signal-IsSound, mark_superseded-IsSound,
  store_space_lem, store_tx-tables,
}

pub record IsSoundDb (db : StoreDb) : Type 0 where
  pub shared : IsSound db.shared
  pub private : IsSound db.private

-- A call keeps what its transaction keeps.
pub commit-keeps {ℓ} :
    (P : StoreDb → Type 0) {V : Type ℓ} (db : StoreDb) (call : Result (V × StoreDb))
    → P db
    → ((v : V) (new : StoreDb) → call ≡ ok (v, new) → P new)
    → P (commit db call).1
unfolding commit
commit-keeps P db (err e) old new = old
commit-keeps P db (ok (v, d)) old new = new v d refl

-- one space replaced by a sound one
replaced :
    (b : Bool) (db new : StoreDb) (u : Space)
    → new.shared ≡ (if b then db.shared else u)
    → new.private ≡ (if b then u else db.private)
    → (IsSound (if b then db.private else db.shared) → IsSound u)
    → IsSoundDb db
    → IsSoundDb new
replaced true db new u e₁ e₂ sound h = record {
  shared = rw e₁ h.shared;
  private = rw e₂ (sound h.private);
}
replaced false db new u e₁ e₂ sound h = record {
  shared = rw e₁ (sound h.shared);
  private = rw e₂ h.private;
}

pub store_tx-IsSoundDb :
    (svc : MemoryService) (env : Env) (req : StoreRequest) (signature : String) (db new : StoreDb)
    → store_tx svc env req signature db ≡ ok new
    → IsSoundDb db
    → IsSoundDb new
store_tx-IsSoundDb svc env req signature db new done =
    let (u, first, shared, private) = store_tx-tables svc env req signature db new done in
    let (fresh, nodes, sound) =
      store_space_lem env req signature (tables req.visibility db) u first in
    replaced (req.visibility == "private") db new u shared private sound

prepare_and_store-IsSoundDb :
    (svc : MemoryService) (env : Env) (req normal : StoreRequest) (db new : StoreDb)
    → prepare_and_store svc env req db ≡ ok (normal, new)
    → IsSoundDb db
    → IsSoundDb new
unfolding prepare_and_store
prepare_and_store-IsSoundDb svc env req normal db new done h =
    let (prepared, first, rest) = >>=-eq-ok (prepare_store svc env req) _ done in
    let (d, second, last) = >>=-eq-ok (store_tx svc env prepared.0 prepared.1 db) _ rest in
    let same : d ≡ new = cc in
    subst IsSoundDb same (store_tx-IsSoundDb svc env prepared.0 prepared.1 db d second h)

store-IsSoundDb :
    (svc : MemoryService) (env : Env) (req : StoreRequest) (db : StoreDb)
    → IsSoundDb db
    → IsSoundDb (store svc env req db).1
unfolding store
store-IsSoundDb svc env req db h =
    commit-keeps IsSoundDb db (prepare_and_store svc env req db >>= with_id) h λ id new done.
      let (stored, first, last) = >>=-eq-ok (prepare_and_store svc env req db) _ done in
      let same : stored.1 ≡ new = cc in
      subst IsSoundDb same (prepare_and_store-IsSoundDb svc env req stored.0 db stored.1 first h)

-- What normalisation and signing leave of a request: its defaults are filled in, its spans and
-- relations are checked.
pub prepare_store-made :
    (svc : MemoryService) (env : Env) (req normal : StoreRequest) (signature : String)
    → prepare_store svc env req ≡ ok (normal, signature)
    → record (with_defaults env req) {
      artifact_spans = normal.artifact_spans;
      relations = normal.relations;
    }
      ≡ normal
unfolding prepare_store normalize_store_request
prepare_store-made svc env req normal signature done =
    let (r, first, next) = >>=-eq-ok (normalize_store_request env req) _ done in
    let (signed, second, last) =
      >>=-eq-ok (sign_claim svc.crypto svc.signer (claim_payload r)) _ next in
    let (b₁, h₁) = refuse-passed (is_blank req.body) _ _ r first in
    let (b₂, h₂) = refuse-passed (not (is_space req.visibility)) _ _ r h₁ in
    let (b₃, h₃) = refuse-passed (is_blank req.namespace) _ _ r h₂ in
    let (spans, e₁, h₄) = >>=-eq-ok (each normalize_artifact_span_input req.artifact_spans) _ h₃ in
    let (rels, e₂, h₅) = >>=-eq-ok (each normalize_memory_relation_input req.relations) _ h₄ in
    let same : r ≡ normal = cc in
    let made : record (with_defaults env req) { artifact_spans = spans; relations = rels } ≡ r =
      cc in
    let whole = made ∙ same in
    ap
      (λ x. record (with_defaults env req) {
        artifact_spans = x.artifact_spans;
        relations = x.relations;
      })
      (sym whole)
    ∙ whole

pub prepare_store-visibility :
    (svc : MemoryService) (env : Env) (req normal : StoreRequest) (signature : String)
    → prepare_store svc env req ≡ ok (normal, signature)
    → normal.visibility ≡ req.visibility
unfolding with_defaults
prepare_store-visibility svc env req normal signature done =
    sym (ap (λ x. x.visibility) (prepare_store-made svc env req normal signature done))

-- A shared request adds its row to the shared nodes, where its identifier was free.
pub store_tx-shared :
    (svc : MemoryService) (env : Env) (req : StoreRequest) (signature : String) (db new : StoreDb)
    → req.visibility ≡ "shared"
    → store_tx svc env req signature db ≡ ok new
    → (memory_exists req.memory_id db.shared.nodes ≡ false)
      × (new.shared.nodes ≡ insert (node_row req signature) db.shared.nodes)
store_tx-shared svc env req signature db new is_shared done =
    let (u, first, shared, private) = store_tx-tables svc env req signature db new done in
    let (fresh, nodes, sound) =
      store_space_lem env req signature (tables req.visibility db) u first in
    let elsewhere : (req.visibility == "private") ≡ false = rw is_shared refl in
    (rw elsewhere at fresh, ap (λ t. t.nodes) (rw elsewhere at shared) ∙ (rw elsewhere at nodes))

-- What a Supersede that succeeds has done.
pub supersede_tx_lem :
    (svc : MemoryService) (env : Env) (old : String) (req : StoreRequest) (db new : StoreDb)
    (id : String)
    → supersede_tx svc env old req db ≡ ok (id, new)
    → (normal : StoreRequest) × (signature : String) × (d : StoreDb) × (prepare_store svc env
          (record req { visibility = "shared" })
        ≡ ok (normal, signature))
      × (memory_exists old db.shared.nodes ≡ true)
      × (store_tx svc env normal signature db ≡ ok d)
      × (record d { shared = mark_superseded env normal old d.shared } ≡ new)
unfolding supersede_tx
supersede_tx_lem svc env old req db new id done =
    let (prepared, first, next) =
      >>=-eq-ok (prepare_store svc env (record req { visibility = "shared" })) _ done in
    let (found, rest) = refuse-passed (not (memory_exists old db.shared.nodes)) _ _ _ next in
    let (d, second, last) = >>=-eq-ok (store_tx svc env prepared.0 prepared.1 db) _ rest in
    let same : record d { shared = mark_superseded env prepared.0 old d.shared } ≡ new = cc in
    (prepared.0, prepared.1, d, first, ground arith, second, same)

supersede-IsSoundDb :
    (svc : MemoryService) (env : Env) (old : String) (req : StoreRequest) (db : StoreDb)
    → IsSoundDb db
    → IsSoundDb (supersede svc env old req db).1
unfolding supersede node_row
supersede-IsSoundDb svc env old req db h =
    commit-keeps IsSoundDb db (supersede_tx svc env old req db) h λ id new done.
      let (normal, signature, d, prepared, found, stored, same) =
        supersede_tx_lem svc env old req db new id done in
      let is_shared =
        prepare_store-visibility svc env (record req { visibility = "shared" }) normal signature
          prepared in
      let (fresh, nodes) = store_tx-shared svc env normal signature db d is_shared stored in
      let sound = store_tx-IsSoundDb svc env normal signature db d stored h in
      subst IsSoundDb same (record {
        shared =
            mark_superseded-IsSound env normal old d.shared
              (rw nodes (Has-insert db.shared.nodes (node_row normal signature) old found))
              (rw nodes (Has-insert_self db.shared.nodes (node_row normal signature))) sound.shared;
        private = sound.private;
      })

-- one signal more, in one space
signalled :
    (space : String) (s : SignalRow) (db : StoreDb)
    → Has (tables space db).nodes s.memory_id
    → IsSoundDb db
    → IsSoundDb (on_space space (insert_signal s) db)
signalled space s db there h = elim (Bool-cases (space == "private")) [
  | inl e ↦
      let at : Has db.private.nodes s.memory_id = rw e at there in
      rw e (record { shared = h.shared; private = insert_signal-IsSound s db.private at h.private })
  | inr e ↦
      let at : Has db.shared.nodes s.memory_id = rw e at there in
      rw e (record { shared = insert_signal-IsSound s db.shared at h.shared; private = h.private })
]

signal-IsSoundDb :
    (env : Env) (req : SignalRequest) (db : StoreDb)
    → IsSoundDb db
    → IsSoundDb (signal env req db).1
unfolding signal signal_tx signal_row
signal-IsSoundDb env req db h = commit-keeps IsSoundDb db (signal_tx env req db) h λ id new done.
    let (normal, first, next) = >>=-eq-ok (normalize_signal_request env req) _ done in
    let (found, rest) =
      refuse-passed (not (memory_exists normal.memory_id (tables normal.memory_space db).nodes)) _ _
        _ next in
    let same : on_space normal.memory_space (insert_signal (signal_row env normal)) db ≡ new = cc in
    subst IsSoundDb same (signalled normal.memory_space (signal_row env normal) db (ground arith) h)

-- a call of the service
pub data Call : Type 0 where
  store_call : Env → StoreRequest → Call
  supersede_call : Env → String → StoreRequest → Call
  signal_call : Env → SignalRequest → Call

-- any number of calls, one after the other
unfoldable pub run : MemoryService → List Call → StoreDb → StoreDb
run svc [] db = db
run svc (Call.store_call env req ∷ calls) db = run svc calls (store svc env req db).1
run svc (Call.supersede_call env old req ∷ calls) db =
    run svc calls (supersede svc env old req db).1
run svc (Call.signal_call env req ∷ calls) db = run svc calls (signal env req db).1

-- Whatever calls of Store, Supersede and Signal are made, whether they succeed or fail: where every
-- signal, every edge (at both ends) and every artifact span of a memory space named a memory of that
-- space before, they all do after.
pub run-IsSoundDb :
    (svc : MemoryService) (calls : List Call) (db : StoreDb)
    → IsSoundDb db
    → IsSoundDb (run svc calls db)
unfolding run
run-IsSoundDb svc [] db h = h
run-IsSoundDb svc (Call.store_call env req ∷ calls) db h =
    run-IsSoundDb svc calls _ (store-IsSoundDb svc env req db h)
run-IsSoundDb svc (Call.supersede_call env old req ∷ calls) db h =
    run-IsSoundDb svc calls _ (supersede-IsSoundDb svc env old req db h)
run-IsSoundDb svc (Call.signal_call env req ∷ calls) db h =
    run-IsSoundDb svc calls _ (signal-IsSoundDb env req db h)
