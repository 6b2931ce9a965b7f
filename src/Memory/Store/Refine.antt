-- ===== src/Memory/Store/Refine.antt =====
-- The calls of the service as functions on the memories alone: what it promises, without signals,
-- artifacts, queues and transactions.
use mathlib.Core.Path.{fun_ext}
use mathlib.Core.Option as Opt
use crdt_agent_memory.Prelude.{
  String, ◌≡◌, ◌∙◌, sym, ap, refl, true, false, Bool, ◌&&◌, List, [], ◌∷◌, arith, inl, inr,
  Bool-cases, is_some, not, Option-cases, Error, refuse-passed, >>=-eq-ok, eq_iff, Result-cases,
  Result, ok, err, ◌>>=◌, ◌==◌, if◌then◌else◌,
}
use crdt_agent_memory.Sync.Types.{Env}
use crdt_agent_memory.Memory.Requests.{StoreRequest, SignalRequest, normalize_signal_request}
use crdt_agent_memory.Memory.Tables.{
  SignalRow, StoreDb, memory_key, memory_exists, tables, on_space,
}
use crdt_agent_memory.Memory.Store.{
  MemoryService, node_row, prepare_store, prepare_and_store, store_tx, store, with_id,
  set_superseded, supersede_tx, supersede, signal, mark_superseded, insert_signal, signal_row,
  signal_tx, commit,
}
use crdt_agent_memory.Memory.Store.View.{
  Memories, view, put, is_private, accepts, store_tx-accepts, store_tx-view,
}
use crdt_agent_memory.Memory.Store.Steps.{Call, run, commit-keeps}
use crdt_agent_memory.Table.{find}
use crdt_agent_memory.Table.Laws.{find-update, find-test}
use crdt_agent_memory.Table.Keyed.{by}

-- a request that is ready, put among the memories where it is acceptable
unfoldable pub add : Result (StoreRequest × String) → Memories → Memories
add (err e) f = f
add (ok (req, signature)) f =
    if accepts req f
    then put (is_private req.visibility) req.memory_id (node_row req signature) f
    else f

-- the shared memory of this identifier, superseded
unfoldable pub retire : String → Memories → Memories
retire old f true id = f true id
retire old f false id = if old == id then Opt.map set_superseded (f false id) else f false id

-- Supersede: nothing, or the new memory with the old one retired
unfoldable pub replace : Result (StoreRequest × String) → String → Memories → Memories
replace (err e) old f = f
replace (ok (req, signature)) old f =
    if is_some (f false old) && accepts req f
    then retire old (put (is_private req.visibility) req.memory_id (node_row req signature) f)
    else f

unfoldable pub replay : MemoryService → List Call → Memories → Memories
replay svc [] f = f
replay svc (Call.store_call env req ∷ calls) f =
    replay svc calls (add (prepare_store svc env req) f)
replay svc (Call.supersede_call env old req ∷ calls) f =
    replay svc calls (replace (prepare_store svc env (record req { visibility = "shared" })) old f)
replay svc (Call.signal_call env req ∷ calls) f = replay svc calls f

-- A transaction with storeTx in it: it goes through where the request is acceptable, and then ends in
-- the state that the rest of it makes.
stored :
    (svc : MemoryService) (env : Env) (req : StoreRequest) (signature : String) (db : StoreDb)
    (rest : StoreDb → StoreDb) (seen : Memories → Memories) (call : Result (String × StoreDb))
    → ((d : StoreDb) → view (rest d) ≡ seen (view d))
    → ((d : StoreDb)
        → store_tx svc env req signature db ≡ ok d
        → (id : String) × (call ≡ ok (id, rest d)))
    → ((x : Error) → store_tx svc env req signature db ≡ err x → call ≡ err x)
    → view (commit db call).1 ≡ (
        if accepts req (view db)
        then seen (put (is_private req.visibility) req.memory_id (node_row req signature) (view db))
        else view db)
unfolding commit
stored svc env req signature db rest seen call after goes stops =
    let asked = sym (store_tx-accepts svc env req signature db) in
    elim (Result-cases (store_tx svc env req signature db)) [
      | inl (d, e) ↦
          let (id, done) = goes d e in
          let accepted : accepts req (view db) ≡ true = rw e at asked in
          rw (done, accepted) (after d ∙ ap seen (store_tx-view svc env req signature db d e))
      | inr (x, e) ↦
          let rejected : accepts req (view db) ≡ false = rw e at asked in
          rw (stops x e, rejected) refl
    ]

store-add :
    (svc : MemoryService) (env : Env) (req : StoreRequest) (db : StoreDb)
    → view (store svc env req db).1 ≡ add (prepare_store svc env req) (view db)
unfolding store prepare_and_store add commit
store-add svc env req db = elim (Result-cases (prepare_store svc env req)) [
  | inl ((normal, signature), e) ↦
      let seen =
        stored svc env normal signature db (λ d. d) (λ f. f)
          (prepare_and_store svc env req db >>= with_id) (λ d. refl)
          (λ d f. (normal.memory_id, rw (e, f) refl)) (λ x f. rw (e, f) refl) in
      rw e (rw e at seen)
  | inr (x, e) ↦ rw e refl
]

-- the two statements behind storeTx in Supersede
marked-view :
    (env : Env) (req : StoreRequest) (old : String) (d : StoreDb)
    → view (record d { shared = mark_superseded env req old d.shared }) ≡ retire old (view d)
unfolding mark_superseded retire
marked-view env req old d = fun_ext λ c. fun_ext λ id. at c id
  where
    at :
        (c : Bool) (id : String)
        → view (record d { shared = mark_superseded env req old d.shared }) c id
          ≡ retire old (view d) c id
    at true id = refl
    at false id =
        let found =
          find-update (by memory_key old) (by memory_key id) set_superseded d.shared.nodes
            (λ r. refl) in
        elim (Option-cases (find (by memory_key id) d.shared.nodes)) [
          | inl e ↦
              rw (found, e)
                (elim (Bool-cases (old == id)) [ inl f ↦ rw f refl | inr f ↦ rw f refl ])
          | inr (r, e) ↦
              rw (found, e)
                (ground (
                  arith,
                  find-test (by memory_key id) d.shared.nodes r e,
                  eq_iff r.memory_id id,
                  eq_iff r.memory_id old,
                  eq_iff old id,
                ))
        ]

supersede-replace :
    (svc : MemoryService) (env : Env) (old : String) (req : StoreRequest) (db : StoreDb)
    → view (supersede svc env old req db).1
      ≡ replace (prepare_store svc env (record req { visibility = "shared" })) old (view db)
unfolding supersede supersede_tx replace commit
supersede-replace svc env old req db =
    elim (Result-cases (prepare_store svc env (record req { visibility = "shared" }))) [
      | inl ((normal, signature), e) ↦ elim (Bool-cases (memory_exists old db.shared.nodes)) [
        | inl f ↦
            let seen =
              stored svc env normal signature db
                (λ d. record d { shared = mark_superseded env normal old d.shared }) (retire old)
                (supersede_tx svc env old req db) (marked-view env normal old)
                (λ d g. (normal.memory_id, rw (e, f, g) refl)) (λ x g. rw (e, f, g) refl) in
            rw (e, f) (rw (e, f) at seen)
        | inr f ↦ rw (e, f) refl
      ]
      | inr (x, e) ↦ rw e refl
    ]

signalled-view :
    (space : String) (s : SignalRow) (db : StoreDb) (c : Bool) (id : String)
    → view (on_space space (insert_signal s) db) c id ≡ view db c id
signalled-view space s db true id = elim (Bool-cases (space == "private")) [
  | inl e ↦ rw e refl
  | inr e ↦ rw e refl
]
signalled-view space s db false id = elim (Bool-cases (space == "private")) [
  | inl e ↦ rw e refl
  | inr e ↦ rw e refl
]

signal_tx-view :
    (env : Env) (req : SignalRequest) (db : StoreDb) (id : String) (new : StoreDb)
    → signal_tx env req db ≡ ok (id, new)
    → view new ≡ view db
unfolding signal_tx
signal_tx-view env req db id new done =
    let (normal, first, next) = >>=-eq-ok (normalize_signal_request env req) _ done in
    let (found, rest) =
      refuse-passed (not (memory_exists normal.memory_id (tables normal.memory_space db).nodes)) _ _
        _ next in
    let same : on_space normal.memory_space (insert_signal (signal_row env normal)) db ≡ new = cc in
    rw (← same)
      (fun_ext λ c. fun_ext λ k. signalled-view normal.memory_space (signal_row env normal) db c k)

signal-view :
    (env : Env) (req : SignalRequest) (db : StoreDb) → view (signal env req db).1 ≡ view db
unfolding signal
signal-view env req db =
    commit-keeps (λ d. view d ≡ view db) db (signal_tx env req db) refl (signal_tx-view env req db)

-- Whatever calls of Store, Supersede and Signal are made, which memories there are afterwards, and
-- with which contents, is what the same calls make of the memories alone: a request that cannot be
-- prepared, an identifier that is taken or a relation to no other memory of the space changes
-- nothing; Store adds the one row of the request; Supersede adds it and marks the old shared memory
-- superseded, or does neither; Signal changes nothing.
pub run-replay :
    (svc : MemoryService) (calls : List Call) (db : StoreDb)
    → view (run svc calls db) ≡ replay svc calls (view db)
unfolding run replay
run-replay svc [] db = refl
run-replay svc (Call.store_call env req ∷ calls) db =
    run-replay svc calls (store svc env req db).1 ∙ ap (replay svc calls) (store-add svc env req db)
run-replay svc (Call.supersede_call env old req ∷ calls) db =
    run-replay svc calls (supersede svc env old req db).1
    ∙ ap (replay svc calls) (supersede-replace svc env old req db)
run-replay svc (Call.signal_call env req ∷ calls) db =
    run-replay svc calls (signal env req db).1 ∙ ap (replay svc calls) (signal-view env req db)
