-- ===== src/Sync/Cycle/Shared.antt =====
-- What a sync cycle asks of a peer.
use crdt_agent_memory.Prelude.{
  ℕ, ◌+◌, ◌*◌, ℤ, String, ◌≡◌, refl, true, List, [], ◌∷◌, All, All-map_imp, arith, eq_refl, Result,
  ok, err,
}
use crdt_agent_memory.Policy.{PeerRegistryEntry}
use crdt_agent_memory.Text.{one_of}
use crdt_agent_memory.Signing.{Crypto}
use crdt_agent_memory.Sync.Types.{
  Batch, Metadata, HandshakeResponse, PullRequest, ApplyRequest, Engine, Db, Service, Env,
}
use crdt_agent_memory.Sync.Extract.{extract_batch}
use crdt_agent_memory.Sync.Extract.Window.{extract_batch-namespace}
use crdt_agent_memory.Sync.Transport.{intersect_namespaces}
use crdt_agent_memory.Sync.Cycle.{
  TransportClient, go_on, hello, after_pull, after_apply, sync_namespace, sync_namespaces,
  after_handshake, with_namespaces, sync_peer,
}
use crdt_agent_memory.Sync.Cycle.Requests.{
  Sent, hello_sent, pull_sent, apply_sent, recording, IsWithin, IsShared, within-IsShared,
}

module _ (crypto : Crypto) (e : Engine) (W : Type 0) (svc : Service) (self : String) (limit : ℤ)
    (client : TransportClient e.Float W) (ns : List String) where
  open e use {Float, Shared}

  abbrev LogWithin : List (Sent Float) → Type 0
  LogWithin = All (IsWithin self ns)

  pulled_within :
      (env : Env) (p : String) (db : Db Float Shared) (r : Result (Batch Float)) (w : W)
      (log : List (Sent Float))
      → LogWithin log
      → LogWithin
          (after_pull crypto e (W × List (Sent Float)) svc self limit env p db (r, (w, log))).2.1
  unfolding after_pull
  pulled_within env p db (err x) w log a = a
  pulled_within env p db (ok b) w log a = a

  applied_within :
      (env : Env) (p n : String) (db : Db Float Shared) (r : Result (Unit {0})) (w : W)
      (log : List (Sent Float))
      → one_of n ns ≡ true
      → LogWithin log
      → LogWithin
          (after_apply crypto e
            (W × List (Sent Float))
            svc
            self
            limit
            (recording client)
            env
            p
            n
            db
            (r, (w, log))).2.1
  unfolding after_apply
  applied_within env p n db (err x) w log h a = a
  applied_within env p n db (ok t) w log h a =
      let req : PullRequest = record { peer_id = self; namespace = n; limit = limit } in
      pulled_within env p db (client.pull req w).0 (client.pull req w).1 (pull_sent req ∷ log)
        ((refl, h), a)

  step_within :
      (env₁ env₂ : Env) (p n : String) (db : Db Float Shared) (w : W) (log : List (Sent Float))
      → one_of n ns ≡ true
      → LogWithin log
      → LogWithin
          (sync_namespace crypto e
            (W × List (Sent Float))
            svc
            self
            limit
            (recording client)
            env₁
            env₂
            p
            n
            db
            (w, log)).2.1
  unfolding sync_namespace
  step_within env₁ env₂ p n db w log h a =
      let batch = extract_batch e svc env₁ p n limit db in
      let req : ApplyRequest Float = record { from_peer_id = self; batch = batch } in
      let here : one_of batch.namespace ns ≡ true =
        rw (extract_batch-namespace e svc env₁ p n limit db) h in
      applied_within env₂ p n db (client.apply req w).0 (client.apply req w).1
        (apply_sent req ∷ log) h ((refl, here), a)

  go_on_within :
      (r : Result (Unit {0}) × Db Float Shared × (W × List (Sent Float)))
      (rest : Db Float Shared
        → W × List (Sent Float)
        → Result (Unit {0}) × Db Float Shared × (W × List (Sent Float)))
      → LogWithin r.2.1
      → ((db : Db Float Shared) (w : W) (log : List (Sent Float))
          → LogWithin log
          → LogWithin (rest db (w, log)).2.1)
      → LogWithin (go_on crypto e (W × List (Sent Float)) svc self limit r rest).2.1
  unfolding go_on
  go_on_within (err x, db, w) rest a k = a
  go_on_within (ok t, db, w) rest a k = k db w.0 w.1 a

  loop_within :
      (calls : ℕ → Env) (i : ℕ) (p : String) (ms : List String) (db : Db Float Shared) (w : W)
      (log : List (Sent Float))
      → All (λ n. one_of n ns ≡ true) ms
      → LogWithin log
      → LogWithin
          (sync_namespaces crypto e
            (W × List (Sent Float))
            svc
            self
            limit
            (recording client)
            calls
            i
            p
            ms
            db
            (w, log)).2.1
  unfolding sync_namespaces
  loop_within calls i p [] db w log h a = a
  loop_within calls i p (n ∷ ms) db w log h a =
      go_on_within
        (sync_namespace crypto e (W × List (Sent Float)) svc self limit (recording client)
          (calls (2 * i)) (calls (2 * i + 1)) p n db (w, log))
        (λ db' w'.
          sync_namespaces crypto e (W × List (Sent Float)) svc self limit (recording client) calls
            (i + 1) p ms db' w')
        (step_within (calls (2 * i)) (calls (2 * i + 1)) p n db w log h.0 a)
        (λ db' w' log' a'. loop_within calls (i + 1) p ms db' w' log' h.1 a')

  answered_within :
      (calls : ℕ → Env) (p : String) (ms : List String) (db : Db Float Shared)
      (r : Result HandshakeResponse) (w : W) (log : List (Sent Float))
      → All (λ n. one_of n ns ≡ true) ms
      → LogWithin log
      → LogWithin
          (after_handshake crypto e
            (W × List (Sent Float))
            svc
            self
            limit
            (recording client)
            calls
            p
            ms
            db
            (r, (w, log))).2.1
  unfolding after_handshake
  answered_within calls p ms db (err x) w log h a = a
  answered_within calls p ms db (ok r) w log h a = loop_within calls 0 p ms db w log h a

  namespaces_within :
      (calls : ℕ → Env) (meta : Metadata) (p : String) (ms : List String) (db : Db Float Shared)
      (w : W) (log : List (Sent Float))
      → All (λ n. one_of n ns ≡ true) ms
      → LogWithin log
      → LogWithin
          (with_namespaces crypto e
            (W × List (Sent Float))
            svc
            self
            limit
            (recording client)
            calls
            meta
            p
            ms
            db
            (w, log)).2.1
  unfolding with_namespaces hello
  namespaces_within calls meta p [] db w log h a = a
  namespaces_within calls meta p (m ∷ ms) db w log h a =
      let req = hello meta self (m ∷ ms) in
      answered_within calls p (m ∷ ms) db (client.handshake req w).0 (client.handshake req w).1
        (hello_sent req ∷ log) h ((refl, h), a)

one_of_self : (ns : List String) → All (λ n. one_of n ns ≡ true) ns
unfolding one_of
one_of_self [] = tt
one_of_self (n ∷ ns) = (
  rw (eq_refl n) refl,
  All-map_imp (λ m. one_of m ns ≡ true) (λ m. one_of m (n ∷ ns) ≡ true) ns (λ m h. ground arith)
      (one_of_self ns),
)

-- Whatever the peer answers, a sync cycle sends it requests in the local peer's own name only, and
-- only about namespaces that are both among the local ones and in the peer's allowlist.
pub sync_peer-within :
    (crypto : Crypto) (e : Engine) (W : Type 0) (svc : Service) (self : String) (limit : ℤ)
    (client : TransportClient e.Float W) (calls : ℕ → Env) (meta : Metadata)
    (peer : PeerRegistryEntry) (local_namespaces : List String) (db : Db e.Float e.Shared) (w : W)
    → All
        (IsShared self local_namespaces peer.namespace_allowlist)
        (sync_peer crypto e
          (W × List (Sent e.Float))
          svc
          self
          limit
          (recording client)
          calls
          meta
          peer
          local_namespaces
          db
          (w, [])).2.1
unfolding sync_peer
sync_peer-within crypto e W svc self limit client calls meta peer local_namespaces db w =
    let ns = intersect_namespaces local_namespaces peer.namespace_allowlist in
    All-map_imp (IsWithin self ns) (IsShared self local_namespaces peer.namespace_allowlist) _
      (within-IsShared self local_namespaces peer.namespace_allowlist)
      (namespaces_within crypto e W svc self limit client ns calls meta peer.peer_id ns db w []
        (one_of_self ns) tt)
