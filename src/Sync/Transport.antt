-- ===== src/Sync/Transport.antt =====
-- internal/memsync/transport.go and the server of internal/memsync/http_transport.go. A set of
-- namespaces is the list of its keys. The HTTP framing and the JSON of bodies are left out: a
-- handler is given the decoded request, or the decoder's error, and answers with a `Reply`.
pub mod Allowlist
use crdt_agent_memory.Prelude.{
  ℤ, String, Bool, true, false, not, Option, none, some, List, [], ◌∷◌, select, sort_by, error_text,
  Result, ok, err, if◌then◌else◌,
}
use crdt_agent_memory.Text.{lt_text, one_of}
use crdt_agent_memory.Signing.{Crypto}
use crdt_agent_memory.Sync.Types.{
  Batch, HandshakeRequest, HandshakeResponse, PullRequest, ApplyRequest, Engine, Db, Service, Env,
}
use crdt_agent_memory.Sync.Handshake.{handshake}
use crdt_agent_memory.Sync.Extract.{extract_batch}
use crdt_agent_memory.Sync.Apply.{apply_batch}

-- the status of an HTTP answer, with the body of a success or the text of an error
pub data Reply (A : Type 0) : Type 0 where
  success : A → Reply A
  bad_request : String → Reply A
  forbidden : Reply A

unfoldable pub allowed_namespace_set : List String → List String
allowed_namespace_set namespaces = namespaces

unfoldable pub intersect_namespaces : List String → List String → List String
unfolding allowed_namespace_set
intersect_namespaces left right =
    sort_by lt_text (select (λ n. one_of n (allowed_namespace_set right)) left)

-- HTTPServer.AllowedNamespaces; nil is `none`
abbrev pub AllowedNamespaces : Type 0
AllowedNamespaces = Option (String → List String)

-- the loop of namespacesAllowed
unfoldable pub all_in : List String → List String → Bool
all_in allowed [] = true
all_in allowed (n ∷ ns) = if one_of n allowed then all_in allowed ns else false

-- whether any namespace is allowed, and then whether all these are
unfoldable pub in_set : List String → List String → Bool
unfolding all_in
in_set [] requested = false
in_set (a ∷ allowed) requested = all_in (a ∷ allowed) requested

unfoldable pub namespaces_allowed : AllowedNamespaces → String → List String → Bool
unfolding in_set
namespaces_allowed none peer_id requested = true
namespaces_allowed (some allowed) peer_id requested = in_set (allowed peer_id) requested

-- the answer to a result, and the database after it
abbrev pub answer : {A D : Type 0} → Result A × D → Reply A × D
answer (ok a, db) = (success a, db)
answer (err e, db) = (bad_request (error_text e), db)

module _ (crypto : Crypto) (e : Engine) (allowed : AllowedNamespaces) (svc : Service)
    (env : Env) where
  open e use {Float, Shared}

  unfoldable pub handle_handshake :
      Result HandshakeRequest → Db Float Shared → Reply HandshakeResponse × Db Float Shared
  handle_handshake (err x) db = (bad_request (error_text x), db)
  handle_handshake (ok req) db =
      if not (namespaces_allowed allowed req.peer_id req.namespaces)
      then (forbidden, db)
      else answer (handshake svc env req db)

  -- ExtractBatch fails only where the database does, which is not modelled, so that no answer is an
  -- internal error
  unfoldable pub handle_pull :
      Result PullRequest → Db Float Shared → Reply (Batch Float) × Db Float Shared
  handle_pull (err x) db = (bad_request (error_text x), db)
  handle_pull (ok req) db =
      if not (namespaces_allowed allowed req.peer_id (req.namespace ∷ []))
      then (forbidden, db)
      else (success (extract_batch e svc env req.peer_id req.namespace req.limit db), db)

  unfoldable pub handle_apply :
      Result (ApplyRequest Float) → Db Float Shared → Reply (Unit {0}) × Db Float Shared
  handle_apply (err x) db = (bad_request (error_text x), db)
  handle_apply (ok req) db =
      if not (namespaces_allowed allowed req.from_peer_id (req.batch.namespace ∷ []))
      then (forbidden, db)
      else answer (apply_batch crypto e svc env req.from_peer_id req.batch db)
