-- ===== src/Sync/Transport/Allowlist.antt =====
-- The namespaces that two peers share, and what a peer outside its allowlist is answered.
use crdt_agent_memory.Prelude.{
  String, ◌≡◌, refl, true, false, ◌&&◌, some, List, [], ◌∷◌, any, select, sort_by, arith, ◌∙◌,
  eq_refl, any-select, any-sort_by, ok, ◌==◌, eq_iff,
}
use crdt_agent_memory.Text.{lt_text, one_of}
use crdt_agent_memory.Signing.{Crypto}
use crdt_agent_memory.Sync.Types.{
  HandshakeRequest, PullRequest, ApplyRequest, Engine, Db, Service, Env,
}
use crdt_agent_memory.Sync.Transport.{
  intersect_namespaces, namespaces_allowed, in_set, all_in, forbidden, handle_handshake,
  handle_pull, handle_apply,
}

one_of-any : (n : String) (t : List String) → one_of n t ≡ any (λ m. n == m) t
unfolding one_of any
one_of-any n [] = refl
one_of-any n (m ∷ t) = ground (arith, one_of-any n t)

one_of-both :
    (n : String) (right left : List String)
    → any (λ m. one_of m right && (n == m)) left ≡ one_of n left && one_of n right
unfolding one_of any
one_of-both n right [] = refl
one_of-both n right (m ∷ left) = ground (arith, eq_iff n m, one_of-both n right left)

-- A namespace is among those that two lists share exactly if it is in both of them.
pub one_of-intersect_namespaces :
    (n : String) (left right : List String)
    → one_of n (intersect_namespaces left right) ≡ one_of n left && one_of n right
unfolding intersect_namespaces
one_of-intersect_namespaces n left right =
    one_of-any n (sort_by lt_text (select (λ m. one_of m right) left))
    ∙ any-sort_by lt_text (λ m. n == m) (select (λ m. one_of m right) left)
    ∙ any-select (λ m. n == m) (λ m. one_of m right) left
    ∙ one_of-both n right left

-- what is not allowed for any one namespace is not allowed for a list that has it
all_in-one_of :
    (n : String) (allowed ns : List String)
    → one_of n ns ≡ true
    → one_of n allowed ≡ false
    → all_in allowed ns ≡ false
unfolding all_in one_of
all_in-one_of n allowed [] h a = cc
all_in-one_of n allowed (m ∷ ns) h a = ground (arith, eq_iff n m, all_in-one_of n allowed ns)

refused_set :
    (n : String) (allowed ns : List String)
    → one_of n ns ≡ true
    → one_of n allowed ≡ false
    → in_set allowed ns ≡ false
unfolding in_set
refused_set n [] ns h a = refl
refused_set n (m ∷ allowed) ns h a = all_in-one_of n (m ∷ allowed) ns h a

module _ (crypto : Crypto) (e : Engine) (allow : String → List String) (svc : Service) (env : Env)
    (db : Db e.Float e.Shared) where
  -- Where the server has an allowlist, a handshake that asks for a namespace outside the allowlist
  -- of its peer, and a pull and an apply for one, are all answered "forbidden" without a look at
  -- the rest of the request, and leave the database as it was.
  pub handlers-forbid :
      (n : String) (h : HandshakeRequest) (p : PullRequest) (a : ApplyRequest e.Float)
      → one_of n h.namespaces ≡ true
      → one_of n (allow h.peer_id) ≡ false
      → one_of p.namespace (allow p.peer_id) ≡ false
      → one_of a.batch.namespace (allow a.from_peer_id) ≡ false
      → (handle_handshake crypto e (some allow) svc env (ok h) db ≡ (forbidden, db))
        × (handle_pull crypto e (some allow) svc env (ok p) db ≡ (forbidden, db))
        × (handle_apply crypto e (some allow) svc env (ok a) db ≡ (forbidden, db))
  unfolding handle_handshake handle_pull handle_apply namespaces_allowed one_of
  handlers-forbid n h p a asked out₁ out₂ out₃ = (
    rw (refused_set n (allow h.peer_id) h.namespaces asked out₁) refl,
    rw
        (refused_set p.namespace (allow p.peer_id) (p.namespace ∷ [])
          (rw (eq_refl p.namespace) refl) out₂)
        refl,
    rw
        (refused_set a.batch.namespace (allow a.from_peer_id) (a.batch.namespace ∷ [])
          (rw (eq_refl a.batch.namespace) refl) out₃)
        refl,
  )
