-- ===== src/Sync/Status/Fenced.antt =====
-- When a namespace is reported as fenced, degraded or healthy.
use mathlib.Core.List.{append_assoc, append-nil}
use crdt_agent_memory.Prelude.{
  String, ◌≡◌, refl, Bool, true, false, ◌&&◌, not, List, [], ◌∷◌, ◌++◌, any, inl, inr, Bool-cases,
  ◌==◌, if◌then◌else◌, ap, ◌∙◌, sym, any-select, any-sort_by, select,
}
use crdt_agent_memory.Text.{lt_text}
use crdt_agent_memory.Sync.PeerStates.{state_peer}
use crdt_agent_memory.Sync.Types.{SyncStatus, PeerState, Db}
use crdt_agent_memory.Sync.Status.{add_peer, add_peers, peers_of, sync_status}

abbrev pub is_fenced : PeerState → Bool
is_fenced r = r.schema_fenced

abbrev pub has_error : PeerState → Bool
has_error r = not (r.last_error == "")

-- the status that shows these peers, a fenced one and a failing one among them or not
abbrev pub shown : String → List PeerState → Bool → Bool → SyncStatus
shown n ps fenced failing = record {
  namespace = n;
  state = if fenced then "schema_fenced" else if failing then "degraded" else "healthy";
  schema_fenced = fenced;
  peers = ps;
}

-- a peer with an error that is not fenced
failing-shown :
    (n : String) (ps : List PeerState) (f d : Bool) (r : PeerState)
    → r.schema_fenced ≡ false
    → (r.last_error == "") ≡ false
    → add_peer (shown n ps f d) r
      ≡ shown n (ps ++ r ∷ []) (if is_fenced r then true else f) (if has_error r then true else d)
unfolding add_peer
failing-shown n ps true d r s h = simp (s, h) refl
failing-shown n ps false true r s h = simp (s, h) refl
failing-shown n ps false false r s h = simp (s, h) refl

add_peer-shown :
    (n : String) (ps : List PeerState) (f d : Bool) (r : PeerState)
    → add_peer (shown n ps f d) r
      ≡ shown n (ps ++ r ∷ []) (if is_fenced r then true else f) (if has_error r then true else d)
unfolding add_peer
add_peer-shown n ps f d r = elim (Bool-cases r.schema_fenced) [
  | inl s ↦ simp s refl
  | inr s ↦ elim (Bool-cases (r.last_error == "")) [
    | inl h ↦ simp (s, h) refl
    | inr h ↦ failing-shown n ps f d r s h
  ]
]

or_swap :
    (a b c : Bool)
    → (if b then true else if a then true else c) ≡ (if (if a then true else b) then true else c)
or_swap true true c = refl
or_swap true false c = refl
or_swap false b c = refl

or_false : (a : Bool) → (if a then true else false) ≡ a
or_false true = refl
or_false false = refl

shown_cong :
    (n : String) {ps ps' : List PeerState} {f f' d d' : Bool}
    → ps ≡ ps'
    → f ≡ f'
    → d ≡ d'
    → shown n ps f d ≡ shown n ps' f' d'
shown_cong n h i j = rw (h, i, j) refl

add_peers-shown :
    (n : String) (ps : List PeerState) (f d : Bool) (t : List PeerState)
    → add_peers (shown n ps f d) t
      ≡ shown n
          (ps ++ t)
          (if any is_fenced t then true else f)
          (if any has_error t then true else d)
unfolding add_peers any
add_peers-shown n ps f d [] = shown_cong n (sym (append-nil ps)) refl refl
add_peers-shown n ps f d (r ∷ t) =
    let rest =
      add_peers-shown n (ps ++ r ∷ []) (if is_fenced r then true else f)
        (if has_error r then true else d) t in
    ap (λ s. add_peers s t) (add_peer-shown n ps f d r)
    ∙ rest
    ∙ shown_cong n (append_assoc ps (r ∷ []) t) (or_swap (is_fenced r) (any is_fenced t) f)
        (or_swap (has_error r) (any has_error t) d)

-- the peers of a namespace that pass a test, whatever the order
any-peers_of :
    (n : String) (p : PeerState → Bool) (t : List PeerState)
    → any p (peers_of n t) ≡ any (λ r. (r.namespace == n) && p r) t
any-peers_of n p t =
    any-sort_by (λ a b. lt_text (state_peer a) (state_peer b)) p (select (λ r. r.namespace == n) t)
    ∙ any-select p (λ r. r.namespace == n) t

-- The status of a namespace lists the rows of its peers by peer, and reads "schema_fenced" where
-- one of them is fenced, "degraded" where none is fenced but one has an error, and else "healthy";
-- rows of other namespaces count for nothing.
pub sync_status_lem :
    {F S : Type 0} (n : String) (db : Db F S)
    → sync_status n db
      ≡ shown n
          (peers_of n db.peer_states)
          (any (λ r. (r.namespace == n) && is_fenced r) db.peer_states)
          (any (λ r. (r.namespace == n) && has_error r) db.peer_states)
unfolding sync_status
sync_status_lem n db =
    add_peers-shown n [] false false (peers_of n db.peer_states)
    ∙ shown_cong n refl
        (or_false (any is_fenced (peers_of n db.peer_states))
          ∙ any-peers_of n is_fenced db.peer_states)
        (or_false (any has_error (peers_of n db.peer_states))
          ∙ any-peers_of n has_error db.peer_states)
