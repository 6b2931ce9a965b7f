-- ===== src/Scrubber/Diagnose.antt =====
-- Diagnose, loadPeerTrust, collectSignatureSummary, countAndSample and appendSample of
-- internal/scrubber/service.go.
pub mod Counts
use crdt_agent_memory.Prelude.{
  ℕ, ◌+◌, ℤ, leb, String, Bool, not, ◌||◌, ◌&&◌, Option, none, some, List, [], ◌∷◌, map, select,
  sort_by, length, take, Result, ok, err, ◌==◌, if◌then◌else◌,
}
use crdt_agent_memory.Text.{is_blank, lt_text}
use crdt_agent_memory.Table.{find, upsert, insert}
use crdt_agent_memory.Table.Keyed.{by}
use crdt_agent_memory.Policy.{PeerPolicy}
use crdt_agent_memory.Signing.{Crypto, ClaimPayload, verify_claim}
use crdt_agent_memory.Sync.Verification.{claim_of}
use crdt_agent_memory.Scrubber.Tables.{MemoryNode, MemoryEdge, MemorySignal, RepairDb, has_node}
use crdt_agent_memory.Scrubber.Repair.{is_orphan_edge, is_orphan_signal}

pub record PeerTrust : Type 0 where
  pub peer_id : String
  pub display_name : String
  pub trust_state : String
  pub trust_weight : ℤ
  pub has_signing_key : Bool

-- the counts of TrustSummary and the samples of ScrubberSummary that one pass over the memories fills
pub record SignatureSummary : Type 0 where
  pub valid_signatures : ℕ
  pub missing_signatures : ℕ
  pub invalid_signatures : ℕ
  pub unknown_peer_rows : ℕ
  pub missing_signature_ids : List String
  pub invalid_signature_ids : List String
  pub unknown_peer_ids : List String

pub record Diagnostics : Type 0 where
  pub peers : List PeerTrust
  pub signatures : SignatureSummary
  pub orphan_edges : ℕ
  pub orphan_edge_ids : List String
  pub orphan_signals : ℕ
  pub orphan_signal_ids : List String

-- an entry of the map from peers to keys
pub record PeerKey : Type 0 where
  pub peer_id : String
  pub key : String

abbrev pub key_peer : PeerKey → String
key_peer k = k.peer_id

-- scrubber.Service without its database
pub record Self : Type 0 where
  pub peer_id : String
  pub public_key_hex : String

-- sampleLimit
abbrev pub sample_limit : ℕ
sample_limit = 10

-- ORDER BY peer_id
abbrev pub by_peer_id : List PeerPolicy → List PeerPolicy
by_peer_id = sort_by (λ a b. lt_text a.peer_id b.peer_id)

unfoldable pub peer_trust : PeerPolicy → PeerTrust
peer_trust p = record {
  peer_id = p.peer_id;
  display_name = p.display_name;
  trust_state = p.trust_state;
  trust_weight = p.trust_weight;
  has_signing_key = not (is_blank p.signing_public_key);
}

unfoldable pub load_peer_trust : List PeerPolicy → List PeerTrust × List PeerKey
unfolding peer_trust
load_peer_trust t = (
  map peer_trust (by_peer_id t),
  map (λ p. record { peer_id = p.peer_id; key = p.signing_public_key })
      (select (λ p. not (is_blank p.signing_public_key)) (by_peer_id t)),
)

-- peerKeys[s.selfPeerID] = s.selfPublicKeyHex, where both are given
unfoldable pub with_self : Self → List PeerKey → List PeerKey
with_self self keys =
    if not (is_blank self.peer_id) && not (is_blank self.public_key_hex)
    then upsert (by key_peer self.peer_id) (λ k. record k { key = self.public_key_hex })
        (record { peer_id = self.peer_id; key = self.public_key_hex }) keys
    else keys

-- peerKeys[peer]; "" where there is none
unfoldable pub key_of : String → List PeerKey → String
key_of peer_id keys = elim (find (by key_peer peer_id) keys) [ none ↦ "" | some k ↦ k.key ]

unfoldable pub append_sample : List String → String → List String
append_sample dst id = if leb sample_limit (length dst) then dst else insert id dst

-- the count of a query's rows, and the first of them
unfoldable pub count_and_sample : List String → ℕ × List String
count_and_sample ids = (length ids, take sample_limit ids)

abbrev pub no_signatures : SignatureSummary
no_signatures = record {
  valid_signatures = 0;
  missing_signatures = 0;
  invalid_signatures = 0;
  unknown_peer_rows = 0;
  missing_signature_ids = [];
  invalid_signature_ids = [];
  unknown_peer_ids = [];
}

module _ (crypto : Crypto) where
  -- one round of collectSignatureSummary's loop
  unfoldable pub collect_row : List PeerKey → MemoryNode → SignatureSummary → SignatureSummary
  collect_row keys n s =
      let claim = claim_of n.memory_id (some n.row) in
      let key = key_of claim.origin_peer_id keys in
      if n.row.author_signature == ""
      then record s {
        missing_signatures = s.missing_signatures + 1;
        missing_signature_ids = append_sample s.missing_signature_ids claim.memory_id;
      }
      else if is_blank key
      then record s {
        unknown_peer_rows = s.unknown_peer_rows + 1;
        unknown_peer_ids = append_sample s.unknown_peer_ids claim.memory_id;
      }
      else elim (verify_claim crypto claim n.row.author_signature key) [
        | err _ ↦ record s {
          invalid_signatures = s.invalid_signatures + 1;
          invalid_signature_ids = append_sample s.invalid_signature_ids claim.memory_id;
        }
        | ok _ ↦ record s { valid_signatures = s.valid_signatures + 1 }
      ]

  unfoldable pub collect_signature_summary :
      List PeerKey → List MemoryNode → SignatureSummary → SignatureSummary
  collect_signature_summary keys [] s = s
  collect_signature_summary keys (n ∷ ns) s =
      collect_signature_summary keys ns (collect_row keys n s)

  unfoldable pub diagnose : {F : Type 0} → Self → RepairDb F → Diagnostics
  diagnose self db =
      let (peers, keys) = load_peer_trust db.policies in
      let edges =
        count_and_sample
          (sort_by lt_text (map (λ e. e.edge_id) (select (is_orphan_edge db.nodes) db.edges))) in
      let signals = count_and_sample (
        sort_by lt_text (map (λ s. s.signal_id) (select (is_orphan_signal db.nodes) db.signals))) in
      record {
        peers = peers;
        signatures =
            collect_signature_summary (with_self self keys)
              (sort_by (λ a b. lt_text a.memory_id b.memory_id) db.nodes) no_signatures;
        orphan_edges = edges.0;
        orphan_edge_ids = edges.1;
        orphan_signals = signals.0;
        orphan_signal_ids = signals.1;
      }
