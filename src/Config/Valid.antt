-- ===== src/Config/Valid.antt =====
-- What a configuration that loads can be relied on for.
use crdt_agent_memory.Prelude.{
  refuse-ok, ℤ, pos, String, ◌≡◌, refl, true, false, not, List, [], ◌∷◌, All, ok, >>=-eq-ok, arith,
  is_pos, Bool,
}
use crdt_agent_memory.Text.{trim, is_blank, to_lower}
use crdt_agent_memory.Policy.{PeerRegistryEntry}
use crdt_agent_memory.Signing.{parse_public_key_hex}
use crdt_agent_memory.Config.{
  Config, or_default, apply_defaults, is_tokenizer, is_provider, validate_peer, validate_peers,
  validate, load,
}

-- an entry that can be reached, and whose signatures can be verified
pub record IsReachable (p : PeerRegistryEntry) : Type 0 where
  pub peer_id : is_blank p.peer_id ≡ false
  pub sync_url : is_blank p.sync_url ≡ false
  pub key : (k : String) × (parse_public_key_hex p.signing_public_key ≡ ok k)

pub record IsValid (c : Config) : Type 0 where
  pub peer_id : is_blank c.peer_id ≡ false
  pub signing_key_path : is_blank c.signing_key_path ≡ false
  pub interval_ms : is_pos c.sync.interval_ms ≡ true
  pub batch_limit : is_pos c.sync.batch_limit ≡ true
  pub dimension : is_pos c.embedding.dimension ≡ true
  pub fts_tokenizer : is_tokenizer (to_lower (trim c.search.fts_tokenizer)) ≡ true
  pub provider : is_provider (to_lower (trim c.embedding.provider)) ≡ true
  pub peers : All IsReachable c.peer_registry

validate_peer-IsReachable : (p : PeerRegistryEntry) → validate_peer p ≡ ok tt → IsReachable p
unfolding validate_peer
validate_peer-IsReachable p h =
    let (a, h₁) = refuse-ok (is_blank p.peer_id) _ _ tt h in
    let (b, h₂) = refuse-ok (is_blank p.signing_public_key) _ _ tt h₁ in
    let (k, parsed, h₃) = >>=-eq-ok (parse_public_key_hex p.signing_public_key) _ h₂ in
    let (c, h₄) = refuse-ok (is_blank p.sync_url) _ _ tt h₃ in
    record { peer_id = a; sync_url = c; key = (k, parsed) }

validate_peers-IsReachable :
    (ps : List PeerRegistryEntry) → validate_peers ps ≡ ok tt → All IsReachable ps
unfolding validate_peers
validate_peers-IsReachable [] h = tt
validate_peers-IsReachable (p ∷ ps) h =
    let (t, one, rest) = >>=-eq-ok (validate_peer p) _ h in
    (validate_peer-IsReachable p one, validate_peers-IsReachable ps rest)

or_default-pos : (d n : ℤ) → is_pos d ≡ true → is_pos (or_default d n) ≡ true
unfolding or_default
or_default-pos d n h = ground arith

not-false : (b : Bool) → not b ≡ false → b ≡ true
not-false true h = refl
not-false false h = cc

validate-IsValid :
    (c : Config)
    → is_pos c.sync.interval_ms ≡ true
    → is_pos c.sync.batch_limit ≡ true
    → validate c ≡ ok tt
    → IsValid c
unfolding validate
validate-IsValid c i l h =
    let (a₁, h₁) = refuse-ok (is_blank c.peer_id) _ _ tt h in
    let (a₂, h₂) = refuse-ok (is_blank c.database_path) _ _ tt h₁ in
    let (a₃, h₃) = refuse-ok (is_blank c.signing_key_path) _ _ tt h₂ in
    let (a₄, h₄) = refuse-ok (is_blank c.api.listen_addr) _ _ tt h₃ in
    let (a₅, h₅) = refuse-ok (is_blank c.api.base_url) _ _ tt h₄ in
    let (a₆, h₆) = refuse-ok (is_blank c.sync.listen_addr) _ _ tt h₅ in
    let (a₇, h₇) = refuse-ok (is_blank c.sync.public_url) _ _ tt h₆ in
    let (a₈, h₈) =
      refuse-ok (not (is_tokenizer (to_lower (trim c.search.fts_tokenizer)))) _ _ tt h₇ in
    let (a₉, h₉) = refuse-ok (not (is_provider (to_lower (trim c.embedding.provider)))) _ _ tt h₈ in
    let (b₁, g₁) = refuse-ok (not (is_pos c.embedding.dimension)) _ _ tt h₉ in
    let (b₂, g₂) = refuse-ok _ _ _ tt g₁ in
    record {
      peer_id = a₁;
      signing_key_path = a₃;
      interval_ms = i;
      batch_limit = l;
      dimension = not-false _ b₁;
      fts_tokenizer = not-false _ a₈;
      provider = not-false _ a₉;
      peers = validate_peers-IsReachable c.peer_registry g₂;
    }

defaults-interval : (c : Config) → is_pos (apply_defaults c).sync.interval_ms ≡ true
unfolding apply_defaults
defaults-interval c = or_default-pos (pos 3000) c.sync.interval_ms refl

defaults-limit : (c : Config) → is_pos (apply_defaults c).sync.batch_limit ≡ true
unfolding apply_defaults
defaults-limit c = or_default-pos (pos 256) c.sync.batch_limit refl

-- A configuration that loads names the peer and its signing key file, has a positive interval, batch
-- limit and embedding dimension, a known tokenizer and embedding provider, and for each registered
-- peer a name, an address and a signing key that is 32 bytes of hexadecimal; it is what was read,
-- with the defaults.
pub load-IsValid : (c d : Config) → load c ≡ ok d → (d ≡ apply_defaults c) × IsValid d
unfolding load
load-IsValid c d h =
    let (t, v, e) = >>=-eq-ok (validate (apply_defaults c)) _ h in
    let same : d ≡ apply_defaults c = cc in
    (same, rw same (validate-IsValid (apply_defaults c) (defaults-interval c) (defaults-limit c) v))
