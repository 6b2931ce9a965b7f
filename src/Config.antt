-- ===== src/Config.antt =====
-- internal/config/config.go. The file and its YAML are left out: `load` is given the decoded
-- configuration.
pub mod Valid
use crdt_agent_memory.Prelude.{
  ℤ, pos, String, Bool, not, ◌||◌, ◌&&◌, List, [], ◌∷◌, message, Result, ok, err, ◌>>=◌, ◌>>◌,
  refuse, is_pos, ◌==◌, if◌then◌else◌,
}
use crdt_agent_memory.Text.{trim, is_blank, to_lower}
use crdt_agent_memory.Policy.{PeerRegistryEntry}
use crdt_agent_memory.Signing.{parse_public_key_hex}

pub record Extensions : Type 0 where
  pub crsqlite_path : String
  pub sqlite_vec_path : String

pub record Transport : Type 0 where
  pub discovery_profile : String
  pub relay_profile : String

pub record Api : Type 0 where
  pub listen_addr : String
  pub base_url : String

pub record SyncOptions : Type 0 where
  pub listen_addr : String
  pub public_url : String
  pub interval_ms : ℤ
  pub batch_limit : ℤ
  pub once_timeout : ℤ

pub record Search : Type 0 where
  pub profile : String
  pub fts_tokenizer : String
  pub ranking_profile : String

pub record Embedding : Type 0 where
  pub provider : String
  pub model : String
  pub base_url : String
  pub dimension : ℤ
  pub timeout_ms : ℤ

pub record Config : Type 0 where
  pub peer_id : String
  pub database_path : String
  pub signing_key_path : String
  pub namespaces : List String
  pub extensions : Extensions
  pub transport : Transport
  pub api : Api
  pub sync : SyncOptions
  pub search : Search
  pub embedding : Embedding
  pub peer_registry : List PeerRegistryEntry

-- if n <= 0 { n = d }
unfoldable pub or_default : ℤ → ℤ → ℤ
or_default d n = if is_pos n then n else d

-- if strings.TrimSpace(s) == "" { s = d }
unfoldable pub or_text : String → String → String
or_text d s = if is_blank s then d else s

unfoldable pub apply_defaults : Config → Config
unfolding or_default or_text
apply_defaults c =
    let profile = or_text "default" c.search.profile in
    record c {
      sync = record c.sync {
        interval_ms = or_default (pos 3000) c.sync.interval_ms;
        batch_limit = or_default (pos 256) c.sync.batch_limit;
        once_timeout = or_default (pos 5000) c.sync.once_timeout;
      };
      search = record {
        profile = profile;
        fts_tokenizer = or_text "unicode61" c.search.fts_tokenizer;
        ranking_profile = or_text profile c.search.ranking_profile;
      };
      embedding = record c.embedding {
        provider = or_text "local" c.embedding.provider;
        dimension = or_default (pos 8) c.embedding.dimension;
        timeout_ms = or_default (pos 3000) c.embedding.timeout_ms;
      };
    }

abbrev pub is_tokenizer : String → Bool
is_tokenizer s = (s == "unicode61") || (s == "trigram")

abbrev pub is_provider : String → Bool
is_provider s = (s == "local") || (s == "openai") || (s == "ruri-http")

-- one round of the loop over the registry
unfoldable pub validate_peer : PeerRegistryEntry → Result (Unit {0})
validate_peer peer = do
  refuse (is_blank peer.peer_id) (message "peer_registry.peer_id is required")
  refuse (is_blank peer.signing_public_key) (message "peer_registry.signing_public_key is required")
  key ← parse_public_key_hex peer.signing_public_key
  refuse (is_blank peer.sync_url) (message "peer_registry.sync_url is required")
  ok tt

unfoldable pub validate_peers : List PeerRegistryEntry → Result (Unit {0})
validate_peers [] = ok tt
validate_peers (p ∷ ps) = do validate_peer p; validate_peers ps

unfoldable pub validate : Config → Result (Unit {0})
validate c = do
  refuse (is_blank c.peer_id) (message "peer_id is required")
  refuse (is_blank c.database_path) (message "database_path is required")
  refuse (is_blank c.signing_key_path) (message "signing_key_path is required")
  refuse (is_blank c.api.listen_addr) (message "api.listen_addr is required")
  refuse (is_blank c.api.base_url) (message "api.base_url is required")
  refuse (is_blank c.sync.listen_addr) (message "sync.listen_addr is required")
  refuse (is_blank c.sync.public_url) (message "sync.public_url is required")
  refuse (not (is_tokenizer (to_lower (trim c.search.fts_tokenizer))))
      (message "search.fts_tokenizer must be unicode61 or trigram")
  refuse (not (is_provider (to_lower (trim c.embedding.provider))))
      (message "embedding.provider must be local, openai, or ruri-http")
  refuse (not (is_pos c.embedding.dimension)) (message "embedding.dimension must be positive")
  refuse ((to_lower (trim c.embedding.provider) == "ruri-http") && is_blank c.embedding.base_url)
      (message "embedding.base_url is required when embedding.provider=ruri-http")
  validate_peers c.peer_registry

-- Load, once the file has been read and decoded
unfoldable pub load : Config → Result Config
load c = do validate (apply_defaults c); ok (apply_defaults c)
