-- ===== src/Sample.antt =====
-- Test data: an engine that keeps its changes in a list, a signature scheme that signs a text with
-- itself, and two peers with a batch between them.
use crdt_agent_memory.Prelude.{
  ℕ, ℤ, pos, String, Bool, Option, none, some, List, [], ◌∷◌, ◌++◌, map, ◌==◌, if◌then◌else◌,
}
use crdt_agent_memory.Policy.{PeerPolicy, PeerRegistryEntry}
use crdt_agent_memory.Signing.{JsonValue, Crypto}
use crdt_agent_memory.Sync.Types.{
  Metadata, HandshakeRequest, Value, Change, Batch, LogRow, PeerState, SqlValue, ChangeRow, merged,
  refused, Engine, Db, Env, Service,
}

-- the text of the first field
abbrev first_text : List (String × JsonValue) → String
first_text ((k, JsonValue.text t) ∷ fs) = t
first_text _ = ""

abbrev pub plain_crypto : Crypto
plain_crypto = record {
  json_object = first_text;
  private_key = λ seed. seed;
  public_key = λ seed. seed;
  sign = λ key msg. msg;
  verify = λ key msg signature. signature == msg;
}

abbrev stored_text : SqlValue ℤ → Option String
stored_text (SqlValue.text t) = some t
stored_text (SqlValue.blob t) = some t
stored_text _ = none

abbrev stored_row : ChangeRow (SqlValue ℤ) → ChangeRow (Option String)
stored_row r = record {
  table = r.table;
  pk = r.pk;
  cid = r.cid;
  val = stored_text r.val;
  col_version = r.col_version;
  db_version = r.db_version;
  site_id = r.site_id;
  cl = r.cl;
  seq = r.seq;
}

abbrev log_row : ChangeRow (SqlValue ℤ) → LogRow
log_row r = record {
  db_version = r.db_version;
  table_name = r.table;
  namespace = "team/dev";
  memory_id = r.pk;
}

-- a change of no table is refused
abbrev pub list_engine : Engine
list_engine = record {
  Float = ℤ;
  format_float = λ f. "0";
  Shared = List (ChangeRow (SqlValue ℤ));
  changes = λ s. map stored_row s;
  merge = λ r s. if r.table == "" then refused "no such table" else merged (s ++ r ∷ []);
  change_log = λ s. map log_row s;
  node = λ s m. none;
  second_writer = some "database is locked";
  queue_error = λ n. none;
}

abbrev pub local_meta : Metadata
local_meta = record {
  schema_hash = "s1";
  crr_manifest_hash = "m1";
  protocol_version = "2";
  min_compatible_protocol_version = "1";
}

abbrev pub local_service : Service
local_service = record { meta = local_meta; self_peer = "peer-b"; transport = "http-dev" }

abbrev pub noon : Env
noon = record { now = pos 1000; uuid = λ i. "id" }

abbrev pub text_value : String → Value ℤ
text_value t = record {
  is_null = Bool.false;
  integer = none;
  float = none;
  text = some t;
  blob_b64 = none;
}

abbrev pub node_change : String → Value ℤ → ℕ → Change ℤ
node_change cid val version = record {
  table = "memory_nodes";
  pk_b64 = "AQsFbWVtLTE=";
  cid = cid;
  val = val;
  col_version = pos 1;
  db_version = pos version;
  site_id_b64 = "AAAA";
  cl = pos 1;
  seq = pos 0;
}

-- a memory of peer-a with its signature
abbrev pub signed_changes : List (Change ℤ)
signed_changes =
    node_change "origin_peer_id" (text_value "peer-a") 7
    ∷ node_change "body" (text_value "hello") 7
    ∷ node_change "author_signature" (text_value "mem-1") 7
    ∷ []

abbrev pub batch_with : String → List (Change ℤ) → Batch ℤ
batch_with schema_hash changes = record {
  batch_id = "b1";
  from_peer_id = "peer-a";
  namespace = "team/dev";
  schema_hash = schema_hash;
  crr_manifest_hash = "m1";
  max_version = pos 7;
  changes = changes;
}

abbrev pub signed_batch : Batch ℤ
signed_batch = batch_with "s1" signed_changes

-- the same memory with another's signature
abbrev pub forged_batch : Batch ℤ
forged_batch = batch_with "s1" (
    node_change "origin_peer_id" (text_value "peer-a") 7
    ∷ node_change "author_signature" (text_value "mem-2") 7
    ∷ [])

-- a change that can be merged, and one whose value cannot be decoded
abbrev pub broken_batch : Batch ℤ
broken_batch = batch_with "s1" (
    node_change "body" (text_value "hello") 7
    ∷ record (node_change "subject" (text_value "x") 8) { site_id_b64 = "?" }
    ∷ [])

abbrev pub foreign_batch : Batch ℤ
foreign_batch = batch_with "s2" signed_changes

abbrev pub key_text : String
key_text = "0101010101010101010101010101010101010101010101010101010101010101"

abbrev pub policy_a : PeerPolicy
policy_a = record {
  peer_id = "peer-a";
  display_name = "A";
  trust_state = "allow";
  trust_weight = pos 1000;
  signing_public_key = key_text;
  discovery_profile = "";
  relay_profile = "";
  updated_at_ms = pos 0;
}

abbrev pub fenced_state : PeerState
fenced_state = record {
  peer_id = "peer-a";
  namespace = "team/dev";
  last_seen_at_ms = pos 1;
  last_transport = "http-dev";
  last_path_type = "direct";
  last_error = "schema hash mismatch";
  last_success_at_ms = pos 0;
  schema_fenced = Bool.true;
}

abbrev local_row : ChangeRow (SqlValue ℤ)
local_row = record {
  table = "memory_nodes";
  pk = "mem-0";
  cid = "body";
  val = SqlValue.text "local";
  col_version = pos 1;
  db_version = pos 3;
  site_id = "b";
  cl = pos 1;
  seq = pos 0;
}

-- a database with one local change, which knows peer-a
abbrev pub local_db : Db ℤ (List (ChangeRow (SqlValue ℤ)))
local_db = record {
  shared = local_row ∷ [];
  policies = policy_a ∷ [];
  cursors = [];
  peer_states = fenced_state ∷ [];
  quarantine = [];
  verification = [];
  index_queue = [];
}

abbrev pub hello_with : String → HandshakeRequest
hello_with schema_hash = record {
  protocol_version = "2";
  min_compatible_protocol_version = "1";
  peer_id = "peer-a";
  schema_hash = schema_hash;
  crr_manifest_hash = "m1";
  namespaces = "team/dev" ∷ [];
}

abbrev pub entry_a : PeerRegistryEntry
entry_a = record {
  peer_id = "peer-a";
  display_name = "A";
  signing_public_key = key_text;
  namespace_allowlist = "team/dev" ∷ "team/ops" ∷ [];
  discovery_profile = "";
  relay_profile = "";
  sync_url = "http://a";
}
