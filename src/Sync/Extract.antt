-- ===== src/Sync/Extract.antt =====
-- Service.ExtractBatch of internal/memsync/service.go.
pub mod Window
pub mod Content
use crdt_agent_memory.Prelude.{
  ℤ, pos, String, Bool, not, ◌&&◌, ◌||◌, Option, none, some, List, [], ◌∷◌, map, is_zero, is_neg,
  pos_part, lt_int, eq_int, take, select, any, sort_by, ◌==◌, if◌then◌else◌,
}
use crdt_agent_memory.Encoding.Base64.{base64_encode}
use crdt_agent_memory.Table.{find}
use crdt_agent_memory.Table.Keyed.{by_pair}
use crdt_agent_memory.Text.{lt_text}
use crdt_agent_memory.Sync.Types.{
  TrackedPeer, LogRow, ChangeRow, Change, Batch, Engine, Db, Service, Env,
}
use crdt_agent_memory.Sync.Values.{encode_value}

abbrev pub cursor_peer : TrackedPeer → String
cursor_peer r = r.peer_id

abbrev pub cursor_namespace : TrackedPeer → String
cursor_namespace r = r.namespace

-- SELECT version FROM sync_cursors; 0 where there is no row
unfoldable pub cursor : String → String → List TrackedPeer → ℤ
cursor peer_id namespace t =
    elim (find (by_pair cursor_peer cursor_namespace peer_id namespace) t) [
      | none ↦ pos 0
      | some r ↦ r.version
    ]

-- one more value of a SELECT DISTINCT ... ORDER BY
unfoldable pub place_distinct : ℤ → List ℤ → List ℤ
place_distinct v [] = v ∷ []
place_distinct v (w ∷ ws) =
    let later = w ∷ place_distinct v ws in
    if eq_int v w then w ∷ ws else if lt_int v w then v ∷ w ∷ ws else later

-- SELECT DISTINCT db_version ... WHERE namespace = ? AND db_version > ? ORDER BY db_version
unfoldable pub versions_after : String → ℤ → List LogRow → List ℤ
unfolding place_distinct
versions_after namespace after [] = []
versions_after namespace after (r ∷ rs) =
    let rest = versions_after namespace after rs in
    if (r.namespace == namespace) && lt_int after r.db_version
    then place_distinct r.db_version rest
    else rest

-- limit <= 0 stands for 256
abbrev pub batch_limit : ℤ → ℤ
batch_limit limit = if is_neg limit || is_zero limit then pos 256 else limit

abbrev pub last_version : ℤ → List ℤ → ℤ
last_version v [] = v
last_version v (w ∷ ws) = last_version w ws

-- ORDER BY db_version, "table", seq
abbrev pub change_before : {V : Type 0} → ChangeRow V → ChangeRow V → Bool
change_before a b =
    if eq_int a.db_version b.db_version
    then (if a.table == b.table then lt_int a.seq b.seq else lt_text a.table b.table)
    else lt_int a.db_version b.db_version

unfoldable pub wire_change : {F : Type 0} → ChangeRow (Option String) → Change F
wire_change r = record {
  table = r.table;
  pk_b64 = base64_encode r.pk;
  cid = r.cid;
  val = encode_value r.val;
  col_version = r.col_version;
  db_version = r.db_version;
  site_id_b64 = base64_encode r.site_id;
  cl = r.cl;
  seq = r.seq;
}

module _ (engine : Engine) where
  open engine use {Float, Shared, changes, change_log}

  -- WHERE db_version IN (...), in order
  unfoldable pub changes_at : List ℤ → Shared → List (Change Float)
  unfolding wire_change
  changes_at versions s =
      map wire_change (
        sort_by change_before (select (λ r. any (λ v. eq_int v r.db_version) versions) (changes s)))

  unfoldable pub header : Service → Env → String → Batch Float
  header svc env namespace = record {
    batch_id = env.uuid 0;
    from_peer_id = svc.self_peer;
    namespace = namespace;
    schema_hash = svc.meta.schema_hash;
    crr_manifest_hash = svc.meta.crr_manifest_hash;
    max_version = pos 0;
    changes = [];
  }

  -- the batch of the versions that were selected
  batch_of : Service → Env → String → List ℤ → Shared → Batch Float
  unfolding header changes_at
  batch_of svc env namespace [] s = header svc env namespace
  batch_of svc env namespace (v ∷ vs) s = record (header svc env namespace) {
    max_version = last_version v vs;
    changes = changes_at (v ∷ vs) s;
  }

  -- the versions that a batch for the peer covers
  unfoldable pub batch_versions : String → String → ℤ → Db Float Shared → List ℤ
  unfolding cursor versions_after
  batch_versions peer_id namespace limit db =
      take (pos_part (batch_limit limit))
        (versions_after namespace (cursor peer_id namespace db.cursors) (change_log db.shared))

  unfoldable pub extract_batch : Service → Env → String → String → ℤ → Db Float Shared → Batch Float
  unfolding batch_of batch_versions
  extract_batch svc env peer_id namespace limit db =
      batch_of svc env namespace (batch_versions peer_id namespace limit db) db.shared
