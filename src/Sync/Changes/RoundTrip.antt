-- ===== src/Sync/Changes/RoundTrip.antt =====
-- A change that one peer extracts, read by the peer that applies it.
use crdt_agent_memory.Prelude.{String, ◌≡◌, refl, Option, ok}
use crdt_agent_memory.Encoding.Bytes.{IsBytes}
use crdt_agent_memory.Encoding.Base64.RoundTrip.{base64_decode-base64_encode}
use crdt_agent_memory.Sync.Types.{ChangeRow, SqlValue}
use crdt_agent_memory.Sync.Values.RoundTrip.{IsBytesValue, carried, decode_value-encode_value}
use crdt_agent_memory.Sync.Changes.{decode_change, decoded_pk, decoded_site, decoded_value}
use crdt_agent_memory.Sync.Extract.{wire_change}

-- the row with its value as the other database gets it
abbrev pub carried_row : {F : Type 0} → ChangeRow (Option String) → ChangeRow (SqlValue F)
carried_row r = record {
  table = r.table;
  pk = r.pk;
  cid = r.cid;
  val = carried r.val;
  col_version = r.col_version;
  db_version = r.db_version;
  site_id = r.site_id;
  cl = r.cl;
  seq = r.seq;
}

-- Every row of crsql_changes whose key, site and value are texts of bytes survives the wire: what
-- ApplyBatch decodes from the change that ExtractBatch sends is the row itself, its value null where
-- it was null, a text where its bytes are valid UTF-8, and a blob of the same bytes elsewhere.
pub decode_change-wire_change :
    {F : Type 0} (r : ChangeRow (Option String))
    → IsBytes r.pk
    → IsBytes r.site_id
    → IsBytesValue r.val
    → decode_change {F = F} (wire_change r) ≡ ok (carried_row r)
unfolding decode_change decoded_pk decoded_site decoded_value wire_change
decode_change-wire_change r pk site_id val =
    rw
      (
        base64_decode-base64_encode r.pk pk,
        base64_decode-base64_encode r.site_id site_id,
        decode_value-encode_value r.val val,
      )
      refl
