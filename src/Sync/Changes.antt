-- ===== src/Sync/Changes.antt =====
-- The loop of ApplyBatch over the changes of a batch (internal/memsync/service.go).
pub mod RoundTrip
use crdt_agent_memory.Prelude.{
  String, Bool, true, false, ◌||◌, Option, none, some, List, [], ◌∷◌, Error, message, Result, ok,
  err,
}
use crdt_agent_memory.Text.{contains, to_lower}
use crdt_agent_memory.Encoding.Base64.{base64_decode}
use crdt_agent_memory.Sync.Types.{Change, ChangeRow, SqlValue, merged, refused, Engine}
use crdt_agent_memory.Sync.Values.{decode_value}

module _ {F : Type 0} where
  unfoldable decoded_value :
      Change F → String → String → Result (SqlValue F) → Result (ChangeRow (SqlValue F))
  decoded_value c pk site_id (err e) = err (message "invalid value encoding")
  decoded_value c pk site_id (ok v) = ok (record {
    table = c.table;
    pk = pk;
    cid = c.cid;
    val = v;
    col_version = c.col_version;
    db_version = c.db_version;
    site_id = site_id;
    cl = c.cl;
    seq = c.seq;
  })

  unfoldable decoded_site : Change F → String → Option String → Result (ChangeRow (SqlValue F))
  unfolding decoded_value
  decoded_site c pk none = err (message "invalid site_id encoding")
  decoded_site c pk (some site_id) = decoded_value c pk site_id (decode_value c.val)

  unfoldable decoded_pk : Change F → Option String → Result (ChangeRow (SqlValue F))
  unfolding decoded_site
  decoded_pk c none = err (message "invalid pk encoding")
  decoded_pk c (some pk) = decoded_site c pk (base64_decode c.site_id_b64)

  -- the row that a change of the batch stands for; the error is the reason for quarantine
  unfoldable pub decode_change : Change F → Result (ChangeRow (SqlValue F))
  unfolding decoded_pk
  decode_change c = decoded_pk c (base64_decode c.pk_b64)

-- How the loop over the changes ends: with the merged tables; at a change that cannot be decoded,
-- with the reason and whether the transaction had written; or with an error of the engine.
pub data Applied (S : Type 0) : Type 0 where
  applied : S → Applied S
  undecodable : Error → Bool → Applied S
  failed : String → Applied S

-- errors that stand for a change which is there already
abbrev pub is_duplicate : String → Bool
is_duplicate msg = contains (to_lower msg) "unique" || contains (to_lower msg) "constraint"

module _ (e : Engine) where
  open e use {Float, Shared, merge}

  unfoldable pub apply_changes : Bool → List (Change Float) → Shared → Applied Shared
  apply_changes wrote [] s = applied s
  apply_changes wrote (c ∷ cs) s = elim (decode_change c) [
    | err reason ↦ undecodable reason wrote
    | ok row ↦ elim (merge row s) [
      | merged s' ↦ apply_changes true cs s'
      | refused msg ↦ elim (is_duplicate msg) [
        | true ↦ apply_changes true cs s
        | false ↦ failed msg
      ]
    ]
  ]
