-- ===== src/MemoryTests.antt =====
-- Runs of the memory's calls on small tables.
use crdt_agent_memory.Prelude.{
  ℤ, pos, String, ◌≡◌, refl, eq_refl, Option, none, some, List, [], ◌∷◌, ok, arith, Bool,
}
use crdt_agent_memory.Sample.{plain_crypto, noon}
use crdt_agent_memory.Encoding.Bytes.{IsBytes, all_bytes, all_bytes-IsBytes}
use crdt_agent_memory.Signing.{Signer, new_signer_from_seed}
use crdt_agent_memory.Sync.Types.{ChangeRow}
use crdt_agent_memory.Sync.Changes.{decode_change}
use crdt_agent_memory.Sync.Extract.{wire_change}
use crdt_agent_memory.Sync.Changes.RoundTrip.{carried_row, decode_change-wire_change}
use crdt_agent_memory.Memory.Requests.{StoreRequest, SignalRequest}
use crdt_agent_memory.Memory.Tables.{Space, StoreDb}
use crdt_agent_memory.Memory.Store.{MemoryService}
use crdt_agent_memory.Memory.Store.View.{view}
use crdt_agent_memory.Memory.Store.Steps.{IsSoundDb, Call, run, run-IsSoundDb}
use crdt_agent_memory.Memory.Store.Refine.{replay, run-replay}
use crdt_agent_memory.Memory.Store.Signed.{IsKeyPair, AllVerify, run-Verifies}

abbrev seed : String
seed = "0123456789abcdef0123456789abcdef"

abbrev pub own_signer : Signer
own_signer = record { private_key = seed; public_key = seed }

abbrev pub own_service : MemoryService
own_service = record { crypto = plain_crypto; sha256 = λ s. s; signer = some own_signer }

abbrev pub empty_space : Space
empty_space = record { nodes = []; signals = []; edges = []; refs = []; spans = [] }

abbrev pub empty_db : StoreDb
empty_db = record {
  shared = empty_space;
  private = empty_space;
  verification = [];
  units = [];
  unit_queue = [];
  index_queue = [];
  chunks = [];
  transcript_spans = [];
  promotions = [];
  publications = [];
}

abbrev remark : String → String → StoreRequest
remark memory_id body = record {
  memory_id = memory_id;
  visibility = "shared";
  namespace = "team/dev";
  memory_type = "";
  scope = "";
  subject = "s";
  body = body;
  source_uri = "";
  source_hash = "";
  author_agent_id = "";
  origin_peer_id = "";
  authored_at_ms = pos 5;
  artifact_spans = [];
  relations = [];
}

abbrev praise : SignalRequest
praise = record {
  memory_space = "shared";
  memory_id = "m1";
  signal_type = "confirm";
  value = pos 1000;
  reason = "";
  author_agent_id = "";
  origin_peer_id = "";
  authored_at_ms = pos 6;
}

-- a memory, a signal on it, and a memory in its place
abbrev three_calls : List Call
three_calls =
    Call.store_call noon (remark "m1" "old")
    ∷ Call.signal_call noon praise
    ∷ Call.supersede_call noon "m1" (remark "m2" "new")
    ∷ []

run-IsSoundDb_example : IsSoundDb (run own_service three_calls empty_db)
run-IsSoundDb_example = run-IsSoundDb own_service three_calls empty_db (record {
  shared = record { signals = tt; edges = tt; spans = tt };
  private = record { signals = tt; edges = tt; spans = tt };
})

run-replay_example :
    view (run own_service three_calls empty_db) ≡ replay own_service three_calls (view empty_db)
run-replay_example = run-replay own_service three_calls empty_db

seed-IsBytes : IsBytes seed
unfolding all_bytes
seed-IsBytes = all_bytes-IsBytes seed refl

own_pair : IsKeyPair plain_crypto seed
own_pair = record { size = refl; bytes = seed-IsBytes; verifies = λ msg. eq_refl msg }

own_signer_made : new_signer_from_seed plain_crypto seed ≡ ok own_signer
unfolding new_signer_from_seed
own_signer_made = refl

nothing_stored : AllVerify own_service (view empty_db)
unfolding crdt_agent_memory.Table.find
nothing_stored Bool.true id r h = let absent : none ≡ some r = h in cc
nothing_stored Bool.false id r h = let absent : none ≡ some r = h in cc

run-Verifies_example : AllVerify own_service (view (run own_service three_calls empty_db))
run-Verifies_example =
    run-Verifies own_service seed own_signer own_pair own_signer_made refl three_calls empty_db
      nothing_stored

abbrev logged_row : ChangeRow (Option String)
logged_row = record {
  table = "memory_nodes";
  pk = "m1";
  cid = "body";
  val = some "ab";
  col_version = pos 1;
  db_version = pos 3;
  site_id = "b";
  cl = pos 1;
  seq = pos 0;
}

decode_change-wire_change_example :
    decode_change {F = ℤ} (wire_change logged_row) ≡ ok (carried_row logged_row)
decode_change-wire_change_example =
    decode_change-wire_change logged_row (omega arith, (omega arith, tt)) (omega arith, tt)
      (omega arith, (omega arith, tt))
