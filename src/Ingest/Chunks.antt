-- ===== src/Ingest/Chunks.antt =====
-- buildChunks, detectChunkKind, effectiveSensitivity and lineRange of
-- internal/ingest/session_ingest.go. The indices of a chunk's messages are the messages themselves.
use Prim.Native.String.{◌++◌}
use Prim.Native.Char.{code}
use crdt_agent_memory.Prelude.{
  ℕ, zero, suc, ◌+◌, ℤ, pos, lt_int, String, Bool, ◌||◌, List, [], ◌∷◌, map, sort_by, eqb, ltb,
  ◌==◌, if◌then◌else◌,
}
use crdt_agent_memory.Table.{insert}
use crdt_agent_memory.Text.{contains, to_lower}
use crdt_agent_memory.Encoding.Decimal.{format_int}
use crdt_agent_memory.Ingest.{SessionMessage, Library, by_seq}

pub record Chunk : Type 0 where
  pub chunk_id : String
  pub chunk_seq : ℕ
  pub chunk_kind : String
  pub start_seq : ℤ
  pub end_seq : ℤ
  pub text : String
  pub authored_at_ms : ℤ
  pub sensitivity : String

-- messages[start : end+1]: messages[start] and the rest
pub record Group : Type 0 where
  pub first : SessionMessage
  pub rest : List SessionMessage

abbrev pub is_user : SessionMessage → Bool
is_user m = m.role == "user"

-- the inner loop: a user's message takes what follows, up to the next message of a user
unfoldable pub user_group : SessionMessage → List SessionMessage → List SessionMessage → List Group
user_group first rest [] = record { first = first; rest = rest } ∷ []
user_group first rest (m ∷ ms) =
    let opened = record { first = first; rest = rest } ∷ user_group m [] ms in
    let longer = user_group first (insert m rest) ms in if is_user m then opened else longer

-- the outer loop
unfoldable pub groups : List SessionMessage → List Group
groups [] = []
groups (m ∷ ms) =
    let opened = user_group m [] ms in
    let alone = record { first = m; rest = [] } ∷ groups ms in if is_user m then opened else alone

abbrev pub last_of : SessionMessage → List SessionMessage → SessionMessage
last_of m [] = m
last_of m (n ∷ ns) = last_of n ns

-- the loop that raises authoredAtMS
unfoldable pub latest : ℤ → List SessionMessage → ℤ
latest t [] = t
latest t (m ∷ ms) = latest (if lt_int t m.authored_at_ms then m.authored_at_ms else t) ms

-- fmt.Sprintf("%s: %s", msg.Role, msg.Content)
abbrev pub line_of : SessionMessage → String
line_of m = m.role ++ ": " ++ m.content

-- strings.Join
unfoldable pub join : String → List String → String
join sep [] = ""
join sep (s ∷ []) = s
join sep (s ∷ (t ∷ ts)) = s ++ sep ++ join sep (t ∷ ts)

unfoldable pub group_text : Group → String
group_text g = join "\n" (map line_of (g.first ∷ g.rest))

unfoldable pub effective_sensitivity : Library → String → String → String
effective_sensitivity lib default_sensitivity text =
    if lib.has_secret text then "secret" else default_sensitivity

-- the bytes of the Japanese words for policy, adoption, rejection, reason and tradeoff
abbrev pub policy_word : String
policy_word = "æ\u{96}¹é\u{87}\u{9d}"

abbrev pub adoption_word : String
adoption_word = "æ\u{8e}¡ç\u{94}¨"

abbrev pub rejection_word : String
rejection_word = "å\u{8d}´ä¸\u{8b}"

abbrev pub reason_word : String
reason_word = "ç\u{90}\u{86}ç\u{94}±"

abbrev pub tradeoff_word : String
tradeoff_word = "ã\u{83}\u{88}ã\u{83}¬ã\u{83}¼ã\u{83}\u{89}ã\u{82}ªã\u{83}\u{95}"

unfoldable pub detect_chunk_kind : String → String
detect_chunk_kind text =
    let lower = to_lower text in
    if contains lower "decision"
      || contains lower policy_word
      || contains lower adoption_word
      || contains lower rejection_word
    then "decision"
    else if contains lower "reason"
        || contains lower reason_word
        || contains lower "tradeoff"
        || contains lower tradeoff_word
    then "rationale"
    else if contains lower "todo" || contains lower "next step" || contains lower "action item"
    then "task_candidate"
    else if contains lower "error" || contains lower "debug" || contains lower "stack trace"
    then "debug_trace"
    else "qa_pair"

-- fmt.Sprintf("%s:v%d:%d", sessionID, chunkStrategyVersion, chunkSeq)
unfoldable pub chunk_id_of : String → ℕ → String
chunk_id_of session_id n = session_id ++ ":v2:" ++ format_int (pos n)

unfoldable pub chunk_of : Library → String → String → ℕ → Group → Chunk
chunk_of lib session_id sensitivity n g =
    let text = group_text g in
    let end = last_of g.first g.rest in
    record {
      chunk_id = chunk_id_of session_id n;
      chunk_seq = n;
      chunk_kind = detect_chunk_kind text;
      start_seq = g.first.seq;
      end_seq = end.seq;
      text = text;
      authored_at_ms = latest end.authored_at_ms (g.first ∷ g.rest);
      sensitivity = effective_sensitivity lib sensitivity text;
    }

-- the chunks numbered from n on
unfoldable pub number : Library → String → String → ℕ → List Group → List Chunk
number lib session_id sensitivity n [] = []
number lib session_id sensitivity n (g ∷ gs) =
    chunk_of lib session_id sensitivity n g ∷ number lib session_id sensitivity (n + 1) gs

unfoldable pub build_chunks : Library → String → String → List SessionMessage → List Chunk
build_chunks lib session_id sensitivity messages =
    number lib session_id sensitivity 1 (groups (sort_by by_seq messages))

-- strings.Count(text[:n], "\n"), with text[:n] the whole where n is behind its end
unfoldable pub line_breaks : ℕ → String → ℕ
line_breaks zero s = 0
line_breaks (suc n) String.[] = 0
line_breaks (suc n) (String.◌∷◌ c s) =
    let rest = line_breaks n s in if eqb (code c) 10 then rest + 1 else rest

-- lineRange on indices that a regular expression gives, which are not negative
unfoldable pub line_range : String → ℕ → ℕ → ℕ × ℕ
line_range text start end =
    let stop = if ltb end start then start else end in
    (1 + line_breaks start text, 1 + line_breaks stop text)
