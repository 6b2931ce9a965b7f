-- ===== src/Ingest/Groups.antt =====
-- The groups of messages that buildChunks of internal/ingest/session_ingest.go makes chunks of.
use crdt_agent_memory.Prelude.{
  String, Bool, not, ◌&&◌, ◌||◌, ◌≡◌, ap, refl, true, false, List, [], ◌∷◌, ◌++◌, All,
}
use crdt_agent_memory.Ingest.{SessionMessage, Library}
use crdt_agent_memory.Ingest.Chunks.{Chunk, Group, is_user, number}

-- the messages of groups, one after the other
abbrev pub flatten : List Group → List SessionMessage
flatten [] = []
flatten (g ∷ gs) = g.first ∷ (g.rest ++ flatten gs)

-- A user's message can stand only first in a group, and only such a group has more than one message.
abbrev pub IsTurn : Group → Type 0
IsTurn g = All (λ m. is_user m ≡ false) g.rest × (is_user g.first ≡ false → g.rest ≡ [])

-- A group that a user's message opens ends only in front of another message of a user.
abbrev pub ends_well : Group → List Group → Bool
ends_well g [] = true
ends_well g (h ∷ hs) = not (is_user g.first) || is_user h.first

unfoldable pub all_end_well : List Group → Bool
all_end_well [] = true
all_end_well (g ∷ gs) = ends_well g gs && all_end_well gs

append-nil : (xs : List SessionMessage) → xs ++ [] ≡ xs
append-nil [] = refl
append-nil (x ∷ xs) = ap (λ zs. x ∷ zs) (append-nil xs)

-- a text that looks like a secret is in a chunk that is one
abbrev pub IsGuarded : Library → Chunk → Type 0
IsGuarded lib c = lib.has_secret c.text ≡ true → c.sensitivity ≡ "secret"

-- The chunks of `messages`: numbered from 1 on, they are the texts of groups that are turns, as long
-- as can be, and that together are the messages, each once and in their order.
pub record IsCut (lib : Library) (session_id sensitivity : String) (messages : List SessionMessage)
    (chunks : List Chunk) : Type 0 where
  pub parts : List Group
  pub numbered : chunks ≡ number lib session_id sensitivity 1 parts
  pub whole : flatten parts ≡ messages
  pub turns : All IsTurn parts
  pub maximal : all_end_well parts ≡ true
  pub guarded : All (IsGuarded lib) chunks
