-- ===== src/Indexer/Secrets.antt =====
-- What the round of internal/indexer/worker.go over the retrieval units asks of the provider of
-- embeddings.
use mathlib.Core.Path.{subst}
use crdt_agent_memory.Prelude.{
  ℤ, String, ◌≡◌, ◌∙◌, sym, ap, refl, true, false, Bool, Option, some, none, List, [], ◌∷◌, inl,
  inr, Bool-cases, Result-cases, Error, Result, ok, err, ◌>>=◌, >>=-eq-ok, ◌==◌,
}
use crdt_agent_memory.Memory.Tables.{RetrievalUnit}
use crdt_agent_memory.Indexer.{
  Embedding, Backend, IndexDb, fetch_indexable_unit, settle, process_all, pending_retrieval_items,
  process_retrieval_item, process_retrieval_items, index_unit, finish_unit,
  upsert_retrieval_embedding, put_unit_vector, put_unit_embedding, drop_unit_vectors, drop_unit,
}

-- Two backends that answer alike, but for texts that are the body of no active unit that is open.
pub record AgreeOnOpen (b c : Backend) (units : List RetrievalUnit) : Type 0 where
  pub unit_vectors : b.unit_vectors ≡ c.unit_vectors
  pub vec_f32 : (s : String) → b.vec_f32 s ≡ c.vec_f32 s
  pub from_document :
      (db : IndexDb) (id : String) (u : RetrievalUnit)
      → db.store.units ≡ units
      → fetch_indexable_unit id db ≡ some u
      → (u.sensitivity == "secret") ≡ false
      → b.from_document u.body ≡ c.from_document u.body

abbrev units_of : IndexDb → List RetrievalUnit
units_of db = db.store.units

dropped-units :
    (enabled : Bool) (id : String) (db : IndexDb)
    → units_of (drop_unit_vectors enabled id db) ≡ units_of db
unfolding drop_unit_vectors
dropped-units true id db = refl
dropped-units false id db = refl

vector-units :
    (b : Backend) (enabled : Bool) (u : RetrievalUnit) (e : Embedding) (db new : IndexDb)
    → put_unit_vector b enabled u e db ≡ ok new
    → units_of new ≡ units_of db
unfolding put_unit_vector
vector-units b true u e db new done =
    let (v, first, last) = >>=-eq-ok (b.vec_f32 e.json) _ done in
    let same : ok (units_of db) ≡ ok (units_of new) = ap (λ r. r >>= λ d. ok (units_of d)) last in
    cc
vector-units b false u e db new done = let same : db ≡ new = cc in ap units_of (sym same)

index_unit-units :
    (b : Backend) (now : ℤ) (enabled : Bool) (id : String) (found : Option RetrievalUnit)
    (db new : IndexDb)
    → index_unit b now enabled id found db ≡ ok new
    → units_of new ≡ units_of db
unfolding index_unit drop_unit upsert_retrieval_embedding put_unit_embedding
index_unit-units b now enabled id none db new done =
    let same : drop_unit enabled id db ≡ new = cc in
    ap units_of (sym same) ∙ dropped-units enabled id _
index_unit-units b now enabled id (some u) db new done =
    elim (Bool-cases (u.sensitivity == "secret")) [
      | inl e ↦
          let left : ok db ≡ ok new = rw e at done in
          let same : db ≡ new = cc in ap units_of (sym same)
      | inr e ↦
          let sent : upsert_retrieval_embedding b now enabled u db ≡ ok new = rw e at done in
          let (x, first, last) = >>=-eq-ok (b.from_document u.body) _ sent in
          vector-units b enabled u x _ new last ∙ dropped-units enabled u.unit_id _
    ]

item-units :
    (b : Backend) (now : ℤ) (id : String) (db new : IndexDb)
    → process_retrieval_item b now id db ≡ ok new
    → units_of new ≡ units_of db
unfolding process_retrieval_item finish_unit
item-units b now id db new done =
    let (enabled, first, rest) = >>=-eq-ok b.unit_vectors _ done in
    let (d, second, last) =
      >>=-eq-ok (index_unit b now enabled id (fetch_indexable_unit id db) db) _ rest in
    let same : finish_unit now id d ≡ new = cc in
    ap units_of (sym same) ∙ index_unit-units b now enabled id _ db d second

vector-alike :
    (b c : Backend) (enabled : Bool) (u : RetrievalUnit) (e : Embedding) (db : IndexDb)
    → ((s : String) → b.vec_f32 s ≡ c.vec_f32 s)
    → put_unit_vector b enabled u e db ≡ put_unit_vector c enabled u e db
unfolding put_unit_vector
vector-alike b c true u e db same = rw (same e.json) refl
vector-alike b c false u e db same = refl

upsert-alike :
    (b c : Backend) (now : ℤ) (enabled : Bool) (u : RetrievalUnit) (db : IndexDb)
    → ((s : String) → b.vec_f32 s ≡ c.vec_f32 s)
    → b.from_document u.body ≡ c.from_document u.body
    → upsert_retrieval_embedding b now enabled u db ≡ upsert_retrieval_embedding c now enabled u db
unfolding upsert_retrieval_embedding
upsert-alike b c now enabled u db same sent = elim (Result-cases (c.from_document u.body)) [
  | inl (e, f) ↦ rw (sent, f) (vector-alike b c enabled u e _ same)
  | inr (x, f) ↦ rw (sent, f) refl
]

index_unit-alike :
    (b c : Backend) (now : ℤ) (enabled : Bool) (id : String) (found : Option RetrievalUnit)
    (db : IndexDb)
    → AgreeOnOpen b c (units_of db)
    → fetch_indexable_unit id db ≡ found
    → index_unit b now enabled id found db ≡ index_unit c now enabled id found db
unfolding index_unit
index_unit-alike b c now enabled id none db a f = refl
index_unit-alike b c now enabled id (some u) db a f =
    elim (Bool-cases (u.sensitivity == "secret")) [
      | inl e ↦ rw e refl
      | inr e ↦
          rw e (upsert-alike b c now enabled u db a.vec_f32 (a.from_document db id u refl f e))
    ]

bind-alike :
    {V W : Type 0} (r : Result V) (f g : V → Result W)
    → ((v : V) → f v ≡ g v)
    → (r >>= f) ≡ (r >>= g)
bind-alike (ok v) f g same = same v
bind-alike (err x) f g same = refl

-- the work on a unit, once it is known whether there are vectors
abbrev item_with : Backend → ℤ → String → IndexDb → Bool → Result IndexDb
item_with b now id db enabled =
    index_unit b now enabled id (fetch_indexable_unit id db) db >>= λ d. ok (finish_unit now id d)

item-alike :
    (b c : Backend) (now : ℤ) (id : String) (db : IndexDb)
    → AgreeOnOpen b c (units_of db)
    → process_retrieval_item b now id db ≡ process_retrieval_item c now id db
unfolding process_retrieval_item
item-alike b c now id db a =
    ap (λ r. r >>= item_with b now id db) a.unit_vectors
    ∙ bind-alike c.unit_vectors (item_with b now id db) (item_with c now id db) (λ enabled.
      ap (λ r. r >>= λ d. ok (finish_unit now id d))
        (index_unit-alike b c now enabled id (fetch_indexable_unit id db) db a refl))

items-alike :
    (b c : Backend) (now : ℤ) (ids : List String) (errs : List (String × Error)) (db : IndexDb)
    → AgreeOnOpen b c (units_of db)
    → process_all (process_retrieval_item b now) ids (errs, db)
      ≡ process_all (process_retrieval_item c now) ids (errs, db)
unfolding process_all settle
items-alike b c now [] errs db a = refl
items-alike b c now (id ∷ ids) errs db a =
    let same = item-alike b c now id db a in
    elim (Result-cases (process_retrieval_item c now id db)) [
      | inl (new, e) ↦
          let kept = item-units c now id db new e in
          rw (process_all, same, e)
            (items-alike b c now ids errs new (subst (AgreeOnOpen b c) (sym kept) a))
      | inr (x, e) ↦ rw (process_all, same, e) (items-alike b c now ids _ db a)
    ]

-- The embeddings of secrets do not matter to a round over the retrieval units: where two backends
-- answer alike, but for texts that are the body of no active unit outside the secret ones, the round
-- reports the same errors and leaves the same tables with either.
pub process_retrieval_items-alike :
    (b c : Backend) (now : ℤ) (db : IndexDb)
    → AgreeOnOpen b c db.store.units
    → process_retrieval_items b now db ≡ process_retrieval_items c now db
unfolding process_retrieval_items
process_retrieval_items-alike b c now db a =
    items-alike b c now (pending_retrieval_items 128 db) [] db a
