-- ===== src/Memory/Requests/Normal.antt =====
-- normalizeStoreRequest of internal/memory/service.go, applied again to its own result.
use crdt_agent_memory.Prelude.{
  ℤ, pos, is_zero, is_neg, is_pos, lt_int, ◌&&◌, ◌||◌, String, ◌≡◌, refl, sym, ap, ◌∙◌, false, not,
  List, [], ◌∷◌, Result, ok, >>=-eq-ok, refuse-ok, arith, ◌==◌,
}
use crdt_agent_memory.Text.{trim, is_blank}
use crdt_agent_memory.Text.Laws.{trim_idem}
use crdt_agent_memory.Sync.Types.{Env}
use crdt_agent_memory.Memory.Requests.{
  ArtifactSpanInput, MemoryRelationInput, StoreRequest, trim_span, check_span,
  normalize_artifact_span_input, is_allowed_store_relation_type, trim_relation, check_relation,
  normalize_memory_relation_input, each, with_defaults, normalize_store_request, or_else, or_number,
  is_space,
}

trim_span_idem : (s : ArtifactSpanInput) → trim_span (trim_span s) ≡ trim_span s
unfolding trim_span
trim_span_idem s =
    rw
      (
        trim_idem s.artifact_id,
        trim_idem s.uri,
        trim_idem s.content_hash,
        trim_idem s.title,
        trim_idem s.mime_type,
        trim_idem s.quote_hash,
      )
      refl

check_span-same : (s t : ArtifactSpanInput) → check_span s ≡ ok t → t ≡ s
unfolding check_span
check_span-same s t h =
    let (a, h₁) = refuse-ok ((s.artifact_id == "") && (s.uri == "")) _ _ t h in
    let (b, h₂) =
      refuse-ok
        (is_neg s.start_offset || is_neg s.end_offset || is_neg s.start_line || is_neg s.end_line) _
        _ t h₁ in
    let (c, h₃) = refuse-ok (is_pos s.end_offset && lt_int s.end_offset s.start_offset) _ _ t h₂ in
    let (d, h₄) = refuse-ok (is_pos s.end_line && lt_int s.end_line s.start_line) _ _ t h₃ in cc

normalize_span_idem :
    (s t : ArtifactSpanInput)
    → normalize_artifact_span_input s ≡ ok t
    → normalize_artifact_span_input t ≡ ok t
unfolding normalize_artifact_span_input
normalize_span_idem s t h =
    let same = check_span-same (trim_span s) t h in
    let still : trim_span t ≡ t = ap trim_span same ∙ trim_span_idem s ∙ sym same in
    rw (still, same) (rw same at h)

or_number_idem :
    (n d : ℤ) → is_zero d ≡ false → (d' : ℤ) → or_number (or_number n d) d' ≡ or_number n d
or_number_idem n d h d' = ground arith

or_else_idem : (s d d' : String) → (d == "") ≡ false → or_else (or_else s d) d' ≡ or_else s d
or_else_idem s d d' h = ground arith

trim_relation_idem : (r : MemoryRelationInput) → trim_relation (trim_relation r) ≡ trim_relation r
unfolding trim_relation
trim_relation_idem r = rw (trim_idem r.relation_type, trim_idem r.to_memory_id) refl

normalize_relation_idem :
    (r t : MemoryRelationInput)
    → normalize_memory_relation_input r ≡ ok t
    → normalize_memory_relation_input t ≡ ok t
unfolding normalize_memory_relation_input check_relation trim_relation
normalize_relation_idem r t h =
    let (a, h₁) = refuse-ok (trim r.relation_type == "") _ _ t h in
    let (b, h₂) =
      refuse-ok (not (is_allowed_store_relation_type (trim r.relation_type))) _ _ t h₁ in
    let (c, h₃) = refuse-ok (trim r.to_memory_id == "") _ _ t h₂ in
    let (d, h₄) = refuse-ok (is_neg r.weight) _ _ t h₃ in
    let same : t ≡ record (trim_relation r) { weight = or_number r.weight (pos 1000) } = cc in
    let e : is_neg (or_number r.weight (pos 1000)) ≡ false = ground arith in
    let f = or_number_idem r.weight (pos 1000) refl (pos 1000) in
    rw same (rw (trim_idem r.relation_type, trim_idem r.to_memory_id, a, b, c, e, f) refl)

each_idem :
    {A : Type 0} (f : A → Result A)
    → ((x y : A) → f x ≡ ok y → f y ≡ ok y)
    → (xs ys : List A) → each f xs ≡ ok ys
    → each f ys ≡ ok ys
unfolding each
each_idem f g [] ys h = let none : ys ≡ [] = cc in rw none refl
each_idem f g (x ∷ xs) ys h =
    let (y, one, rest) = >>=-eq-ok (f x) _ h in
    let (ys', all, last) = >>=-eq-ok (each f xs) _ rest in
    let split : ys ≡ y ∷ ys' = cc in rw split (rw (g x y one, each_idem f g xs ys' all) refl)

-- A store request that has been normalised, with a clock that does not read 0 and an identifier that
-- is not empty, is accepted again as it is, whatever the clock and the identifiers are then.
pub normalize_store_request_idem :
    (env env' : Env) (req r : StoreRequest)
    → is_zero env.now ≡ false
    → (env.uuid 0 == "") ≡ false
    → normalize_store_request env req ≡ ok r
    → normalize_store_request env' r ≡ ok r
unfolding normalize_store_request with_defaults
normalize_store_request_idem env env' req r z u h =
    let (a, h₁) = refuse-ok (is_blank req.body) _ _ r h in
    let (b, h₂) = refuse-ok (not (is_space req.visibility)) _ _ r h₁ in
    let (c, h₃) = refuse-ok (is_blank req.namespace) _ _ r h₂ in
    let (spans, s, h₄) = >>=-eq-ok (each normalize_artifact_span_input req.artifact_spans) _ h₃ in
    let (relations, t, h₅) = >>=-eq-ok (each normalize_memory_relation_input req.relations) _ h₄ in
    let same : r
        ≡ record (with_defaults env req) { artifact_spans = spans; relations = relations } =
      cc in
    let s' =
      each_idem normalize_artifact_span_input normalize_span_idem req.artifact_spans spans s in
    let t' =
      each_idem normalize_memory_relation_input normalize_relation_idem req.relations relations t in
    rw same (
      rw
        (
          a,
          b,
          c,
          s',
          t',
          or_else_idem req.memory_id (env.uuid 0) (env'.uuid 0) u,
          or_number_idem req.authored_at_ms env.now z env'.now,
          or_else_idem req.scope "team" "team" refl,
          or_else_idem req.memory_type "fact" "fact" refl,
          or_else_idem req.author_agent_id "agent/default" "agent/default" refl,
          or_else_idem req.origin_peer_id "peer/local" "peer/local" refl,
        )
        refl)
