-- ===== src/Classify/Laws.antt =====
-- What a successful classification says of the requests in the body.
use mathlib.Core.List.Memᴰ
use indexer_gateway_auth.Prelude.{
  String, ◌≡◌, refl, sym, ap, ◌∙◌, ◌↔◌, inl, inr, false, List, [], ◌∷◌, ◌++◌, map, Memᴰ, arith,
}
use indexer_gateway_auth.Prelude.{Bytes, ok, is_empty, Result-cases}
use indexer_gateway_auth.Prelude.Sets.{◌∈◌}
use indexer_gateway_auth.Classify.Syntax.{OperationType, Document}
use indexer_gateway_auth.Classify.Fields.Selects.{Selects}
use indexer_gateway_auth.Classify.Fields.Correct.{collect_top_fields_iff}
use indexer_gateway_auth.Classify.{
  write, mutation, kind_from, OperationInfo, Classification, GraphQlRequest, RawBody, requests_of,
  Parsers, NamedOperation, to_classify, operation_info, max_scope, classify_one, classify_all,
  classify,
}
use indexer_gateway_auth.Classify.Chosen.{
  CouldRun, to_classify-mem, max_scope-write, max_scope-mutation,
}

module _ (parsers : Parsers) where
  classify-inv :
      (body : Bytes) (c : Classification)
      → classify parsers body ≡ ok c
      → (raw : RawBody) × (parsers.from_slice body ≡ ok raw)
        × (classify_all parsers (requests_of raw) ≡ ok c.operations)
        × (c.scope ≡ max_scope c.operations)
        × (is_empty (requests_of raw) ≡ false)
        × (is_empty c.operations ≡ false)
  unfolding classify
  classify-inv body c h = elim (Result-cases (parsers.from_slice body)) [
    | inr (e, p) ↦ absurd (ground arith)
    | inl (raw, p) ↦ (raw, p, ground arith, ground arith, ground arith, ground arith)
  ]

  classify_one-inv :
      (req : GraphQlRequest) (ops : List OperationInfo)
      → classify_one parsers req ≡ ok ops
      → (doc : Document) × (parsers.parse_query req.query ≡ ok doc)
        × (is_empty (to_classify req.operation_name doc.operations) ≡ false)
        × (ops ≡ map (operation_info doc) (to_classify req.operation_name doc.operations))
  unfolding classify_one
  classify_one-inv req ops h = elim (Result-cases (parsers.parse_query req.query)) [
    | inr (e, p) ↦ absurd (ground arith)
    | inl (doc, p) ↦ (doc, p, ground arith, ground arith)
  ]

  classify_all-cons :
      (req : GraphQlRequest) (reqs : List GraphQlRequest) (ops : List OperationInfo)
      → classify_all parsers (req ∷ reqs) ≡ ok ops
      → (here later : List OperationInfo) × (classify_one parsers req ≡ ok here)
        × (classify_all parsers reqs ≡ ok later)
        × (ops ≡ here ++ later)
  unfolding classify_all
  classify_all-cons req reqs ops h = elim (Result-cases (classify_one parsers req)) [
    | inr (e, p) ↦ absurd (ground arith)
    | inl (here, p) ↦ elim (Result-cases (classify_all parsers reqs)) [
      | inr (e, q) ↦ absurd (ground arith)
      | inl (later, q) ↦ (here, later, p, q, ground arith)
    ]
  ]

  -- The records of a request are among those of the batch.
  classify_all-mem :
      (req : GraphQlRequest) (reqs : List GraphQlRequest) (ops : List OperationInfo)
      → Memᴰ req reqs
      → classify_all parsers reqs ≡ ok ops
      → (here : List OperationInfo) × (classify_one parsers req ≡ ok here)
        × ((op : OperationInfo) → Memᴰ op here → Memᴰ op ops)
  classify_all-mem req [] ops m h = elim m [ ]
  classify_all-mem req (x ∷ reqs) ops (Memᴰ.head e) h =
      let (here, later, p, q, same) = classify_all-cons x reqs ops h in
      (here, rw e p, λ op k. rw same (Memᴰ.append_left later k))
  classify_all-mem req (x ∷ reqs) ops (Memᴰ.tail m) h =
      let (here, later, p, q, same) = classify_all-cons x reqs ops h in
      let (found, one, into) = classify_all-mem req reqs later m q in
      (found, one, λ op k. rw same (Memᴰ.append_right here (into op k)))

  -- A classified body is a write exactly if one of its operations is a mutation.
  pub classify-scope_iff :
      (body : Bytes) (c : Classification)
      → classify parsers body ≡ ok c
      → (c.scope ≡ write) ↔ ((op : OperationInfo) × Memᴰ op c.operations × (op.kind ≡ mutation))
  classify-scope_iff body c h =
      let (raw, _, _, scope, _, _) = classify-inv body c h in
      (
        λ w. max_scope-write c.operations (sym scope ∙ w),
        λ (op, m, k). scope ∙ max_scope-mutation op c.operations m k,
      )

  -- What the classification records of an operation.
  pub record Records (doc : Document) (op : NamedOperation) (info : OperationInfo) : Type 0 where
    pub name : info.name ≡ op.0
    pub kind : info.kind ≡ kind_from (op.1).ty
    pub fields :
        (field : String)
        → (field ∈ info.top_level_fields) ↔ Selects doc.fragments (op.1).selection_set field

  operation_info-Records :
      (doc : Document) (op : NamedOperation) → Records doc op (operation_info doc op)
  unfolding operation_info
  operation_info-Records doc op = record {
    name = refl;
    kind = refl;
    fields = collect_top_fields_iff doc.fragments (op.1).selection_set;
  }

  -- Take any request of a classified body, alone or in a batch, and any operation of its document
  -- that the request could run: the one that it names, or any if it names none or an absent one.
  -- The classification records this operation with its name, its kind and exactly the fields that
  -- its root selects, through fragments too.
  pub classify-covers :
      (body : Bytes) (c : Classification) (raw : RawBody) (req : GraphQlRequest) (doc : Document)
      (op : NamedOperation)
      → classify parsers body ≡ ok c
      → parsers.from_slice body ≡ ok raw
      → Memᴰ req (requests_of raw)
      → parsers.parse_query req.query ≡ ok doc
      → Memᴰ op doc.operations
      → CouldRun req.operation_name doc.operations op
      → (info : OperationInfo) × Memᴰ info c.operations × Records doc op info
  classify-covers body c raw req doc op h parsed m parsed_doc in_doc could =
      let (raw', p, all, _, _, _) = classify-inv body c h in
      let same : raw' ≡ raw = ground arith in
      let (here, one, into) =
        classify_all-mem req (requests_of raw) c.operations m (rw same at all) in
      let (doc', p', _, ops) = classify_one-inv req here one in
      let same_doc : doc' ≡ doc = ground arith in
      let chosen = to_classify-mem req.operation_name doc.operations op in_doc could in
      (
        operation_info doc op,
        into (operation_info doc op) (rw (ops, same_doc) (Memᴰ.map (operation_info doc) chosen)),
        operation_info-Records doc op,
      )

  -- A mutation that a request of the body could run makes the whole body a write, whatever else
  -- the batch, the document, its operation name or its fragments hold.
  pub classify-mutation :
      (body : Bytes) (c : Classification) (raw : RawBody) (req : GraphQlRequest) (doc : Document)
      (op : NamedOperation)
      → classify parsers body ≡ ok c
      → parsers.from_slice body ≡ ok raw
      → Memᴰ req (requests_of raw)
      → parsers.parse_query req.query ≡ ok doc
      → Memᴰ op doc.operations
      → CouldRun req.operation_name doc.operations op
      → (op.1).ty ≡ OperationType.mutation
      → c.scope ≡ write
  classify-mutation body c raw req doc op h parsed m parsed_doc in_doc could ty =
      let (info, found, records) =
        classify-covers body c raw req doc op h parsed m parsed_doc in_doc could in
      (classify-scope_iff body c h).1 (info, found, records.kind ∙ ap kind_from ty)
