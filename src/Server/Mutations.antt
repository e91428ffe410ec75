-- ===== src/Server/Mutations.antt =====
-- Mutations in the body of a request, from the parsers to the upstream.
use indexer_gateway_auth.Prelude.{◌≡◌, inl, inr, true, false, some, Memᴰ, ◌==◌, arith}
use indexer_gateway_auth.Prelude.{Bytes, ok, Result-cases}
use indexer_gateway_auth.Prelude.Sets.{◌∈◌}
use indexer_gateway_auth.Principal.{Principal}
use indexer_gateway_auth.Classify.{
  GraphQlRequest, RawBody, requests_of, NamedOperation, classify, Classification,
}
use indexer_gateway_auth.Classify.Syntax.{OperationType, Document}
use indexer_gateway_auth.Classify.Chosen.{CouldRun}
use indexer_gateway_auth.Classify.Laws.{classify-mutation}
use indexer_gateway_auth.Proxy.{route}
use indexer_gateway_auth.Server.Request.{is_admin, classify_request}
use indexer_gateway_auth.Server.{Deps, Inner, World, HttpRequest, Moment}
use indexer_gateway_auth.Server.Handle.{handle}
use indexer_gateway_auth.Server.Ends.{authn, body_read, classification_of}
use indexer_gateway_auth.Server.Mediation.{handle_mediates, handle-write_blocked}

module _ {Key Jwk Limiter : Type 0} (deps : Deps Key Jwk Limiter) (state : Inner Key)
    (req : HttpRequest) (at : Moment) where
  -- What is classified of a request that is no GET and not for the admin endpoint, where requests
  -- that cannot be classified are refused.
  classification_of-closed :
      (body : Bytes) (c : Classification)
      → (req.method == "GET") ≡ false
      → is_admin (route req.path_and_query).0 ≡ false
      → state.fail_closed_on_parse_error ≡ true
      → classification_of deps state req at body ≡ ok c
      → classify deps.parsers body ≡ ok c
  unfolding classify_request
  classification_of-closed body c method target closed h =
      elim (Result-cases (classify deps.parsers body)) [
        | inl (c', e) ↦ ground arith
        | inr (x, e) ↦ absurd (ground arith)
      ]

  -- Take a request that is no GET and not for the admin endpoint, at a gateway that refuses what it
  -- cannot classify. If some request of its body, alone or in a batch, could run a mutation, and the
  -- caller was not granted "write", then nothing is sent to any upstream.
  pub handle-mutation_blocked :
      (w : World Limiter) (p : Principal) (body : Bytes) (raw : RawBody) (r : GraphQlRequest)
      (doc : Document) (op : NamedOperation)
      → authn deps state req at ≡ ok p
      → body_read deps state req at ≡ some body
      → (req.method == "GET") ≡ false
      → is_admin (route req.path_and_query).0 ≡ false
      → state.fail_closed_on_parse_error ≡ true
      → deps.parsers.from_slice body ≡ ok raw
      → Memᴰ r (requests_of raw)
      → deps.parsers.parse_query r.query ≡ ok doc
      → Memᴰ op doc.operations
      → CouldRun r.operation_name doc.operations op
      → (op.1).ty ≡ OperationType.mutation
      → ¬ ("write" ∈ p.scopes)
      → (handle deps state req at w).1.sent ≡ w.sent
  handle-mutation_blocked w p body raw r doc op a b method target closed sliced m parsed n could mut
        no_write =
      elim (Result-cases (classification_of deps state req at body)) [
        | inl (c, k) ↦
            let classified = classification_of-closed body c method target closed k in
            let scope =
              classify-mutation deps.parsers body c raw r doc op classified sliced m parsed n could
                mut in
            handle-write_blocked deps state req at w p body c a b k scope no_write
        | inr (x, k) ↦ elim (handle_mediates deps state req at w) [
          | inl same ↦ same
          | inr f ↦
              let same_body : f.body ≡ body = cc (b, f.within_limit) in
              absurd (cc (k, f.classified, same_body))
        ]
      ]
