-- ===== src/Tests/Classify.antt =====
-- The tests of src/classify.rs. A body is the JSON value that it is parsed to, and the parser of
-- GraphQL is the table of the documents that the tests have.
use indexer_gateway_auth.Prelude.{
  String, ◌≡◌, refl, Bool, true, false, ◌&&◌, ◌==◌, Option, none, some, List, [], ◌∷◌, length,
}
use indexer_gateway_auth.Prelude.{
  All, Result, ok, err, ok_or, nat_eq, find_map, is_some_of, if◌then◌else◌,
}
use indexer_gateway_auth.Prelude.Sets.{contains}
use indexer_gateway_auth.Json
use indexer_gateway_auth.Json.{Value, Members}
use indexer_gateway_auth.Classify.{
  Scope, read, write, OperationKind, OperationInfo, Classification, ClassifyError, empty,
  graphql_parse, invalid_json, NamedOperation, classify, classify_all, classify_one, to_classify,
  operation_info, max_scope,
}
use indexer_gateway_auth.Classify.Syntax.{
  OperationType, Selection, field, fragment_spread, inline_fragment, SelectionSet, nil, cons,
  Fragments, Document,
}
use indexer_gateway_auth.Classify.Fields.{collect_top_fields}
use indexer_gateway_auth.Classify.Body.{
  read_members, request_from, requests_from, raw_body_from, parsers_of,
}
use indexer_gateway_auth.Tests.{same_texts, ok_and, err_and}

abbrev same_scope : Scope → Scope → Bool
same_scope read read = true
same_scope write write = true
same_scope _ _ = false

abbrev same_kind : OperationKind → OperationKind → Bool
same_kind OperationKind.query OperationKind.query = true
same_kind OperationKind.mutation OperationKind.mutation = true
same_kind OperationKind.subscription OperationKind.subscription = true
same_kind _ _ = false

abbrev selecting : List Selection → SelectionSet
selecting [] = nil
selecting (s ∷ ss) = cons s (selecting ss)

abbrev operation : Option String → OperationType → List Selection → NamedOperation
operation name ty selections = (name, record { ty = ty; selection_set = selecting selections })

abbrev document : List NamedOperation → Fragments → Document
document operations fragments = record { operations = operations; fragments = fragments }

abbrev rules : Selection
rules = field "indexingRules"

abbrev two_operations : String
two_operations = "query R { indexingRules { id } } mutation W { setIndexingRule(rule: {}) { id } }"

abbrev cyclic : String
cyclic = "query { ...A } fragment A on Query { fieldA ...B } fragment B on Query { fieldB ...A }"

abbrev documents : List (String × Document)
documents =
    (
      "{ indexingRules { identifier } }",
      document (operation none OperationType.query (rules ∷ []) ∷ []) [],
    )
    ∷ (
      "{ indexingRules { id } }",
      document (operation none OperationType.query (rules ∷ []) ∷ []) [],
    )
    ∷ (
      "query Rules { indexingRules { identifier } }",
      document (operation (some "Rules") OperationType.query (rules ∷ []) ∷ []) [],
    )
    ∷ (
      "mutation { setIndexingRule(rule: {}) { identifier } }",
      document (operation none OperationType.mutation (field "setIndexingRule" ∷ []) ∷ []) [],
    )
    ∷ (
      "mutation { setIndexingRule(rule: {}) { id } }",
      document (operation none OperationType.mutation (field "setIndexingRule" ∷ []) ∷ []) [],
    )
    ∷ (
      "subscription { costModels { deployment } }",
      document (operation none OperationType.subscription (field "costModels" ∷ []) ∷ []) [],
    )
    ∷ (
      "mutation { go: executeApprovedActions { id } }",
      document (operation none OperationType.mutation (field "executeApprovedActions" ∷ []) ∷ [])
          [],
    )
    ∷ (
      "mutation { ...M } fragment M on Mutation { queueActions { id } }",
      document (operation none OperationType.mutation (fragment_spread "M" ∷ []) ∷ [])
          (("M", selecting (field "queueActions" ∷ [])) ∷ []),
    )
    ∷ (
      "query { ... on Query { indexingRules { id } costModels { id } } }",
      document
          (operation none OperationType.query
              (inline_fragment (selecting (rules ∷ field "costModels" ∷ [])) ∷ [])
            ∷ [])
          [],
    )
    ∷ (
      two_operations,
      document
          (operation (some "R") OperationType.query (rules ∷ [])
            ∷ operation (some "W") OperationType.mutation (field "setIndexingRule" ∷ [])
            ∷ [])
          [],
    )
    ∷ (
      cyclic,
      document (operation none OperationType.query (fragment_spread "A" ∷ []) ∷ []) (
          ("A", selecting (field "fieldA" ∷ fragment_spread "B" ∷ []))
          ∷ ("B", selecting (field "fieldB" ∷ fragment_spread "A" ∷ []))
          ∷ []),
    )
    ∷ []

abbrev parse_query : String → Result String Document
parse_query text =
    ok_or (find_map (λ d. if d.0 == text then some d.1 else none) documents) "unexpected text"

-- `classify(&body(json))`
abbrev classified : Value → Result ClassifyError Classification
classified v = classify (parsers_of (λ body. ok v) parse_query) []

abbrev query : String → Value
query text = Value.object (Members.member "query" (Value.string text) Members.end)

abbrev named : String → String → Value
named text name = Value.object (
    Members.member "query" (Value.string text)
      (Members.member "operationName" (Value.string name) Members.end))

-- `c.operations[0]`
abbrev first_of : List OperationInfo → (OperationInfo → Bool) → Bool
first_of [] test = false
first_of (op ∷ ops) test = test op

abbrev first_and : Classification → (OperationInfo → Bool) → Bool
first_and c test = first_of c.operations test

abbrev simple_query_is_read : Bool
simple_query_is_read = ok_and (classified (query "{ indexingRules { identifier } }")) (λ c.
    same_scope c.scope read
    && nat_eq (length c.operations) 1
    && first_and c (λ op.
      same_kind op.kind OperationKind.query
      && same_texts op.top_level_fields ("indexingRules" ∷ [])))

abbrev named_query_keeps_name : Bool
named_query_keeps_name =
    ok_and (classified (query "query Rules { indexingRules { identifier } }"))
      (λ c. first_and c (λ op. is_some_of op.name "Rules") && same_scope c.scope read)

abbrev mutation_is_write : Bool
mutation_is_write =
    ok_and (classified (query "mutation { setIndexingRule(rule: {}) { identifier } }")) (λ c.
      same_scope c.scope write
      && first_and c (λ op.
        same_kind op.kind OperationKind.mutation
        && same_texts op.top_level_fields ("setIndexingRule" ∷ [])))

abbrev subscription_is_read : Bool
subscription_is_read =
    ok_and (classified (query "subscription { costModels { deployment } }")) (λ c.
      same_scope c.scope read && first_and c (λ op. same_kind op.kind OperationKind.subscription))

-- The first operation reads these fields.
abbrev fields_are : String → List String → Bool
fields_are text fields =
    ok_and (classified (query text))
      (λ c. first_and c (λ op. same_texts op.top_level_fields fields))

abbrev aliased_field_resolves_to_real_name : Bool
aliased_field_resolves_to_real_name =
    fields_are "mutation { go: executeApprovedActions { id } }" ("executeApprovedActions" ∷ [])

abbrev root_fragment_spread_is_expanded : Bool
root_fragment_spread_is_expanded =
    ok_and (classified (query "mutation { ...M } fragment M on Mutation { queueActions { id } }"))
      (λ c.
        same_scope c.scope write
        && first_and c (λ op. same_texts op.top_level_fields ("queueActions" ∷ [])))

abbrev root_inline_fragment_is_expanded : Bool
root_inline_fragment_is_expanded =
    fields_are "query { ... on Query { indexingRules { id } costModels { id } } }"
      ("indexingRules" ∷ "costModels" ∷ [])

abbrev http_batch_takes_highest_scope : Bool
http_batch_takes_highest_scope =
    ok_and
      (classified (
        Value.array (
          Json.from_items (
            query "{ indexingRules { id } }"
            ∷ query "mutation { setIndexingRule(rule: {}) { id } }"
            ∷ []))))
      (λ c. same_scope c.scope write && nat_eq (length c.operations) 2)

abbrev multi_operation_document_takes_highest_scope : Bool
multi_operation_document_takes_highest_scope =
    ok_and (classified (query two_operations)) (λ c. same_scope c.scope write)

abbrev operation_name_selects_single_operation : Bool
operation_name_selects_single_operation = ok_and (classified (named two_operations "R")) (λ c.
    same_scope c.scope read
    && nat_eq (length c.operations) 1
    && first_and c (λ op. is_some_of op.name "R"))

abbrev unknown_operation_name_fails_closed_to_highest : Bool
unknown_operation_name_fails_closed_to_highest =
    ok_and (classified (named two_operations "DoesNotExist")) (λ c. same_scope c.scope write)

-- `matches!(err, …)`
abbrev is_graphql_parse : ClassifyError → Bool
is_graphql_parse (graphql_parse e) = true
is_graphql_parse _ = false

abbrev is_invalid_json : ClassifyError → Bool
is_invalid_json (invalid_json e) = true
is_invalid_json _ = false

abbrev is_empty_request : ClassifyError → Bool
is_empty_request empty = true
is_empty_request _ = false

abbrev malformed_graphql_is_parse_error : Bool
malformed_graphql_is_parse_error =
    err_and (classified (query "mutation { unclosed ")) is_graphql_parse

abbrev invalid_json_is_rejected : Bool
invalid_json_is_rejected =
    err_and (classify (parsers_of (λ body. err "expected a key") parse_query) []) is_invalid_json

abbrev empty_batch_is_rejected : Bool
empty_batch_is_rejected = err_and (classified (Value.array Json.nil)) is_empty_request

abbrev cyclic_fragments_terminate : Bool
cyclic_fragments_terminate = ok_and (classified (query cyclic)) (λ c.
    same_scope c.scope read
    && first_and c
        (λ op. contains op.top_level_fields "fieldA" && contains op.top_level_fields "fieldB"))

-- The parser refuses a document without an operation.
abbrev fragment_only_document_has_no_operation : Bool
fragment_only_document_has_no_operation =
    err_and (classified (query "fragment M on Mutation { queueActions { id } }")) is_graphql_parse

classify_tests_pass :
    All
      (λ passed. passed ≡ true)
      (simple_query_is_read ∷ named_query_keeps_name ∷ mutation_is_write ∷ subscription_is_read
        ∷ aliased_field_resolves_to_real_name ∷ root_fragment_spread_is_expanded
        ∷ root_inline_fragment_is_expanded ∷ http_batch_takes_highest_scope ∷ [])
unfolding classify classify_all classify_one to_classify operation_info max_scope collect_top_fields
    parsers_of raw_body_from request_from requests_from read_members
classify_tests_pass = (refl, (refl, (refl, (refl, (refl, (refl, (refl, (refl, tt))))))))

classify_selection_tests_pass :
    All
      (λ passed. passed ≡ true)
      (multi_operation_document_takes_highest_scope ∷ operation_name_selects_single_operation
        ∷ unknown_operation_name_fails_closed_to_highest ∷ malformed_graphql_is_parse_error
        ∷ invalid_json_is_rejected ∷ empty_batch_is_rejected ∷ cyclic_fragments_terminate
        ∷ fragment_only_document_has_no_operation ∷ [])
unfolding classify classify_all classify_one to_classify operation_info max_scope collect_top_fields
    parsers_of raw_body_from request_from requests_from read_members
classify_selection_tests_pass = (refl, (refl, (refl, (refl, (refl, (refl, (refl, (refl, tt))))))))
