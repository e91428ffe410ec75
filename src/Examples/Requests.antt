-- ===== src/Examples/Requests.antt =====
-- Requests: their classification, where they go, and their budgets.
use indexer_gateway_auth.Prelude.{
  String, ◌≡◌, refl, ◌↔◌, inl, inr, true, false, some, [], ◌∷◌, Memᴰ,
}
use indexer_gateway_auth.Prelude.{ok, length}
use indexer_gateway_auth.Prelude.Sets.{◌∈◌}
use indexer_gateway_auth.Classify.{
  single, write, OperationInfo, classify, classify_one, classify_all, to_classify, operation_info,
  max_scope,
}
use indexer_gateway_auth.Classify.Fields.{Found, collect, collect_top_fields}
use indexer_gateway_auth.Classify.Fields.Selects.{Selects}
use indexer_gateway_auth.Classify.Fields.Correct.{collect_terminates, collect_top_fields_iff}
use indexer_gateway_auth.Classify.Laws.{Records, classify-covers, classify-mutation}
use indexer_gateway_auth.Proxy.{route}
use indexer_gateway_auth.Proxy.Route.{Routed, route-Routed}
use indexer_gateway_auth.RateLimit
use indexer_gateway_auth.RateLimit.{check}
use indexer_gateway_auth.RateLimit.Laws.{allows, burst, burst-new, check_separate}
use indexer_gateway_auth.Examples.Samples.{
  rule_fields, fragments, send_rules, document, send_request, parsers, body, sent_rules, governor,
  governor-IsGovernor,
}

body_classified : classify parsers body ≡ ok sent_rules
unfolding classify classify_all classify_one to_classify operation_info max_scope collect_top_fields
body_classified = refl

collect_terminates_example :
    (found : Found) × (collect fragments
        (length fragments)
        rule_fields
        (record { out = []; visited = [] })
      ≡ some found)
collect_terminates_example =
    collect_terminates fragments rule_fields (record { out = []; visited = [] })

collect_top_fields_iff_example :
    ("setRules" ∈ collect_top_fields fragments rule_fields)
    ↔ Selects fragments rule_fields "setRules"
collect_top_fields_iff_example = collect_top_fields_iff fragments rule_fields "setRules"

send_rules-mem : Memᴰ send_rules document.operations
send_rules-mem = Memᴰ.tail (Memᴰ.head refl)

classify-covers_example :
    (info : OperationInfo) × Memᴰ info sent_rules.operations
    × Records parsers document send_rules info
classify-covers_example =
    classify-covers parsers body sent_rules (single send_request) send_request document send_rules
      body_classified refl (Memᴰ.head refl) refl send_rules-mem (inl refl)

classify-mutation_example : sent_rules.scope ≡ write
classify-mutation_example =
    classify-mutation parsers body sent_rules (single send_request) send_request document send_rules
      body_classified refl (Memᴰ.head refl) refl send_rules-mem (inl refl) refl

route-Routed_example :
    Routed "/_status/graphql" (route "/_status/graphql").0 (route "/_status/graphql").1
route-Routed_example = route-Routed "/_status/graphql"

abbrev accept_name : String
accept_name = "accept"

burst-new_example :
    burst governor governor-IsGovernor 3 (RateLimit.new governor 600 2) 0 write "operator"
    ≡ true ∷ true ∷ false ∷ []
burst-new_example = burst-new governor governor-IsGovernor 3 600 2 0 write "operator" (λ e. cc)

check_separate_example :
    allows governor governor-IsGovernor
      (check governor (RateLimit.new governor 600 1) 0 write "operator").0
      0
      write
      "viewer"
    ≡ allows governor governor-IsGovernor (RateLimit.new governor 600 1) 0 write "viewer"
check_separate_example =
    check_separate governor governor-IsGovernor (RateLimit.new governor 600 1) 0 0 write write
      "operator" "viewer" (inr (λ e. cc))
