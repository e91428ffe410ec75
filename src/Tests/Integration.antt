-- ===== src/Tests/Integration.antt =====
-- The tests of tests/integration.rs: the whole pipeline behind the router.
use indexer_gateway_auth.Prelude.{
  String, ◌≡◌, refl, Bool, true, false, ◌&&◌, not, none, some, List, [], ◌∷◌, ◌==◌,
}
use indexer_gateway_auth.Prelude.{All, nat_eq, codes, any}
use indexer_gateway_auth.Prelude.Sets.{tree_insert, tree_extend}
use indexer_gateway_auth.Json
use indexer_gateway_auth.Json.{Value, Members}
use indexer_gateway_auth.Principal
use indexer_gateway_auth.Principal.{satisfies}
use indexer_gateway_auth.Classify.{
  classify, classify_all, classify_one, to_classify, operation_info, max_scope,
}
use indexer_gateway_auth.Classify.Fields.{collect_top_fields}
use indexer_gateway_auth.Classify.Body.{
  read_members, request_from, requests_from, raw_body_from, parsers_of,
}
use indexer_gateway_auth.Authz.{
  override_matches, require_for, require_all, required_scopes, authorize,
}
use indexer_gateway_auth.Auth.{authenticate, resolve}
use indexer_gateway_auth.Auth.Token
use indexer_gateway_auth.Audit.{AuditRecord, hash_variables}
use indexer_gateway_auth.Audit.Line.{members, to_json}
use indexer_gateway_auth.Proxy
use indexer_gateway_auth.Proxy.{
  UpstreamRequest, ProxyResponse, route, strip_prefix_segment, forward, base_for,
  filter_forward_headers, filter_response_headers, is_hop_by_hop, trim_trailing_slash,
}
use indexer_gateway_auth.RateLimit
use indexer_gateway_auth.RateLimit.{check}
use indexer_gateway_auth.Server.{new_state}
use indexer_gateway_auth.Metrics.{
  record_request, inc_auth_failure, inc_authz_denied, inc_parse_error, inc_rate_limited,
}
use indexer_gateway_auth.Server.Handle.{
  answered, proxied, limited, authorized, classified, with_body, authenticated, handle,
}
use indexer_gateway_auth.Prelude.{
  strip_prefix, strip_suffix, is_whitespace, trim_start, trim_end, trim,
}
use indexer_gateway_auth.Server.Request.{
  classify_request, extract_bearer, get_header, error_response, relay_response, first_op_name,
  top_fields, extract_variables, value_variables,
}
use indexer_gateway_auth.Server.Router.{build_router}
use indexer_gateway_auth.Examples.Connections.{axum}
use indexer_gateway_auth.Tests.{some_and}
use indexer_gateway_auth.Tests.Records.{is_text, is_number, has, lacks}
use indexer_gateway_auth.Tests.Gateway.{
  same_bytes, query_body, mutation_body, named_body, reply, deps, spawn_gateway_with, spawn_gateway,
  request, moment, Answer, post_graphql, first_post, answers, has_body,
}

abbrev missing_token_is_unauthorized_and_upstream_untouched : Bool
missing_token_is_unauthorized_and_upstream_untouched =
    let a = first_post none query_body in
    answers a 401 0
    && some_and (get_header "www-authenticate" a.0.headers) (λ v. same_bytes v (codes "Bearer"))

abbrev invalid_token_is_unauthorized : Bool
invalid_token_is_unauthorized = answers (first_post (some "not-a-real-token") query_body) 401 0

abbrev read_token_may_query : Bool
read_token_may_query =
    let a = first_post (some "read-token") query_body in answers a 200 1 && has_body a reply

abbrev read_token_may_not_mutate : Bool
read_token_may_not_mutate = answers (first_post (some "read-token") mutation_body) 403 0

-- Every request that the upstream saw has this body and URL, and no `authorization` header.
abbrev saw : String → String → Answer → Bool
saw url body (r, w) = not (
    any
      (λ q. not (
        q.url == url
        && same_bytes q.body (codes body)
        && not (any (λ h. h.0 == "authorization") q.headers)))
      w.sent)

abbrev write_token_may_mutate_and_authorization_is_stripped : Bool
write_token_may_mutate_and_authorization_is_stripped =
    let a = first_post (some "write-token") mutation_body in
    answers a 200 1 && saw "http://upstream/" mutation_body a

abbrev malformed_body_fails_closed : Bool
malformed_body_fails_closed =
    answers (first_post (some "write-token") "this is not graphql json") 400 0

abbrev probe : String → Bool
probe path =
    let a =
      build_router axum deps spawn_gateway.0 (request "GET" path none "") moment spawn_gateway.1 in
    answers a 200 0 && has_body a (codes "ok")

abbrev health_endpoints_need_no_auth_and_skip_upstream : Bool
health_endpoints_need_no_auth_and_skip_upstream = probe "/healthz" && probe "/readyz"

-- One write per minute; reads unrestricted.
abbrev write_rate_limit_returns_429 : Bool
write_rate_limit_returns_429 =
    let (state, start) =
      spawn_gateway_with (record { write_per_minute = 1; read_per_minute = 0 }) in
    let first = post_graphql state (some "write-token") mutation_body start in
    let second = post_graphql state (some "write-token") mutation_body first.1 in
    let third = post_graphql state (some "read-token") query_body second.1 in
    answers first 200 1 && answers second 429 1 && answers third 200 2

-- The JSON of the record.
abbrev is_expected_record : AuditRecord → Bool
is_expected_record rec =
    has rec "principal" (is_text "operator")
    && has rec "scope" (is_text "write")
    && has rec "outcome" (is_text "allowed")
    && has rec "operation_name" (is_text "Op")
    && has rec "upstream_status" (is_number "200")
    && has rec "variables_hash" (is_text "00")
    && lacks rec "variables"

abbrev pub only : List AuditRecord → (AuditRecord → Bool) → Bool
only (rec ∷ []) test = test rec
only _ test = false

abbrev write_is_audited_with_outcome_and_scope : Bool
write_is_audited_with_outcome_and_scope =
    let a = first_post (some "write-token") named_body in
    nat_eq a.0.status 200 && only a.1.audit is_expected_record

integration_tests_pass :
    All
      (λ passed. passed ≡ true)
      (missing_token_is_unauthorized_and_upstream_untouched ∷ invalid_token_is_unauthorized
        ∷ read_token_may_query ∷ read_token_may_not_mutate
        ∷ write_token_may_mutate_and_authorization_is_stripped ∷ malformed_body_fails_closed
        ∷ health_endpoints_need_no_auth_and_skip_upstream ∷ write_rate_limit_returns_429
        ∷ write_is_audited_with_outcome_and_scope ∷ [])
unfolding build_router handle authenticated with_body classified authorized limited proxied answered
    authenticate new_state resolve extract_bearer get_header error_response relay_response
    strip_prefix trim trim_start trim_end is_whitespace Token.verify Token.scan Token.new Proxy.new
    trim_trailing_slash strip_suffix Principal.new classify_request route strip_prefix_segment
    classify classify_all classify_one to_classify operation_info max_scope collect_top_fields
    parsers_of raw_body_from request_from requests_from read_members authorize required_scopes
    require_all require_for tree_insert tree_extend override_matches satisfies RateLimit.new
    RateLimit.build check forward base_for filter_forward_headers filter_response_headers
    is_hop_by_hop record_request inc_auth_failure inc_authz_denied inc_parse_error inc_rate_limited
    first_op_name top_fields extract_variables value_variables hash_variables to_json members
    Json.get Json.get_member
integration_tests_pass = (refl, (refl, (refl, (refl, (refl, (refl, (refl, (refl, (refl, tt)))))))))
