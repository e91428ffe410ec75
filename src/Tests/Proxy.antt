-- ===== src/Tests/Proxy.antt =====
-- The tests of src/proxy.rs.
use indexer_gateway_auth.Prelude.{
  String, ◌≡◌, refl, Bool, true, false, ◌&&◌, ◌==◌, Option, none, some, [], ◌∷◌,
}
use indexer_gateway_auth.Prelude.{
  All, Bytes, codes, strip_prefix, strip_suffix, nat_eq, is_none, Result, err, find_map,
  if◌then◌else◌,
}
use indexer_gateway_auth.Config.{Upstream}
use indexer_gateway_auth.Proxy
use indexer_gateway_auth.Proxy.{
  UpstreamTarget, agent_management, graph_node_admin, graph_node_status, strip_prefix_segment,
  route, Headers, is_hop_by_hop, filter_forward_headers, ProxyError, no_upstream,
  trim_trailing_slash, base_for,
}
use indexer_gateway_auth.Tests.{ok_and, some_and}

abbrev same_target : UpstreamTarget → UpstreamTarget → Bool
same_target agent_management agent_management = true
same_target graph_node_admin graph_node_admin = true
same_target graph_node_status graph_node_status = true
same_target _ _ = false

-- `assert_eq!(route(path), (target, rest))`
abbrev routes_to : String → UpstreamTarget → String → Bool
routes_to path target rest = same_target (route path).0 target && (route path).1 == rest

abbrev unprefixed_path_routes_to_management : Bool
unprefixed_path_routes_to_management =
    routes_to "/" agent_management "/" && routes_to "/graphql" agent_management "/graphql"

abbrev admin_prefix_routes_and_strips : Bool
admin_prefix_routes_and_strips =
    routes_to "/_admin/something" graph_node_admin "/something"
    && routes_to "/_admin" graph_node_admin "/"

abbrev status_prefix_routes_and_strips : Bool
status_prefix_routes_and_strips = routes_to "/_status/graphql" graph_node_status "/graphql"

abbrev similar_prefix_does_not_falsely_match : Bool
similar_prefix_does_not_falsely_match = routes_to "/_admins/x" agent_management "/_admins/x"

abbrev same_bytes : Bytes → Bytes → Bool
same_bytes [] [] = true
same_bytes (a ∷ xs) (b ∷ ys) = nat_eq a b && same_bytes xs ys
same_bytes _ _ = false

-- `out.get(name)`
abbrev header : String → Headers → Option Bytes
header name headers = find_map (λ h. if h.0 == name then some h.1 else none) headers

abbrev h : Headers
h =
    ("host", codes "proxy.local")
    ∷ ("authorization", codes "Bearer secret")
    ∷ ("connection", codes "keep-alive")
    ∷ ("content-type", codes "application/json")
    ∷ ("x-custom", codes "keepme")
    ∷ []

abbrev hop_by_hop_host_and_authorization_are_stripped : Bool
hop_by_hop_host_and_authorization_are_stripped =
    let out = filter_forward_headers h in
    is_none (header "host" out)
    && is_none (header "authorization" out)
    && is_none (header "connection" out)
    && some_and (header "content-type" out) (same_bytes (codes "application/json"))
    && some_and (header "x-custom" out) (same_bytes (codes "keepme"))

abbrev upstream : Upstream
upstream = record {
  agent_management = "http://127.0.0.1:18000";
  graph_node_admin = none;
  graph_node_status = none;
}

-- `matches!(_, Err(ProxyError::NoUpstream(UpstreamTarget::GraphNodeAdmin)))`
abbrev is_no_admin : Result ProxyError String → Bool
is_no_admin (err (no_upstream graph_node_admin)) = true
is_no_admin _ = false

abbrev base_for_unconfigured_upstream_errors : Bool
base_for_unconfigured_upstream_errors =
    let proxy = Proxy.new upstream in
    ok_and (base_for proxy agent_management) (λ base. base == "http://127.0.0.1:18000")
    && is_no_admin (base_for proxy graph_node_admin)

proxy_tests_pass :
    All
      (λ passed. passed ≡ true)
      (unprefixed_path_routes_to_management ∷ admin_prefix_routes_and_strips
        ∷ status_prefix_routes_and_strips ∷ similar_prefix_does_not_falsely_match
        ∷ hop_by_hop_host_and_authorization_are_stripped ∷ base_for_unconfigured_upstream_errors
        ∷ [])
unfolding route strip_prefix_segment strip_prefix strip_suffix filter_forward_headers is_hop_by_hop
    Proxy.new trim_trailing_slash base_for
proxy_tests_pass = (refl, (refl, (refl, (refl, (refl, (refl, tt))))))
