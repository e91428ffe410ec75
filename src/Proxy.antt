-- ===== src/Proxy.antt =====
-- src/proxy.rs: the upstream of a request, the headers that pass, and the request that is sent.
-- A header map is the list of its entries, with names in lower case, in the order of iteration.
pub mod Route
pub mod Headers
pub mod Forward
use Prim.Native.Char.{code}
use Prim.Native.String
use indexer_gateway_auth.Prelude.{
  ℕ, String, Bool, true, false, not, ◌||◌, Option, none, some, List, [], ◌∷◌, ◌==◌,
}
use indexer_gateway_auth.Prelude.{
  Bytes, nat_eq, Result, ok, err, ◌>>=◌, ok_or, map_err, filter, and_then, strip_prefix,
  strip_suffix, if◌then◌else◌,
}
use indexer_gateway_auth.Prelude.Sets.{contains}
use indexer_gateway_auth.Config.{Upstream}
use mathlib.Core.Option

pub data UpstreamTarget : Type 0 where
  agent_management graph_node_admin graph_node_status : UpstreamTarget

abbrev pub admin_prefix : String
admin_prefix = "/_admin"

abbrev pub status_prefix : String
status_prefix = "/_status"

-- What is left behind the prefix must be empty or begin a new segment.
abbrev pub segment_rest : String → Option String
segment_rest String.[] = some "/"
segment_rest (String.◌∷◌ c s) = if nat_eq (code c) b'/' then some (String.◌∷◌ c s) else none

unfoldable pub strip_prefix_segment : String → String → Option String
strip_prefix_segment path prefix = and_then (strip_prefix path prefix) segment_rest

abbrev pub route_status : Option String → String → UpstreamTarget × String
route_status (some rest) path = (graph_node_status, rest)
route_status none path = (agent_management, path)

abbrev pub route_admin : Option String → String → UpstreamTarget × String
route_admin (some rest) path = (graph_node_admin, rest)
route_admin none path = route_status (strip_prefix_segment path status_prefix) path

unfoldable pub route : String → UpstreamTarget × String
route path = route_admin (strip_prefix_segment path admin_prefix) path

abbrev pub Headers : Type 0
Headers = List (String × Bytes)

abbrev pub hop_by_hop : List String
hop_by_hop =
    "connection" ∷ "keep-alive" ∷ "proxy-authenticate" ∷ "proxy-authorization" ∷ "te" ∷ "trailer"
    ∷ "transfer-encoding" ∷ "upgrade" ∷ []

unfoldable pub is_hop_by_hop : String → Bool
is_hop_by_hop name = contains hop_by_hop name

unfoldable pub filter_forward_headers : Headers → Headers
filter_forward_headers headers =
    filter (λ h. not (is_hop_by_hop h.0 || h.0 == "host" || h.0 == "authorization")) headers

unfoldable pub filter_response_headers : Headers → Headers
filter_response_headers headers =
    filter (λ h. not (is_hop_by_hop h.0 || h.0 == "content-length")) headers

pub record ProxyResponse : Type 0 where
  pub status : ℕ
  pub headers : Headers
  pub body : Bytes

-- The texts of `upstream` and `bad_url` are those of the errors of the HTTP client.
pub data ProxyError : Type 0 where
  no_upstream : UpstreamTarget → ProxyError
  bad_url upstream : String → ProxyError

pub record Proxy : Type 0 where
  pub agent_management : String
  pub graph_node_admin : Option String
  pub graph_node_status : Option String

-- What the HTTP client is asked to send.
pub record UpstreamRequest : Type 0 where
  pub method : String
  pub url : String
  pub headers : Headers
  pub body : Bytes

unfoldable pub trim_trailing_slash : String → String
trim_trailing_slash s = Option.get_or (strip_suffix s b'/') s

-- `Proxy::new`; the HTTP client is an argument of `forward`.
unfoldable pub new : Upstream → Proxy
new u = record {
  agent_management = trim_trailing_slash u.agent_management;
  graph_node_admin = Option.map trim_trailing_slash u.graph_node_admin;
  graph_node_status = Option.map trim_trailing_slash u.graph_node_status;
}

-- `Proxy::base_for`
unfoldable pub base_for : Proxy → UpstreamTarget → Result ProxyError String
base_for proxy UpstreamTarget.agent_management = ok proxy.agent_management
base_for proxy UpstreamTarget.graph_node_admin =
    ok_or proxy.graph_node_admin (no_upstream UpstreamTarget.graph_node_admin)
base_for proxy UpstreamTarget.graph_node_status =
    ok_or proxy.graph_node_status (no_upstream UpstreamTarget.graph_node_status)

abbrev pub upstream_request : String → String → String → Headers → Bytes → UpstreamRequest
upstream_request method base path headers body = record {
  method = method;
  url = String.◌++◌ base path;
  headers = filter_forward_headers headers;
  body = body;
}

-- `send` is the client: it sends a request, and reads the whole answer or fails.
module _ (send : UpstreamRequest → Result String ProxyResponse) where
  abbrev pub forward_to :
      Result ProxyError String
      → String
      → String
      → Headers
      → Bytes
      → List UpstreamRequest × Result ProxyError ProxyResponse
  forward_to (err e) method path headers body = ([], err e)
  forward_to (ok base) method path headers body =
      let request = upstream_request method base path headers body in
      (request ∷ [], map_err upstream (send request))

  -- `Proxy::forward`, with the requests that it sends.
  unfoldable pub forward :
      Proxy
      → String
      → String
      → Headers
      → Bytes
      → List UpstreamRequest × Result ProxyError ProxyResponse
  forward proxy method path_and_query headers body =
      let routed = route path_and_query in
      forward_to (base_for proxy routed.0) method routed.1 headers body
