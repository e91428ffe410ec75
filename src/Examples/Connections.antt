-- ===== src/Examples/Connections.antt =====
-- Routes, bodies and TLS connections.
use indexer_gateway_auth.Prelude.{
  String, ◌≡◌, refl, ◌↔◌, ◌⊎◌, inl, inr, true, Option, none, some, List, [], ◌∷◌, ◌==◌, arith,
  eq_iff, Memᴰ, sym, ap, ◌∙◌,
}
use indexer_gateway_auth.Prelude.{ok, Bool-cases, codes, if◌then◌else◌}
use indexer_gateway_auth.Json.{string, Members, end, member, object}
use indexer_gateway_auth.Principal
use indexer_gateway_auth.Principal.{Principal, satisfies}
use indexer_gateway_auth.Auth.{authenticate, resolve, mtls_auth}
use indexer_gateway_auth.Auth.Mtls
use indexer_gateway_auth.Auth.Mtls.{ClientCert, Mapping, MtlsBackend, mapping_principal}
use indexer_gateway_auth.Auth.Mtls.Laws.{FirstMatch}
use indexer_gateway_auth.Classify.Body.{request_from}
use indexer_gateway_auth.Classify.Body.Laws.{IsRequest, request_from_iff}
use indexer_gateway_auth.Proxy.{route}
use indexer_gateway_auth.Server.{Inner, HttpRequest}
use indexer_gateway_auth.Server.Request.{relayed}
use indexer_gateway_auth.Server.Handle.{handle}
use indexer_gateway_auth.Server.Ends.{authn}
use indexer_gateway_auth.Server.Router.{Axum, health, build_router}
use indexer_gateway_auth.Server.Router.Laws.{IsAxum, IsHealthPath, build_router_cases}
use indexer_gateway_auth.Tls.{X509Certificate, dns_name, sans_of, extract_identity, with_identity}
use indexer_gateway_auth.Tls.Identity.{IsIdentity}
use indexer_gateway_auth.Tls.Serve.{
  Connection, Accepted, connection, shutdown, over_connection, serve_connection, serve,
}
use indexer_gateway_auth.Tls.Serve.Laws.{IsServed, serve-authn}
use indexer_gateway_auth.Examples.Samples.{deps, state, start, post, at, send_request}

-- A router whose routes are compared one by one, for targets without a query.
abbrev find_route : List String → String → Option String
find_route [] path = none
find_route (r ∷ rs) path = if path == r then some r else find_route rs path

find_route_iff :
    (routes : List String) (path route : String)
    → (find_route routes path ≡ some route) ↔ (Memᴰ route routes × (path ≡ route))
find_route_iff [] path route = (λ h. cc, λ (m, h). elim m [ ])
find_route_iff (r ∷ rs) path route = elim (Bool-cases (path == r)) [
  | inl e ↦
      let same : path ≡ r = (eq_iff path r).0 e in
      rw e (
        λ h. let f : r ≡ route = cc in (Memᴰ.head (sym f), same ∙ f),
        λ (m, h). ap (λ (x : String). some x) (sym same ∙ h),
      )
  | inr e ↦ rw e (
    λ h. let (m, f) = (find_route_iff rs path route).0 h in (Memᴰ.tail m, f),
    λ (m, h). elim m [
      | Memᴰ.head f ↦ absurd (ground (arith, eq_iff path r))
      | Memᴰ.tail n ↦ (find_route_iff rs path route).1 (n, h)
    ],
  )
]

abbrev pub axum : Axum
axum = record {
  path_of = λ target. target;
  matched = find_route;
  text_response = λ text. record { status = 200; headers = []; body = relayed (codes text) };
  get = λ method r.
      if method == "GET" then r else record { status = 405; headers = []; body = relayed [] };
  not_found = record { status = 404; headers = []; body = relayed [] };
}

axum-IsAxum : IsAxum axum
axum-IsAxum = record { matched_iff = find_route_iff }

abbrev probe : HttpRequest
probe = record post { method = "GET"; path_and_query = "/healthz" }

build_router_cases_example :
    (IsHealthPath axum probe
      × (build_router axum deps state probe at start
          ≡ (axum.get "GET" (axum.text_response health), start)))
    ⊎ (¬ IsHealthPath axum probe
        × (build_router axum deps state probe at start ≡ handle deps state probe at start))
build_router_cases_example = build_router_cases axum axum-IsAxum deps state probe at start

abbrev members : Members
members = member "query" (string "document") (member "operationName" (string "Send") end)

request_from_iff_example :
    (request_from (object members) ≡ some send_request) ↔ IsRequest members send_request
request_from_iff_example = request_from_iff members send_request

abbrev pub from_der : String → Option X509Certificate
from_der text =
    some (record { common_names = []; subject_alternative_name = some (dns_name text ∷ []) })

abbrev agents : MtlsBackend
agents = record {
  mappings = record { subject = "agent.local"; name = "agent"; scopes = "write" ∷ [] } ∷ [];
}

abbrev agent : Principal
agent = record { name = "agent"; scopes = "write" ∷ [] }

abbrev mtls_state : Inner String
mtls_state = record state { authenticator = mtls_auth agents }

abbrev pub peer : Connection String
peer = record {
  peer = "10.0.0.9";
  handshake = true;
  peer_certificates = some ("agent.local" ∷ []);
  requests = (post, at) ∷ [];
}

abbrev pub accepted : List (Accepted String)
accepted = connection peer ∷ shutdown ∷ []

over_tls : Memᴰ (over_connection from_der peer post, at) (serve from_der accepted).0
unfolding serve serve_connection
over_tls = Memᴰ.head refl

agent_over_tls : authn deps mtls_state (over_connection from_der peer post) at ≡ ok agent
unfolding authenticate resolve with_identity extract_identity Mtls.verify Mtls.verify_from
    Mtls.matches sans_of Principal.new
agent_over_tls = refl

serve-authn_example :
    (c : Connection String) × (certs : List String) × (id : ClientCert) × (m : Mapping) × IsServed c
      accepted
    × (c.handshake ≡ true)
    × (c.peer_certificates ≡ some certs)
    × IsIdentity from_der certs id
    × FirstMatch id agents.mappings m
    × (agent ≡ mapping_principal m)
    × ((over_connection from_der peer post).source_ip ≡ c.peer)
serve-authn_example =
    serve-authn deps mtls_state from_der agents accepted (over_connection from_der peer post) at
      agent refl refl over_tls agent_over_tls
