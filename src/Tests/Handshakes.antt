-- ===== src/Tests/Handshakes.antt =====
-- The tests of tests/tls.rs: a gateway that requires client certificates, from the handshake to the
-- upstream. A certificate is its issuer and its common name, and the handshake of rustls accepts one
-- whose issuer is among the roots.
use indexer_gateway_auth.Prelude.{
  ℕ, String, ◌≡◌, refl, Bool, true, false, ◌&&◌, Option, none, some, List, [], ◌∷◌, ◌++◌, ◌==◌,
}
use indexer_gateway_auth.Prelude.{
  All, Result, ok, nat_eq, length, codes, any, filter, map_err, ◌>>=◌, if◌then◌else◌,
}
use indexer_gateway_auth.Prelude.Sets.{tree_insert, tree_extend}
use indexer_gateway_auth.Json
use indexer_gateway_auth.Json.{Value, Members}
use indexer_gateway_auth.Config.{Config}
use indexer_gateway_auth.Principal
use indexer_gateway_auth.Principal.{satisfies}
use indexer_gateway_auth.Classify.{
  classify, classify_all, classify_one, to_classify, operation_info, max_scope,
}
use indexer_gateway_auth.Classify.Fields.{collect_top_fields}
use indexer_gateway_auth.Classify.Body.{
  read_members, request_from, requests_from, raw_body_from, parsers_of,
}
use indexer_gateway_auth.Authz.{
  override_matches, require_for, require_all, required_scopes, authorize,
}
use indexer_gateway_auth.Auth.{authenticate, resolve}
use indexer_gateway_auth.Audit.{hash_variables}
use indexer_gateway_auth.Audit.Line.{members, to_json}
use indexer_gateway_auth.Proxy
use indexer_gateway_auth.Proxy.{
  UpstreamRequest, ProxyResponse, route, strip_prefix_segment, forward, base_for,
  filter_forward_headers, filter_response_headers, is_hop_by_hop, trim_trailing_slash,
}
use indexer_gateway_auth.RateLimit
use indexer_gateway_auth.RateLimit.{check}
use indexer_gateway_auth.Server.{Inner, World, HttpRequest, Moment, default_options, new_state}
use indexer_gateway_auth.Metrics.{
  record_request, inc_auth_failure, inc_authz_denied, inc_parse_error, inc_rate_limited,
}
use indexer_gateway_auth.Server.Handle.{
  answered, proxied, limited, authorized, classified, with_body, authenticated, handle,
}
use indexer_gateway_auth.Prelude.{strip_prefix, strip_suffix}
use indexer_gateway_auth.Server.Request.{
  Response, classify_request, extract_bearer, get_header, error_response, relay_response,
  first_op_name, top_fields, extract_variables, value_variables,
}
use indexer_gateway_auth.Server.Router.{build_router}
use indexer_gateway_auth.Examples.Connections.{axum}
use indexer_gateway_auth.Tests.Records.{is_text, has}
use indexer_gateway_auth.Config.{AuthMode}
use indexer_gateway_auth.Auth.{from_config}
use indexer_gateway_auth.Auth.Mtls
use indexer_gateway_auth.Tls.{
  Rustls, X509Certificate, load_certs, load_private_key, add_all, load_root_store, client_verifier,
  load_server_config, extract_identity, sans_of, with_identity,
}
use indexer_gateway_auth.Tls.Serve.{Connection, connection, serve_connection, serve}
use indexer_gateway_auth.Tests.{ok_and}
use indexer_gateway_auth.Tests.Integration.{only}
use indexer_gateway_auth.Tests.Gateway.{
  same_bytes, query_body, mutation_body, deps, gateway_config, request, moment,
}

record Pem : Type 0 where
  issuer : String
  common_name : String

abbrev authority : Pem
authority = record { issuer = "CA"; common_name = "CA" }

abbrev server : Pem
server = record { issuer = "CA"; common_name = "server" }

abbrev client : Pem
client = record { issuer = "CA"; common_name = "operator.indexer.eth" }

abbrev rustls : Rustls Pem String (List Pem) (List Pem) (Option (List Pem))
rustls = record {
  read = λ path. ok (codes path);
  certs = λ b. ok ((if same_bytes b (codes "ca.pem") then authority else server) ∷ []);
  private_key = λ b. ok (some "key");
  empty = [];
  add = λ roots cert. ok (cert ∷ roots);
  protocol_versions = ok tt;
  verifier = λ roots. ok roots;
  with_single_cert = λ verifier found key. ok verifier;
}

abbrev from_der : Pem → Option X509Certificate
from_der cert =
    some (record { common_names = some cert.common_name ∷ []; subject_alternative_name = none })

abbrev is_trusted : Option (List Pem) → Option (List Pem) → Bool
is_trusted none presented = true
is_trusted (some roots) (some (leaf ∷ rest)) = any (λ root. root.common_name == leaf.issuer) roots
is_trusted (some roots) _ = false

abbrev mtls_config : Config
mtls_config = record gateway_config {
  tls = record {
    enabled = true;
    cert = some "server.pem";
    key = some "server-key.pem";
    require_client_cert = true;
    client_ca = some "ca.pem";
  };
  auth = record gateway_config.auth {
    mode = AuthMode.mtls;
    tokens = [];
    mtls =
        record {
          subject = "operator.indexer.eth";
          name = "operator";
          scopes = "read" ∷ "write" ∷ [];
        }
        ∷ [];
  };
}

-- The requests that reach the router, one after another.
abbrev handle_each :
    Inner String
    → List (HttpRequest × Moment)
    → List Response × World (String → ℕ)
    → List Response × World (String → ℕ)
handle_each state [] (responses, w) = (responses, w)
handle_each state ((req, at) ∷ rest) (responses, w) =
    let (r, w') = build_router axum deps state req at w in
    handle_each state rest (responses ++ r ∷ [], w')

abbrev connect : Option (List Pem) → Option (List Pem) → String → Connection Pem
connect server_config presented body = record {
  peer = "127.0.0.1";
  handshake = is_trusted server_config presented;
  peer_certificates = presented;
  requests = (request "POST" "/" none body, moment) ∷ [];
}

-- What a client gets that presents these certificates and posts this body.
abbrev post_over_tls :
    Option (List Pem) → String → Result String (List Response × World (String → ℕ))
post_over_tls presented body = do
  authenticator ←
      map_err (λ e. "authenticator") (from_config deps.ct_eq deps.crate mtls_config.auth)
  server_config ← load_server_config rustls mtls_config.tls
  ok (
      let (state, start) =
        new_state deps mtls_config authenticator (Proxy.new mtls_config.upstream) default_options in
      let accepted = connection (connect server_config presented body) ∷ [] in
      handle_each state (serve from_der accepted).0 ([], start))

abbrev mtls_client_is_mapped_to_principal_and_allowed : Bool
mtls_client_is_mapped_to_principal_and_allowed =
    ok_and (post_over_tls (some (client ∷ [])) mutation_body) (λ (responses, w).
      nat_eq (length (filter (λ r. nat_eq r.status 200) responses)) 1
      && nat_eq (length w.sent) 1
      && only w.audit
          (λ rec. has rec "principal" (is_text "operator") && has rec "scope" (is_text "write")))

abbrev connection_without_client_certificate_is_rejected : Bool
connection_without_client_certificate_is_rejected =
    ok_and (post_over_tls none query_body)
      (λ (responses, w). nat_eq (length responses) 0 && nat_eq (length w.sent) 0)

tls_tests_pass :
    All
      (λ passed. passed ≡ true)
      (mtls_client_is_mapped_to_principal_and_allowed
        ∷ connection_without_client_certificate_is_rejected ∷ [])
unfolding build_router handle authenticated with_body classified authorized limited proxied answered
    authenticate new_state resolve extract_bearer get_header error_response relay_response
    strip_prefix Proxy.new trim_trailing_slash strip_suffix Principal.new classify_request route
    strip_prefix_segment classify classify_all classify_one to_classify operation_info max_scope
    collect_top_fields parsers_of raw_body_from request_from requests_from read_members authorize
    required_scopes require_all require_for tree_insert tree_extend override_matches satisfies
    RateLimit.new RateLimit.build check forward base_for filter_forward_headers
    filter_response_headers is_hop_by_hop record_request inc_auth_failure inc_authz_denied
    inc_parse_error inc_rate_limited first_op_name top_fields extract_variables value_variables
    hash_variables to_json members Json.get Json.get_member from_config Mtls.new Mtls.verify
    Mtls.verify_from Mtls.matches load_server_config load_certs load_private_key client_verifier
    load_root_store add_all serve serve_connection extract_identity with_identity sans_of
tls_tests_pass = (refl, (refl, tt))
