-- ===== src/Tests/Gateway.antt =====
-- The gateway of tests/integration.rs and the client that posts to it. The upstream is a function that
-- answers every request in the same way, and what it saw is what was sent; the parsers are the tables
-- of the texts that the tests have.
use Prim.Native.String
use indexer_gateway_auth.Prelude.{
  ℕ, String, Bool, true, false, ◌&&◌, Option, none, some, List, [], ◌∷◌, ◌==◌,
}
use indexer_gateway_auth.Prelude.{
  Bytes, Result, ok, ok_or, nat_eq, length, codes, leb, find_map, if◌then◌else◌,
}
use indexer_gateway_auth.Json.{Value, Members}
use indexer_gateway_auth.Config.{Config, RateLimit, default_policy, default_rate_limit}
use indexer_gateway_auth.Classify.Syntax.{OperationType, field, nil, cons, Document}
use indexer_gateway_auth.Classify.Body.{parsers_of}
use indexer_gateway_auth.Auth.{bearer_auth}
use indexer_gateway_auth.Auth.Token
use indexer_gateway_auth.Proxy
use indexer_gateway_auth.Proxy.{
  UpstreamRequest, ProxyResponse, route, strip_prefix_segment, forward, base_for,
  filter_forward_headers, filter_response_headers, is_hop_by_hop, trim_trailing_slash,
}
use indexer_gateway_auth.Server.{
  Deps, Inner, World, HttpRequest, Moment, default_options, new_state,
}
use indexer_gateway_auth.Server.Request.{Response, relayed}
use indexer_gateway_auth.Server.Router.{build_router}
use indexer_gateway_auth.Examples.Samples.{crate, governor, config}
use indexer_gateway_auth.Examples.Connections.{axum}

abbrev pub same_bytes : Bytes → Bytes → Bool
same_bytes [] [] = true
same_bytes (a ∷ xs) (b ∷ ys) = nat_eq a b && same_bytes xs ys
same_bytes _ _ = false

-- The entry of a text.
abbrev pub entry : {A : Type 0} → List (String × A) → Bytes → Option A
entry table bytes = find_map (λ e. if same_bytes (codes e.0) bytes then some e.1 else none) table

abbrev pub query_body : String
query_body = "{\"query\":\"{ indexingRules { id } }\"}"

abbrev pub mutation_body : String
mutation_body = "{\"query\":\"mutation { setIndexingRule(rule: {}) { id } }\"}"

abbrev pub named_body : String
named_body =
    "{\"query\":\"mutation Op { setIndexingRule(rule: {}) { id } }\",\"variables\":{\"x\":1}}"

abbrev pub values : List (String × Value)
values =
    (query_body, Value.object (Members.member "query" (Value.string "query") Members.end))
    ∷ (mutation_body, Value.object (Members.member "query" (Value.string "mutation") Members.end))
    ∷ (
      named_body,
      Value.object (
          Members.member "query" (Value.string "named") (
            Members.member "variables"
              (Value.object (Members.member "x" (Value.number "1") Members.end)) Members.end)),
    )
    ∷ []

abbrev pub operation : Option String → OperationType → String → Document
operation name ty root = record {
  operations = (name, record { ty = ty; selection_set = cons (field root) nil }) ∷ [];
  fragments = [];
}

-- The documents, for short by their kind.
abbrev pub parse_query : String → Result String Document
parse_query text =
    if text == "query"
    then ok (operation none OperationType.query "indexingRules")
    else if text == "mutation"
    then ok (operation none OperationType.mutation "setIndexingRule")
    else ok (operation (some "Op") OperationType.mutation "setIndexingRule")

abbrev pub bearers : List (String × String)
bearers =
    ("Bearer read-token", "Bearer read-token")
    ∷ ("Bearer write-token", "Bearer write-token")
    ∷ ("Bearer not-a-real-token", "Bearer not-a-real-token")
    ∷ []

abbrev pub reply : Bytes
reply = codes "{\"data\":{\"ok\":true}}"

abbrev pub spawn_upstream : UpstreamRequest → Result String ProxyResponse
spawn_upstream r = ok (record {
  status = 200;
  headers = ("content-type", codes "application/json") ∷ [];
  body = reply;
})

abbrev pub deps : Deps String String (String → ℕ)
deps = record {
  ct_eq = λ a b. a == b;
  crate = crate;
  parsers = parsers_of (λ b. ok_or (entry values b) "expected value") parse_query;
  governor = governor;
  fingerprint = record { to_vec = λ v. []; sha256 = λ b. b; encode = λ b. "00" };
  to_str = entry bearers;
  from_slice = entry values;
  to_bytes = λ b limit. if leb (length b) limit then some b else none;
  send = spawn_upstream;
}

abbrev pub gateway_config : Config
gateway_config = record config {
  upstream = record config.upstream { agent_management = "http://upstream" };
  auth = record config.auth {
    tokens =
        record { name = "ci-readonly"; token = "read-token"; scopes = "read" ∷ [] }
        ∷ record { name = "operator"; token = "write-token"; scopes = "read" ∷ "write" ∷ [] }
        ∷ [];
    jwt = none;
  };
  policy = default_policy;
}

abbrev pub spawn_gateway_with : RateLimit → Inner String × World (String → ℕ)
spawn_gateway_with ratelimit =
    let config : Config = record gateway_config { ratelimit = ratelimit } in
    new_state deps config (bearer_auth (Token.new config.auth.tokens)) (Proxy.new config.upstream)
      default_options

abbrev pub spawn_gateway : Inner String × World (String → ℕ)
spawn_gateway = spawn_gateway_with default_rate_limit

abbrev pub request : String → String → Option String → String → HttpRequest
request method path token body = record {
  method = method;
  path_and_query = path;
  headers = elim token [
    | none ↦ ("content-type", codes "application/json") ∷ []
    | some t ↦
        ("content-type", codes "application/json")
        ∷ ("authorization", codes (String.◌++◌ "Bearer " t))
        ∷ []
  ];
  source_ip = "127.0.0.1";
  client_cert = none;
  body = codes body;
}

abbrev pub moment : Moment
moment = record { now_rfc3339 = "2026-06-01T12:00:00+00:00"; instant = 0; latency_ms = 12 }

abbrev pub Answer : Type 0
Answer = Response × World (String → ℕ)

abbrev pub post_graphql : Inner String → Option String → String → World (String → ℕ) → Answer
post_graphql state token body w =
    build_router axum deps state (request "POST" "/" token body) moment w

-- One request to a fresh gateway.
abbrev pub first_post : Option String → String → Answer
first_post token body = post_graphql spawn_gateway.0 token body spawn_gateway.1

-- The status, and how many requests the upstream saw.
abbrev pub answers : Answer → ℕ → ℕ → Bool
answers a status seen = nat_eq a.0.status status && nat_eq (length a.1.sent) seen

abbrev pub has_body : Answer → Bytes → Bool
has_body (r, w) bytes = elim r.body [ relayed b ↦ same_bytes b bytes | _ ↦ false ]
