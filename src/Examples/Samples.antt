-- ===== src/Examples/Samples.antt =====
-- A small gateway: concrete parsers, keys, limiters and upstreams, and the requests that they get.
use indexer_gateway_auth.Prelude.{
  ℕ, ◌-◌, String, refl, true, false, Option, none, some, [], ◌∷◌, ◌==◌, arith, eq_iff, eq_refl,
}
use indexer_gateway_auth.Prelude.{Bytes, ltb, Result, ok, err, codes, if◌then◌else◌}
use indexer_gateway_auth.Json.{Value, Members}
use indexer_gateway_auth.Config.{
  Config, AuthMode, Override, Policy, JwtConfig, default_policy, default_rate_limit,
}
use indexer_gateway_auth.Principal.{Principal}
use indexer_gateway_auth.Classify.{
  Classification, GraphQlRequest, RawBody, single, Parsers, NamedOperation, OperationInfo, write,
  mutation,
}
use indexer_gateway_auth.Classify.Syntax.{
  OperationType, field, fragment_spread, inline_fragment, SelectionSet, nil, cons, Fragments,
  Document,
}
use indexer_gateway_auth.Auth.{bearer_auth}
use indexer_gateway_auth.Auth.Token.{StaticTokenBackend}
use indexer_gateway_auth.Auth.Jwt.{JsonWebToken, KeyAlgorithm}
use indexer_gateway_auth.Proxy.{Headers, Proxy, ProxyResponse, UpstreamRequest}
use indexer_gateway_auth.RateLimit.{Governor}
use indexer_gateway_auth.RateLimit.Laws.{IsGovernor}
use indexer_gateway_auth.Server.{Deps, Inner, World, HttpRequest, Moment, no_metrics}

-- A document with a fragment that spreads itself, and a mutation that reads it.
abbrev pub rule_fields : SelectionSet
rule_fields =
    cons (inline_fragment (cons (fragment_spread "Rules") nil)) (cons (field "setRules") nil)

abbrev pub fragments : Fragments
fragments = ("Rules", rule_fields) ∷ []

abbrev pub send_rules : NamedOperation
send_rules = (
  some "Send",
  record { ty = OperationType.mutation; selection_set = cons (fragment_spread "Rules") nil },
)

abbrev pub look : NamedOperation
look = (some "Look", record { ty = OperationType.query; selection_set = cons (field "rules") nil })

abbrev pub document : Document
document = record { operations = look ∷ send_rules ∷ []; fragments = fragments }

abbrev pub send_request : GraphQlRequest
send_request = record { query = "document"; operation_name = some "Send" }

abbrev pub body_from : Bytes → Result String RawBody
body_from [] = err "end of file"
body_from (b ∷ bs) = ok (single send_request)

abbrev pub parsers : Parsers
parsers = record {
  from_slice = body_from;
  parse_query = λ text. if text == "document" then ok document else err "unexpected text";
}

abbrev pub body : Bytes
body = 123 ∷ 125 ∷ []

abbrev pub send_info : OperationInfo
send_info = record { name = some "Send"; kind = mutation; top_level_fields = "setRules" ∷ [] }

abbrev pub sent_rules : Classification
sent_rules = record { operations = send_info ∷ []; scope = write }

abbrev pub rules_need_admin : Override
rules_need_admin = record {
  field = some "setRules";
  operation = none;
  require_scopes = "admin" ∷ [];
}

abbrev pub policy : Policy
policy = record { fail_closed_on_parse_error = true; overrides = rules_need_admin ∷ [] }

abbrev pub lax : Policy
lax = record { fail_closed_on_parse_error = true; overrides = [] }

abbrev pub operator : Principal
operator = record { name = "operator"; scopes = "write" ∷ "admin" ∷ [] }

abbrev pub viewer : Principal
viewer = record { name = "viewer"; scopes = "read" ∷ [] }

abbrev pub tokens : StaticTokenBackend
tokens = record {
  tokens =
      record { name = "operator"; token = "t1"; scopes = "write" ∷ "admin" ∷ [] }
      ∷ record { name = "viewer"; token = "t2"; scopes = "read" ∷ [] }
      ∷ [];
}

-- Keys and key sets are texts; a token decodes under the key that it is.
abbrev pub crate : JsonWebToken String String
crate = record {
  from_secret = λ s. s;
  from_jwk = λ j. ok j;
  key_algorithm = λ j. some KeyAlgorithm.es256;
  decode = λ token key v. if token == key then ok (Value.object Members.end) else err "signature";
}

abbrev pub jwt_config : JwtConfig
jwt_config = record {
  issuer = "issuer";
  audience = "gateway";
  jwks_url = none;
  hs256_secret = some "secret";
  scopes_claim = "scopes";
}

-- The cells that each key has left; they are never filled again.
abbrev pub governor : Governor (String → ℕ)
governor = record {
  keyed = λ n key. n;
  check_key = λ l now key. (λ other. if other == key then l other - 1 else l other, ltb 0 (l key));
}

pub governor-IsGovernor : IsGovernor governor
governor-IsGovernor = record {
  cells = λ l now key. l key;
  cells-keyed = λ n now key. refl;
  check_key-allows = λ l now key. refl;
  cells-check_self = λ l now key. rw (eq_refl key) refl;
  cells-check_other = λ l now key later other d. ground (arith, eq_iff other key);
}

abbrev pub proxy : Proxy
proxy = record {
  agent_management = "http://agent:8000";
  graph_node_admin = none;
  graph_node_status = none;
}

abbrev pub answer : ProxyResponse
answer = record { status = 200; headers = ("content-length", codes "2") ∷ []; body = body }

abbrev pub send : UpstreamRequest → Result String ProxyResponse
send r = ok answer

abbrev pub text_of : Bytes → Option String
text_of [] = none
text_of (b ∷ bs) = some (if ltb b 66 then "Bearer t1" else "Bearer t2")

abbrev pub within : Bytes → ℕ → Option Bytes
within bytes limit = some bytes

abbrev pub deps : Deps String String (String → ℕ)
deps = record {
  ct_eq = λ a b. a == b;
  crate = crate;
  parsers = parsers;
  governor = governor;
  fingerprint = record { to_vec = λ v. []; sha256 = λ b. b; encode = λ b. "00" };
  to_str = text_of;
  from_slice = λ b. some (Value.object Members.end);
  to_bytes = within;
  send = send;
}

abbrev pub state : Inner String
state = record {
  authenticator = bearer_auth tokens;
  policy = policy;
  proxy = proxy;
  allow_anonymous_read = false;
  fail_closed_on_parse_error = true;
  audit_reads = false;
  log_variables = false;
  body_limit = 1048576;
}

abbrev pub start : World (String → ℕ)
start = record {
  rate_limiters = record { read = some (λ key. 600); write = some (λ key. 30) };
  audit = [];
  metrics = no_metrics;
  sent = [];
}

abbrev pub headers : Headers
headers =
    ("host", codes "gateway") ∷ ("authorization", 66 ∷ 101 ∷ []) ∷ ("accept", codes "*/*") ∷ []

abbrev pub post : HttpRequest
post = record {
  method = "POST";
  path_and_query = "/graphql";
  headers = headers;
  source_ip = "10.0.0.7";
  client_cert = none;
  body = body;
}

-- The same request with the operator's token.
abbrev pub operator_post : HttpRequest
operator_post = record post { headers = ("authorization", 65 ∷ []) ∷ ("accept", codes "*/*") ∷ [] }

abbrev pub at : Moment
at = record { now_rfc3339 = "2025-01-01T00:00:00Z"; instant = 0; latency_ms = 12 }

abbrev pub config : Config
config = record {
  listen = "0.0.0.0:8080";
  metrics = "0.0.0.0:9090";
  upstream = record {
    agent_management = "http://agent:8000/";
    graph_node_admin = none;
    graph_node_status = none;
  };
  tls = record {
    enabled = false;
    cert = none;
    key = none;
    require_client_cert = false;
    client_ca = none;
  };
  auth = record {
    mode = AuthMode.bearer;
    allow_anonymous_read = false;
    tokens = record { name = "operator"; token = "env:TOKEN"; scopes = "write" ∷ [] } ∷ [];
    jwt = some jwt_config;
    mtls = [];
  };
  policy = default_policy;
  ratelimit = default_rate_limit;
}

abbrev pub env : String → Option String
env name = if name == "TOKEN" then some "t1" else none

abbrev pub resolved : Config
resolved = record config {
  auth = record config.auth {
    tokens = record { name = "operator"; token = "t1"; scopes = "write" ∷ [] } ∷ [];
  };
}
