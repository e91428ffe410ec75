-- ===== src/Config/Decode.antt =====
-- The deserialization of src/config.rs: from a TOML table to a configuration, as the attributes of
-- serde say. What the crate toml does with values that are no tables is an argument.
pub mod Fields
pub mod Known
pub mod Document
pub mod RoundTrip
use indexer_gateway_auth.Prelude.{
  String, Bool, false, Option, none, some, List, [], ◌∷◌, ◌==◌, Result, ok, err, ok_or,
  if◌then◌else◌,
}
use indexer_gateway_auth.Config.{
  Config, Upstream, Tls, AuthMode, MtlsMapping, TokenEntry, JwtConfig, Auth, Override, Policy,
  RateLimit, default_scopes_claim, default_true, default_write_per_minute, default_read_per_minute,
  default_policy, default_rate_limit,
}
use indexer_gateway_auth.Config.Toml.{Value, Table}
use Fields.{◌>>=◌, string_from, bool_from, u32_from, vec_from, required, defaulted, optional, known}

-- The crate: the named fields that a value gives to a struct, the name of a unit variant that a value
-- is, and which texts are socket addresses.
pub record Toml : Type 0 where
  pub as_fields : List String → Value → Option Table
  pub variant_of : Value → Option String
  pub is_socket_addr : String → Bool

-- `rename_all = "lowercase"`
abbrev pub mode_of : String → Option AuthMode
mode_of name =
    if name == "bearer"
    then some AuthMode.bearer
    else (if name == "jwt"
        then some AuthMode.jwt
        else (if name == "mtls" then some AuthMode.mtls else none))

abbrev pub upstream_fields : List String
upstream_fields = "agent_management" ∷ "graph_node_admin" ∷ "graph_node_status" ∷ []

abbrev pub upstream_from : Table → Option Upstream
upstream_from t = do
  agent_management ← required string_from "agent_management" t
  graph_node_admin ← optional string_from "graph_node_admin" t
  graph_node_status ← optional string_from "graph_node_status" t
  some (record {
    agent_management = agent_management;
    graph_node_admin = graph_node_admin;
    graph_node_status = graph_node_status;
  })

abbrev pub tls_fields : List String
tls_fields = "enabled" ∷ "cert" ∷ "key" ∷ "require_client_cert" ∷ "client_ca" ∷ []

abbrev pub tls_from : Table → Option Tls
tls_from t = do
  enabled ← defaulted bool_from false "enabled" t
  cert ← optional string_from "cert" t
  key ← optional string_from "key" t
  require_client_cert ← defaulted bool_from false "require_client_cert" t
  client_ca ← optional string_from "client_ca" t
  some (record {
    enabled = enabled;
    cert = cert;
    key = key;
    require_client_cert = require_client_cert;
    client_ca = client_ca;
  })

-- `Tls::default`
abbrev pub default_tls : Tls
default_tls = record {
  enabled = false;
  cert = none;
  key = none;
  require_client_cert = false;
  client_ca = none;
}

abbrev pub mapping_fields : List String
mapping_fields = "subject" ∷ "name" ∷ "scopes" ∷ []

abbrev pub mapping_from : Table → Option MtlsMapping
mapping_from t = do
  subject ← required string_from "subject" t
  name ← required string_from "name" t
  scopes ← required (vec_from string_from) "scopes" t
  some (record { subject = subject; name = name; scopes = scopes })

abbrev pub token_fields : List String
token_fields = "name" ∷ "token" ∷ "scopes" ∷ []

abbrev pub token_from : Table → Option TokenEntry
token_from t = do
  name ← required string_from "name" t
  token ← required string_from "token" t
  scopes ← required (vec_from string_from) "scopes" t
  some (record { name = name; token = token; scopes = scopes })

abbrev pub jwt_fields : List String
jwt_fields = "issuer" ∷ "audience" ∷ "jwks_url" ∷ "hs256_secret" ∷ "scopes_claim" ∷ []

abbrev pub jwt_from : Table → Option JwtConfig
jwt_from t = do
  issuer ← required string_from "issuer" t
  audience ← required string_from "audience" t
  jwks_url ← optional string_from "jwks_url" t
  hs256_secret ← optional string_from "hs256_secret" t
  scopes_claim ← defaulted string_from default_scopes_claim "scopes_claim" t
  some (record {
    issuer = issuer;
    audience = audience;
    jwks_url = jwks_url;
    hs256_secret = hs256_secret;
    scopes_claim = scopes_claim;
  })

abbrev pub override_fields : List String
override_fields = "field" ∷ "operation" ∷ "require_scopes" ∷ []

abbrev pub override_from : Table → Option Override
override_from t = do
  field ← optional string_from "field" t
  operation ← optional string_from "operation" t
  require_scopes ← required (vec_from string_from) "require_scopes" t
  some (record { field = field; operation = operation; require_scopes = require_scopes })

abbrev pub ratelimit_fields : List String
ratelimit_fields = "write_per_minute" ∷ "read_per_minute" ∷ []

abbrev pub ratelimit_from : Table → Option RateLimit
ratelimit_from t = do
  write ← defaulted u32_from default_write_per_minute "write_per_minute" t
  read ← defaulted u32_from default_read_per_minute "read_per_minute" t
  some (record { write_per_minute = write; read_per_minute = read })

abbrev pub policy_fields : List String
policy_fields = "fail_closed_on_parse_error" ∷ "override" ∷ []

abbrev pub auth_fields : List String
auth_fields = "mode" ∷ "allow_anonymous_read" ∷ "tokens" ∷ "jwt" ∷ "mtls" ∷ []

abbrev pub config_fields : List String
config_fields = "listen" ∷ "metrics" ∷ "upstream" ∷ "tls" ∷ "auth" ∷ "policy" ∷ "ratelimit" ∷ []

module _ (toml : Toml) where
  -- A struct as a value.
  unfoldable pub struct : {A : Type 0} → List String → (Table → Option A) → Value → Option A
  struct names decode v = toml.as_fields names v >>= λ t. known names decode t

  abbrev pub mode_from : Value → Option AuthMode
  mode_from v = toml.variant_of v >>= mode_of

  abbrev pub socket_addr_from : Value → Option String
  socket_addr_from v =
      string_from v >>= λ text. if toml.is_socket_addr text then some text else none

  abbrev pub auth_from : Table → Option Auth
  auth_from t = do
    mode ← required mode_from "mode" t
    anonymous ← defaulted bool_from false "allow_anonymous_read" t
    tokens ← defaulted (vec_from (struct token_fields token_from)) [] "tokens" t
    jwt ← optional (struct jwt_fields jwt_from) "jwt" t
    mtls ← defaulted (vec_from (struct mapping_fields mapping_from)) [] "mtls" t
    some (record {
      mode = mode;
      allow_anonymous_read = anonymous;
      tokens = tokens;
      jwt = jwt;
      mtls = mtls;
    })

  abbrev pub policy_from : Table → Option Policy
  policy_from t = do
    closed ← defaulted bool_from default_true "fail_closed_on_parse_error" t
    overrides ← defaulted (vec_from (struct override_fields override_from)) [] "override" t
    some (record { fail_closed_on_parse_error = closed; overrides = overrides })

  abbrev pub document_from : Table → Option Config
  document_from t = do
    listen ← required socket_addr_from "listen" t
    metrics ← required socket_addr_from "metrics" t
    upstream ← required (struct upstream_fields upstream_from) "upstream" t
    tls ← defaulted (struct tls_fields tls_from) default_tls "tls" t
    auth ← required (struct auth_fields auth_from) "auth" t
    policy ← defaulted (struct policy_fields policy_from) default_policy "policy" t
    ratelimit ← defaulted (struct ratelimit_fields ratelimit_from) default_rate_limit "ratelimit" t
    some (record {
      listen = listen;
      metrics = metrics;
      upstream = upstream;
      tls = tls;
      auth = auth;
      policy = policy;
      ratelimit = ratelimit;
    })

  -- `Config::deserialize`; a document is a table.
  unfoldable pub config_from : Table → Option Config
  config_from t = known config_fields document_from t

  -- `toml::from_str::<Config>`: `parse` reads the text, and `explain` is the crate's text for a
  -- document that does not fit.
  unfoldable pub from_str :
      (String → Result String Table) → (Table → String) → String → Result String Config
  from_str parse explain text = elim (parse text) [
    | err e ↦ err e
    | ok t ↦ ok_or (config_from t) (explain t)
  ]
