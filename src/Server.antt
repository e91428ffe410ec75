-- ===== src/Server.antt =====
-- src/server.rs: the pipeline of a request, as a function on the state that requests share.
-- What the handler awaits or asks of its surroundings is an argument: see `Deps` and `Moment`.
pub mod Request
pub mod Records
pub mod Handle
pub mod Ends
pub mod Mediation
pub mod Auditing
pub mod Counting
pub mod Reconciling
pub mod Budget
pub mod History
pub mod Mutations
pub mod Tasks
pub mod Router
use indexer_gateway_auth.Prelude.{
  ℕ, String, Bool, true, false, not, ◌||◌, ◌*◌, Option, none, some, List, [], ◌∷◌, ◌++◌, map,
}
use indexer_gateway_auth.Prelude.{Bytes, Result, ok, err, and_then, if◌then◌else◌}
use mathlib.Core.Option
use indexer_gateway_auth.Json.{Value}
use indexer_gateway_auth.Config.{Config, Policy}
use indexer_gateway_auth.Principal.{Principal}
use indexer_gateway_auth.Classify.{Scope, read, write, Classification, Parsers}
use indexer_gateway_auth.Authz.{Denied, denied_text, authorize}
use indexer_gateway_auth.Auth.{Authenticator, Credentials, authenticate}
use indexer_gateway_auth.Auth.Error.{AuthError, error_text}
use indexer_gateway_auth.Auth.Mtls.{ClientCert}
use indexer_gateway_auth.Auth.Jwt.{JsonWebToken}
use indexer_gateway_auth.Proxy.{
  Headers, Proxy, ProxyResponse, ProxyError, no_upstream, UpstreamRequest, route, forward,
}
use indexer_gateway_auth.RateLimit
use indexer_gateway_auth.RateLimit.{Governor, RateLimiters, check}
use indexer_gateway_auth.Audit.{
  Outcome, allowed, auth_failed, denied, rejected, rate_limited, AuditRecord, Fingerprint,
  hash_variables,
}
use indexer_gateway_auth.Metrics.{
  Metrics, record_request, inc_auth_failure, inc_authz_denied, inc_parse_error, inc_rate_limited,
}
use Request.{
  classify_request, scope_str, first_op_name, top_fields, operation_kinds, extract_bearer,
  extract_variables, Response, error_response, relay_response,
}

-- The crates that the handler uses, and the upstreams.
pub record Deps (Key Jwk Limiter : Type 0) : Type 0 where
  pub ct_eq : String → String → Bool
  pub crate : JsonWebToken Key Jwk
  pub parsers : Parsers
  pub governor : Governor Limiter
  pub fingerprint : Fingerprint
  -- `HeaderValue::to_str`, and `serde_json::from_slice::<Value>`
  pub to_str : Bytes → Option String
  pub from_slice : Bytes → Option Value
  -- `axum::body::to_bytes(body, limit)`: none if the body is longer, or breaks off
  pub to_bytes : Bytes → ℕ → Option Bytes
  pub send : UpstreamRequest → Result String ProxyResponse

-- The part of `Inner` that no request changes.
pub record Inner (Key : Type 0) : Type 0 where
  pub authenticator : Authenticator Key
  pub policy : Policy
  pub proxy : Proxy
  pub allow_anonymous_read : Bool
  pub fail_closed_on_parse_error : Bool
  pub audit_reads : Bool
  pub log_variables : Bool
  pub body_limit : ℕ

pub record AppOptions : Type 0 where
  pub audit_reads : Bool
  pub log_variables : Bool
  pub body_limit : ℕ

-- `AppOptions::default`
abbrev pub default_options : AppOptions
default_options = record { audit_reads = false; log_variables = false; body_limit = 1024 * 1024 }

-- What requests change: the limiters, the records that were handed to the audit sink, the metrics,
-- and the requests that went to an upstream.
pub record World (Limiter : Type 0) : Type 0 where
  pub rate_limiters : RateLimiters Limiter
  pub audit : List AuditRecord
  pub metrics : Metrics
  pub sent : List UpstreamRequest

abbrev pub no_metrics : Metrics
no_metrics = record {
  requests = [];
  auth_failures_total = 0;
  authz_denied_total = 0;
  parse_errors_total = 0;
  rate_limited_total = 0;
}

pub record HttpRequest : Type 0 where
  pub method : String
  pub path_and_query : String
  pub headers : Headers
  pub source_ip : String
  pub client_cert : Option ClientCert
  pub body : Bytes

-- The clocks, as the request reads them.
pub record Moment : Type 0 where
  pub now_rfc3339 : String
  pub instant : ℕ
  pub latency_ms : ℕ

module _ {Limiter : Type 0} where
  abbrev pub emit : AuditRecord → World Limiter → World Limiter
  emit rec w = record w { audit = w.audit ++ rec ∷ [] }

  abbrev pub count : (Metrics → Metrics) → World Limiter → World Limiter
  count f w = record w { metrics = f w.metrics }

abbrev pub status_of_error : ProxyError → ℕ
status_of_error (no_upstream t) = 404
status_of_error _ = 502

abbrev pub is_write : Scope → Bool
is_write write = true
is_write read = false

module _ {Key Jwk Limiter : Type 0} (deps : Deps Key Jwk Limiter) where
  -- `AppState::new`, with the state that the first request finds.
  unfoldable pub new_state :
      Config → Authenticator Key → Proxy → AppOptions → Inner Key × World Limiter
  new_state config authenticator proxy options = (
    record {
      authenticator = authenticator;
      policy = config.policy;
      proxy = proxy;
      allow_anonymous_read = config.auth.allow_anonymous_read;
      fail_closed_on_parse_error = config.policy.fail_closed_on_parse_error;
      audit_reads = options.audit_reads;
      log_variables = options.log_variables;
      body_limit = options.body_limit;
    },
    record {
      rate_limiters =
          RateLimit.new deps.governor config.ratelimit.read_per_minute
            config.ratelimit.write_per_minute;
      audit = [];
      metrics = no_metrics;
      sent = [];
    },
  )
