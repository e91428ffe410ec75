-- ===== src/Metrics.antt =====
-- src/metrics.rs: the counters, as the state that the recording helpers change.
pub mod Endpoint
use indexer_gateway_auth.Prelude.{ℕ, suc, String, List, [], ◌∷◌, ◌++◌}

-- One observation of `requests_total` and `proxy_latency_seconds`; the latency is in milliseconds.
pub record Observation : Type 0 where
  pub scope : String
  pub principal : String
  pub status : ℕ
  pub latency_ms : ℕ

pub record Metrics : Type 0 where
  pub requests : List Observation
  pub auth_failures_total : ℕ
  pub authz_denied_total : ℕ
  pub parse_errors_total : ℕ
  pub rate_limited_total : ℕ

unfoldable pub record_request : String → String → ℕ → ℕ → Metrics → Metrics
record_request scope principal status latency_ms m = record m {
  requests =
      m.requests
      ++ record { scope = scope; principal = principal; status = status; latency_ms = latency_ms }
        ∷ [];
}

unfoldable pub inc_auth_failure : Metrics → Metrics
inc_auth_failure m = record m { auth_failures_total = suc m.auth_failures_total }

unfoldable pub inc_authz_denied : Metrics → Metrics
inc_authz_denied m = record m { authz_denied_total = suc m.authz_denied_total }

unfoldable pub inc_parse_error : Metrics → Metrics
inc_parse_error m = record m { parse_errors_total = suc m.parse_errors_total }

unfoldable pub inc_rate_limited : Metrics → Metrics
inc_rate_limited m = record m { rate_limited_total = suc m.rate_limited_total }

-- A call of one of the helpers, as a value.
pub data Count : Type 0 where
  auth_failure denial unparsed limited : Count
  request : (scope principal : String) (status latency_ms : ℕ) → Count

abbrev pub record_count : Count → Metrics → Metrics
record_count auth_failure m = inc_auth_failure m
record_count denial m = inc_authz_denied m
record_count unparsed m = inc_parse_error m
record_count limited m = inc_rate_limited m
record_count (request scope principal status latency_ms) m =
    record_request scope principal status latency_ms m
