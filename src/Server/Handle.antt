-- ===== src/Server/Handle.antt =====
-- `handle` of src/server.rs: each stage is a function of what the stage before gave, and ends the
-- request by a response or goes on to the next.
use indexer_gateway_auth.Prelude.{String, Bool, true, false, ◌||◌, Option, none, some, List, ◌++◌}
use indexer_gateway_auth.Prelude.{Bytes, Result, ok, err, if◌then◌else◌}
use mathlib.Core.Option
use indexer_gateway_auth.Principal.{Principal}
use indexer_gateway_auth.Classify.{Classification}
use indexer_gateway_auth.Authz.{Denied, denied_text, authorize}
use indexer_gateway_auth.Auth.{Credentials, authenticate}
use indexer_gateway_auth.Auth.Error.{AuthError}
use indexer_gateway_auth.Proxy.{ProxyResponse, ProxyError, UpstreamRequest, route, forward}
use indexer_gateway_auth.RateLimit.{RateLimiters, check}
use indexer_gateway_auth.Audit.{denied, rejected, rate_limited, hash_variables}
use indexer_gateway_auth.Metrics.{
  record_request, inc_auth_failure, inc_authz_denied, inc_parse_error, inc_rate_limited,
}
use indexer_gateway_auth.Server.Request.{
  classify_request, scope_str, extract_bearer, extract_variables, Response, error_response,
  relay_response,
}
use indexer_gateway_auth.Server.{
  Deps, Inner, World, HttpRequest, Moment, emit, count, status_of_error, is_write,
}
use indexer_gateway_auth.Server.Records.{auth_failed_record, pre_upstream_record, forwarded_record}

module _ {Key Jwk Limiter : Type 0} (deps : Deps Key Jwk Limiter) (state : Inner Key)
    (req : HttpRequest) (at : Moment) where
  abbrev pub Step : Type 0
  Step = World Limiter → Response × World Limiter

  -- 5. What became of the forwarded request.
  unfoldable pub answered :
      Principal
      → Classification
      → Bytes
      → List UpstreamRequest × Result ProxyError ProxyResponse
      → Step
  answered p c body (requests, ok upstream) w =
      let variables = extract_variables deps.from_slice body in
      let hash = Option.map (hash_variables deps.fingerprint) variables in
      let logged = if state.log_variables then variables else none in
      let rec = forwarded_record req at p c hash logged (some upstream.status) in
      let w' =
        count (record_request (scope_str c.scope) p.name upstream.status at.latency_ms)
          (record w { sent = w.sent ++ requests }) in
      (relay_response upstream, if is_write c.scope || state.audit_reads then emit rec w' else w')
  answered p c body (requests, err e) w =
      let variables = extract_variables deps.from_slice body in
      let hash = Option.map (hash_variables deps.fingerprint) variables in
      let w' =
        count (record_request (scope_str c.scope) p.name (status_of_error e) at.latency_ms)
          (record w { sent = w.sent ++ requests }) in
      (
        error_response (status_of_error e) "upstream unavailable" false,
        emit (forwarded_record req at p c hash none none) w',
      )

  unfoldable pub proxied : Principal → Classification → Bytes → Step
  proxied p c body w =
      answered p c body
        (forward deps.send state.proxy req.method req.path_and_query req.headers body) w

  -- 4b. The answer of the rate limiters.
  unfoldable pub limited : Principal → Classification → Bytes → RateLimiters Limiter × Bool → Step
  limited p c body (limiters, true) w = proxied p c body (record w { rate_limiters = limiters })
  limited p c body (limiters, false) w = (
    error_response 429 "rate limit exceeded" false,
    count inc_rate_limited (
        emit (pre_upstream_record req at p (some c) rate_limited)
          (record w { rate_limiters = limiters })),
  )

  -- 4. The decision of the authorization.
  unfoldable pub authorized :
      Principal → Classification → Bytes → Result Denied (List String) → Step
  authorized p c body (ok required) w =
      limited p c body (check deps.governor w.rate_limiters at.instant c.scope p.name) w
  authorized p c body (err d) w = (
    error_response 403 (denied_text d) false,
    count inc_authz_denied
        (emit (pre_upstream_record req at p (some c) (denied (denied_text d))) w),
  )

  -- 3. The classification, or the reason why there is none.
  unfoldable pub classified : Principal → Bytes → Result String Classification → Step
  classified p body (ok c) w = authorized p c body (authorize p c state.policy) w
  classified p body (err reason) w = (
    error_response 400 reason false,
    count inc_parse_error (emit (pre_upstream_record req at p none (rejected reason)) w),
  )

  -- 2. The body, if it could be read within the limit.
  unfoldable pub with_body : Principal → Option Bytes → Step
  with_body p none w = (error_response 413 "request body too large" false, w)
  with_body p (some body) w =
      classified p body
        (classify_request deps.parsers req.method (route req.path_and_query).0 body
          state.fail_closed_on_parse_error)
        w

  -- 1. The caller, or why there is none.
  unfoldable pub authenticated : Result AuthError Principal → Step
  authenticated (ok p) w = with_body p (deps.to_bytes req.body state.body_limit) w
  authenticated (err e) w = (
    error_response 401 "unauthorized" true,
    count inc_auth_failure (emit (auth_failed_record req at e) w),
  )

  abbrev pub credentials : Credentials
  credentials = record {
    bearer = extract_bearer deps.to_str req.headers;
    client_cert = req.client_cert;
  }

  unfoldable pub handle : Step
  handle w =
      authenticated
        (authenticate deps.ct_eq deps.crate state.authenticator credentials
          state.allow_anonymous_read)
        w
