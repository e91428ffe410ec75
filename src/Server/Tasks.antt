-- ===== src/Server/Tasks.antt =====
-- `handle` of src/server.rs as the sequence of its accesses to what requests share: the limiters,
-- the upstreams, the audit sink and the metrics. Other requests may run between any two of them.
pub mod Remaining
pub mod Same
pub mod Schedule
use indexer_gateway_auth.Prelude.{
  ℕ, zero, suc, String, Bool, true, false, ◌||◌, Option, none, some, List, [], ◌∷◌, ◌++◌,
}
use indexer_gateway_auth.Prelude.{Bytes, Result, ok, err, if◌then◌else◌}
use mathlib.Core.Option
use indexer_gateway_auth.Principal.{Principal}
use indexer_gateway_auth.Classify.{Classification}
use indexer_gateway_auth.Authz.{Denied, denied_text, authorize}
use indexer_gateway_auth.Auth.{authenticate}
use indexer_gateway_auth.Auth.Error.{AuthError}
use indexer_gateway_auth.Proxy.{ProxyResponse, ProxyError, UpstreamRequest, route, forward}
use indexer_gateway_auth.RateLimit.{RateLimiters, check}
use indexer_gateway_auth.Audit.{AuditRecord, denied, rejected, rate_limited, hash_variables}
use indexer_gateway_auth.Metrics.{
  Count, auth_failure, denial, unparsed, limited, request, record_count,
}
use indexer_gateway_auth.Server.Request.{
  classify_request, scope_str, extract_variables, Response, error_response, relay_response,
}
use indexer_gateway_auth.Server.{
  Deps, Inner, World, HttpRequest, Moment, emit, count, status_of_error, is_write,
}
use indexer_gateway_auth.Server.Records.{auth_failed_record, pre_upstream_record, forwarded_record}
use indexer_gateway_auth.Server.Handle.{credentials}

-- What is left to write once the response is known.
pub data Effect : Type 0 where
  records : AuditRecord → Effect
  counts : Count → Effect

abbrev pub apply : {Limiter : Type 0} → Effect → World Limiter → World Limiter
apply (records rec) w = emit rec w
apply (counts c) w = count (record_count c) w

-- Where a request stands: before the limiters, before the upstream, or with a response and what is
-- left to write.
pub data Stage : Type 0 where
  arrived : Stage
  charging sending : Principal → Bytes → Classification → Stage
  ending : List Effect → Response → Stage

abbrev pub is_finished : Stage → Bool
is_finished (ending [] r) = true
is_finished _ = false

module _ {Key Jwk Limiter : Type 0} (deps : Deps Key Jwk Limiter) (state : Inner Key)
    (req : HttpRequest) (at : Moment) where
  -- The stages of `handle` that only read the request and the configuration.
  abbrev pub after_authorize :
      Principal → Bytes → Classification → Result Denied (List String) → Stage
  after_authorize p body c (ok required) = charging p body c
  after_authorize p body c (err d) =
      ending
        (records (pre_upstream_record req at p (some c) (denied (denied_text d)))
          ∷ counts denial
          ∷ [])
        (error_response 403 (denied_text d) false)

  abbrev pub after_classify : Principal → Bytes → Result String Classification → Stage
  after_classify p body (ok c) = after_authorize p body c (authorize p c state.policy)
  after_classify p body (err reason) =
      ending (records (pre_upstream_record req at p none (rejected reason)) ∷ counts unparsed ∷ [])
        (error_response 400 reason false)

  abbrev pub after_body : Principal → Option Bytes → Stage
  after_body p none = ending [] (error_response 413 "request body too large" false)
  after_body p (some body) = after_classify p body (
      classify_request deps.parsers req.method (route req.path_and_query).0 body
        state.fail_closed_on_parse_error)

  abbrev pub after_authenticate : Result AuthError Principal → Stage
  after_authenticate (ok p) = after_body p (deps.to_bytes req.body state.body_limit)
  after_authenticate (err e) =
      ending (records (auth_failed_record req at e) ∷ counts auth_failure ∷ [])
        (error_response 401 "unauthorized" true)

  -- The answer of the limiters.
  abbrev pub after_check : Principal → Bytes → Classification → Bool → Stage
  after_check p body c true = sending p body c
  after_check p body c false =
      ending (records (pre_upstream_record req at p (some c) rate_limited) ∷ counts limited ∷ [])
        (error_response 429 "rate limit exceeded" false)

  -- The answer of the upstream: the metrics first, then the record.
  abbrev pub after_forward :
      Principal → Bytes → Classification → Result ProxyError ProxyResponse → Stage
  after_forward p body c (ok upstream) =
      let variables = extract_variables deps.from_slice body in
      let hash = Option.map (hash_variables deps.fingerprint) variables in
      let logged = if state.log_variables then variables else none in
      let rec = forwarded_record req at p c hash logged (some upstream.status) in
      let counted = counts (request (scope_str c.scope) p.name upstream.status at.latency_ms) in
      ending (counted ∷ (if is_write c.scope || state.audit_reads then records rec ∷ [] else []))
        (relay_response upstream)
  after_forward p body c (err e) =
      let variables = extract_variables deps.from_slice body in
      let hash = Option.map (hash_variables deps.fingerprint) variables in
      let counted = counts (request (scope_str c.scope) p.name (status_of_error e) at.latency_ms) in
      ending (counted ∷ records (forwarded_record req at p c hash none none) ∷ [])
        (error_response (status_of_error e) "upstream unavailable" false)

  -- One access: each changes one part of what is shared.
  unfoldable pub step : Stage → World Limiter → Stage × World Limiter
  step arrived w = (
    after_authenticate (
        authenticate deps.ct_eq deps.crate state.authenticator (credentials deps state req at)
          state.allow_anonymous_read),
    w,
  )
  step (charging p body c) w =
      let (limiters, allowed) = check deps.governor w.rate_limiters at.instant c.scope p.name in
      (after_check p body c allowed, record w { rate_limiters = limiters })
  step (sending p body c) w =
      let (requests, result) =
        forward deps.send state.proxy req.method req.path_and_query req.headers body in
      (after_forward p body c result, record w { sent = w.sent ++ requests })
  step (ending [] r) w = (ending [] r, w)
  step (ending (e ∷ es) r) w = (ending es r, apply e w)
