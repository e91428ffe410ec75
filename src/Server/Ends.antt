-- ===== src/Server/Ends.antt =====
-- How a request ends: the stage that it reaches, with what each stage before it gave.
use indexer_gateway_auth.Prelude.{
  String, ◌≡◌, inl, inr, Bool, true, false, Option, none, some, List,
}
use indexer_gateway_auth.Prelude.{Bytes, Result, ok, err, Result-cases, Option-cases, Bool-cases}
use indexer_gateway_auth.Principal.{Principal}
use indexer_gateway_auth.Classify.{Classification}
use indexer_gateway_auth.Authz.{Denied, denied_text, authorize}
use indexer_gateway_auth.Auth.{authenticate}
use indexer_gateway_auth.Auth.Error.{AuthError}
use indexer_gateway_auth.Proxy.{ProxyResponse, ProxyError, UpstreamRequest, route, forward}
use indexer_gateway_auth.RateLimit.{RateLimiters, check}
use indexer_gateway_auth.Audit.{denied, rejected, rate_limited}
use indexer_gateway_auth.Metrics.{
  inc_auth_failure, inc_authz_denied, inc_parse_error, inc_rate_limited,
}
use indexer_gateway_auth.Server.Request.{classify_request, Response, error_response}
use indexer_gateway_auth.Server.{Deps, Inner, World, HttpRequest, Moment, emit, count}
use indexer_gateway_auth.Server.Records.{auth_failed_record, pre_upstream_record}
use indexer_gateway_auth.Server.Handle.{
  answered, proxied, limited, authorized, classified, with_body, authenticated, credentials, handle,
}

module _ {Key Jwk Limiter : Type 0} (deps : Deps Key Jwk Limiter) (state : Inner Key)
    (req : HttpRequest) (at : Moment) where
  -- The answers of the stages.
  abbrev pub authn : Result AuthError Principal
  authn =
      authenticate deps.ct_eq deps.crate state.authenticator (credentials deps state req at)
        state.allow_anonymous_read

  abbrev pub body_read : Option Bytes
  body_read = deps.to_bytes req.body state.body_limit

  abbrev pub classification_of : Bytes → Result String Classification
  classification_of body =
      classify_request deps.parsers req.method (route req.path_and_query).0 body
        state.fail_closed_on_parse_error

  abbrev pub rate_check : World Limiter → Principal → Classification → RateLimiters Limiter × Bool
  rate_check w p c = check deps.governor w.rate_limiters at.instant c.scope p.name

  abbrev pub exchange : Bytes → List UpstreamRequest × Result ProxyError ProxyResponse
  exchange body = forward deps.send state.proxy req.method req.path_and_query req.headers body

  pub data Ended (w : World Limiter) : Response × World Limiter → Type 0 where
    unauthenticated :
        (e : AuthError)
        → authn ≡ err e
        → Ended w (
          error_response 401 "unauthorized" true,
          count inc_auth_failure (emit (auth_failed_record req at e) w),
        )
    too_large :
        (p : Principal)
        → authn ≡ ok p
        → body_read ≡ none
        → Ended w (error_response 413 "request body too large" false, w)
    unclassified :
        (p : Principal) (body : Bytes) (reason : String)
        → authn ≡ ok p
        → body_read ≡ some body
        → classification_of body ≡ err reason
        → Ended w (
          error_response 400 reason false,
          count inc_parse_error (emit (pre_upstream_record req at p none (rejected reason)) w),
        )
    unauthorized :
        (p : Principal) (body : Bytes) (c : Classification) (d : Denied)
        → authn ≡ ok p
        → body_read ≡ some body
        → classification_of body ≡ ok c
        → authorize p c state.policy ≡ err d
        → Ended w (
          error_response 403 (denied_text d) false,
          count inc_authz_denied
              (emit (pre_upstream_record req at p (some c) (denied (denied_text d))) w),
        )
    over_budget :
        (p : Principal) (body : Bytes) (c : Classification) (required : List String)
        → authn ≡ ok p
        → body_read ≡ some body
        → classification_of body ≡ ok c
        → authorize p c state.policy ≡ ok required
        → (rate_check w p c).1 ≡ false
        → Ended w (
          error_response 429 "rate limit exceeded" false,
          count inc_rate_limited (
              emit
                (pre_upstream_record req at p (some c) rate_limited)
                (record w { rate_limiters = (rate_check w p c).0 })),
        )
    passed :
        (p : Principal) (body : Bytes) (c : Classification) (required : List String)
        → authn ≡ ok p
        → body_read ≡ some body
        → classification_of body ≡ ok c
        → authorize p c state.policy ≡ ok required
        → (rate_check w p c).1 ≡ true
        → Ended w (
            answered deps state req at p c body
              (exchange body)
              (record w { rate_limiters = (rate_check w p c).0 }))

  module _ (w : World Limiter) where
    limited-Ended :
        (p : Principal) (body : Bytes) (c : Classification) (required : List String)
        → authn ≡ ok p
        → body_read ≡ some body
        → classification_of body ≡ ok c
        → authorize p c state.policy ≡ ok required
        → Ended w (limited deps state req at p c body (rate_check w p c) w)
    unfolding limited proxied
    limited-Ended p body c required a b k z = elim (Bool-cases (rate_check w p c).1) [
      | inl e ↦ rw e (passed p body c required a b k z e)
      | inr e ↦ rw e (over_budget p body c required a b k z e)
    ]

    classified-Ended :
        (p : Principal) (body : Bytes)
        → authn ≡ ok p
        → body_read ≡ some body
        → Ended w (classified deps state req at p body (classification_of body) w)
    unfolding classified authorized
    classified-Ended p body a b = elim (Result-cases (classification_of body)) [
      | inr (reason, e) ↦ rw e (unclassified p body reason a b e)
      | inl (c, e) ↦ elim (Result-cases (authorize p c state.policy)) [
        | inr (d, f) ↦ rw (e, f) (unauthorized p body c d a b e f)
        | inl (required, f) ↦ rw (e, f) (limited-Ended p body c required a b e f)
      ]
    ]

    -- Every request ends in one of these ways.
    pub handle-Ended : Ended w (handle deps state req at w)
    unfolding handle authenticated with_body
    handle-Ended = elim (Result-cases authn) [
      | inr (e, h) ↦ rw h (unauthenticated e h)
      | inl (p, h) ↦ elim (Option-cases body_read) [
        | inl b ↦ rw (h, b) (too_large p h b)
        | inr (body, b) ↦ rw (h, b) (classified-Ended p body h b)
      ]
    ]
