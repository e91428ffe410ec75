-- ===== src/Server/Counting.antt =====
-- What the metrics count.
use indexer_gateway_auth.Prelude.{
  ℕ, suc, ◌+◌, ◌≡◌, refl, ◌⊎◌, inl, inr, ◌||◌, none, List, [], ◌∷◌, arith,
}
use indexer_gateway_auth.Prelude.{Bytes, Result, ok, err, length, length-append, Bool-cases}
use indexer_gateway_auth.Principal.{Principal}
use indexer_gateway_auth.Classify.{Classification}
use indexer_gateway_auth.Proxy.{ProxyResponse, ProxyError, UpstreamRequest}
use indexer_gateway_auth.Metrics.{
  Metrics, record_request, inc_auth_failure, inc_authz_denied, inc_parse_error, inc_rate_limited,
}
use indexer_gateway_auth.Server.Request.{Response}
use indexer_gateway_auth.Server.{Deps, Inner, World, HttpRequest, Moment, is_write}
use indexer_gateway_auth.Server.Handle.{answered, handle}
use indexer_gateway_auth.Server.Ends.{
  body_read, rate_check, exchange, Ended, unauthenticated, too_large, unclassified, unauthorized,
  over_budget, passed, handle-Ended,
}

-- The number of events that the metrics have counted.
abbrev pub events : Metrics → ℕ
events m =
    length m.requests
    + m.auth_failures_total
    + m.authz_denied_total
    + m.parse_errors_total
    + m.rate_limited_total

module _ {Key Jwk Limiter : Type 0} (deps : Deps Key Jwk Limiter) (state : Inner Key)
    (req : HttpRequest) (at : Moment) where
  pub answered-counted :
      (p : Principal) (c : Classification) (body : Bytes)
      (f : List UpstreamRequest × Result ProxyError ProxyResponse) (w : World Limiter)
      → events (answered deps state req at p c body f w).1.metrics ≡ suc (events w.metrics)
  unfolding answered record_request
  answered-counted p c body (rs, err x) w = omega (arith, length-append w.metrics.requests (_ ∷ []))
  answered-counted p c body (rs, ok r) w =
      elim (Bool-cases (is_write c.scope || state.audit_reads)) [
        | inl e ↦ rw e (omega (arith, length-append w.metrics.requests (_ ∷ [])))
        | inr e ↦ rw e (omega (arith, length-append w.metrics.requests (_ ∷ [])))
      ]

  Ended-counted :
      {w : World Limiter} {r : Response × World Limiter}
      → Ended deps state req at w r
      → (events r.1.metrics ≡ suc (events w.metrics))
        ⊎ ((body_read deps state req at ≡ none) × (r.1.metrics ≡ w.metrics))
  unfolding inc_auth_failure inc_authz_denied inc_parse_error inc_rate_limited
  Ended-counted (unauthenticated e a) = inl (omega arith)
  Ended-counted (too_large p a b) = inr (b, refl)
  Ended-counted (unclassified p body reason a b k) = inl (omega arith)
  Ended-counted (unauthorized p body c d a b k z) = inl (omega arith)
  Ended-counted (over_budget p body c required a b k z l) = inl (omega arith)
  Ended-counted {w} (passed p body c required a b k z l) =
      let w1 = record w { rate_limiters = (rate_check deps state req at w p c).0 } in
      inl (answered-counted p c body (exchange deps state req at body) w1)

  -- A request counts in the metrics as exactly one event: one failure of authentication, of parsing,
  -- of authorization or of the rate limit, or one forwarded request. Only a request whose body was
  -- too large counts as none.
  pub handle_counts :
      (w : World Limiter)
      → (events (handle deps state req at w).1.metrics ≡ suc (events w.metrics))
        ⊎ ((body_read deps state req at ≡ none)
            × ((handle deps state req at w).1.metrics ≡ w.metrics))
  handle_counts w = Ended-counted (handle-Ended deps state req at w)
