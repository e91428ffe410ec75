-- ===== src/Server/Mediation.antt =====
-- What reaches an upstream.
use mathlib.Core.List.{append-nil}
use indexer_gateway_auth.Prelude.{
  String, ◌≡◌, refl, ap, ◌∙◌, ◌⊎◌, inl, inr, true, ◌||◌, some, List, [], ◌∷◌, ◌++◌,
}
use indexer_gateway_auth.Prelude.{Bytes, Result, ok, err, Bool-cases}
use indexer_gateway_auth.Prelude.Sets.{◌∈◌}
use indexer_gateway_auth.Principal.{Principal}
use indexer_gateway_auth.Classify.{write, Classification}
use indexer_gateway_auth.Authz.{authorize}
use indexer_gateway_auth.Authz.Laws.{authorize-write}
use indexer_gateway_auth.Proxy.{
  ProxyResponse, ProxyError, UpstreamRequest, upstream_request, route, base_for,
}
use indexer_gateway_auth.Proxy.Forward.{forward_cases}
use indexer_gateway_auth.Server.Request.{Response}
use indexer_gateway_auth.Server.{Deps, Inner, World, HttpRequest, Moment, is_write}
use indexer_gateway_auth.Server.Handle.{answered, handle}
use indexer_gateway_auth.Server.Ends.{
  authn, body_read, classification_of, rate_check, exchange, Ended, unauthenticated, too_large,
  unclassified, unauthorized, over_budget, passed, handle-Ended,
}

module _ {Key Jwk Limiter : Type 0} (deps : Deps Key Jwk Limiter) (state : Inner Key)
    (req : HttpRequest) (at : Moment) where
  -- Why a request went to an upstream, and what was sent: every stage passed, for one principal,
  -- one body and one classification of it; the request has the caller's method, the body that was
  -- classified, the routed address, and the filtered headers.
  pub record IsForwarded (before after : World Limiter) : Type 0 where
    pub principal : Principal
    pub body : Bytes
    pub classification : Classification
    pub required : List String
    pub base : String
    pub caller : authn deps state req at ≡ ok principal
    pub within_limit : body_read deps state req at ≡ some body
    pub classified : classification_of deps state req at body ≡ ok classification
    pub authorized : authorize principal classification state.policy ≡ ok required
    pub within_budget : (rate_check deps state req at before principal classification).1 ≡ true
    pub configured : base_for state.proxy (route req.path_and_query).0 ≡ ok base
    pub sent :
        after.sent
        ≡ before.sent
          ++ upstream_request req.method base (route req.path_and_query).1 req.headers body ∷ []

  answered-sent :
      (p : Principal) (c : Classification) (body : Bytes)
      (f : List UpstreamRequest × Result ProxyError ProxyResponse) (w : World Limiter)
      → (answered deps state req at p c body f w).1.sent ≡ w.sent ++ f.0
  unfolding answered
  answered-sent p c body (rs, ok r) w = elim (Bool-cases (is_write c.scope || state.audit_reads)) [
    | inl e ↦ rw e refl
    | inr e ↦ rw e refl
  ]
  answered-sent p c body (rs, err x) w = refl

  Ended-mediated :
      {w : World Limiter} {r : Response × World Limiter}
      → Ended deps state req at w r
      → (r.1.sent ≡ w.sent) ⊎ IsForwarded w r.1
  Ended-mediated (unauthenticated e a) = inl refl
  Ended-mediated (too_large p a b) = inl refl
  Ended-mediated (unclassified p body reason a b k) = inl refl
  Ended-mediated (unauthorized p body c d a b k z) = inl refl
  Ended-mediated (over_budget p body c required a b k z l) = inl refl
  Ended-mediated {w} (passed p body c required a b k z l) =
      let w1 = record w { rate_limiters = (rate_check deps state req at w p c).0 } in
      let grown = answered-sent p c body (exchange deps state req at body) w1 in
      elim (forward_cases deps.send state.proxy req.method req.path_and_query req.headers body) [
        | inl (_, e) ↦ inl (
            grown
            ∙ ap (λ (f : List UpstreamRequest × Result ProxyError ProxyResponse). w.sent ++ f.0) e
            ∙ append-nil w.sent)
        | inr (base, configured, e) ↦ inr (record {
          principal = p;
          body = body;
          classification = c;
          required = required;
          base = base;
          caller = a;
          within_limit = b;
          classified = k;
          authorized = z;
          within_budget = l;
          configured = configured;
          sent =
              grown
              ∙ ap (λ (f : List UpstreamRequest × Result ProxyError ProxyResponse). w.sent ++ f.0)
                  e;
        })
      ]

  -- Complete mediation: handling a request sends nothing to any upstream, or exactly one request,
  -- and that only if the caller was authenticated, the body read within its limit and classified,
  -- the caller authorized for that classification, the budget not used up and the upstream
  -- configured; the request has the classified body and the filtered headers.
  pub handle_mediates :
      (w : World Limiter)
      → ((handle deps state req at w).1.sent ≡ w.sent)
        ⊎ IsForwarded w (handle deps state req at w).1
  handle_mediates w = Ended-mediated (handle-Ended deps state req at w)

  -- A write of a caller that was not granted "write" sends nothing, whatever the policy.
  pub handle-write_blocked :
      (w : World Limiter) (p : Principal) (body : Bytes) (c : Classification)
      → authn deps state req at ≡ ok p
      → body_read deps state req at ≡ some body
      → classification_of deps state req at body ≡ ok c
      → c.scope ≡ write
      → ¬ ("write" ∈ p.scopes)
      → (handle deps state req at w).1.sent ≡ w.sent
  handle-write_blocked w p body c a b k s no_write = elim (handle_mediates w) [
    | inl same ↦ same
    | inr f ↦
        let same_p : f.principal ≡ p = cc (a, f.caller) in
        let same_body : f.body ≡ body = cc (b, f.within_limit) in
        let same_c : f.classification ≡ c = cc (k, f.classified, same_body) in
        absurd (
          no_write
            (authorize-write p c state.policy f.required s (cc (f.authorized, same_p, same_c))))
  ]
