-- ===== src/Server/History.antt =====
-- What holds after any sequence of requests.
use indexer_gateway_auth.Prelude.{String, ◌≡◌, inl, inr, false, none, [], ◌∷◌}
use indexer_gateway_auth.Prelude.{All, All-append}
use indexer_gateway_auth.Proxy.{UpstreamRequest, upstream_request, route}
use indexer_gateway_auth.Proxy.Headers.{values, IsConsumed, filter_forward_headers-values}
use indexer_gateway_auth.Audit.{AuditRecord}
use indexer_gateway_auth.Server.{Deps, Inner, World, HttpRequest, Moment}
use indexer_gateway_auth.Server.Handle.{handle}
use indexer_gateway_auth.Server.Mediation.{handle_mediates}
use indexer_gateway_auth.Server.Auditing.{handle_audits}

module _ {Key Jwk Limiter : Type 0} (deps : Deps Key Jwk Limiter) (state : Inner Key) where
  -- The states that requests can lead to, one after another.
  pub data Reachable (start : World Limiter) : World Limiter → Type 0 where
    begin : Reachable start start
    next :
        {w : World Limiter} (req : HttpRequest) (at : Moment)
        → Reachable start w
        → Reachable start (handle deps state req at w).1

  -- No request that was sent holds a header that the gateway consumes.
  abbrev pub IsStripped : UpstreamRequest → Type 0
  IsStripped r = (name : String) → IsConsumed name → values name r.headers ≡ []

  handle-IsStripped :
      (req : HttpRequest) (at : Moment) (w : World Limiter)
      → All IsStripped w.sent
      → All IsStripped (handle deps state req at w).1.sent
  handle-IsStripped req at w h = elim (handle_mediates deps state req at w) [
    | inl same ↦ rw same h
    | inr f ↦
        let stripped : IsStripped
            (upstream_request req.method f.base (route req.path_and_query).1 req.headers f.body) =
          λ name c. (filter_forward_headers-values name req.headers).0 c in
        rw f.sent (All-append IsStripped w.sent (_ ∷ []) h (stripped, tt))
  ]

  -- After any sequence of requests from a state where nothing was sent, none of the requests that
  -- were sent holds an `authorization` header, a `host` header or a hop-by-hop header: the bearer
  -- token never reaches an upstream in its header.
  pub Reachable-IsStripped :
      {start w : World Limiter} → start.sent ≡ [] → Reachable start w → All IsStripped w.sent
  Reachable-IsStripped e begin = rw e tt
  Reachable-IsStripped e (next {w} req at r) = handle-IsStripped req at w (Reachable-IsStripped e r)

  handle-secret :
      (req : HttpRequest) (at : Moment) (w : World Limiter)
      → state.log_variables ≡ false
      → All (λ rec. rec.variables ≡ none) w.audit
      → All (λ rec. rec.variables ≡ none) (handle deps state req at w).1.audit
  handle-secret req at w off h = elim (handle_audits deps state req at w) [
    | inl (rec, e, sound) ↦ rw e (
        All-append (λ (a : AuditRecord). a.variables ≡ none) w.audit (rec ∷ []) h
          (sound.secret off, tt))
    | inr (_, same) ↦ rw same h
  ]

  -- While raw variables are not to be logged, no record of any sequence of requests holds them.
  pub Reachable-secret :
      {start w : World Limiter}
      → state.log_variables ≡ false
      → start.audit ≡ []
      → Reachable start w
      → All (λ rec. rec.variables ≡ none) w.audit
  Reachable-secret off e begin = rw e tt
  Reachable-secret off e (next {w} req at r) = handle-secret req at w off (Reachable-secret off e r)
