-- ===== src/Proxy/Forward.antt =====
-- What `forward` sends.
use indexer_gateway_auth.Prelude.{String, ◌≡◌, refl, ◌⊎◌, inl, inr, [], ◌∷◌, arith}
use indexer_gateway_auth.Prelude.{Bytes, Result, ok, err, map_err, Result-cases}
use indexer_gateway_auth.Proxy.{
  UpstreamTarget, Headers, Proxy, ProxyResponse, ProxyError, no_upstream, upstream, UpstreamRequest,
  upstream_request, route, base_for, forward,
}

base_for-err :
    (proxy : Proxy) (target : UpstreamTarget) (x : ProxyError)
    → base_for proxy target ≡ err x
    → x ≡ no_upstream target
unfolding base_for
base_for-err proxy UpstreamTarget.agent_management x e = cc
base_for-err proxy UpstreamTarget.graph_node_admin x e = ground arith
base_for-err proxy UpstreamTarget.graph_node_status x e = ground arith

module _ (send : UpstreamRequest → Result String ProxyResponse) (proxy : Proxy)
    (method path : String) (headers : Headers) (body : Bytes) where
  pub forward_cases :
      ((base_for proxy (route path).0 ≡ err (no_upstream (route path).0))
        × (forward send proxy method path headers body ≡ ([], err (no_upstream (route path).0))))
      ⊎ ((base : String) × (base_for proxy (route path).0 ≡ ok base)
          × (forward send proxy method path headers body ≡ (
            upstream_request method base (route path).1 headers body ∷ [],
            map_err upstream (send (upstream_request method base (route path).1 headers body)),
          )))
  unfolding forward
  forward_cases = elim (Result-cases (base_for proxy (route path).0)) [
    | inl (base, e) ↦ inr (base, e, rw e refl)
    | inr (x, e) ↦
        let named : x ≡ no_upstream (route path).0 = base_for-err proxy (route path).0 x e in
        inl (rw (← named) e, rw (e, named) refl)
  ]
