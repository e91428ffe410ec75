-- ===== src/Server/Router/Laws.antt =====
-- What goes past the pipeline.
use indexer_gateway_auth.Prelude.{String, ◌≡◌, refl, ◌↔◌, ◌⊎◌, inl, inr, some, List, Memᴰ}
use indexer_gateway_auth.Prelude.{Option-cases}
use indexer_gateway_auth.Server.{Deps, Inner, World, HttpRequest, Moment}
use indexer_gateway_auth.Server.Handle.{handle}
use indexer_gateway_auth.Server.Router.{Axum, health_routes, health, build_router}

-- What axum documents of routes without parameters: a path matches a route exactly if it is the same.
pub record IsAxum (axum : Axum) : Type 0 where
  pub matched_iff :
      (routes : List String) (path route : String)
      → (axum.matched routes path ≡ some route) ↔ (Memᴰ route routes × (path ≡ route))

abbrev pub IsHealthPath : Axum → HttpRequest → Type 0
IsHealthPath axum req =
    (axum.path_of req.path_and_query ≡ "/healthz") ⊎ (axum.path_of req.path_and_query ≡ "/readyz")

module _ {Key Jwk Limiter : Type 0} (axum : Axum) (laws : IsAxum axum) (deps : Deps Key Jwk Limiter)
    (state : Inner Key) (req : HttpRequest) (at : Moment) where
  -- A request for one of the two health paths gets what a handler that says "ok" gives to its method,
  -- without authentication, and changes nothing: no record, no count, nothing sent, no budget. Every
  -- other request goes through the pipeline.
  pub build_router_cases :
      (w : World Limiter)
      → (IsHealthPath axum req
          × (build_router axum deps state req at w
              ≡ (axum.get req.method (axum.text_response health), w)))
        ⊎ (¬ IsHealthPath axum req
            × (build_router axum deps state req at w ≡ handle deps state req at w))
  unfolding build_router
  build_router_cases w =
      let path = axum.path_of req.path_and_query in
      elim (Option-cases (axum.matched health_routes path)) [
        | inl e ↦ inr (
          elim [
            | inl h ↦ cc (e, (laws.matched_iff health_routes path "/healthz").1 (Memᴰ.head refl, h))
            | inr h ↦ cc (
              e,
              (laws.matched_iff health_routes path "/readyz").1 (Memᴰ.tail (Memᴰ.head refl), h),
            )
          ],
          rw e refl,
        )
        | inr (r, e) ↦
            let (m, same) = (laws.matched_iff health_routes path r).0 e in
            inl (
              elim m [
                | Memᴰ.head f ↦ inl (cc (same, f))
                | Memᴰ.tail (Memᴰ.head f) ↦ inr (cc (same, f))
                | Memᴰ.tail (Memᴰ.tail x) ↦ elim x [ ]
              ],
              rw e refl,
            )
      ]
