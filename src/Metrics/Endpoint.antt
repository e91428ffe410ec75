-- ===== src/Metrics/Endpoint.antt =====
-- `serve` of src/metrics.rs: the one route that shows the metrics. Its text is that of the recorder.
use indexer_gateway_auth.Prelude.{
  String, ◌≡◌, refl, ◌⊎◌, ◌≢◌, inl, inr, Option, none, some, List, [], ◌∷◌, Memᴰ,
}
use indexer_gateway_auth.Prelude.{Option-cases}
use indexer_gateway_auth.Metrics.{Metrics}
use indexer_gateway_auth.Server.Request.{Response}
use indexer_gateway_auth.Server.Router.{Axum}
use indexer_gateway_auth.Server.Router.Laws.{IsAxum}

abbrev pub metrics_routes : List String
metrics_routes = "/metrics" ∷ []

module _ (axum : Axum) (render : Metrics → String) (path_and_query method : String) where
  abbrev pub dispatch : Option String → Metrics → Response
  dispatch (some route) m = axum.get method (axum.text_response (render m))
  dispatch none m = axum.not_found

  unfoldable pub serve : Metrics → Response
  serve m = dispatch (axum.matched metrics_routes (axum.path_of path_and_query)) m

  -- The metrics are shown under their path, as far as the method allows, and nowhere else.
  pub serve_cases :
      IsAxum axum
      → (m : Metrics)
      → ((axum.path_of path_and_query ≡ "/metrics")
          × (serve m ≡ axum.get method (axum.text_response (render m))))
        ⊎ ((axum.path_of path_and_query ≢ "/metrics") × (serve m ≡ axum.not_found))
  unfolding serve
  serve_cases laws m =
      let path = axum.path_of path_and_query in
      elim (Option-cases (axum.matched metrics_routes path)) [
        | inl e ↦ inr (
          λ h. cc (e, (laws.matched_iff metrics_routes path "/metrics").1 (Memᴰ.head refl, h)),
          rw e refl,
        )
        | inr (route, e) ↦
            let (member, same) = (laws.matched_iff metrics_routes path route).0 e in
            inl (elim member [ Memᴰ.head f ↦ cc (same, f) | Memᴰ.tail x ↦ elim x [ ] ], rw e refl)
      ]
