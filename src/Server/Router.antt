-- ===== src/Server/Router.antt =====
-- `build_router` of src/server.rs: the two health routes beside the pipeline. What axum does with its
-- routes is an argument.
pub mod Laws
use indexer_gateway_auth.Prelude.{String, Option, none, some, List, [], ◌∷◌}
use indexer_gateway_auth.Server.Request.{Response}
use indexer_gateway_auth.Server.{Deps, Inner, World, HttpRequest, Moment}
use indexer_gateway_auth.Server.Handle.{handle}

-- The path of a request's target; the route that a path matches; the response that a text is; and
-- what `get` answers to a method, from the response of its handler; and the answer where no route
-- matches and there is no fallback.
pub record Axum : Type 0 where
  pub path_of : String → String
  pub matched : List String → String → Option String
  pub text_response : String → Response
  pub get : String → Response → Response
  pub not_found : Response

abbrev pub health_routes : List String
health_routes = "/healthz" ∷ "/readyz" ∷ []

abbrev pub health : String
health = "ok"

module _ {Key Jwk Limiter : Type 0} (axum : Axum) (deps : Deps Key Jwk Limiter) (state : Inner Key)
    (req : HttpRequest) (at : Moment) where
  abbrev pub dispatch : Option String → World Limiter → Response × World Limiter
  dispatch (some path) w = (axum.get req.method (axum.text_response health), w)
  dispatch none w = handle deps state req at w

  unfoldable pub build_router : World Limiter → Response × World Limiter
  build_router w = dispatch (axum.matched health_routes (axum.path_of req.path_and_query)) w
