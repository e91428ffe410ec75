-- ===== src/Server/Tasks/Schedule/Sequence.antt =====
-- Requests one after the other.
use indexer_gateway_auth.Prelude.{◌≡◌, refl, sym, ap, ◌∙◌, subst, some, List, [], ◌∷◌, ◌++◌, map}
use indexer_gateway_auth.RateLimit.{RateLimiters}
use indexer_gateway_auth.Server.{Deps, Inner, World, HttpRequest, Moment}
use indexer_gateway_auth.Server.Handle.{handle}
use indexer_gateway_auth.Server.Request.{Response}
use indexer_gateway_auth.Server.Tasks.{Stage}
use indexer_gateway_auth.Server.Tasks.Remaining.{
  Output, put_all, put_all-append, remaining, answer, admit, IsResult, handle-admit,
}
use indexer_gateway_auth.Server.Tasks.Same.{put_all-rate_limiters, put_all-limiters}

abbrev pub base : {Limiter : Type 0} → World Limiter → RateLimiters Limiter → World Limiter
base w limiters = record w { rate_limiters = limiters }

module _ {Key Jwk Limiter : Type 0} (deps : Deps Key Jwk Limiter) (state : Inner Key) where
  -- Each request is handled when the one before it is done.
  unfoldable pub handle_all :
      List (HttpRequest × Moment)
      → World Limiter
      → List ((HttpRequest × Moment) × Response) × World Limiter
  handle_all [] w = ([], w)
  handle_all ((req, at) ∷ later) w =
      let (r, w') = handle deps state req at w in
      let (rs, w'') = handle_all later w' in (((req, at), r) ∷ rs, w'')

  pub handle_all-append :
      (order : List (HttpRequest × Moment)) (req : HttpRequest) (at : Moment) (w : World Limiter)
      → handle_all (order ++ (req, at) ∷ []) w ≡ (
        (handle_all order w).0
            ++ ((req, at), (handle deps state req at (handle_all order w).1).0) ∷ [],
        (handle deps state req at (handle_all order w).1).1,
      )
  unfolding handle_all
  handle_all-append [] req at w = refl
  handle_all-append ((q, t) ∷ order) req at w =
      rw (handle_all-append order req at (handle deps state q t w).1) refl

  pub requests-handle_all :
      (order : List (HttpRequest × Moment)) (w : World Limiter)
      → map (λ x. x.0) (handle_all order w).0 ≡ order
  unfolding handle_all
  requests-handle_all [] w = refl
  requests-handle_all ((req, at) ∷ order) w =
      rw (requests-handle_all order (handle deps state req at w).1) refl

  pub handle-commits :
      (w : World Limiter) (req : HttpRequest) (at : Moment) (l l' : RateLimiters Limiter)
      (s : Stage) (os : List Output)
      → admit deps state req at l ≡ (l', s)
      → (answer deps state req at s ≡ some (handle deps state req at (put_all os (base w l))).0)
        × ((handle deps state req at (put_all os (base w l))).1
            ≡ put_all (os ++ remaining deps state req at s) (base w l'))
  handle-commits w req at l l' s os h =
      let v = put_all os (base w l) in
      let admitted : admit deps state req at v.rate_limiters ≡ (l', s) =
        ap (admit deps state req at) (put_all-rate_limiters os (base w l)) ∙ h in
      let (same, out) =
        subst (IsResult deps state req at v (handle deps state req at v)) admitted
          (handle-admit deps state req at v) in
      (
        same,
        out
            ∙ ap (put_all (remaining deps state req at s)) (put_all-limiters os l' (base w l))
            ∙ sym (put_all-append os (remaining deps state req at s) (base w l')),
      )
