-- ===== src/Server/Tasks/Schedule/Moves.antt =====
-- What one access of a request is: its access to the limiters, which settles the rest of it, or
-- some of that rest.
use indexer_gateway_auth.Prelude.{
  ℕ, zero, suc, ◌≡◌, refl, subst, Bool, true, false, ap, none, List, [], ◌∷◌, ◌++◌, map,
}
use indexer_gateway_auth.Prelude.{Bytes, Result, ok, err}
use indexer_gateway_auth.Principal.{Principal}
use indexer_gateway_auth.Classify.{Classification}
use indexer_gateway_auth.Proxy.{ProxyResponse, ProxyError}
use indexer_gateway_auth.RateLimit.{RateLimiters}
use indexer_gateway_auth.Server.{Deps, Inner, World, HttpRequest, Moment}
use indexer_gateway_auth.Server.Ends.{authn, exchange}
use indexer_gateway_auth.Server.Tasks.{
  records, counts, Stage, arrived, charging, sending, ending, step, after_authenticate, after_check,
  after_forward,
}
use indexer_gateway_auth.Server.Tasks.Remaining.{
  Output, sends, writes, increases, left_to_write, response_of, put_all, put_all-sends, remaining,
  answer, admit,
}
use indexer_gateway_auth.Server.Tasks.Schedule.{Task, advance_task, advance}

module _ {Key Jwk Limiter : Type 0} (deps : Deps Key Jwk Limiter) (state : Inner Key) where
  module _ (req : HttpRequest) (at : Moment) where
    -- The stage before the limiters is that of the request.
    abbrev pub IsPrepared : Stage → Type 0
    IsPrepared (charging p body c) =
        after_authenticate deps state req at (authn deps state req at) ≡ charging p body c
    IsPrepared _ = Unit

    pub data Move (s : Stage) (w : World Limiter) : Stage × World Limiter → Type 0 where
      commits :
          {s' : Stage} {limiters : RateLimiters Limiter}
          → remaining deps state req at s ≡ []
          → answer deps state req at s ≡ none
          → admit deps state req at w.rate_limiters ≡ (limiters, s')
          → Move s w (s', record w { rate_limiters = limiters })
      emits :
          {s' : Stage} (outs : List Output)
          → outs ++ remaining deps state req at s' ≡ remaining deps state req at s
          → answer deps state req at s' ≡ answer deps state req at s
          → Move s w (s', put_all outs w)

    -- An access of a request at a stage of its own.
    abbrev IsMove : Stage → World Limiter → Stage × World Limiter → Type 0
    IsMove s w r = Move s w r × IsPrepared r.0

    arrived-IsMove :
        (x : Stage) (w : World Limiter)
        → after_authenticate deps state req at (authn deps state req at) ≡ x
        → IsMove arrived w (x, w)
    arrived-IsMove arrived w e = (commits refl refl (rw e refl), tt)
    arrived-IsMove (charging p body c) w e = (emits [] refl refl, e)
    arrived-IsMove (sending p body c) w e = (commits refl refl (rw e refl), tt)
    arrived-IsMove (ending es r) w e = (commits refl refl (rw e refl), tt)

    after_check-IsPrepared :
        (p : Principal) (body : Bytes) (c : Classification) (allowed : Bool)
        → IsPrepared (after_check deps state req at p body c allowed)
    after_check-IsPrepared p body c true = tt
    after_check-IsPrepared p body c false = tt

    -- After the answer of the upstream, the rest is in the stage itself.
    abbrev IsSettled : Stage → Type 0
    IsSettled s =
        (remaining deps state req at s ≡ left_to_write s)
        × (answer deps state req at s ≡ response_of s)
        × IsPrepared s

    after_forward-IsSettled :
        (p : Principal) (body : Bytes) (c : Classification) (r : Result ProxyError ProxyResponse)
        → IsSettled (after_forward deps state req at p body c r)
    after_forward-IsSettled p body c (ok r) = (refl, refl, tt)
    after_forward-IsSettled p body c (err e) = (refl, refl, tt)

    pub step-IsMove :
        (s : Stage) (w : World Limiter) → IsPrepared s → IsMove s w (step deps state req at s w)
    unfolding step
    step-IsMove arrived w h = arrived-IsMove _ w refl
    step-IsMove (charging p body c) w h =
        (commits refl refl (rw h refl), after_check-IsPrepared p body c _)
    step-IsMove (sending p body c) w h =
        let (requests, result) = exchange deps state req at body in
        let (left, same, prepared) = after_forward-IsSettled p body c result in
        (
          subst
              (λ u. Move (sending p body c) w (after_forward deps state req at p body c result, u))
              (put_all-sends requests w) (emits (map sends requests) (rw left refl) same),
          prepared,
        )
    step-IsMove (ending [] r) w h = (emits [] refl refl, tt)
    step-IsMove (ending (records rec ∷ es) r) w h = (emits (writes rec ∷ []) refl refl, tt)
    step-IsMove (ending (counts c ∷ es) r) w h = (emits (increases c ∷ []) refl refl, tt)

  pub data Advanced (ts : List Task) (w : World Limiter) : List Task × World Limiter → Type 0 where
    rests : Advanced ts w (ts, w)
    moves :
        (before : List Task) (t : Task) (after : List Task)
        → ts ≡ before ++ t ∷ after
        → Advanced ts w
            (before ++ (advance_task deps state t w).0 ∷ after, (advance_task deps state t w).1)

  pub advance-Advanced :
      (i : ℕ) (ts : List Task) (w : World Limiter) → Advanced ts w (advance deps state i ts w)
  unfolding advance
  advance-Advanced i [] w = rests
  advance-Advanced zero (t ∷ ts) w = moves [] t ts refl
  advance-Advanced (suc i) (t ∷ ts) w = later (advance deps state i ts w) (advance-Advanced i ts w)
    where
      later : (r : List Task × World Limiter) → Advanced ts w r → Advanced (t ∷ ts) w (t ∷ r.0, r.1)
      later r rests = rests
      later r (moves before u after e) =
          moves (t ∷ before) u after (ap (λ (l : List Task). t ∷ l) e)
