-- ===== src/Server/Tasks/Schedule/Conservation.antt =====
-- What the metrics have counted once all requests are at their end, whatever the schedule.
use indexer_gateway_auth.Prelude.{ℕ, ◌+◌, ◌≡◌, Option, none, some, List, [], ◌∷◌, arith}
use indexer_gateway_auth.Prelude.{Bytes, Result, ok, err}
use indexer_gateway_auth.Prelude.Gather.{tally, tally-Perm, length-Perm}
use indexer_gateway_auth.Principal.{Principal}
use indexer_gateway_auth.Auth.Error.{AuthError}
use indexer_gateway_auth.Metrics.{
  Metrics, inc_auth_failure, inc_authz_denied, inc_parse_error, inc_rate_limited,
}
use indexer_gateway_auth.Server.{Deps, Inner, World, HttpRequest, Moment}
use indexer_gateway_auth.Server.Counting.{events, answered-counted}
use indexer_gateway_auth.Server.Request.{Response}
use indexer_gateway_auth.Server.Handle.{handle}
use indexer_gateway_auth.Server.Ends.{
  authn, body_read, rate_check, exchange, Ended, unauthenticated, too_large, unclassified,
  unauthorized, over_budget, passed, handle-Ended,
}
use indexer_gateway_auth.Server.Tasks.Same.{SameMetrics}
use indexer_gateway_auth.Server.Tasks.Schedule.{Event, arrivals, run_schedule, idle}
use indexer_gateway_auth.Server.Tasks.Schedule.Sequence.{handle_all}
use indexer_gateway_auth.Server.Tasks.Schedule.Outcome.{AllFinished, run_schedule-serializes}

-- A request is to be counted, unless its body is too large.
abbrev pub due_of : Result AuthError Principal → Option Bytes → ℕ
due_of (err e) body = 1
due_of (ok p) none = 0
due_of (ok p) (some body) = 1

events-SameMetrics : {a b : Metrics} → SameMetrics a b → events a ≡ events b
events-SameMetrics same = omega (
  arith,
  length-Perm same.requests,
  same.auth_failures,
  same.authz_denied,
  same.parse_errors,
  same.rate_limited,
)

module _ {Key Jwk Limiter : Type 0} (deps : Deps Key Jwk Limiter) (state : Inner Key) where
  abbrev pub due : HttpRequest → Moment → ℕ
  due req at = due_of (authn deps state req at) (body_read deps state req at)

  -- How many of the requests are to be counted.
  abbrev pub all_due : List (HttpRequest × Moment) → ℕ
  all_due came = tally (λ q. due q.0 q.1) came

  module _ (req : HttpRequest) (at : Moment) where
    Ended-due :
        {w : World Limiter} {r : Response × World Limiter}
        → Ended deps state req at w r
        → events r.1.metrics ≡ events w.metrics + due req at
    unfolding inc_auth_failure inc_authz_denied inc_parse_error inc_rate_limited
    Ended-due (unauthenticated e a) = rw a (omega arith)
    Ended-due (too_large p a b) = rw (a, b) (omega arith)
    Ended-due (unclassified p body reason a b k) = rw (a, b) (omega arith)
    Ended-due (unauthorized p body c d a b k z) = rw (a, b) (omega arith)
    Ended-due (over_budget p body c required a b k z l) = rw (a, b) (omega arith)
    Ended-due {w} (passed p body c required a b k z l) =
        let charged = record w { rate_limiters = (rate_check deps state req at w p c).0 } in
        let counted =
          answered-counted deps state req at p c body (exchange deps state req at body) charged in
        rw (a, b) (omega (arith, counted))

  handle_all-due :
      (order : List (HttpRequest × Moment)) (w : World Limiter)
      → events (handle_all deps state order w).1.metrics ≡ events w.metrics + all_due order
  unfolding handle_all
  handle_all-due [] w = omega arith
  handle_all-due ((req, at) ∷ order) w = omega (
    arith,
    Ended-due req at (handle-Ended deps state req at w),
    handle_all-due order (handle deps state req at w).1,
  )

  -- No count is lost or made twice, however the accesses of concurrent requests are ordered: once
  -- all that came in are at their end, the metrics have grown by exactly one event for each of them
  -- whose caller was refused or whose body was read within the limit.
  pub run_schedule-counts :
      (es : List Event) (w : World Limiter)
      → AllFinished (run_schedule deps state es (idle w)).tasks
      → events (run_schedule deps state es (idle w)).world.metrics
        ≡ events w.metrics + all_due (arrivals (run_schedule deps state es (idle w)).tasks)
  run_schedule-counts es w finished =
      let (order, came, given, same) = run_schedule-serializes deps state es w finished in
      omega (
        arith,
        events-SameMetrics same.metrics,
        handle_all-due order w,
        tally-Perm (λ q. due q.0 q.1) came,
      )
