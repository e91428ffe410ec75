-- ===== src/Server/Tasks/Schedule/Books.antt =====
-- The audit records against the metrics, whatever the schedule.
use indexer_gateway_auth.Prelude.{◌≡◌, sym, ◌∙◌, List, [], ◌∷◌}
use indexer_gateway_auth.Prelude.Gather.{tally-Perm}
use indexer_gateway_auth.Metrics.{Metrics}
use indexer_gateway_auth.Server.{Deps, Inner, World, HttpRequest, Moment}
use indexer_gateway_auth.Server.Handle.{handle}
use indexer_gateway_auth.Server.Reconciling.{
  Book, refused_callers, denials, unclassifiable, over_budgets, allowed_writes, entered,
  observed_write, counter, IsReconciled, handle-IsReconciled,
}
use indexer_gateway_auth.Server.Tasks.Same.{SameMetrics}
use indexer_gateway_auth.Server.Tasks.Schedule.{Event, run_schedule, idle}
use indexer_gateway_auth.Server.Tasks.Schedule.Sequence.{handle_all}
use indexer_gateway_auth.Server.Tasks.Schedule.Outcome.{AllFinished, run_schedule-serializes}

counter-SameMetrics : {m n : Metrics} (b : Book) → SameMetrics m n → counter b m ≡ counter b n
counter-SameMetrics refused_callers same = same.auth_failures
counter-SameMetrics denials same = same.authz_denied
counter-SameMetrics unclassifiable same = same.parse_errors
counter-SameMetrics over_budgets same = same.rate_limited
counter-SameMetrics allowed_writes same = tally-Perm observed_write same.requests

module _ {Key Jwk Limiter : Type 0} (deps : Deps Key Jwk Limiter) (state : Inner Key) where
  handle_all-IsReconciled :
      (order : List (HttpRequest × Moment)) (w : World Limiter)
      → IsReconciled w.audit w.metrics
      → IsReconciled
          (handle_all deps state order w).1.audit
          (handle_all deps state order w).1.metrics
  unfolding handle_all
  handle_all-IsReconciled [] w h = h
  handle_all-IsReconciled ((req, at) ∷ order) w h =
      handle_all-IsReconciled order (handle deps state req at w).1
        (handle-IsReconciled deps state req at w h)

  -- The metrics agree with the audit trail, however the accesses of concurrent requests are ordered:
  -- if they do before the requests, then they do once all that came in are at their end. The counted
  -- failures of authentication, denials, bodies that could not be classified and refusals for the
  -- budget are as many as the records of each, and the observed writes as many as the records of
  -- writes with the outcome "allowed". Those are the writes that were let through to the proxy, also
  -- the ones whose upstream is not configured, which are never sent, or did not answer.
  pub run_schedule-IsReconciled :
      (es : List Event) (w : World Limiter)
      → IsReconciled w.audit w.metrics
      → AllFinished (run_schedule deps state es (idle w)).tasks
      → IsReconciled
          (run_schedule deps state es (idle w)).world.audit
          (run_schedule deps state es (idle w)).world.metrics
  run_schedule-IsReconciled es w h finished =
      let (order, came, given, same) = run_schedule-serializes deps state es w finished in
      λ b.
        tally-Perm (λ rec. entered b rec.outcome rec.scope) same.audit
        ∙ handle_all-IsReconciled order w h b
        ∙ sym (counter-SameMetrics b same.metrics)
