-- ===== src/Examples/Schedules.antt =====
-- Requests that run at the same time, under concrete schedules.
use mathlib.Core.List.{Perm}
use indexer_gateway_auth.Prelude.{ℕ, String, ◌+◌, ◌≡◌, refl, true, some, List, [], ◌∷◌, ◌++◌, arith}
use indexer_gateway_auth.Prelude.{All, strip_prefix, trim}
use indexer_gateway_auth.Prelude.Sets.{tree_insert, tree_extend}
use indexer_gateway_auth.Principal
use indexer_gateway_auth.Principal.{Principal, satisfies}
use indexer_gateway_auth.Authz.{
  override_matches, require_for, require_all, required_scopes, authorize,
}
use indexer_gateway_auth.RateLimit.{check}
use indexer_gateway_auth.Auth.{authenticate, resolve}
use indexer_gateway_auth.Auth.Token
use indexer_gateway_auth.Classify.{
  classify, classify_all, classify_one, to_classify, operation_info, max_scope,
}
use indexer_gateway_auth.Classify.Fields.{collect_top_fields}
use indexer_gateway_auth.Proxy.{
  route, strip_prefix_segment, forward, base_for, filter_forward_headers, is_hop_by_hop,
}
use indexer_gateway_auth.Server.{HttpRequest, Moment}
use indexer_gateway_auth.Server.Request.{
  classify_request, extract_bearer, get_header, error_response,
}
use indexer_gateway_auth.Server.Counting.{events}
use indexer_gateway_auth.Server.Reconciling.{
  refused_callers, denials, unclassifiable, over_budgets, allowed_writes, IsReconciled,
}
use indexer_gateway_auth.Server.Tasks.Same.{SameWorld}
use indexer_gateway_auth.Server.Tasks.Schedule.Sequence.{handle_all}
use indexer_gateway_auth.Server.Tasks.Schedule.Outcome.{responses}
use indexer_gateway_auth.Server.Tasks.Schedule.Linear.{decided, run_schedule-linearizes}
use indexer_gateway_auth.Server.Tasks.Schedule.Books.{run_schedule-IsReconciled}
use indexer_gateway_auth.Server.Tasks.{is_finished, step}
use indexer_gateway_auth.Server.Tasks.Schedule.{
  Task, System, Event, arrives, advances, new_task, arrivals, advance, run_schedule, idle,
}
use indexer_gateway_auth.Server.Tasks.Schedule.Liveness.{get_elem?, run_schedule-finishes}
use indexer_gateway_auth.Server.Tasks.Schedule.Safety.{IsAccounted, run_schedule-mediates}
use indexer_gateway_auth.Server.Tasks.Schedule.Conservation.{all_due, run_schedule-counts}
use indexer_gateway_auth.Examples.Samples.{deps, state, start, post, operator_post, at}

-- The operator's request and the viewer's, each between the accesses of the other.
abbrev turns_of_both : List Event
turns_of_both =
    advances 0
    ∷ advances 1
    ∷ advances 1
    ∷ advances 0
    ∷ advances 0
    ∷ advances 1
    ∷ advances 0
    ∷ advances 0
    ∷ []

abbrev schedule : List Event
schedule = arrives operator_post at ∷ arrives post at ∷ turns_of_both

run_schedule-mediates_example :
    All
      (IsAccounted deps state (arrivals (run_schedule deps state schedule (idle start)).tasks))
      (run_schedule deps state schedule (idle start)).world.sent
run_schedule-mediates_example = run_schedule-mediates deps state schedule start refl

abbrev waiting : System (String → ℕ)
waiting = record { tasks = new_task operator_post at ∷ new_task post at ∷ []; world = start }

run_schedule-finishes_example :
    (t : Task) × (get_elem? (run_schedule deps state turns_of_both waiting).tasks 0 ≡ some t)
    × (t.request ≡ operator_post)
    × (t.at ≡ at)
    × (is_finished t.stage ≡ true)
run_schedule-finishes_example =
    run_schedule-finishes deps state waiting turns_of_both 0 operator_post at refl (omega arith)

both_finished :
    All (λ t. is_finished t.stage ≡ true) (run_schedule deps state schedule (idle start)).tasks
unfolding run_schedule advance step authenticate resolve extract_bearer get_header strip_prefix trim
    Token.verify Token.scan Principal.new classify_request route strip_prefix_segment classify
    classify_all classify_one to_classify operation_info max_scope collect_top_fields authorize
    required_scopes require_all require_for tree_insert tree_extend override_matches satisfies check
    forward base_for filter_forward_headers is_hop_by_hop error_response
both_finished = (refl, (refl, tt))

run_schedule-counts_example :
    events (run_schedule deps state schedule (idle start)).world.metrics
    ≡ events start.metrics
      + all_due deps state (arrivals (run_schedule deps state schedule (idle start)).tasks)
run_schedule-counts_example = run_schedule-counts deps state schedule start both_finished

-- The operator's request is at its end before the viewer's comes in, and in between a third.
abbrev early : List Event
early =
    arrives operator_post at
    ∷ advances 0
    ∷ arrives operator_post at
    ∷ advances 1
    ∷ advances 0
    ∷ advances 0
    ∷ advances 0
    ∷ advances 0
    ∷ []

abbrev late : List Event
late =
    arrives post at
    ∷ advances 2
    ∷ advances 1
    ∷ advances 2
    ∷ advances 1
    ∷ advances 1
    ∷ advances 2
    ∷ advances 1
    ∷ []

three_finished :
    All
      (λ t. is_finished t.stage ≡ true)
      (run_schedule deps state late (run_schedule deps state early (idle start))).tasks
unfolding run_schedule advance step authenticate resolve extract_bearer get_header strip_prefix trim
    Token.verify Token.scan Principal.new classify_request route strip_prefix_segment classify
    classify_all classify_one to_classify operation_info max_scope collect_top_fields authorize
    required_scopes require_all require_for tree_insert tree_extend override_matches satisfies check
    forward base_for filter_forward_headers is_hop_by_hop error_response
three_finished = (refl, (refl, (refl, tt)))

run_schedule-linearizes_example :
    (first : List (HttpRequest × Moment)) × (rest : List (HttpRequest × Moment)) × Perm
      (decided (run_schedule deps state early (idle start)).tasks)
      first
    × Perm
        (arrivals (run_schedule deps state late (run_schedule deps state early (idle start))).tasks)
        (first ++ rest)
    × Perm
        (responses
          (run_schedule deps state late (run_schedule deps state early (idle start))).tasks)
        (handle_all deps state (first ++ rest) start).0
    × SameWorld
        (run_schedule deps state late (run_schedule deps state early (idle start))).world
        (handle_all deps state (first ++ rest) start).1
run_schedule-linearizes_example = run_schedule-linearizes deps state early late start three_finished

start-IsReconciled : IsReconciled start.audit start.metrics
start-IsReconciled refused_callers = refl
start-IsReconciled denials = refl
start-IsReconciled unclassifiable = refl
start-IsReconciled over_budgets = refl
start-IsReconciled allowed_writes = refl

run_schedule-IsReconciled_example :
    IsReconciled
      (run_schedule deps state schedule (idle start)).world.audit
      (run_schedule deps state schedule (idle start)).world.metrics
run_schedule-IsReconciled_example =
    run_schedule-IsReconciled deps state schedule start start-IsReconciled both_finished
