-- ===== src/Server/Tasks/Schedule/Linear.antt =====
-- The order that explains what requests do which are handled at the same time.
use mathlib.Core.List.{Perm, map-append}
use mathlib.Core.List.Perm
use indexer_gateway_auth.Prelude.{◌≡◌, refl, sym, Bool, true, false, some, List, [], ◌∷◌, ◌++◌, map}
use indexer_gateway_auth.Prelude.{Bytes, Result, ok, err, flat_map, if◌then◌else◌}
use indexer_gateway_auth.Principal.{Principal}
use indexer_gateway_auth.Classify.{Classification}
use indexer_gateway_auth.Proxy.{ProxyResponse, ProxyError}
use indexer_gateway_auth.Server.{Deps, Inner, World, HttpRequest, Moment}
use indexer_gateway_auth.Server.Ends.{exchange}
use indexer_gateway_auth.Server.Request.{Response}
use indexer_gateway_auth.Server.Tasks.{Stage, arrived, charging, sending, ending, after_forward}
use indexer_gateway_auth.Server.Tasks.Remaining.{response_of, answer}
use indexer_gateway_auth.Server.Tasks.Same.{SameWorld}
use indexer_gateway_auth.Server.Tasks.Schedule.{Task, Event, arrivals, run_schedule, idle}
use indexer_gateway_auth.Server.Tasks.Schedule.Sequence.{handle_all}
use indexer_gateway_auth.Server.Tasks.Schedule.Serial.{
  with_answer, answer_of, run_schedule-IsSerial, idle-IsSerial, IsSerial-more,
}
use indexer_gateway_auth.Server.Tasks.Schedule.Outcome.{
  responses, AllFinished, requests-answers, finished-IsOutcome,
}

-- Whether the limiters have answered, or the request came to its end before them.
abbrev pub is_decided : Stage → Bool
is_decided arrived = false
is_decided (charging p body c) = false
is_decided _ = true

-- The requests that are decided.
abbrev pub decided : List Task → List (HttpRequest × Moment)
decided ts = flat_map (λ t. if is_decided t.stage then (t.request, t.at) ∷ [] else []) ts

module _ {Key Jwk Limiter : Type 0} (deps : Deps Key Jwk Limiter) (state : Inner Key) where
  module _ (req : HttpRequest) (at : Moment) where
    after_forward-response :
        (p : Principal) (body : Bytes) (c : Classification) (r : Result ProxyError ProxyResponse)
        → (x : Response) × (response_of (after_forward deps state req at p body c r) ≡ some x)
    after_forward-response p body c (ok r) = (_, refl)
    after_forward-response p body c (err e) = (_, refl)

    -- A request is decided as soon as its response is settled.
    answer-decided :
        (s : Stage)
        → map (λ x. x.0) (with_answer (req, at) (answer deps state req at s))
          ≡ (if is_decided s then (req, at) ∷ [] else [])
    answer-decided arrived = refl
    answer-decided (charging p body c) = refl
    answer-decided (sending p body c) =
        let (x, e) = after_forward-response p body c (exchange deps state req at body).1 in
        rw e refl
    answer-decided (ending es r) = refl

  answers-decided :
      (ts : List Task) → map (λ x. x.0) (flat_map (answer_of deps state) ts) ≡ decided ts
  answers-decided [] = refl
  answers-decided (t ∷ ts) =
      rw
        (
          map-append (λ x. x.0) (answer_of deps state t) (flat_map (answer_of deps state) ts),
          answer-decided t.request t.at t.stage,
          answers-decided ts,
        )
        refl

  -- Requests that run at the same time are linearizable, where the upstreams answer by the request
  -- alone: once all are at their end, whatever the schedule, the same requests, with the times that
  -- they read, handled by `handle` in some order, each when the one before it is done, give each
  -- request the same response and leave the same limiters, the same counters, and the same
  -- observations, audit records and upstream requests up to their order. And wherever the schedule is
  -- cut, the order begins with exactly the requests that are decided there, by the limiters or before
  -- them: so a request that has its response before another comes in is handled before it.
  pub run_schedule-linearizes :
      (es later : List Event) (w : World Limiter)
      → AllFinished (run_schedule deps state later (run_schedule deps state es (idle w))).tasks
      → (first : List (HttpRequest × Moment)) × (rest : List (HttpRequest × Moment)) × Perm
          (decided (run_schedule deps state es (idle w)).tasks)
          first
        × Perm
            (arrivals (run_schedule deps state later (run_schedule deps state es (idle w))).tasks)
            (first ++ rest)
        × Perm
            (responses (run_schedule deps state later (run_schedule deps state es (idle w))).tasks)
            (handle_all deps state (first ++ rest) w).0
        × SameWorld
            (run_schedule deps state later (run_schedule deps state es (idle w))).world
            (handle_all deps state (first ++ rest) w).1
  run_schedule-linearizes es later w finished =
      let s = run_schedule deps state es (idle w) in
      let inv = run_schedule-IsSerial deps state w [] es (idle w) (idle-IsSerial deps state w) in
      let inv' =
        run_schedule-IsSerial deps state w inv.more later s (IsSerial-more deps state w [] s inv) in
      let decided_first : Perm (decided s.tasks) inv.more =
        rw (sym (answers-decided s.tasks), sym (requests-answers deps state w [] s inv))
          (Perm.map (λ x. x.0) inv.answered) in
      let (came, given, same) =
        finished-IsOutcome deps state w inv.more (run_schedule deps state later s) inv' finished in
      (inv.more, inv'.more, decided_first, came, given, same)
