-- ===== src/Server/Tasks/Schedule/Budgets.antt =====
-- How many requests of a caller are let through at one instant, whatever the schedule.
use indexer_gateway_auth.Prelude.{
  ℕ, zero, suc, ◌+◌, ◌≤◌, String, ◌≡◌, refl, inl, inr, ◌≢◌, Bool, true, false, ◌||◌, ◌&&◌, ◌==◌,
  some, List, [], ◌∷◌, arith,
}
use indexer_gateway_auth.Prelude.{
  Bytes, Result, ok, err, All, All-append, Bool-cases, Result-cases, Option-cases, if◌then◌else◌,
}
use indexer_gateway_auth.Prelude.Gather.{tally, tally-append}
use indexer_gateway_auth.Principal.{Principal}
use indexer_gateway_auth.Authz.{authorize}
use indexer_gateway_auth.Classify.{Scope, Classification}
use indexer_gateway_auth.Proxy.{ProxyResponse, ProxyError}
use indexer_gateway_auth.RateLimit.{RateLimiters, new, check}
use indexer_gateway_auth.RateLimit.Laws.{IsGovernor, budget}
use indexer_gateway_auth.Metrics.{
  Metrics, Count, auth_failure, denial, unparsed, limited, request, record_count, record_request,
  inc_auth_failure, inc_authz_denied, inc_parse_error, inc_rate_limited,
}
use indexer_gateway_auth.Server.Request.{scope_str}
use indexer_gateway_auth.Server.{Deps, Inner, World, HttpRequest, Moment, is_write}
use indexer_gateway_auth.Server.Ends.{authn, body_read, classification_of}
use indexer_gateway_auth.Server.Budget.{
  observed_of, forwarded, limiter_of, weight, check-Takes, new-limiter_of,
}
use indexer_gateway_auth.Server.Tasks.{
  Effect, records, counts, Stage, arrived, charging, sending, ending, step, after_authenticate,
  after_check, after_forward,
}
use indexer_gateway_auth.Server.Tasks.Schedule.{
  Task, System, Event, arrives, advances, new_task, advance, turn, run_schedule, idle,
}

-- Whether an effect is the observation of a request of a scope and a caller: 1 or 0.
abbrev pub observes : Scope → String → Effect → ℕ
observes s name (counts (request scope principal status latency_ms)) =
    if scope == scope_str s && principal == name then 1 else 0
observes _ _ _ = 0

-- Whether a task was let through by the limiters, and is not observed yet: 1 or 0.
abbrev pub on_its_way : Scope → String → Stage → ℕ
on_its_way s name (sending p body c) =
    if scope_str c.scope == scope_str s && p.name == name then 1 else 0
on_its_way s name (ending es r) = tally (observes s name) es
on_its_way s name _ = 0

abbrev pub in_flight : Scope → String → List Task → ℕ
in_flight s name tasks = tally (λ t. on_its_way s name t.stage) tasks

-- All requests of a scope and a caller that the limiters let through: those that are on their way,
-- and those that were answered.
abbrev pub let_through : {Limiter : Type 0} → Scope → String → System Limiter → ℕ
let_through s name system = in_flight s name system.tasks + forwarded s name system.world.metrics

-- The requests of the events read the limiters' clock at the instant.
abbrev pub AllAt : ℕ → List Event → Type 0
AllAt now [] = Unit
AllAt now (arrives req at ∷ es) = (at.instant ≡ now) × AllAt now es
AllAt now (advances i ∷ es) = AllAt now es

module _ {Key Jwk Limiter : Type 0} (deps : Deps Key Jwk Limiter) (state : Inner Key)
    (laws : IsGovernor deps.governor) (name : String) (now : ℕ) (s : Scope) where
  open laws use {cells}

  -- The limiter of the scope would still let pass what the rest of a number allows.
  record Leaves (n : ℕ) (limiters : RateLimiters Limiter) (taken : ℕ) : Type 0 where
    limiter : Limiter
    is_limited : limiter_of s limiters ≡ some limiter
    bound : taken + cells limiter now name ≤ n

  Leaves-less :
      {n : ℕ} {limiters : RateLimiters Limiter} {taken taken' : ℕ}
      → taken' ≤ taken
      → Leaves n limiters taken
      → Leaves n limiters taken'
  Leaves-less less h = record {
    limiter = h.limiter;
    is_limited = h.is_limited;
    bound = omega (arith, less, h.bound);
  }

  module _ (req : HttpRequest) (at : Moment) where
    on_its_way-arrived :
        on_its_way s name (after_authenticate deps state req at (authn deps state req at)) ≡ 0
    on_its_way-arrived = elim (Result-cases (authn deps state req at)) [
      | inr (e, a) ↦ rw a refl
      | inl (p, a) ↦ elim (Option-cases (body_read deps state req at)) [
        | inl b ↦ rw (a, b) refl
        | inr (body, b) ↦ elim (Result-cases (classification_of deps state req at body)) [
          | inr (reason, k) ↦ rw (a, b, k) refl
          | inl (c, k) ↦ elim (Result-cases (authorize p c state.policy)) [
            | inr (d, z) ↦ rw (a, b, k, z) refl
            | inl (required, z) ↦ rw (a, b, k, z) refl
          ]
        ]
      ]
    ]

    on_its_way-after_check :
        (p : Principal) (body : Bytes) (c : Classification) (passes : Bool)
        → on_its_way s name (after_check deps state req at p body c passes)
          ≡ weight s name c.scope p.name passes
    on_its_way-after_check p body c true = refl
    on_its_way-after_check p body c false = refl

    on_its_way-after_forward :
        (p : Principal) (body : Bytes) (c : Classification) (r : Result ProxyError ProxyResponse)
        → on_its_way s name (after_forward deps state req at p body c r)
          ≡ on_its_way s name (sending p body c)
    on_its_way-after_forward p body c (err e) = omega arith
    on_its_way-after_forward p body c (ok r) =
        elim (Bool-cases (is_write c.scope || state.audit_reads)) [
          | inl e ↦ rw e (omega arith)
          | inr e ↦ rw e (omega arith)
        ]

    forwarded-count :
        (c : Count) (m : Metrics)
        → forwarded s name (record_count c m) ≡ observes s name (counts c) + forwarded s name m
    unfolding record_request inc_auth_failure inc_authz_denied inc_parse_error inc_rate_limited
    forwarded-count auth_failure m = omega arith
    forwarded-count denial m = omega arith
    forwarded-count unparsed m = omega arith
    forwarded-count limited m = omega arith
    forwarded-count (request scope principal status latency_ms) m =
        omega (arith, tally-append (observed_of s name) m.requests (_ ∷ []))

    -- No access lets through more than it takes from the limiters.
    step-Leaves :
        (n others : ℕ) (stage : Stage) (w : World Limiter)
        → at.instant ≡ now
        → Leaves n w.rate_limiters (on_its_way s name stage + forwarded s name w.metrics + others)
        → let (stage', w') = step deps state req at stage w in
          Leaves n w'.rate_limiters
            (on_its_way s name stage' + forwarded s name w'.metrics + others)
    unfolding step
    step-Leaves n others arrived w t h = rw on_its_way-arrived h
    step-Leaves n others (charging p body c) w t h =
        let passes = (check deps.governor w.rate_limiters now c.scope p.name).1 in
        let (l, is_limited, less) =
          check-Takes deps laws name now s c.scope p.name passes w.rate_limiters h.limiter
            h.is_limited refl in
        rw t (record {
          limiter = l;
          is_limited = is_limited;
          bound = omega (arith, less, h.bound, on_its_way-after_check p body c passes);
        })
    step-Leaves n others (sending p body c) w t h =
        Leaves-less (omega (arith, on_its_way-after_forward p body c _)) h
    step-Leaves n others (ending [] r) w t h = h
    step-Leaves n others (ending (records rec ∷ es) r) w t h = Leaves-less (omega arith) h
    step-Leaves n others (ending (counts c ∷ es) r) w t h =
        Leaves-less (omega (arith, forwarded-count c w.metrics)) h

  abbrev AllTasksAt : List Task → Type 0
  AllTasksAt ts = All (λ t. t.at.instant ≡ now) ts

  advance-AllTasksAt :
      (i : ℕ) (ts : List Task) (w : World Limiter)
      → AllTasksAt ts
      → AllTasksAt (advance deps state i ts w).0
  unfolding advance
  advance-AllTasksAt i [] w h = tt
  advance-AllTasksAt zero (t ∷ ts) w h = h
  advance-AllTasksAt (suc i) (t ∷ ts) w (h, hs) = (h, advance-AllTasksAt i ts w hs)

  advance-Leaves :
      (n others i : ℕ) (ts : List Task) (w : World Limiter)
      → AllTasksAt ts
      → Leaves n w.rate_limiters (in_flight s name ts + forwarded s name w.metrics + others)
      → let (ts', w') = advance deps state i ts w in
        Leaves n w'.rate_limiters (in_flight s name ts' + forwarded s name w'.metrics + others)
  unfolding advance
  advance-Leaves n others i [] w ats h = h
  advance-Leaves n others zero (t ∷ ts) w (at_now, _) h = Leaves-less (omega arith) (
      step-Leaves t.request t.at n (in_flight s name ts + others) t.stage w at_now
        (Leaves-less (omega arith) h))
  advance-Leaves n others (suc i) (t ∷ ts) w (_, ats) h = Leaves-less (omega arith) (
      advance-Leaves n (on_its_way s name t.stage + others) i ts w ats
        (Leaves-less (omega arith) h))

  run_schedule-Leaves :
      (n : ℕ) (es : List Event) (system : System Limiter)
      → AllAt now es
      → AllTasksAt system.tasks
      → Leaves n system.world.rate_limiters (let_through s name system)
      → let after = run_schedule deps state es system in
        Leaves n after.world.rate_limiters (let_through s name after)
  unfolding run_schedule
  run_schedule-Leaves n [] system at_now ats h = h
  run_schedule-Leaves n (arrives req at ∷ es) system (t, ts) ats h =
      run_schedule-Leaves n es (turn deps state (arrives req at) system) ts
        (All-append (λ t. t.at.instant ≡ now) system.tasks (new_task req at ∷ []) ats (t, tt))
        (Leaves-less
          (omega (
            arith,
            tally-append (λ t. on_its_way s name t.stage) system.tasks (new_task req at ∷ []),
          ))
          h)
  run_schedule-Leaves n (advances i ∷ es) system ts ats h =
      run_schedule-Leaves n es (turn deps state (advances i) system) ts
        (advance-AllTasksAt i system.tasks system.world ats)
        (Leaves-less (omega arith)
          (advance-Leaves n 0 i system.tasks system.world ats (Leaves-less (omega arith) h)))

  new-Leaves :
      (read_per_minute write_per_minute : ℕ)
      → budget deps.governor laws read_per_minute write_per_minute s ≢ 0
      → Leaves
          (budget deps.governor laws read_per_minute write_per_minute s)
          (new deps.governor read_per_minute write_per_minute)
          0
  new-Leaves r b h =
      let (l, is_limited, full) = new-limiter_of deps.governor laws name now r b s h in
      record { limiter = l; is_limited = is_limited; bound = omega (arith, full) }

  -- Concurrent requests cannot overrun a budget: wherever a schedule of requests that come in at one
  -- instant at a gateway with fresh limiters stands, those of one caller and one scope that were let
  -- through to the proxy, answered or not, are at most as many as the budget of the scope, if that
  -- is not 0.
  pub run_schedule-budget :
      (read_per_minute write_per_minute : ℕ) (es : List Event) (w : World Limiter)
      → w.rate_limiters ≡ new deps.governor read_per_minute write_per_minute
      → w.metrics.requests ≡ []
      → budget deps.governor laws read_per_minute write_per_minute s ≢ 0
      → AllAt now es
      → let_through s name (run_schedule deps state es (idle w))
        ≤ budget deps.governor laws read_per_minute write_per_minute s
  run_schedule-budget r b es w fresh none_yet is_limited at_now =
      let begin = new-Leaves r b is_limited in
      let within =
        run_schedule-Leaves (budget deps.governor laws r b s) es (idle w) at_now tt
          (rw (fresh, none_yet) begin) in
      omega (arith, within.bound)
