-- ===== src/Server/Tasks/Schedule/Liveness.antt =====
-- Every request comes to its end, whatever the others do.
use indexer_gateway_auth.Prelude.{
  ℕ, zero, suc, String, ◌-◌, ◌≤◌, ◌≡◌, refl, subst, inl, inr, Bool, true, false, Option, none, some,
  List, [], ◌∷◌, ◌++◌, arith, length, Bool-cases, if◌then◌else◌,
}
use indexer_gateway_auth.Prelude.{Bytes, Result, ok, err}
use indexer_gateway_auth.Principal.{Principal}
use indexer_gateway_auth.Classify.{Classification}
use indexer_gateway_auth.Authz.{Denied, authorize}
use indexer_gateway_auth.Auth.Error.{AuthError}
use indexer_gateway_auth.Proxy.{ProxyResponse, ProxyError, route}
use indexer_gateway_auth.Server.Request.{classify_request}
use indexer_gateway_auth.Server.{Deps, Inner, World, HttpRequest, Moment}
use indexer_gateway_auth.Server.Tasks.{
  Stage, arrived, charging, sending, ending, is_finished, step, after_authorize, after_classify,
  after_body, after_authenticate, after_check, after_forward,
}
use indexer_gateway_auth.Server.Tasks.Schedule.{
  Task, System, Event, arrives, advances, new_task, advance, turn, run_schedule,
}

-- The accesses that a task may still make.
abbrev pub work : Stage → ℕ
work arrived = 5
work (charging p body c) = 4
work (sending p body c) = 3
work (ending es r) = length es

abbrev pub get_elem? : List Task → ℕ → Option Task
get_elem? [] i = none
get_elem? (t ∷ ts) zero = some t
get_elem? (t ∷ ts) (suc i) = get_elem? ts i

abbrev pub same_index : ℕ → ℕ → Bool
same_index zero zero = true
same_index (suc i) (suc j) = same_index i j
same_index _ _ = false

-- How often a schedule advances the task at an index.
abbrev pub turns : ℕ → List Event → ℕ
turns i [] = 0
turns i (arrives req at ∷ es) = turns i es
turns i (advances j ∷ es) = if same_index j i then suc (turns i es) else turns i es

finished_of_work : (s : Stage) → work s ≡ 0 → is_finished s ≡ true
finished_of_work s h = ground arith

module _ {Key Jwk Limiter : Type 0} (deps : Deps Key Jwk Limiter) (state : Inner Key) where
  module _ (req : HttpRequest) (at : Moment) where
    after_authorize-work :
        (p : Principal) (body : Bytes) (c : Classification) (r : Result Denied (List String))
        → work (after_authorize deps state req at p body c r) ≤ 4
    after_authorize-work p body c (ok required) = omega arith
    after_authorize-work p body c (err d) = omega arith

    after_classify-work :
        (p : Principal) (body : Bytes) (r : Result String Classification)
        → work (after_classify deps state req at p body r) ≤ 4
    after_classify-work p body (ok c) = after_authorize-work p body c (authorize p c state.policy)
    after_classify-work p body (err reason) = omega arith

    after_body-work :
        (p : Principal) (o : Option Bytes) → work (after_body deps state req at p o) ≤ 4
    after_body-work p none = omega arith
    after_body-work p (some body) = after_classify-work p body (
        classify_request deps.parsers req.method (route req.path_and_query).0 body
          state.fail_closed_on_parse_error)

    after_authenticate-work :
        (r : Result AuthError Principal) → work (after_authenticate deps state req at r) ≤ 4
    after_authenticate-work (ok p) = after_body-work p (deps.to_bytes req.body state.body_limit)
    after_authenticate-work (err e) = omega arith

    after_check-work :
        (p : Principal) (body : Bytes) (c : Classification) (allowed : Bool)
        → work (after_check deps state req at p body c allowed) ≤ 3
    after_check-work p body c true = omega arith
    after_check-work p body c false = omega arith

    after_forward-work :
        (p : Principal) (body : Bytes) (c : Classification) (r : Result ProxyError ProxyResponse)
        → work (after_forward deps state req at p body c r) ≤ 2
    after_forward-work p body c (ok r) = ground arith
    after_forward-work p body c (err e) = omega arith

    step-work : (s : Stage) (w : World Limiter) → work (step deps state req at s w).0 ≤ work s - 1
    unfolding step
    step-work arrived w = after_authenticate-work _
    step-work (charging p body c) w = after_check-work p body c _
    step-work (sending p body c) w = after_forward-work p body c _
    step-work (ending [] r) w = omega arith
    step-work (ending (e ∷ es) r) w = omega arith

  -- The task is of this request, and needs at most so many accesses.
  abbrev Within : ℕ → HttpRequest → Moment → Option Task → Type 0
  Within n req at none = ⊥
  Within n req at (some t) = (work t.stage ≤ n) × (t.request ≡ req) × (t.at ≡ at)

  Within-arrives :
      (n : ℕ) (req : HttpRequest) (at : Moment) (ts : List Task) (i : ℕ) (t : Task)
      → Within n req at (get_elem? ts i)
      → Within n req at (get_elem? (ts ++ t ∷ []) i)
  Within-arrives n req at [] i t h = absurd h
  Within-arrives n req at (u ∷ ts) zero t h = h
  Within-arrives n req at (u ∷ ts) (suc i) t h = Within-arrives n req at ts i t h

  -- Advancing a task takes one of its accesses; advancing another takes none.
  Within-advance :
      (n : ℕ) (req : HttpRequest) (at : Moment) (j i : ℕ) (ts : List Task) (w : World Limiter)
      → Within n req at (get_elem? ts i)
      → Within
          (if same_index j i then n - 1 else n)
          req
          at
          (get_elem? (advance deps state j ts w).0 i)
  unfolding advance
  Within-advance n req at j i [] w h = absurd h
  Within-advance n req at zero zero (t ∷ ts) w (h, r, a) =
      (omega (arith, step-work t.request t.at t.stage w), r, a)
  Within-advance n req at zero (suc i) (t ∷ ts) w h = h
  Within-advance n req at (suc j) zero (t ∷ ts) w h = h
  Within-advance n req at (suc j) (suc i) (t ∷ ts) w h = Within-advance n req at j i ts w h

  Within-run :
      (n : ℕ) (req : HttpRequest) (at : Moment) (i : ℕ) (es : List Event) (s : System Limiter)
      → Within n req at (get_elem? s.tasks i)
      → Within (n - turns i es) req at (get_elem? (run_schedule deps state es s).tasks i)
  unfolding run_schedule
  Within-run n req at i [] s h = subst (λ m. Within m req at (get_elem? s.tasks i)) (omega arith) h
  Within-run n req at i (arrives q m ∷ es) s h =
      Within-run n req at i es (turn deps state (arrives q m) s)
        (Within-arrives n req at s.tasks i (new_task q m) h)
  Within-run n req at i (advances j ∷ es) s h =
      let moved = turn deps state (advances j) s in
      let after = Within-advance n req at j i s.tasks s.world h in
      elim (Bool-cases (same_index j i)) [
        | inl e ↦ rw e (
            subst (λ m. Within m req at (get_elem? (run_schedule deps state es moved).tasks i))
              (omega arith) (Within-run (n - 1) req at i es moved (rw e at after)))
        | inr e ↦ rw e (Within-run n req at i es moved (rw e at after))
      ]

  finished_of_Within :
      (req : HttpRequest) (at : Moment) (o : Option Task)
      → Within 0 req at o
      → (t : Task) × (o ≡ some t) × (t.request ≡ req) × (t.at ≡ at) × (is_finished t.stage ≡ true)
  finished_of_Within req at none h = absurd h
  finished_of_Within req at (some t) (h, r, a) =
      (t, refl, r, a, finished_of_work t.stage (omega arith))

  -- Whatever other requests come in, and in whatever order the accesses of all requests happen: a
  -- request that has come in has its response, and has written all that it writes, as soon as it was
  -- advanced five times.
  pub run_schedule-finishes :
      (s : System Limiter) (es : List Event) (i : ℕ) (req : HttpRequest) (at : Moment)
      → get_elem? s.tasks i ≡ some (new_task req at)
      → 5 ≤ turns i es
      → (t : Task) × (get_elem? (run_schedule deps state es s).tasks i ≡ some t)
        × (t.request ≡ req)
        × (t.at ≡ at)
        × (is_finished t.stage ≡ true)
  run_schedule-finishes s es i req at there often =
      let here : Within 5 req at (get_elem? s.tasks i) = rw there (omega arith, refl, refl) in
      let done : 5 - turns i es ≡ 0 = omega arith in
      finished_of_Within req at _ (rw done at (Within-run 5 req at i es s here))
