-- ===== src/Server/Tasks/Schedule.antt =====
-- Requests that are handled at the same time: any schedule of their accesses.
pub mod Liveness
pub mod Safety
pub mod Conservation
pub mod Moves
pub mod Sequence
pub mod Serial
pub mod Outcome
pub mod Linear
pub mod Books
pub mod Budgets
pub mod Secrets
use indexer_gateway_auth.Prelude.{ℕ, zero, suc, List, [], ◌∷◌, ◌++◌, map, Option, none, some}
use indexer_gateway_auth.Server.{Deps, Inner, World, HttpRequest, Moment}
use indexer_gateway_auth.Server.Tasks.{Stage, arrived, step}

pub record Task : Type 0 where
  pub request : HttpRequest
  pub at : Moment
  pub stage : Stage

pub record System (Limiter : Type 0) : Type 0 where
  pub tasks : List Task
  pub world : World Limiter

-- A request comes in, or the task at an index makes its next access.
pub data Event : Type 0 where
  arrives : HttpRequest → Moment → Event
  advances : ℕ → Event

abbrev pub new_task : HttpRequest → Moment → Task
new_task req at = record { request = req; at = at; stage = arrived }

abbrev pub arrivals : List Task → List (HttpRequest × Moment)
arrivals tasks = map (λ t. (t.request, t.at)) tasks

module _ {Key Jwk Limiter : Type 0} (deps : Deps Key Jwk Limiter) (state : Inner Key) where
  abbrev pub advance_task : Task → World Limiter → Task × World Limiter
  advance_task t w =
      let (stage, w') = step deps state t.request t.at t.stage w in (record t { stage = stage }, w')

  -- An index behind the last task names none.
  unfoldable pub advance : ℕ → List Task → World Limiter → List Task × World Limiter
  advance i [] w = ([], w)
  advance zero (t ∷ ts) w = let (t', w') = advance_task t w in (t' ∷ ts, w')
  advance (suc i) (t ∷ ts) w = let (ts', w') = advance i ts w in (t ∷ ts', w')

  abbrev pub turn : Event → System Limiter → System Limiter
  turn (arrives req at) s = record s { tasks = s.tasks ++ new_task req at ∷ [] }
  turn (advances i) s =
      let (tasks, world) = advance i s.tasks s.world in record { tasks = tasks; world = world }

  unfoldable pub run_schedule : List Event → System Limiter → System Limiter
  run_schedule [] s = s
  run_schedule (e ∷ es) s = run_schedule es (turn e s)

-- The gateway before the first request.
abbrev pub idle : {Limiter : Type 0} → World Limiter → System Limiter
idle w = record { tasks = []; world = w }
