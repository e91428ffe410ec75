-- ===== src/Server/Tasks/Schedule/Outcome.antt =====
-- What requests that are handled at the same time do, once they are at their end.
use mathlib.Core.List.{Perm, append-nil}
use mathlib.Core.List.Perm
use indexer_gateway_auth.Prelude.{◌≡◌, refl, sym, ap, ◌∙◌, List, [], ◌∷◌, ◌++◌, map, true}
use indexer_gateway_auth.Prelude.{flat_map, All}
use indexer_gateway_auth.Server.{Deps, Inner, World, HttpRequest, Moment}
use indexer_gateway_auth.Server.Request.{Response}
use indexer_gateway_auth.Server.Tasks.{Stage, arrived, charging, sending, ending, is_finished}
use indexer_gateway_auth.Server.Tasks.Remaining.{response_of}
use indexer_gateway_auth.Server.Tasks.Same.{SameWorld, put_all-SameWorld}
use indexer_gateway_auth.Server.Tasks.Schedule.{Task, System, Event, arrivals, run_schedule, idle}
use indexer_gateway_auth.Server.Tasks.Schedule.Sequence.{handle_all, requests-handle_all, base}
use indexer_gateway_auth.Server.Tasks.Schedule.Serial.{
  with_answer, remaining_of, answer_of, IsSerial, run_schedule-IsSerial, idle-IsSerial,
}

finished_stage : (s : Stage) → is_finished s ≡ true → (r : Response) × (s ≡ ending [] r)
finished_stage arrived f = cc
finished_stage (charging p body c) f = cc
finished_stage (sending p body c) f = cc
finished_stage (ending [] r) f = (r, refl)
finished_stage (ending (e ∷ es) r) f = cc

-- The responses that were given, with the requests.
abbrev pub responses : List Task → List ((HttpRequest × Moment) × Response)
responses ts = flat_map (λ t. with_answer (t.request, t.at) (response_of t.stage)) ts

abbrev pub AllFinished : List Task → Type 0
AllFinished ts = All (λ t. is_finished t.stage ≡ true) ts

module _ {Key Jwk Limiter : Type 0} (deps : Deps Key Jwk Limiter) (state : Inner Key) where
  finished-remaining :
      (ts : List Task) → AllFinished ts → flat_map (remaining_of deps state) ts ≡ []
  finished-remaining [] h = refl
  finished-remaining (t ∷ ts) (f, h) =
      let (r, e) = finished_stage t.stage f in rw (e, finished-remaining ts h) refl

  finished-answers :
      (ts : List Task) → AllFinished ts → flat_map (answer_of deps state) ts ≡ responses ts
  finished-answers [] h = refl
  finished-answers (t ∷ ts) (f, h) =
      let (r, e) = finished_stage t.stage f in rw (e, finished-answers ts h) refl

  finished-arrivals :
      (ts : List Task) → AllFinished ts → map (λ x. x.0) (responses ts) ≡ arrivals ts
  finished-arrivals [] h = refl
  finished-arrivals (t ∷ ts) (f, h) =
      let (r, e) = finished_stage t.stage f in rw (e, finished-arrivals ts h) refl

  pub requests-answers :
      (w : World Limiter) (done : List (HttpRequest × Moment)) (s : System Limiter)
      (inv : IsSerial deps state w done s)
      → map (λ x. x.0) inv.answers ≡ done ++ inv.more
  requests-answers w done s inv =
      ap (λ r. map (λ x. x.0) r.0) (sym inv.serial)
      ∙ requests-handle_all deps state (done ++ inv.more) w

  -- What the requests did, against one after the other in an order.
  abbrev pub IsOutcome : World Limiter → System Limiter → List (HttpRequest × Moment) → Type 0
  IsOutcome w s order =
      Perm (arrivals s.tasks) order
      × Perm (responses s.tasks) (handle_all deps state order w).0
      × SameWorld s.world (handle_all deps state order w).1

  pub finished-IsOutcome :
      (w : World Limiter) (done : List (HttpRequest × Moment)) (s : System Limiter)
      (inv : IsSerial deps state w done s)
      → AllFinished s.tasks
      → IsOutcome w s (done ++ inv.more)
  finished-IsOutcome w done s inv finished =
      let given : Perm (responses s.tasks) inv.answers =
        (rw (finished-answers s.tasks finished) at inv.answered) in
      let left : Perm inv.trace inv.whole =
        (rw (finished-remaining s.tasks finished, append-nil inv.trace) at inv.written) in
      (
        rw (sym (finished-arrivals s.tasks finished), sym (requests-answers w done s inv))
            (Perm.map (λ x. x.0) given),
        rw inv.serial given,
        rw (inv.serial, inv.now) (put_all-SameWorld (base w inv.limiters) left),
      )

  -- Requests that run at the same time do what they would do one after the other: once all are at
  -- their end, whatever the schedule, the same requests handled by `handle` in some order, each when
  -- the one before it is done, give each request the same response and leave the same limiters, the
  -- same counters, and the same observations, audit records and upstream requests up to their order.
  pub run_schedule-serializes :
      (es : List Event) (w : World Limiter)
      → AllFinished (run_schedule deps state es (idle w)).tasks
      → (order : List (HttpRequest × Moment)) × Perm
          (arrivals (run_schedule deps state es (idle w)).tasks)
          order
        × Perm
            (responses (run_schedule deps state es (idle w)).tasks)
            (handle_all deps state order w).0
        × SameWorld (run_schedule deps state es (idle w)).world (handle_all deps state order w).1
  run_schedule-serializes es w finished =
      let s = run_schedule deps state es (idle w) in
      let inv = run_schedule-IsSerial deps state w [] es (idle w) (idle-IsSerial deps state w) in
      let (came, given, same) = finished-IsOutcome w [] s inv finished in
      (inv.more, came, given, same)
