-- ===== src/Server/Tasks/Schedule/Serial.antt =====
-- Requests that are handled at the same time, against the same requests one after the other.
use mathlib.Core.List.{append-nil, append_assoc, Perm}
use mathlib.Core.List.Perm
use indexer_gateway_auth.Prelude.{◌≡◌, refl, sym, ap, ◌∙◌, Option, none, some, List, [], ◌∷◌, ◌++◌}
use indexer_gateway_auth.Prelude.{flat_map, All, All-append}
use indexer_gateway_auth.Prelude.Gather.{
  Perm-less, Perm-more, flat_map-more, All-replace, All-middle,
}
use indexer_gateway_auth.RateLimit.{RateLimiters}
use indexer_gateway_auth.Server.{Deps, Inner, World, HttpRequest, Moment}
use indexer_gateway_auth.Server.Handle.{handle}
use indexer_gateway_auth.Server.Request.{Response}
use indexer_gateway_auth.Server.Tasks.{Stage}
use indexer_gateway_auth.Server.Tasks.Remaining.{
  Output, put_all, put_all-append, remaining, answer, admit,
}
use indexer_gateway_auth.Server.Tasks.Same.{put_all-rate_limiters, put_all-limiters}
use indexer_gateway_auth.Server.Tasks.Schedule.{
  Task, System, Event, arrives, advances, new_task, advance, turn, run_schedule, idle,
}
use indexer_gateway_auth.Server.Tasks.Schedule.Moves.{
  IsPrepared, Move, commits, emits, step-IsMove, Advanced, rests, moves, advance-Advanced,
}
use indexer_gateway_auth.Server.Tasks.Schedule.Sequence.{
  handle_all, handle_all-append, base, handle-commits,
}

abbrev pub with_answer :
    HttpRequest × Moment → Option Response → List ((HttpRequest × Moment) × Response)
with_answer q none = []
with_answer q (some r) = (q, r) ∷ []

module _ {Key Jwk Limiter : Type 0} (deps : Deps Key Jwk Limiter) (state : Inner Key) where
  abbrev pub remaining_of : Task → List Output
  remaining_of t = remaining deps state t.request t.at t.stage

  -- The response of a request that the limiters have answered.
  abbrev pub answer_of : Task → List ((HttpRequest × Moment) × Response)
  answer_of t = with_answer (t.request, t.at) (answer deps state t.request t.at t.stage)

  abbrev AllPrepared : List Task → Type 0
  AllPrepared ts = All (λ t. IsPrepared deps state t.request t.at t.stage) ts

  -- The requests that are decided, in that order, some of them done before: handled one after the
  -- other, they leave the same, but for what some have still to write.
  pub record IsSerial (w : World Limiter) (done : List (HttpRequest × Moment)) (s : System Limiter)
      : Type 0 where
    pub more : List (HttpRequest × Moment)
    pub limiters : RateLimiters Limiter
    pub trace : List Output
    pub whole : List Output
    pub answers : List ((HttpRequest × Moment) × Response)
    pub now : s.world ≡ put_all trace (base w limiters)
    pub serial : handle_all deps state (done ++ more) w ≡ (answers, put_all whole (base w limiters))
    pub written : Perm (trace ++ (flat_map remaining_of s.tasks)) whole
    pub answered : Perm (flat_map answer_of s.tasks) answers
    pub prepared : AllPrepared s.tasks

  Move-IsSerial :
      (w : World Limiter) (done : List (HttpRequest × Moment)) (s : System Limiter)
      (before after : List Task) (t : Task) (r : Stage × World Limiter)
      → IsSerial w done s
      → s.tasks ≡ before ++ t ∷ after
      → Move deps state t.request t.at t.stage s.world r
      → IsPrepared deps state t.request t.at r.0
      → IsSerial w done (record { tasks = before ++ record t { stage = r.0 } ∷ after; world = r.1 })
  Move-IsSerial w done s before after t r inv split (emits {s'} outs left same) prepared =
      let t' = record t { stage = s' } in
      record {
        more = inv.more;
        limiters = inv.limiters;
        trace = inv.trace ++ outs;
        whole = inv.whole;
        answers = inv.answers;
        now = ap (put_all outs) inv.now ∙ sym (put_all-append inv.trace outs (base w inv.limiters));
        serial = inv.serial;
        written =
            Perm-less remaining_of inv.trace inv.whole outs before t t' after left
              (rw split at inv.written);
        answered =
            Perm-less answer_of [] inv.answers [] before t t' after
              (ap (with_answer (t.request, t.at)) same) (rw split at inv.answered);
        prepared =
            All-replace (λ u. IsPrepared deps state u.request u.at u.stage) before t t' after
              (rw split at inv.prepared) prepared;
      }
  Move-IsSerial w done s before after t r inv split
        (commits {s'} {limiters} nothing unknown admitted) prepared =
      let t' = record t { stage = s' } in
      let same_limiters : s.world.rate_limiters ≡ inv.limiters =
        ap (λ v. v.rate_limiters) inv.now ∙ put_all-rate_limiters inv.trace (base w inv.limiters) in
      let (known, out) =
        handle-commits deps state w t.request t.at inv.limiters limiters s' inv.whole
          (ap (admit deps state t.request t.at) (sym same_limiters) ∙ admitted) in
      let response =
        (handle deps state t.request t.at (put_all inv.whole (base w inv.limiters))).0 in
      record {
        more = inv.more ++ (t.request, t.at) ∷ [];
        limiters = limiters;
        trace = inv.trace;
        whole = inv.whole ++ remaining deps state t.request t.at s';
        answers = inv.answers ++ ((t.request, t.at), response) ∷ [];
        now =
            ap (λ v. base v limiters) inv.now
            ∙ put_all-limiters inv.trace limiters (base w inv.limiters);
        serial =
            ap (λ order. handle_all deps state order w)
              (sym (append_assoc done inv.more ((t.request, t.at) ∷ [])))
            ∙ handle_all-append deps state (done ++ inv.more) t.request t.at w
            ∙ rw (inv.serial, out) refl;
        written =
            Perm-more remaining_of inv.trace inv.whole _ before t t' after (rw nothing refl)
              (rw split at inv.written);
        answered =
            Perm-more answer_of [] inv.answers _ before t t' after (rw (unknown, known) refl)
              (rw split at inv.answered);
        prepared =
            All-replace (λ u. IsPrepared deps state u.request u.at u.stage) before t t' after
              (rw split at inv.prepared) prepared;
      }

  turn-IsSerial :
      (w : World Limiter) (done : List (HttpRequest × Moment)) (e : Event) (s : System Limiter)
      → IsSerial w done s
      → IsSerial w done (turn deps state e s)
  turn-IsSerial w done (arrives req at) s inv = record {
    more = inv.more;
    limiters = inv.limiters;
    trace = inv.trace;
    whole = inv.whole;
    answers = inv.answers;
    now = inv.now;
    serial = inv.serial;
    written = rw (flat_map-more remaining_of s.tasks (new_task req at) refl) inv.written;
    answered = rw (flat_map-more answer_of s.tasks (new_task req at) refl) inv.answered;
    prepared = All-append _ s.tasks (new_task req at ∷ []) inv.prepared (tt, tt);
  }
  turn-IsSerial w done (advances i) s inv =
      advanced (advance deps state i s.tasks s.world)
        (advance-Advanced deps state i s.tasks s.world)
    where
      advanced :
          (r : List Task × World Limiter)
          → Advanced deps state s.tasks s.world r
          → IsSerial w done (record { tasks = r.0; world = r.1 })
      advanced r rests = inv
      advanced r (moves before t after split) =
          let here = All-middle _ before t after (rw split at inv.prepared) in
          let (move, prepared) = step-IsMove deps state t.request t.at t.stage s.world here in
          Move-IsSerial w done s before after t _ inv split move prepared

  pub run_schedule-IsSerial :
      (w : World Limiter) (done : List (HttpRequest × Moment)) (es : List Event)
      (s : System Limiter)
      → IsSerial w done s
      → IsSerial w done (run_schedule deps state es s)
  unfolding run_schedule
  run_schedule-IsSerial w done [] s inv = inv
  run_schedule-IsSerial w done (e ∷ es) s inv =
      run_schedule-IsSerial w done es (turn deps state e s) (turn-IsSerial w done e s inv)

  pub idle-IsSerial : (w : World Limiter) → IsSerial w [] (idle w)
  unfolding handle_all
  idle-IsSerial w = record {
    more = [];
    limiters = w.rate_limiters;
    trace = [];
    whole = [];
    answers = [];
    now = refl;
    serial = refl;
    written = Perm.rfl;
    answered = Perm.rfl;
    prepared = tt;
  }

  -- What is decided at some point stays first.
  pub IsSerial-more :
      (w : World Limiter) (done : List (HttpRequest × Moment)) (s : System Limiter)
      (inv : IsSerial w done s)
      → IsSerial w (done ++ inv.more) s
  IsSerial-more w done s inv = record {
    more = [];
    limiters = inv.limiters;
    trace = inv.trace;
    whole = inv.whole;
    answers = inv.answers;
    now = inv.now;
    serial = rw (append-nil (done ++ inv.more)) inv.serial;
    written = inv.written;
    answered = inv.answered;
    prepared = inv.prepared;
  }
