-- ===== src/Server/Tasks/Remaining.antt =====
-- What a request has still to write from the access to the limiters on, which nothing changes any more;
-- and `handle` as that access and all the rest at once.
use mathlib.Core.List.{append-nil, append_assoc}
use indexer_gateway_auth.Prelude.{
  ◌≡◌, refl, sym, ap, ◌∙◌, inl, inr, ◌||◌, Option, none, some, List, [], ◌∷◌, ◌++◌, map,
}
use indexer_gateway_auth.Prelude.{Bytes, Result, ok, err, Bool-cases}
use indexer_gateway_auth.Principal.{Principal}
use indexer_gateway_auth.Classify.{Classification}
use indexer_gateway_auth.Proxy.{ProxyResponse, ProxyError, UpstreamRequest}
use indexer_gateway_auth.RateLimit.{RateLimiters, check}
use indexer_gateway_auth.Audit.{AuditRecord}
use indexer_gateway_auth.Metrics.{Count, record_count}
use indexer_gateway_auth.Server.{Deps, Inner, World, HttpRequest, Moment, emit, count, is_write}
use indexer_gateway_auth.Server.Handle.{answered, handle}
use indexer_gateway_auth.Server.Ends.{
  authn, exchange, rate_check, Ended, unauthenticated, too_large, unclassified, unauthorized,
  over_budget, passed, handle-Ended,
}
use indexer_gateway_auth.Server.Request.{Response}
use indexer_gateway_auth.Server.Tasks.{
  Effect, records, counts, Stage, charging, sending, ending, after_authenticate, after_check,
  after_forward,
}

-- One thing that leaves the process, or that a later reader of it sees.
pub data Output : Type 0 where
  sends : UpstreamRequest → Output
  writes : AuditRecord → Output
  increases : Count → Output

abbrev pub put : {Limiter : Type 0} → Output → World Limiter → World Limiter
put (sends r) w = record w { sent = w.sent ++ r ∷ [] }
put (writes rec) w = emit rec w
put (increases c) w = count (record_count c) w

abbrev pub put_all : {Limiter : Type 0} → List Output → World Limiter → World Limiter
put_all [] w = w
put_all (o ∷ os) w = put_all os (put o w)

abbrev pub written : Effect → Output
written (records rec) = writes rec
written (counts c) = increases c

-- Of a stage with a response: what is left to write, and the response.
abbrev pub left_to_write : Stage → List Output
left_to_write (ending es r) = map written es
left_to_write _ = []

abbrev pub response_of : Stage → Option Response
response_of (ending es r) = some r
response_of _ = none

pub put_all-append :
    {Limiter : Type 0} (xs ys : List Output) (w : World Limiter)
    → put_all (xs ++ ys) w ≡ put_all ys (put_all xs w)
put_all-append [] ys w = refl
put_all-append (o ∷ xs) ys w = put_all-append xs ys (put o w)

pub put_all-sends :
    {Limiter : Type 0} (rs : List UpstreamRequest) (w : World Limiter)
    → put_all (map sends rs) w ≡ record w { sent = w.sent ++ rs }
put_all-sends [] w = rw (append-nil w.sent) refl
put_all-sends (r ∷ rs) w =
    put_all-sends rs (put (sends r) w) ∙ rw (append_assoc w.sent (r ∷ []) rs) refl

module _ {Key Jwk Limiter : Type 0} (deps : Deps Key Jwk Limiter) (state : Inner Key)
    (req : HttpRequest) (at : Moment) where
  abbrev pub remaining : Stage → List Output
  remaining (sending p body c) =
      let (requests, result) = exchange deps state req at body in
      map sends requests ++ left_to_write (after_forward deps state req at p body c result)
  remaining s = left_to_write s

  -- The response that a request will have, once the limiters have answered.
  abbrev pub answer : Stage → Option Response
  answer (sending p body c) =
      response_of (after_forward deps state req at p body c (exchange deps state req at body).1)
  answer s = response_of s

  -- The access to the limiters, if the request comes to it.
  abbrev pub decide : RateLimiters Limiter → Stage → RateLimiters Limiter × Stage
  decide limiters (charging p body c) =
      let (after, allowed) = check deps.governor limiters at.instant c.scope p.name in
      (after, after_check deps state req at p body c allowed)
  decide limiters s = (limiters, s)

  abbrev pub admit : RateLimiters Limiter → RateLimiters Limiter × Stage
  admit limiters = decide limiters (after_authenticate deps state req at (authn deps state req at))

  abbrev pub IsResult :
      World Limiter → Response × World Limiter → RateLimiters Limiter × Stage → Type 0
  IsResult w r (limiters, s) =
      (answer s ≡ some r.0) × (r.1 ≡ put_all (remaining s) (record w { rate_limiters = limiters }))

  IsResult-answered :
      (p : Principal) (c : Classification) (body : Bytes)
      (f : List UpstreamRequest × Result ProxyError ProxyResponse) (w : World Limiter)
      → (response_of (after_forward deps state req at p body c f.1)
          ≡ some (answered deps state req at p c body f w).0)
        × ((answered deps state req at p c body f w).1
            ≡ put_all
                (left_to_write (after_forward deps state req at p body c f.1))
                (record w { sent = w.sent ++ f.0 }))
  unfolding answered
  IsResult-answered p c body (rs, err x) w = (refl, refl)
  IsResult-answered p c body (rs, ok r) w =
      elim (Bool-cases (is_write c.scope || state.audit_reads)) [
        | inl e ↦ rw e (refl, refl)
        | inr e ↦ rw e (refl, refl)
      ]

  Ended-IsResult :
      {w : World Limiter} {r : Response × World Limiter}
      → Ended deps state req at w r
      → IsResult w r (admit w.rate_limiters)
  Ended-IsResult (unauthenticated e a) = rw a (refl, refl)
  Ended-IsResult (too_large p a b) = rw (a, b) (refl, refl)
  Ended-IsResult (unclassified p body reason a b k) = rw (a, b, k) (refl, refl)
  Ended-IsResult (unauthorized p body c d a b k z) = rw (a, b, k, z) (refl, refl)
  Ended-IsResult (over_budget p body c required a b k z l) = rw (a, b, k, z, l) (refl, refl)
  Ended-IsResult {w} (passed p body c required a b k z l) =
      let charged : World Limiter = record w {
        rate_limiters = (rate_check deps state req at w p c).0;
      } in
      let f = exchange deps state req at body in
      let (same, out) = IsResult-answered p c body f charged in
      let later = left_to_write (after_forward deps state req at p body c f.1) in
      rw (a, b, k, z, l)
        (
          same,
          out
              ∙ ap (put_all later) (sym (put_all-sends f.0 charged))
              ∙ sym (put_all-append (map sends f.0) later charged),
        )

  -- `handle` is the access to the limiters, and the rest of the request at once.
  pub handle-admit :
      (w : World Limiter)
      → (answer (admit w.rate_limiters).1 ≡ some (handle deps state req at w).0)
        × ((handle deps state req at w).1
            ≡ put_all
                (remaining (admit w.rate_limiters).1)
                (record w { rate_limiters = (admit w.rate_limiters).0 }))
  handle-admit w = Ended-IsResult (handle-Ended deps state req at w)
