-- ===== src/Server/Reconciling.antt =====
-- The audit records against the metrics.
use indexer_gateway_auth.Prelude.{
  ℕ, ◌+◌, String, ◌≡◌, refl, inl, inr, Bool, false, ◌||◌, Option, some, List, [], ◌∷◌, ◌++◌, ◌==◌,
  arith,
}
use indexer_gateway_auth.Prelude.{Bytes, Result, ok, err, Bool-cases, if◌then◌else◌}
use indexer_gateway_auth.Prelude.Gather.{tally, tally-append}
use indexer_gateway_auth.Principal.{Principal}
use indexer_gateway_auth.Classify.{Scope, read, write, Classification}
use indexer_gateway_auth.Proxy.{ProxyResponse, ProxyError, UpstreamRequest}
use indexer_gateway_auth.Audit.{
  Outcome, allowed, auth_failed, denied, rejected, rate_limited, AuditRecord,
}
use indexer_gateway_auth.Metrics.{
  Observation, Metrics, record_request, inc_auth_failure, inc_authz_denied, inc_parse_error,
  inc_rate_limited,
}
use indexer_gateway_auth.Server.Request.{scope_str, Response}
use indexer_gateway_auth.Server.{Deps, Inner, World, HttpRequest, Moment, is_write}
use indexer_gateway_auth.Server.Handle.{answered, handle}
use indexer_gateway_auth.Server.Ends.{
  rate_check, exchange, Ended, unauthenticated, too_large, unclassified, unauthorized, over_budget,
  passed, handle-Ended,
}

-- What both the records and the metrics tell the number of.
pub data Book : Type 0 where
  refused_callers denials unclassifiable over_budgets allowed_writes : Book

-- Whether a record with this outcome and scope is of a book: 1 or 0.
abbrev pub entered : Book → Outcome → Option Scope → ℕ
entered refused_callers (auth_failed reason) scope = 1
entered denials (denied reason) scope = 1
entered unclassifiable (rejected reason) scope = 1
entered over_budgets rate_limited scope = 1
entered allowed_writes allowed (some write) = 1
entered _ _ _ = 0

abbrev pub observed_write : Observation → ℕ
observed_write o = if o.scope == scope_str write then 1 else 0

-- The metrics' number.
abbrev pub counter : Book → Metrics → ℕ
counter refused_callers m = m.auth_failures_total
counter denials m = m.authz_denied_total
counter unclassifiable m = m.parse_errors_total
counter over_budgets m = m.rate_limited_total
counter allowed_writes m = tally observed_write m.requests

-- Each number of the metrics is that of the records.
abbrev pub IsReconciled : List AuditRecord → Metrics → Type 0
IsReconciled audit m =
    (b : Book) → tally (λ rec. entered b rec.outcome rec.scope) audit ≡ counter b m

enter :
    (rec : AuditRecord) (m m' : Metrics) (audit : List AuditRecord)
    → ((b : Book) → counter b m' ≡ counter b m + entered b rec.outcome rec.scope)
    → IsReconciled audit m
    → IsReconciled (audit ++ rec ∷ []) m'
enter rec m m' audit one h = λ b.
    omega
      (arith, tally-append (λ rec. entered b rec.outcome rec.scope) audit (rec ∷ []), one b, h b)

record_request-counter :
    (s : Scope) (name : String) (status latency_ms : ℕ) (m : Metrics) (b : Book)
    → counter b (record_request (scope_str s) name status latency_ms m)
      ≡ counter b m + entered b allowed (some s)
unfolding record_request
record_request-counter s name status latency_ms m refused_callers = omega arith
record_request-counter s name status latency_ms m denials = omega arith
record_request-counter s name status latency_ms m unclassifiable = omega arith
record_request-counter s name status latency_ms m over_budgets = omega arith
record_request-counter read name status latency_ms m allowed_writes =
    omega (arith, tally-append observed_write m.requests (_ ∷ []))
record_request-counter write name status latency_ms m allowed_writes =
    omega (arith, tally-append observed_write m.requests (_ ∷ []))

-- A read that is let through is in no book, recorded or not.
entered_read : (b : Book) → entered b allowed (some read) ≡ 0
entered_read b = ground arith

read_of_unrecorded : (s : Scope) (b : Bool) → (is_write s || b) ≡ false → s ≡ read
read_of_unrecorded read b h = refl
read_of_unrecorded write b h = cc

module _ {Key Jwk Limiter : Type 0} (deps : Deps Key Jwk Limiter) (state : Inner Key)
    (req : HttpRequest) (at : Moment) where
  answered-IsReconciled :
      (p : Principal) (c : Classification) (body : Bytes)
      (f : List UpstreamRequest × Result ProxyError ProxyResponse) (w : World Limiter)
      → IsReconciled w.audit w.metrics
      → IsReconciled
          (answered deps state req at p c body f w).1.audit
          (answered deps state req at p c body f w).1.metrics
  unfolding answered
  answered-IsReconciled p c body (rs, err x) w h =
      enter _ w.metrics _ w.audit (record_request-counter c.scope _ _ _ w.metrics) h
  answered-IsReconciled p c body (rs, ok r) w h =
      elim (Bool-cases (is_write c.scope || state.audit_reads)) [
        | inl e ↦
            rw e (enter _ w.metrics _ w.audit (record_request-counter c.scope _ _ _ w.metrics) h)
        | inr e ↦
            let is_read = read_of_unrecorded c.scope state.audit_reads e in
            rw (e, is_read)
              (λ b.
                omega (arith, h b, record_request-counter read _ _ _ w.metrics b, entered_read b))
      ]

  Ended-IsReconciled :
      {w : World Limiter} {r : Response × World Limiter}
      → Ended deps state req at w r
      → IsReconciled w.audit w.metrics
      → IsReconciled r.1.audit r.1.metrics
  unfolding inc_auth_failure inc_authz_denied inc_parse_error inc_rate_limited
  Ended-IsReconciled {w} (unauthenticated e a) h = enter _ w.metrics _ w.audit (λ b. ground arith) h
  Ended-IsReconciled (too_large p a b) h = h
  Ended-IsReconciled {w} (unclassified p body reason a b k) h =
      enter _ w.metrics _ w.audit (λ b. ground arith) h
  Ended-IsReconciled {w} (unauthorized p body c d a b k z) h =
      enter _ w.metrics _ w.audit (λ b. ground arith) h
  Ended-IsReconciled {w} (over_budget p body c required a b k z l) h =
      enter _ w.metrics _ w.audit (λ b. ground arith) h
  Ended-IsReconciled {w} (passed p body c required a b k z l) h =
      let charged = record w { rate_limiters = (rate_check deps state req at w p c).0 } in
      answered-IsReconciled p c body (exchange deps state req at body) charged h

  -- Every request keeps the metrics and the records reconciled.
  pub handle-IsReconciled :
      (w : World Limiter)
      → IsReconciled w.audit w.metrics
      → IsReconciled (handle deps state req at w).1.audit (handle deps state req at w).1.metrics
  handle-IsReconciled w h = Ended-IsReconciled (handle-Ended deps state req at w) h
