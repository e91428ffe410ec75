-- ===== src/Server/Tasks/Same.antt =====
-- Two states of what requests share that differ in the order of what was written only.
use mathlib.Core.List.{Perm, append-nil, append_assoc, filter_map-append}
use mathlib.Core.List as List
use mathlib.Core.List.Perm
use indexer_gateway_auth.Prelude.{
  ℕ, ◌+◌, ◌≡◌, refl, sym, ◌∙◌, Option, none, some, List, [], ◌∷◌, ◌++◌, arith,
}
use indexer_gateway_auth.Prelude.Gather.{tally, tally-Perm}
use indexer_gateway_auth.Proxy.{UpstreamRequest}
use indexer_gateway_auth.RateLimit.{RateLimiters}
use indexer_gateway_auth.Audit.{AuditRecord}
use indexer_gateway_auth.Metrics.{
  Observation, Metrics, Count, auth_failure, denial, unparsed, limited, request, record_count,
  record_request, inc_auth_failure, inc_authz_denied, inc_parse_error, inc_rate_limited,
}
use indexer_gateway_auth.Server.{World, no_metrics}
use indexer_gateway_auth.Server.Tasks.Remaining.{Output, sends, writes, increases, put, put_all}

-- The same counters, and the same observations in some order.
pub record SameMetrics (a b : Metrics) : Type 0 where
  pub requests : Perm a.requests b.requests
  pub auth_failures : a.auth_failures_total ≡ b.auth_failures_total
  pub authz_denied : a.authz_denied_total ≡ b.authz_denied_total
  pub parse_errors : a.parse_errors_total ≡ b.parse_errors_total
  pub rate_limited : a.rate_limited_total ≡ b.rate_limited_total

-- The same limiters, and the same records and requests to the upstreams in some order.
pub record SameWorld {Limiter : Type 0} (a b : World Limiter) : Type 0 where
  pub rate_limiters : a.rate_limiters ≡ b.rate_limiters
  pub audit : Perm a.audit b.audit
  pub metrics : SameMetrics a.metrics b.metrics
  pub sent : Perm a.sent b.sent

abbrev sent_of : Output → Option UpstreamRequest
sent_of (sends r) = some r
sent_of _ = none

abbrev record_of : Output → Option AuditRecord
record_of (writes rec) = some rec
record_of _ = none

abbrev observed : Output → Option Observation
observed (increases (request scope principal status latency_ms)) =
    some (record { scope = scope; principal = principal; status = status; latency_ms = latency_ms })
observed _ = none

-- What an output adds to a counter.
abbrev adds : (Metrics → ℕ) → Output → ℕ
adds counter (increases c) = counter (record_count c no_metrics)
adds counter _ = 0

-- A field that grows at its end with each output.
put_all-grows :
    {Limiter A : Type 0} (field : World Limiter → List A) (of : Output → Option A)
    → ((o : Output) (w : World Limiter) → field (put o w) ≡ field w ++ List.filter_map of (o ∷ []))
    → (os : List Output) (w : World Limiter)
    → field (put_all os w) ≡ field w ++ List.filter_map of os
unfolding List.filter_map
put_all-grows field of one [] w = sym (append-nil (field w))
put_all-grows field of one (o ∷ os) w =
    rw
      (
        put_all-grows field of one os (put o w),
        one o w,
        append_assoc (field w) (List.filter_map of (o ∷ [])) (List.filter_map of os),
        sym (filter_map-append of (o ∷ []) os),
      )
      refl

put_all-Perm :
    {Limiter A : Type 0} (field : World Limiter → List A) (of : Output → Option A)
    → ((o : Output) (w : World Limiter) → field (put o w) ≡ field w ++ List.filter_map of (o ∷ []))
    → {xs ys : List Output} (w : World Limiter) → Perm xs ys
    → Perm (field (put_all xs w)) (field (put_all ys w))
put_all-Perm field of one {xs} {ys} w p =
    rw (put_all-grows field of one xs w, put_all-grows field of one ys w)
      (Perm.append_left (field w) (Perm.filter_map of p))

put_all-tally :
    {Limiter : Type 0} (counter : Metrics → ℕ)
    → ((o : Output) (w : World Limiter)
        → counter (put o w).metrics ≡ counter w.metrics + adds counter o)
    → (os : List Output) (w : World Limiter)
    → counter (put_all os w).metrics ≡ counter w.metrics + tally (adds counter) os
put_all-tally counter one [] w = omega arith
put_all-tally counter one (o ∷ os) w =
    omega (arith, put_all-tally counter one os (put o w), one o w)

put_all-count :
    {Limiter : Type 0} (counter : Metrics → ℕ)
    → ((o : Output) (w : World Limiter)
        → counter (put o w).metrics ≡ counter w.metrics + adds counter o)
    → {xs ys : List Output} (w : World Limiter) → Perm xs ys
    → counter (put_all xs w).metrics ≡ counter (put_all ys w).metrics
put_all-count counter one {xs} {ys} w p = omega (
  arith,
  put_all-tally counter one xs w,
  put_all-tally counter one ys w,
  tally-Perm (adds counter) p,
)

-- A counter grows by what each call adds to it.
abbrev IsAdding : (Metrics → ℕ) → Type 0
IsAdding counter =
    (c : Count) (m : Metrics)
    → counter (record_count c m) ≡ counter m + counter (record_count c no_metrics)

auth_failures-IsAdding : IsAdding (λ m. m.auth_failures_total)
unfolding record_request inc_auth_failure inc_authz_denied inc_parse_error inc_rate_limited
auth_failures-IsAdding c m = ground arith

authz_denied-IsAdding : IsAdding (λ m. m.authz_denied_total)
unfolding record_request inc_auth_failure inc_authz_denied inc_parse_error inc_rate_limited
authz_denied-IsAdding c m = ground arith

parse_errors-IsAdding : IsAdding (λ m. m.parse_errors_total)
unfolding record_request inc_auth_failure inc_authz_denied inc_parse_error inc_rate_limited
parse_errors-IsAdding c m = ground arith

rate_limited-IsAdding : IsAdding (λ m. m.rate_limited_total)
unfolding record_request inc_auth_failure inc_authz_denied inc_parse_error inc_rate_limited
rate_limited-IsAdding c m = ground arith

module _ {Limiter : Type 0} where
  put-sent :
      (o : Output) (w : World Limiter) → (put o w).sent ≡ w.sent ++ List.filter_map sent_of (o ∷ [])
  unfolding List.filter_map
  put-sent (sends r) w = refl
  put-sent (writes rec) w = sym (append-nil w.sent)
  put-sent (increases c) w = sym (append-nil w.sent)

  put-audit :
      (o : Output) (w : World Limiter)
      → (put o w).audit ≡ w.audit ++ List.filter_map record_of (o ∷ [])
  unfolding List.filter_map
  put-audit (sends r) w = sym (append-nil w.audit)
  put-audit (writes rec) w = refl
  put-audit (increases c) w = sym (append-nil w.audit)

  put-requests :
      (o : Output) (w : World Limiter)
      → (put o w).metrics.requests ≡ w.metrics.requests ++ List.filter_map observed (o ∷ [])
  unfolding List.filter_map record_request inc_auth_failure inc_authz_denied inc_parse_error
      inc_rate_limited
  put-requests (sends r) w = sym (append-nil w.metrics.requests)
  put-requests (writes rec) w = sym (append-nil w.metrics.requests)
  put-requests (increases auth_failure) w = sym (append-nil w.metrics.requests)
  put-requests (increases denial) w = sym (append-nil w.metrics.requests)
  put-requests (increases unparsed) w = sym (append-nil w.metrics.requests)
  put-requests (increases limited) w = sym (append-nil w.metrics.requests)
  put-requests (increases (request scope principal status latency_ms)) w = refl

  put-adds :
      (counter : Metrics → ℕ)
      → IsAdding counter
      → (o : Output) (w : World Limiter)
      → counter (put o w).metrics ≡ counter w.metrics + adds counter o
  put-adds counter h (sends r) w = omega arith
  put-adds counter h (writes rec) w = omega arith
  put-adds counter h (increases c) w = h c w.metrics

  counter-Perm :
      (counter : Metrics → ℕ)
      → IsAdding counter
      → {xs ys : List Output} (w : World Limiter) → Perm xs ys
      → counter (put_all xs w).metrics ≡ counter (put_all ys w).metrics
  counter-Perm counter h w p = put_all-count counter (put-adds counter h) w p

  put-rate_limiters : (o : Output) (w : World Limiter) → (put o w).rate_limiters ≡ w.rate_limiters
  put-rate_limiters (sends r) w = refl
  put-rate_limiters (writes rec) w = refl
  put-rate_limiters (increases c) w = refl

  pub put_all-rate_limiters :
      (os : List Output) (w : World Limiter) → (put_all os w).rate_limiters ≡ w.rate_limiters
  put_all-rate_limiters [] w = refl
  put_all-rate_limiters (o ∷ os) w = put_all-rate_limiters os (put o w) ∙ put-rate_limiters o w

  put-limiters :
      (o : Output) (l : RateLimiters Limiter) (w : World Limiter)
      → record (put o w) { rate_limiters = l } ≡ put o (record w { rate_limiters = l })
  put-limiters (sends r) l w = refl
  put-limiters (writes rec) l w = refl
  put-limiters (increases c) l w = refl

  pub put_all-limiters :
      (os : List Output) (l : RateLimiters Limiter) (w : World Limiter)
      → record (put_all os w) { rate_limiters = l } ≡ put_all os (record w { rate_limiters = l })
  put_all-limiters [] l w = refl
  put_all-limiters (o ∷ os) l w = put_all-limiters os l (put o w) ∙ rw (put-limiters o l w) refl

  -- The order of the outputs does not matter.
  pub put_all-SameWorld :
      {xs ys : List Output} (w : World Limiter)
      → Perm xs ys
      → SameWorld (put_all xs w) (put_all ys w)
  put_all-SameWorld {xs} {ys} w p = record {
    rate_limiters = put_all-rate_limiters xs w ∙ sym (put_all-rate_limiters ys w);
    audit = put_all-Perm (λ w. w.audit) record_of put-audit w p;
    metrics = record {
      requests = put_all-Perm (λ w. w.metrics.requests) observed put-requests w p;
      auth_failures = counter-Perm (λ m. m.auth_failures_total) auth_failures-IsAdding w p;
      authz_denied = counter-Perm (λ m. m.authz_denied_total) authz_denied-IsAdding w p;
      parse_errors = counter-Perm (λ m. m.parse_errors_total) parse_errors-IsAdding w p;
      rate_limited = counter-Perm (λ m. m.rate_limited_total) rate_limited-IsAdding w p;
    };
    sent = put_all-Perm (λ w. w.sent) sent_of put-sent w p;
  }
