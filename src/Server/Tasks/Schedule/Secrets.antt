-- ===== src/Server/Tasks/Schedule/Secrets.antt =====
-- What never leaves in a record or a header, whatever the schedule.
use indexer_gateway_auth.Prelude.{
  ℕ, zero, suc, ◌≡◌, refl, inl, inr, Bool, true, false, ◌||◌, none, List, [], ◌∷◌,
}
use indexer_gateway_auth.Prelude.{
  Bytes, Result, ok, err, All, All-append, Bool-cases, Result-cases, Option-cases,
}
use indexer_gateway_auth.Principal.{Principal}
use indexer_gateway_auth.Classify.{Classification}
use indexer_gateway_auth.Authz.{authorize}
use indexer_gateway_auth.Proxy.{ProxyResponse, ProxyError, UpstreamRequest}
use indexer_gateway_auth.Proxy.Headers.{filter_forward_headers-values}
use indexer_gateway_auth.Audit.{AuditRecord}
use indexer_gateway_auth.Server.{Deps, Inner, World, HttpRequest, Moment, is_write}
use indexer_gateway_auth.Server.Ends.{authn, body_read, classification_of}
use indexer_gateway_auth.Server.History.{IsStripped}
use indexer_gateway_auth.Server.Tasks.{
  Effect, records, counts, Stage, arrived, charging, sending, ending, step, after_authenticate,
  after_check, after_forward,
}
use indexer_gateway_auth.Server.Tasks.Schedule.{
  Task, System, Event, arrives, advances, new_task, advance, turn, run_schedule, idle,
}
use indexer_gateway_auth.Server.Tasks.Schedule.Safety.{IsAccounted, run_schedule-mediates}

-- No record holds raw variables.
abbrev pub AllDiscreet : List AuditRecord → Type 0
AllDiscreet audit = All (λ rec. rec.variables ≡ none) audit

abbrev IsDiscreetEffect : Effect → Type 0
IsDiscreetEffect (records rec) = rec.variables ≡ none
IsDiscreetEffect (counts c) = Unit

abbrev IsDiscreet : Stage → Type 0
IsDiscreet (ending es r) = All IsDiscreetEffect es
IsDiscreet _ = Unit

module _ {Key Jwk Limiter : Type 0} (deps : Deps Key Jwk Limiter) (state : Inner Key)
    (off : state.log_variables ≡ false) where
  module _ (req : HttpRequest) (at : Moment) where
    arrived-IsDiscreet : IsDiscreet (after_authenticate deps state req at (authn deps state req at))
    arrived-IsDiscreet = elim (Result-cases (authn deps state req at)) [
      | inr (e, a) ↦ rw a (refl, (tt, tt))
      | inl (p, a) ↦ elim (Option-cases (body_read deps state req at)) [
        | inl b ↦ rw (a, b) tt
        | inr (body, b) ↦ elim (Result-cases (classification_of deps state req at body)) [
          | inr (reason, k) ↦ rw (a, b, k) (refl, (tt, tt))
          | inl (c, k) ↦ elim (Result-cases (authorize p c state.policy)) [
            | inr (d, z) ↦ rw (a, b, k, z) (refl, (tt, tt))
            | inl (required, z) ↦ rw (a, b, k, z) tt
          ]
        ]
      ]
    ]

    after_check-IsDiscreet :
        (p : Principal) (body : Bytes) (c : Classification) (allowed : Bool)
        → IsDiscreet (after_check deps state req at p body c allowed)
    after_check-IsDiscreet p body c true = tt
    after_check-IsDiscreet p body c false = (refl, (tt, tt))

    after_forward-IsDiscreet :
        (p : Principal) (body : Bytes) (c : Classification) (r : Result ProxyError ProxyResponse)
        → IsDiscreet (after_forward deps state req at p body c r)
    after_forward-IsDiscreet p body c (ok r) =
        elim (Bool-cases (is_write c.scope || state.audit_reads)) [
          | inl e ↦ rw (e, off) (tt, (refl, tt))
          | inr e ↦ rw e (tt, tt)
        ]
    after_forward-IsDiscreet p body c (err e) = (tt, (refl, tt))

    step-IsDiscreet :
        (s : Stage) (w : World Limiter)
        → IsDiscreet s
        → AllDiscreet w.audit
        → IsDiscreet (step deps state req at s w).0
          × AllDiscreet (step deps state req at s w).1.audit
    unfolding step
    step-IsDiscreet arrived w h all = (arrived-IsDiscreet, all)
    step-IsDiscreet (charging p body c) w h all = (after_check-IsDiscreet p body c _, all)
    step-IsDiscreet (sending p body c) w h all = (after_forward-IsDiscreet p body c _, all)
    step-IsDiscreet (ending [] r) w h all = (tt, all)
    step-IsDiscreet (ending (records rec ∷ es) r) w (one, h) all =
        (h, All-append (λ (a : AuditRecord). a.variables ≡ none) w.audit (rec ∷ []) all (one, tt))
    step-IsDiscreet (ending (counts c ∷ es) r) w (_, h) all = (h, all)

  abbrev AllStages : List Task → Type 0
  AllStages ts = All (λ t. IsDiscreet t.stage) ts

  advance-IsDiscreet :
      (i : ℕ) (ts : List Task) (w : World Limiter)
      → AllStages ts
      → AllDiscreet w.audit
      → AllStages (advance deps state i ts w).0 × AllDiscreet (advance deps state i ts w).1.audit
  unfolding advance
  advance-IsDiscreet i [] w h all = (tt, all)
  advance-IsDiscreet zero (t ∷ ts) w (h, hs) all =
      let (now, kept) = step-IsDiscreet t.request t.at t.stage w h all in ((now, hs), kept)
  advance-IsDiscreet (suc i) (t ∷ ts) w (h, hs) all =
      let (later, kept) = advance-IsDiscreet i ts w hs all in ((h, later), kept)

  abbrev IsSecretive : System Limiter → Type 0
  IsSecretive s = AllStages s.tasks × AllDiscreet s.world.audit

  turn-IsSecretive :
      (e : Event) (s : System Limiter) → IsSecretive s → IsSecretive (turn deps state e s)
  turn-IsSecretive (arrives req at) s (h, all) =
      (All-append (λ t. IsDiscreet t.stage) s.tasks (new_task req at ∷ []) h (tt, tt), all)
  turn-IsSecretive (advances i) s (h, all) = advance-IsDiscreet i s.tasks s.world h all

  run_schedule-IsSecretive :
      (es : List Event) (s : System Limiter)
      → IsSecretive s
      → IsSecretive (run_schedule deps state es s)
  unfolding run_schedule
  run_schedule-IsSecretive [] s h = h
  run_schedule-IsSecretive (e ∷ es) s h =
      run_schedule-IsSecretive es (turn deps state e s) (turn-IsSecretive e s h)

  All-IsStripped :
      (came : List (HttpRequest × Moment)) (rs : List UpstreamRequest)
      → All (IsAccounted deps state came) rs
      → All (IsStripped deps state) rs
  All-IsStripped came [] h = tt
  All-IsStripped came (r ∷ rs) ((q, m, sent), h) = (
    λ name c. rw sent.same ((filter_forward_headers-values name q.0.headers).0 c),
    All-IsStripped came rs h,
  )

  -- While raw variables are not to be logged, and wherever a schedule stands: no record holds them,
  -- and no request that was sent holds a header that the gateway consumes.
  pub run_schedule-keeps_secrets :
      (es : List Event) (w : World Limiter)
      → w.sent ≡ []
      → w.audit ≡ []
      → All (IsStripped deps state) (run_schedule deps state es (idle w)).world.sent
        × AllDiscreet (run_schedule deps state es (idle w)).world.audit
  run_schedule-keeps_secrets es w none_sent none_written = (
    All-IsStripped _ _ (run_schedule-mediates deps state es w none_sent),
    (run_schedule-IsSecretive es (idle w) (tt, rw none_written tt)).1,
  )
