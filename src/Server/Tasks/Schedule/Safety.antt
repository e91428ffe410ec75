-- ===== src/Server/Tasks/Schedule/Safety.antt =====
-- What reaches an upstream, whatever the schedule.
use indexer_gateway_auth.Prelude.{
  ℕ, zero, suc, String, ◌≡◌, refl, ap, inl, inr, some, List, [], ◌∷◌, ◌++◌, Memᴰ,
}
use indexer_gateway_auth.Prelude.{
  Bytes, Result, ok, err, All, All-append, Bool-cases, Option-cases, Result-cases,
}
use indexer_gateway_auth.Principal.{Principal}
use indexer_gateway_auth.Classify.{Classification}
use indexer_gateway_auth.Authz.{authorize}
use indexer_gateway_auth.Proxy.{
  ProxyResponse, ProxyError, UpstreamRequest, upstream_request, route, base_for,
}
use indexer_gateway_auth.Proxy.Forward.{forward_cases}
use indexer_gateway_auth.RateLimit.{check}
use indexer_gateway_auth.Server.{Deps, Inner, World, HttpRequest, Moment}
use indexer_gateway_auth.Server.Ends.{authn, body_read, classification_of}
use indexer_gateway_auth.Server.Tasks.{
  Effect, records, counts, apply, Stage, arrived, charging, sending, ending, step,
  after_authenticate, after_forward,
}
use indexer_gateway_auth.Server.Tasks.Schedule.{
  Task, System, Event, arrives, advances, new_task, arrivals, advance, turn, run_schedule, idle,
}

Memᴰ-append {ℓ} : {A : Type ℓ} {a : A} (xs ys : List A) → Memᴰ a xs → Memᴰ a (xs ++ ys)
Memᴰ-append [] ys m = elim m [ ]
Memᴰ-append (x ∷ xs) ys (Memᴰ.head e) = Memᴰ.head e
Memᴰ-append (x ∷ xs) ys (Memᴰ.tail m) = Memᴰ.tail (Memᴰ-append xs ys m)

arrivals-append :
    (ts : List Task) (t : Task) → arrivals (ts ++ t ∷ []) ≡ arrivals ts ++ (t.request, t.at) ∷ []
arrivals-append [] t = refl
arrivals-append (u ∷ ts) t =
    ap (λ (l : List (HttpRequest × Moment)). (u.request, u.at) ∷ l) (arrivals-append ts t)

module _ {Key Jwk Limiter : Type 0} (deps : Deps Key Jwk Limiter) (state : Inner Key) where
  -- The caller was identified, the body read within its limit and classified, and the caller
  -- authorized for that classification.
  pub record IsAuthorized (req : HttpRequest) (at : Moment) (p : Principal) (body : Bytes)
      (c : Classification) : Type 0 where
    pub caller : authn deps state req at ≡ ok p
    pub within_limit : body_read deps state req at ≡ some body
    pub classified : classification_of deps state req at body ≡ ok c
    pub required : List String
    pub authorized : authorize p c state.policy ≡ ok required

  -- The upstream request is that of a request which was authorized: its method, the body that was
  -- classified, the address of its route, and its filtered headers.
  pub record IsSentFor (req : HttpRequest) (at : Moment) (r : UpstreamRequest) : Type 0 where
    pub principal : Principal
    pub body : Bytes
    pub classification : Classification
    pub base : String
    pub passed : IsAuthorized req at principal body classification
    pub configured : base_for state.proxy (route req.path_and_query).0 ≡ ok base
    pub same : r ≡ upstream_request req.method base (route req.path_and_query).1 req.headers body

  abbrev IsOnWay : HttpRequest → Moment → Stage → Type 0
  IsOnWay req at arrived = Unit
  IsOnWay req at (charging p body c) = IsAuthorized req at p body c
  IsOnWay req at (sending p body c) = IsAuthorized req at p body c
  IsOnWay req at (ending es r) = Unit

  module _ (req : HttpRequest) (at : Moment) where
    arrived-IsOnWay :
        IsOnWay req at (after_authenticate deps state req at (authn deps state req at))
    arrived-IsOnWay = elim (Result-cases (authn deps state req at)) [
      | inr (e, a) ↦ rw a tt
      | inl (p, a) ↦ elim (Option-cases (body_read deps state req at)) [
        | inl b ↦ rw (a, b) tt
        | inr (body, b) ↦ elim (Result-cases (classification_of deps state req at body)) [
          | inr (reason, k) ↦ rw (a, b, k) tt
          | inl (c, k) ↦ elim (Result-cases (authorize p c state.policy)) [
            | inr (d, z) ↦ rw (a, b, k, z) tt
            | inl (required, z) ↦
                rw (a, b, k, z)
                  (record {
                    caller = a;
                    within_limit = b;
                    classified = k;
                    required = required;
                    authorized = z;
                  })
          ]
        ]
      ]
    ]

    after_forward-IsOnWay :
        (p : Principal) (body : Bytes) (c : Classification) (r : Result ProxyError ProxyResponse)
        → IsOnWay req at (after_forward deps state req at p body c r)
    after_forward-IsOnWay p body c (ok r) = tt
    after_forward-IsOnWay p body c (err e) = tt

    step-IsOnWay :
        (s : Stage) (w : World Limiter)
        → IsOnWay req at s
        → IsOnWay req at (step deps state req at s w).0
    unfolding step
    step-IsOnWay arrived w h = arrived-IsOnWay
    step-IsOnWay (charging p body c) w h =
        elim (Bool-cases (check deps.governor w.rate_limiters at.instant c.scope p.name).1) [
          | inl e ↦ rw e h
          | inr e ↦ rw e tt
        ]
    step-IsOnWay (sending p body c) w h = after_forward-IsOnWay p body c _
    step-IsOnWay (ending [] r) w h = tt
    step-IsOnWay (ending (e ∷ es) r) w h = tt

    apply-sent : (e : Effect) (w : World Limiter) → (apply e w).sent ≡ w.sent
    apply-sent (records rec) w = refl
    apply-sent (counts f) w = refl

    step-sent :
        (J : UpstreamRequest → Type 0) (s : Stage) (w : World Limiter)
        → ((r : UpstreamRequest) → IsSentFor req at r → J r)
        → IsOnWay req at s
        → All J w.sent
        → All J (step deps state req at s w).1.sent
    unfolding step
    step-sent J arrived w just h all = all
    step-sent J (charging p body c) w just h all = all
    step-sent J (sending p body c) w just h all =
        elim (forward_cases deps.send state.proxy req.method req.path_and_query req.headers body) [
          | inl (_, e) ↦ rw e (All-append J w.sent [] all tt)
          | inr (base, configured, e) ↦ rw e (
              All-append J w.sent (_ ∷ []) all (
                just _ (record {
                  principal = p;
                  body = body;
                  classification = c;
                  base = base;
                  passed = h;
                  configured = configured;
                  same = refl;
                }),
                tt,
              ))
        ]
    step-sent J (ending [] r) w just h all = all
    step-sent J (ending (e ∷ es) r) w just h all = rw (apply-sent e w) all

  abbrev AllOnWay : List Task → Type 0
  AllOnWay ts = All (λ t. IsOnWay t.request t.at t.stage) ts

  -- What the tasks may send.
  abbrev Justifies : (UpstreamRequest → Type 0) → List Task → Type 0
  Justifies J ts = All (λ t. (r : UpstreamRequest) → IsSentFor t.request t.at r → J r) ts

  advance-safe :
      (J : UpstreamRequest → Type 0) (i : ℕ) (ts : List Task) (w : World Limiter)
      → Justifies J ts
      → AllOnWay ts
      → All J w.sent
      → AllOnWay (advance deps state i ts w).0 × All J (advance deps state i ts w).1.sent
  unfolding advance
  advance-safe J i [] w just h all = (tt, all)
  advance-safe J zero (t ∷ ts) w (j, just) (h, hs) all =
      ((step-IsOnWay t.request t.at t.stage w h, hs), step-sent t.request t.at J t.stage w j h all)
  advance-safe J (suc i) (t ∷ ts) w (j, just) (h, hs) all =
      let (way, kept) = advance-safe J i ts w just hs all in ((h, way), kept)

  arrivals-advance :
      (i : ℕ) (ts : List Task) (w : World Limiter)
      → arrivals (advance deps state i ts w).0 ≡ arrivals ts
  unfolding advance
  arrivals-advance i [] w = refl
  arrivals-advance zero (t ∷ ts) w = refl
  arrivals-advance (suc i) (t ∷ ts) w =
      ap (λ (l : List (HttpRequest × Moment)). (t.request, t.at) ∷ l) (arrivals-advance i ts w)

  -- A request that came in accounts for the upstream request.
  abbrev pub IsAccounted : List (HttpRequest × Moment) → UpstreamRequest → Type 0
  IsAccounted came r = (q : HttpRequest × Moment) × Memᴰ q came × IsSentFor q.0 q.1 r

  abbrev IsSafe : System Limiter → Type 0
  IsSafe s = AllOnWay s.tasks × All (IsAccounted (arrivals s.tasks)) s.world.sent

  Justifies-all :
      (came : List (HttpRequest × Moment)) (ts : List Task)
      → ((q : HttpRequest × Moment) → Memᴰ q (arrivals ts) → Memᴰ q came)
      → Justifies (IsAccounted came) ts
  Justifies-all came [] sub = tt
  Justifies-all came (t ∷ ts) sub = (
    λ r sent. ((t.request, t.at), sub _ (Memᴰ.head refl), sent),
    Justifies-all came ts (λ q m. sub q (Memᴰ.tail m)),
  )

  All-later :
      (came more : List (HttpRequest × Moment)) (rs : List UpstreamRequest)
      → All (IsAccounted came) rs
      → All (IsAccounted (came ++ more)) rs
  All-later came more [] h = tt
  All-later came more (r ∷ rs) ((q, m, sent), h) =
      ((q, Memᴰ-append came more m, sent), All-later came more rs h)

  turn-IsSafe : (e : Event) (s : System Limiter) → IsSafe s → IsSafe (turn deps state e s)
  turn-IsSafe (arrives req at) s (way, all) = (
    All-append (λ t. IsOnWay t.request t.at t.stage) s.tasks (new_task req at ∷ []) way (tt, tt),
    rw (arrivals-append s.tasks (new_task req at)) (All-later _ _ s.world.sent all),
  )
  turn-IsSafe (advances i) s (way, all) =
      let (way', all') =
        advance-safe (IsAccounted (arrivals s.tasks)) i s.tasks s.world
          (Justifies-all (arrivals s.tasks) s.tasks (λ q m. m)) way all in
      (way', rw (arrivals-advance i s.tasks s.world) all')

  run_schedule-IsSafe :
      (es : List Event) (s : System Limiter) → IsSafe s → IsSafe (run_schedule deps state es s)
  unfolding run_schedule
  run_schedule-IsSafe [] s h = h
  run_schedule-IsSafe (e ∷ es) s h =
      run_schedule-IsSafe es (turn deps state e s) (turn-IsSafe e s h)

  -- However the accesses of concurrent requests are ordered: every request that went to an upstream
  -- is that of a request which had come in, whose caller was identified and authorized for the
  -- classification of its body; and it has that body, the routed address and the filtered headers.
  pub run_schedule-mediates :
      (es : List Event) (w : World Limiter)
      → w.sent ≡ []
      → All
          (IsAccounted (arrivals (run_schedule deps state es (idle w)).tasks))
          (run_schedule deps state es (idle w)).world.sent
  run_schedule-mediates es w none_sent = (run_schedule-IsSafe es (idle w) (tt, rw none_sent tt)).1
