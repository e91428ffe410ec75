-- ===== src/Main/Gateway/Budget.antt =====
-- What the `[ratelimit]` section of the document means in a running process.
use indexer_gateway_auth.Prelude.{ℕ, ◌≤◌, String, ◌≡◌, ◌≢◌, ap, Option, List}
use indexer_gateway_auth.Prelude.{Result, ok}
use indexer_gateway_auth.Config.{Config}
use indexer_gateway_auth.Classify.{Scope}
use indexer_gateway_auth.RateLimit.Laws.{IsGovernor, budget}
use indexer_gateway_auth.Server.{Deps}
use indexer_gateway_auth.Server.Tasks.Schedule.{Event, run_schedule, idle}
use indexer_gateway_auth.Server.Tasks.Schedule.Budgets.{AllAt, let_through, run_schedule-budget}
use indexer_gateway_auth.Main.Gateway.{Process, Gateway, main}
use indexer_gateway_auth.Main.Gateway.Laws.{main-serves}
use indexer_gateway_auth.Tls.{Rustls}

module _ {Key Jwk Limiter Answer Cert PrivateKey Roots Verifier ServerConfig : Type 0}
    (deps : Deps Key Jwk Limiter) (process : Process)
    (rustls : Rustls Cert PrivateKey Roots Verifier ServerConfig) (env : String → Option String)
    (read_to_string : String → Result String String) (from_str : String → Result String Config)
    (get_url : String → Result String Answer) (json : Answer → Result String (List Jwk))
    (laws : IsGovernor deps.governor) where
  -- In a process that has started, concurrent requests cannot overrun the document's budgets:
  -- wherever a schedule of requests stands that all come in at one instant, the first of the process
  -- among them, those of one caller and one scope that were let through to the proxy, answered or
  -- not, are at most as many as the document says for that scope, if that is not 0, however the
  -- accesses of the requests are ordered.
  pub main-budget :
      (args : List String) (g : Gateway Key Limiter ServerConfig) (es : List Event) (scope : Scope)
      (name : String) (now : ℕ)
      → main deps process rustls env read_to_string from_str get_url json args ≡ ok g
      → budget deps.governor laws g.config.ratelimit.read_per_minute
          g.config.ratelimit.write_per_minute scope
        ≢ 0
      → AllAt now es
      → let_through scope name (run_schedule deps g.state es (idle g.start))
        ≤ budget deps.governor laws g.config.ratelimit.read_per_minute
            g.config.ratelimit.write_per_minute scope
  main-budget args g es scope name now h is_limited at_now =
      let (_, _, _, _, _, _, started, _, _, _, _) =
        main-serves deps process rustls env read_to_string from_str get_url json args g h in
      run_schedule-budget deps g.state laws name now scope g.config.ratelimit.read_per_minute
        g.config.ratelimit.write_per_minute es g.start (ap (λ w. w.rate_limiters) started)
        (ap (λ w. w.metrics.requests) started) is_limited at_now
