-- ===== src/Main/Gateway/Secrets.antt =====
-- What a running process keeps to itself.
use indexer_gateway_auth.Prelude.{String, ◌≡◌, ap, Option, List}
use indexer_gateway_auth.Prelude.{Result, ok, All}
use indexer_gateway_auth.Config.{Config}
use indexer_gateway_auth.Server.{Deps}
use indexer_gateway_auth.Server.History.{IsStripped}
use indexer_gateway_auth.Server.Tasks.Schedule.{Event, run_schedule, idle}
use indexer_gateway_auth.Server.Tasks.Schedule.Secrets.{AllDiscreet, run_schedule-keeps_secrets}
use indexer_gateway_auth.Main.Gateway.{Process, Gateway, main}
use indexer_gateway_auth.Main.Gateway.Laws.{main-serves}
use indexer_gateway_auth.Tls.{Rustls}

module _ {Key Jwk Limiter Answer Cert PrivateKey Roots Verifier ServerConfig : Type 0}
    (deps : Deps Key Jwk Limiter) (process : Process)
    (rustls : Rustls Cert PrivateKey Roots Verifier ServerConfig) (env : String → Option String)
    (read_to_string : String → Result String String) (from_str : String → Result String Config)
    (get_url : String → Result String Answer) (json : Answer → Result String (List Jwk)) where
  -- Whatever the arguments and the document: in a process that has started, wherever concurrent
  -- requests stand and in whatever order they made their accesses, no request that was sent holds an
  -- `authorization` header, a `host` header or a hop-by-hop header, and no audit record holds raw
  -- variables.
  pub main-keeps_secrets :
      (args : List String) (g : Gateway Key Limiter ServerConfig) (es : List Event)
      → main deps process rustls env read_to_string from_str get_url json args ≡ ok g
      → All (IsStripped deps g.state) (run_schedule deps g.state es (idle g.start)).world.sent
        × AllDiscreet (run_schedule deps g.state es (idle g.start)).world.audit
  main-keeps_secrets args g es h =
      let (_, _, _, _, _, off, started, _, _, _, _) =
        main-serves deps process rustls env read_to_string from_str get_url json args g h in
      run_schedule-keeps_secrets deps g.state off es g.start (ap (λ w. w.sent) started)
        (ap (λ w. w.audit) started)
