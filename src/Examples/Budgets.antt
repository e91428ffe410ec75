-- ===== src/Examples/Budgets.antt =====
-- Two requests at the same time in a process that has started: they contend for a budget.
use indexer_gateway_auth.Prelude.{
  ℕ, String, ◌≡◌, refl, Option, some, List, [], ◌∷◌, Result, ok, All, ◌≤◌,
}
use indexer_gateway_auth.Config
use indexer_gateway_auth.Config.{Config, AuthMode}
use indexer_gateway_auth.Auth
use indexer_gateway_auth.Auth.{mtls_auth, authenticate, resolve}
use indexer_gateway_auth.Auth.Mtls
use indexer_gateway_auth.Proxy
use indexer_gateway_auth.Server.{default_options, new_state}
use indexer_gateway_auth.Server.Tasks.Schedule.{Event, arrives, advances, run_schedule, idle}
use indexer_gateway_auth.Main.{build_authenticator}
use indexer_gateway_auth.Main.Gateway.{Gateway, over_tls, listener_of, main}
use indexer_gateway_auth.Tls.{
  load_certs, load_private_key, add_all, load_root_store, client_verifier, load_server_config,
}
use indexer_gateway_auth.Tls.Serve.{over_connection}
use indexer_gateway_auth.Examples.Samples.{deps, env, post, at, governor, governor-IsGovernor}
use indexer_gateway_auth.Examples.Starting.{
  process, rustls, get_url, json, read_to_string, arguments,
}
use indexer_gateway_auth.Examples.Connections.{from_der, peer}
use indexer_gateway_auth.Classify.{write}
use indexer_gateway_auth.Proxy.{
  trim_trailing_slash, route, strip_prefix_segment, forward, base_for, filter_forward_headers,
  is_hop_by_hop,
}
use indexer_gateway_auth.RateLimit.Laws.{budget}
use indexer_gateway_auth.Server.Tasks.Schedule.Budgets.{AllAt, let_through}
use indexer_gateway_auth.Server.History.{IsStripped}
use indexer_gateway_auth.Server.Tasks.Schedule.Secrets.{AllDiscreet}
use indexer_gateway_auth.Main.Gateway.Secrets.{main-keeps_secrets}
use indexer_gateway_auth.Main.Gateway.Budget.{main-budget}
use indexer_gateway_auth.Examples.Guarded.{mutual_config}

-- One write per minute.
abbrev tight_config : Config
tight_config = record mutual_config {
  ratelimit = record { write_per_minute = 1; read_per_minute = 600 };
}

abbrev from_tight : String → Result String Config
from_tight text = ok tight_config

abbrev tight : Gateway String (String → ℕ) (Option (List String))
tight =
    let made =
      new_state deps tight_config (mtls_auth (Mtls.new tight_config.auth.mtls))
        (Proxy.new tight_config.upstream) default_options in
    record {
      config = tight_config;
      state = made.0;
      start = made.1;
      listener = over_tls (some ("cert" ∷ []));
    }

tight_starts :
    main deps process rustls env read_to_string from_tight get_url json arguments ≡ ok tight
unfolding main Config.load Config.resolve_secrets build_authenticator Auth.from_config listener_of
    load_server_config load_certs load_private_key client_verifier load_root_store add_all
tight_starts = refl

-- The second request comes to the limiters first.
abbrev contention : List Event
contention =
    arrives (over_connection from_der peer post) at
    ∷ arrives (over_connection from_der peer post) at
    ∷ advances 1
    ∷ advances 0
    ∷ advances 1
    ∷ advances 0
    ∷ advances 0
    ∷ advances 1
    ∷ advances 0
    ∷ advances 1
    ∷ advances 0
    ∷ advances 1
    ∷ []

contention_together : AllAt 0 contention
contention_together = (refl, (refl, tt))

main-budget_example :
    let_through write "agent" (run_schedule deps tight.state contention (idle tight.start))
    ≤ budget governor governor-IsGovernor 600 1 write
main-budget_example =
    main-budget deps process rustls env read_to_string from_tight get_url json governor-IsGovernor
      arguments tight contention write "agent" 0 tight_starts (λ e. cc) contention_together

main-keeps_secrets_example :
    All
      (IsStripped deps tight.state)
      (run_schedule deps tight.state contention (idle tight.start)).world.sent
    × AllDiscreet (run_schedule deps tight.state contention (idle tight.start)).world.audit
main-keeps_secrets_example =
    main-keeps_secrets deps process rustls env read_to_string from_tight get_url json arguments
      tight contention tight_starts
