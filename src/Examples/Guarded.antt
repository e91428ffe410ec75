-- ===== src/Examples/Guarded.antt =====
-- A gateway that identifies its callers by their certificates, from its document to its upstreams.
use indexer_gateway_auth.Prelude.{
  ℕ, String, ◌≡◌, refl, false, Option, none, some, List, [], ◌∷◌, Memᴰ,
}
use indexer_gateway_auth.Prelude.{Result, ok, All}
use indexer_gateway_auth.Config
use indexer_gateway_auth.Config.{Config, AuthMode}
use indexer_gateway_auth.Auth
use indexer_gateway_auth.Auth.{mtls_auth}
use indexer_gateway_auth.Auth.Mtls
use indexer_gateway_auth.Proxy
use indexer_gateway_auth.Server.{HttpRequest, Moment, default_options, new_state}
use indexer_gateway_auth.Server.Tasks.Schedule.{
  Event, arrives, advances, arrivals, advance, run_schedule, idle,
}
use indexer_gateway_auth.Main.{build_authenticator}
use indexer_gateway_auth.Main.Gateway.{Gateway, over_tls, listener_of, main}
use indexer_gateway_auth.Main.Gateway.Guarded.{IsGuarded, main-guards}
use indexer_gateway_auth.Tls.{
  load_certs, load_private_key, add_all, load_root_store, client_verifier, load_server_config,
}
use indexer_gateway_auth.Tls.Serve.{over_connection, serve_connection, serve}
use indexer_gateway_auth.Examples.Samples.{deps, env, config, post, at}
use indexer_gateway_auth.Examples.Starting.{
  process, rustls, tls, get_url, json, read_to_string, arguments,
}
use indexer_gateway_auth.Examples.Connections.{from_der, peer, accepted}

abbrev pub mutual_config : Config
mutual_config = record config {
  tls = tls;
  auth = record {
    mode = AuthMode.mtls;
    allow_anonymous_read = false;
    tokens = [];
    jwt = none;
    mtls = record { subject = "agent.local"; name = "agent"; scopes = "write" ∷ [] } ∷ [];
  };
}

abbrev from_mutual : String → Result String Config
from_mutual text = ok mutual_config

abbrev gateway : Gateway String (String → ℕ) (Option (List String))
gateway =
    let made =
      new_state deps mutual_config (mtls_auth (Mtls.new mutual_config.auth.mtls))
        (Proxy.new mutual_config.upstream) default_options in
    record {
      config = mutual_config;
      state = made.0;
      start = made.1;
      listener = over_tls (some ("cert" ∷ []));
    }

mutual_starts :
    main deps process rustls env read_to_string from_mutual get_url json arguments ≡ ok gateway
unfolding main Config.load Config.resolve_secrets build_authenticator Auth.from_config listener_of
    load_server_config load_certs load_private_key client_verifier load_root_store add_all
mutual_starts = refl

-- The request of the peer, and its five accesses.
abbrev requests : List Event
requests =
    arrives (over_connection from_der peer post) at
    ∷ advances 0
    ∷ advances 0
    ∷ advances 0
    ∷ advances 0
    ∷ advances 0
    ∷ []

all_over_tls :
    (q : HttpRequest × Moment)
    → Memᴰ q (arrivals (run_schedule deps gateway.state requests (idle gateway.start)).tasks)
    → Memᴰ q (serve from_der accepted).0
unfolding run_schedule advance serve serve_connection
all_over_tls q (Memᴰ.head e) = Memᴰ.head e
all_over_tls q (Memᴰ.tail m) = elim m [ ]

main-guards_example :
    All
      (IsGuarded deps process rustls env read_to_string from_mutual get_url json from_der gateway
        accepted)
      (run_schedule deps gateway.state requests (idle gateway.start)).world.sent
main-guards_example =
    main-guards deps process rustls env read_to_string from_mutual get_url json from_der arguments
      gateway accepted requests mutual_starts refl refl all_over_tls
