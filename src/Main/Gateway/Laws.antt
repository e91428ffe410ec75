-- ===== src/Main/Gateway/Laws.antt =====
-- What a process that has started serves.
use indexer_gateway_auth.Prelude.{
  String, ◌≡◌, refl, subst, inl, inr, true, false, Option, List, [], arith,
}
use indexer_gateway_auth.Prelude.{some, []}
use indexer_gateway_auth.Prelude.{Result, ok, err, ◌>>=◌, map_err, Bool-cases, Result-cases}
use indexer_gateway_auth.Config
use indexer_gateway_auth.Config.{Config, Tls}
use indexer_gateway_auth.Proxy
use indexer_gateway_auth.Server.{Deps, World, no_metrics, default_options, new_state}
use indexer_gateway_auth.RateLimit.{Governor, new}
use indexer_gateway_auth.Main.{parse_config_path, build_authenticator}
use indexer_gateway_auth.Main.Laws.{IsBuilt, build_authenticator_iff}
use indexer_gateway_auth.Main.Gateway.{
  Process, loading_config, installing_recorder, building_client, authenticator_error,
  binding_listener, Listener, plain, over_tls, Gateway, listener_of, main,
}
use indexer_gateway_auth.Tls.{Rustls, load_certs, load_private_key, load_server_config}
use indexer_gateway_auth.Tls.Server.{IsVerifying, load_server_config-IsVerifying}

-- The state that the first request finds: the budgets of the document, and nothing else yet.
abbrev pub fresh : {Limiter : Type 0} → Governor Limiter → Config.RateLimit → World Limiter
fresh governor ratelimit = record {
  rate_limiters = new governor ratelimit.read_per_minute ratelimit.write_per_minute;
  audit = [];
  metrics = no_metrics;
  sent = [];
}

map_err-ok :
    {E F A B : Type 0} (f : E → F) (r : Result E A) (k : A → Result F B) (b : B)
    → (map_err f r >>= k) ≡ ok b
    → (a : A) × (r ≡ ok a) × (k a ≡ ok b)
map_err-ok f (ok a) k b h = (a, refl, h)
map_err-ok f (err e) k b h = cc

module _ {Key Jwk Limiter Answer Cert PrivateKey Roots Verifier ServerConfig : Type 0}
    (deps : Deps Key Jwk Limiter) (process : Process)
    (rustls : Rustls Cert PrivateKey Roots Verifier ServerConfig) (env : String → Option String)
    (read_to_string : String → Result String String) (from_str : String → Result String Config)
    (get_url : String → Result String Answer) (json : Answer → Result String (List Jwk)) where
  -- The listener that a `[tls]` section asks for: without TLS if it is off; and if it is on, with a
  -- server's configuration that verifies clients exactly if the section requires it.
  pub data IsListening (tls : Tls) : Listener ServerConfig → Type 0 where
    in_the_clear : tls.enabled ≡ false → IsListening tls plain
    secured :
        {v : Option Verifier} {found : List Cert} {key : PrivateKey} {server : ServerConfig}
        (cert_path key_path : String)
        → tls.enabled ≡ true
        → IsVerifying rustls tls v
        → tls.cert ≡ some cert_path
        → tls.key ≡ some key_path
        → load_certs rustls cert_path ≡ ok found
        → load_private_key rustls key_path ≡ ok key
        → rustls.with_single_cert v found key ≡ ok server
        → IsListening tls (over_tls server)

  listener_of-IsListening :
      (tls : Tls) (listener : Listener ServerConfig)
      → listener_of deps process rustls env read_to_string from_str get_url json tls ≡ ok listener
      → IsListening tls listener
  unfolding listener_of
  listener_of-IsListening tls listener h = elim (Bool-cases tls.enabled) [
    | inr e ↦ let same : listener ≡ plain = ground arith in rw same (in_the_clear e)
    | inl e ↦ elim (Result-cases (load_server_config rustls tls)) [
      | inr (x, f) ↦ absurd (ground arith)
      | inl (server, f) ↦
          let same : listener ≡ over_tls server = ground arith in
          let (v, cert_path, key_path, _, _, verifies, c, k, found, key, made) =
            load_server_config-IsVerifying rustls tls server f in
          rw same (secured cert_path key_path e verifies c k found key made)
    ]
  ]

  -- What the gateway has from its document, which was read from the path that the arguments choose.
  abbrev pub IsServed : List String → Gateway Key Limiter ServerConfig → Type 0
  IsServed args g =
      (Config.load env read_to_string from_str (parse_config_path args) ≡ ok g.config)
      × IsBuilt deps.ct_eq deps.crate get_url json g.config g.state.authenticator
      × (g.state.policy ≡ g.config.policy)
      × (g.state.proxy ≡ Proxy.new g.config.upstream)
      × (g.state.allow_anonymous_read ≡ g.config.auth.allow_anonymous_read)
      × (g.state.log_variables ≡ false)
      × (g.start ≡ fresh deps.governor g.config.ratelimit)
      × IsListening g.config.tls g.listener
      × (g.state.fail_closed_on_parse_error ≡ g.config.policy.fail_closed_on_parse_error)
      × (g.state.audit_reads ≡ false)
      × (g.state.body_limit ≡ 1048576)

  -- A process that has started serves what its document says: the document was read from the path
  -- that the arguments choose, with its secrets resolved; the authenticator is that of its
  -- `[auth]` section; the policy, its switch for failing closed included, the upstreams and the
  -- switch for anonymous reading are its own; the switches for logging raw variables and for
  -- recording answered reads are off, and the limit of a body is 1048576 bytes; the limiters are
  -- fresh and have its budgets, and nothing was sent, recorded or counted yet; and it listens without
  -- TLS only if TLS is off, and otherwise with the certificate and the key of the document, and
  -- requires client certificates exactly if the document does.
  pub main-serves :
      (args : List String) (g : Gateway Key Limiter ServerConfig)
      → main deps process rustls env read_to_string from_str get_url json args ≡ ok g
      → IsServed args g
  unfolding main new_state
  main-serves args g h =
      let (config, loaded, h1) =
        map_err-ok loading_config (Config.load env read_to_string from_str (parse_config_path args))
          _ _ h in
      let (_, _, h2) = map_err-ok installing_recorder process.install_recorder _ _ h1 in
      let (_, _, h3) = map_err-ok building_client process.build_client _ _ h2 in
      let (auth, built, h4) =
        map_err-ok authenticator_error
          (build_authenticator deps.ct_eq deps.crate get_url json config) _ _ h3 in
      let (_, _, h5) =
        map_err-ok (binding_listener config.listen) (process.bind config.listen) _ _ h4 in
      elim (Result-cases
        (listener_of deps process rustls env read_to_string from_str get_url json config.tls)) [
          | inr (x, e) ↦ absurd (cc (rw e at h5))
          | inl (listener, e) ↦
              let made = new_state deps config auth (Proxy.new config.upstream) default_options in
              let same : record {
                config = config;
                state = made.0;
                start = made.1;
                listener = listener;
              }
                  ≡ g =
                cc (rw e at h5) in
              subst (IsServed args) same (
                loaded,
                (build_authenticator_iff deps.ct_eq deps.crate get_url json config auth).0 built,
                refl,
                refl,
                refl,
                refl,
                refl,
                listener_of-IsListening config.tls listener e,
                refl,
                refl,
                refl,
              )
        ]
