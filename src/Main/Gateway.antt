-- ===== src/Main/Gateway.antt =====
-- `main` of src/main.rs as a whole: from the arguments to the state of the server and the listener
-- that it is served on. What the network and the process-wide recorder answer are arguments.
pub mod Laws
pub mod Guarded
pub mod Budget
pub mod Secrets
use indexer_gateway_auth.Prelude.{String, Bool, Option, List}
use indexer_gateway_auth.Prelude.{Result, ok, err, ◌>>=◌, map_err, if◌then◌else◌}
use indexer_gateway_auth.Config
use indexer_gateway_auth.Config.{Config, ConfigError, Tls}
use indexer_gateway_auth.Proxy
use indexer_gateway_auth.Server.{Deps, Inner, World, default_options, new_state}
use indexer_gateway_auth.Main.{parse_config_path, build_authenticator}
use indexer_gateway_auth.Tls.{Rustls, load_server_config}

-- What `install_recorder`, the builder of the HTTP client and `bind` answer.
pub record Process : Type 0 where
  pub install_recorder : Result {0, 0} String Unit
  pub build_client : Result {0, 0} String Unit
  pub bind : String → Result {0, 0} String Unit

pub data Failure : Type 0 where
  loading_config : ConfigError → Failure
  installing_recorder building_client authenticator_error : String → Failure
  binding_listener : (listen source : String) → Failure
  loading_tls : String → Failure

pub data Listener (ServerConfig : Type 0) : Type 0 where
  plain : Listener ServerConfig
  over_tls : ServerConfig → Listener ServerConfig

pub record Gateway (Key Limiter ServerConfig : Type 0) : Type 0 where
  pub config : Config
  pub state : Inner Key
  pub start : World Limiter
  pub listener : Listener ServerConfig

module _ {Key Jwk Limiter Answer Cert PrivateKey Roots Verifier ServerConfig : Type 0}
    (deps : Deps Key Jwk Limiter) (process : Process)
    (rustls : Rustls Cert PrivateKey Roots Verifier ServerConfig) (env : String → Option String)
    (read_to_string : String → Result String String) (from_str : String → Result String Config)
    (get_url : String → Result String Answer) (json : Answer → Result String (List Jwk)) where
  -- The branch on `config.tls.enabled`.
  unfoldable pub listener_of : Tls → Result Failure (Listener ServerConfig)
  listener_of tls =
      if tls.enabled
      then (do server ← map_err loading_tls (load_server_config rustls tls); ok (over_tls server))
      else ok plain

  -- `main`, as far as the listener that it serves.
  unfoldable pub main : List String → Result Failure (Gateway Key Limiter ServerConfig)
  main args = do
    config ←
        map_err loading_config (Config.load env read_to_string from_str (parse_config_path args))
    recorder ← map_err installing_recorder process.install_recorder
    client ← map_err building_client process.build_client
    authenticator ←
        map_err authenticator_error (build_authenticator deps.ct_eq deps.crate get_url json config)
    let made = new_state deps config authenticator (Proxy.new config.upstream) default_options
    bound ← map_err (binding_listener config.listen) (process.bind config.listen)
    listener ← listener_of config.tls
    ok (record { config = config; state = made.0; start = made.1; listener = listener })
