-- ===== src/Examples/Starting.antt =====
-- The start of the process, and connections with client certificates.
use indexer_gateway_auth.Prelude.{
  ℕ, String, ◌≡◌, refl, ◌↔◌, true, Option, some, List, [], ◌∷◌, ◌==◌,
}
use indexer_gateway_auth.Prelude.{Result, ok}
use indexer_gateway_auth.Config
use indexer_gateway_auth.Config.{Config, Tls}
use indexer_gateway_auth.Auth
use indexer_gateway_auth.Auth.{Authenticator, bearer_auth, mtls_auth, authenticate, resolve}
use indexer_gateway_auth.Auth.Token
use indexer_gateway_auth.Proxy
use indexer_gateway_auth.Server.{Inner, World, default_options, new_state}
use indexer_gateway_auth.Main.{parse_config_path, build_authenticator, assemble}
use indexer_gateway_auth.Main.Gateway.{Process, Gateway, over_tls, listener_of, main}
use indexer_gateway_auth.Main.Gateway.Laws.{IsServed, main-serves}
use indexer_gateway_auth.Main.Laws.{IsBuilt, build_authenticator_iff}
use indexer_gateway_auth.Tls.{
  Rustls, load_certs, load_private_key, add_all, load_root_store, client_verifier,
  load_server_config,
}
use indexer_gateway_auth.Examples.Samples.{crate, deps, config, resolved, env}

abbrev pub get_url : String → Result String String
get_url url = ok url

abbrev pub json : String → Result String (List String)
json text = ok (text ∷ [])

build_authenticator_iff_example :
    (build_authenticator (λ a b. a == b) crate get_url json resolved
      ≡ ok (bearer_auth (Token.new resolved.auth.tokens)))
    ↔ IsBuilt
        (λ a b. a == b)
        crate
        get_url
        json
        resolved
        (bearer_auth (Token.new resolved.auth.tokens))
build_authenticator_iff_example =
    build_authenticator_iff (λ a b. a == b) crate get_url json resolved
      (bearer_auth (Token.new resolved.auth.tokens))

abbrev pub arguments : List String
arguments = "--config" ∷ "gateway.toml" ∷ []

abbrev pub read_to_string : String → Result String String
read_to_string path = ok "text"

abbrev from_str : String → Result String Config
from_str text = ok config

abbrev assembled : Inner String × World (String → ℕ)
assembled =
    new_state deps resolved (bearer_auth (Token.new resolved.auth.tokens))
      (Proxy.new resolved.upstream) default_options

config_path_chosen : parse_config_path arguments ≡ "gateway.toml"
unfolding parse_config_path
config_path_chosen = refl

assembles :
    assemble deps env read_to_string from_str get_url json arguments ≡ ok (assembled.0, assembled.1)
unfolding assemble Config.load Config.resolve_secrets Config.resolve_secret build_authenticator
    Auth.from_config
assembles = refl

-- Certificates and keys are texts, and a file holds its own name.
abbrev pub rustls : Rustls String String (List String) (List String) (Option (List String))
rustls = record {
  read = λ path. ok [];
  certs = λ b. ok ("cert" ∷ []);
  private_key = λ b. ok (some "key");
  empty = [];
  add = λ roots cert. ok (cert ∷ roots);
  protocol_versions = ok tt;
  verifier = λ roots. ok roots;
  with_single_cert = λ v found key. ok v;
}

abbrev pub tls : Tls
tls = record {
  enabled = true;
  cert = some "cert.pem";
  key = some "key.pem";
  require_client_cert = true;
  client_ca = some "ca.pem";
}

server_loads : load_server_config rustls tls ≡ ok (some ("cert" ∷ []))
unfolding load_server_config load_certs load_private_key client_verifier load_root_store add_all
server_loads = refl

abbrev pub process : Process
process = record { install_recorder = ok tt; build_client = ok tt; bind = λ listen. ok tt }

abbrev from_secured : String → Result String Config
from_secured text = ok (record config { tls = tls })

abbrev secured : Config
secured = record resolved { tls = tls }

abbrev gateway : Gateway String (String → ℕ) (Option (List String))
gateway =
    let made =
      new_state deps secured (bearer_auth (Token.new resolved.auth.tokens))
        (Proxy.new resolved.upstream) default_options in
    record {
      config = secured;
      state = made.0;
      start = made.1;
      listener = over_tls (some ("cert" ∷ []));
    }

starts :
    main deps process rustls env read_to_string from_secured get_url json arguments ≡ ok gateway
unfolding main Config.load Config.resolve_secrets Config.resolve_secret build_authenticator
    Auth.from_config listener_of load_server_config load_certs load_private_key client_verifier
    load_root_store add_all
starts = refl

main-serves_example :
    IsServed deps process rustls env read_to_string from_secured get_url json arguments gateway
main-serves_example =
    main-serves deps process rustls env read_to_string from_secured get_url json arguments gateway
      starts
